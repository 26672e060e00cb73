-- ===== src/TcpPipe/Receive/Tests.antt =====
-- A receive buffer of 1400 bytes, and a socket that delivers three bytes at a time: tcp_pipe::recv of
-- source/imconee/netkit.cpp on concrete bytes.
use imconee.Common.{
  ℕ, ◌≡◌, refl, ap, true, false, Option, some, none, List, [], ◌∷◌, length, replicate,
  length-replicate, arith, ltb, Bool-cases, inl, inr, if◌then◌else◌,
}
use imconee.CircularBuffer.{
  get_free_size, get_1st_free, datasize, peek, clear, receive, confirm, is_full, peek_block,
  peek_wrapped, clear_if_empty,
}
use imconee.CircularBuffer.Bounds.{IsValid}
use imconee.TcpPipe.Receive.{
  no_data, closed, delivered, Feed, Receiver, exactly, at_most, wait_read, recv,
}
use imconee.TcpPipe.Receive.Loop.{IsFeed}
use imconee.TcpPipe.Receive.Serve.{Answers, recv-at_most}
use imconee.TcpPipe.Receive.Exact.{IsFlowing, Reads, recv-exactly}

abbrev zeros : List ℕ
zeros = replicate 1400 0

abbrev nothing_yet : Receiver
nothing_yet = record {
  rcvbuf = record { mem = zeros; start = 0; end = 0 };
  ready_system = false;
  ready_pipe = false;
  is_open = true;
  rounds = 0;
  given = [];
}

-- Three bytes in every round, where the span has room for them.
abbrev three : Feed
three = record {
  pending = λ i. some 3;
  deliver = λ i k. if ltb k 3 then closed else delivered (7 ∷ 8 ∷ 9 ∷ []);
  woken = λ i. true;
}

-- Three bytes, and then the peer closes.
abbrev ending : Feed
ending = record {
  pending = λ i. if ltb 0 i then some 0 else some 3;
  deliver = λ i k. if ltb 0 i then closed else delivered (7 ∷ 8 ∷ 9 ∷ []);
  woken = λ i. true;
}

three-IsFeed : IsFeed three
three-IsFeed i k bytes e = elim (Bool-cases (ltb k 3)) [
  | inl small ↦ let e : closed ≡ delivered bytes = rw small at e in let bot : ⊥ = cc in absurd bot
  | inr room ↦
      let e : delivered (7 ∷ 8 ∷ 9 ∷ []) ≡ delivered bytes = rw room at e in
      let same : 7 ∷ 8 ∷ 9 ∷ [] ≡ bytes = cc in
      let count : 3 ≡ length bytes = ap (λ xs. length xs) same in (omega arith, ground arith)
]

three-IsFlowing : IsFlowing three
three-IsFlowing i = (
  (λ e. let bot : ⊥ = cc in absurd bot),
  λ k e. elim (Bool-cases (ltb k 3)) [
    | inl small ↦ let e : closed ≡ no_data = rw small at e in let bot : ⊥ = cc in absurd bot
    | inr room ↦
        let e : delivered (7 ∷ 8 ∷ 9 ∷ []) ≡ no_data = rw room at e in
        let bot : ⊥ = cc in absurd bot
  ],
)

nothing_yet-IsValid : IsValid 1400 nothing_yet.rcvbuf
nothing_yet-IsValid = record {
  room = let e = length-replicate {A = ℕ} 1400 0 in omega arith;
  end_in = omega arith;
  start_in = omega arith;
}

abbrev bytes_of : Option (Option (List ℕ) × Receiver) → Option (List ℕ)
bytes_of none = none
bytes_of (some (out, r)) = out

abbrev state_of : Option (Option (List ℕ) × Receiver) → Receiver
state_of none = nothing_yet
state_of (some (out, r)) = r

-- After two of the three bytes are read, and the waiter has found the end of the stream, the third is
-- held, and the next call loses it.
abbrev one_held : Receiver
one_held = wait_read 1400 ending (state_of (recv 1400 3 ending (exactly 2) nothing_yet))

one_byte : datasize 1400 one_held.rcvbuf ≡ 1
unfolding get_free_size get_1st_free datasize receive confirm is_full peek peek_block peek_wrapped
    clear_if_empty
one_byte = refl

lost_at_close : bytes_of (recv 1400 1 ending (at_most 5) one_held) ≡ none
unfolding get_free_size get_1st_free datasize receive confirm is_full peek peek_block peek_wrapped
    clear_if_empty clear
lost_at_close = refl

five_bytes : bytes_of (recv 1400 6 three (exactly 5) nothing_yet) ≡ some (7 ∷ 8 ∷ 9 ∷ 7 ∷ 8 ∷ [])
unfolding get_free_size get_1st_free datasize receive confirm is_full peek peek_block peek_wrapped
    clear_if_empty clear
five_bytes = refl

recv-at_most_example : Answers 1400 5 nothing_yet (recv 1400 1 three (at_most 5) nothing_yet)
recv-at_most_example = recv-at_most 1400 1 5 three nothing_yet three-IsFeed nothing_yet-IsValid

recv-exactly_example : Reads 1400 5 nothing_yet (recv 1400 6 three (exactly 5) nothing_yet)
recv-exactly_example =
    recv-exactly 1400 5 three nothing_yet three-IsFeed three-IsFlowing nothing_yet-IsValid
      (omega arith)
