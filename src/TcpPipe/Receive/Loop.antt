-- ===== src/TcpPipe/Receive/Loop.antt =====
-- What the loop of tcp_pipe::rcv_all leaves in the receive buffer.
use imconee.Common.{
  ℕ, zero, suc, ◌+◌, ◌<◌, ◌≤◌, ◌≡◌, inl, inr, refl, sym, ap, ◌∙◌, Bool, true, false, Option, none,
  some, List, [], ◌++◌, ◌&&◌, ◌||◌, ltb, if◌then◌else◌, length, append_assoc, append-nil,
  Bool-cases, arith,
}
use imconee.CircularBuffer.{CircularBuffer, is_full, get_free_size, get_1st_free, clear}
use imconee.CircularBuffer.Bounds.{IsValid, receive-IsValid}
use imconee.CircularBuffer.Refine.{contents, receive_refines}
use imconee.CircularBuffer.Space.{get_free_size-receive, datasize-add-free}
use imconee.TcpPipe.Receive.{
  Delivery, no_data, broken, closed, delivered, Feed, Receiver, Next, again, returns,
  close_receiver, store_delivery, after_delivery, after_poll, rcv_next, rcv_loop, rcv_all,
}

-- The system stores no more bytes than the span has, and 0 of them means that the peer has closed.
abbrev pub IsFeed : Feed → Type 0
IsFeed os =
    (i k : ℕ) (bytes : List ℕ)
    → os.deliver i k ≡ delivered bytes
    → (0 < length bytes) × (length bytes ≤ k)

module _ (size : ℕ) where
  abbrev pub held : Receiver → List ℕ
  held r = contents size r.rcvbuf

  -- A call that ends with `ok` in `s`, from `r`: bytes that came are behind those held, and all are
  -- dropped when the pipe is closed.
  pub record Result (r : Receiver) (ok : Bool) (s : Receiver) : Type 0 where
    pub fresh : List ℕ
    pub came : s.given ≡ r.given ++ fresh
    pub kept : ok ≡ true → held s ≡ held r ++ fresh
    pub lost : ok ≡ false → (held s ≡ []) × (s.is_open ≡ false)
    pub valid : IsValid size s.rcvbuf

  clear-IsValid : {b : CircularBuffer} → IsValid size b → IsValid size (clear size b)
  unfolding clear
  clear-IsValid v = record {
    room = v.room;
    end_in = ground arith;
    start_in = let h = v.start_in in omega arith;
  }

  clear-nil : (b : CircularBuffer) → contents size (clear size b) ≡ []
  unfolding clear
  clear-nil b = refl

  pub Result-still :
      (r s : Receiver)
      → IsValid size r.rcvbuf
      → s.given ≡ r.given
      → s.rcvbuf ≡ r.rcvbuf
      → Result r true s
  Result-still r s v g e = record {
    fresh = [];
    came = g ∙ sym (append-nil r.given);
    kept = λ ok. ap (λ b. contents size b) e ∙ sym (append-nil (held r));
    lost = λ ok. let bot : ⊥ = cc in absurd bot;
    valid = rw e v;
  }

  Result-closed :
      (r s : Receiver)
      → IsValid size r.rcvbuf
      → s.given ≡ r.given
      → s.rcvbuf ≡ clear size r.rcvbuf
      → s.is_open ≡ false
      → Result r false s
  Result-closed r s v g e shut = record {
    fresh = [];
    came = g ∙ sym (append-nil r.given);
    kept = λ ok. let bot : ⊥ = cc in absurd bot;
    lost = λ ok. (ap (λ b. contents size b) e ∙ clear-nil r.rcvbuf, shut);
    valid = rw e (clear-IsValid v);
  }

  pub Result-then : (r s t : Receiver) (ok : Bool) → Result r true s → Result s ok t → Result r ok t
  Result-then r s t ok first second = record {
    fresh = first.fresh ++ second.fresh;
    came =
        second.came
        ∙ ap (λ g. g ++ second.fresh) first.came
        ∙ append_assoc r.given first.fresh second.fresh;
    kept = λ e.
        second.kept e
        ∙ ap (λ g. g ++ second.fresh) (first.kept refl)
        ∙ append_assoc (held r) first.fresh second.fresh;
    lost = second.lost;
    valid = second.valid;
  }

  abbrev pub ok_of : Next → Bool
  ok_of again = true
  ok_of (returns ok) = ok

  -- A round; one that ends with `continue` has used up free space.
  pub record Turn (r : Receiver) (t : Next × Receiver) : Type 0 where
    pub result : Result r (ok_of t.0) t.1
    pub shrinks : t.0 ≡ again → get_free_size size t.1.rcvbuf < get_free_size size r.rcvbuf

  stored-Result :
      (r : Receiver) (bytes : List ℕ)
      → IsValid size r.rcvbuf
      → length bytes ≤ (get_1st_free size r.rcvbuf).1
      → Result r true (store_delivery size r bytes)
  stored-Result r bytes v fits = record {
    fresh = bytes;
    came = refl;
    kept = λ ok. receive_refines size v bytes fits;
    lost = λ ok. let bot : ⊥ = cc in absurd bot;
    valid = receive-IsValid size v bytes fits;
  }

  returns-Turn : (r s : Receiver) (ok : Bool) → Result r ok s → Turn r (returns ok, s)
  returns-Turn r s ok e = record { result = e; shrinks = λ a. let bot : ⊥ = cc in absurd bot }

  after_delivery-Turn :
      (r : Receiver) (d : Delivery)
      → IsValid size r.rcvbuf
      → ((bytes : List ℕ)
          → d ≡ delivered bytes
          → (0 < length bytes) × (length bytes ≤ (get_1st_free size r.rcvbuf).1))
      → Turn r (after_delivery size r d)
  after_delivery-Turn r no_data v fits = returns-Turn r r true (Result-still r r v refl refl)
  after_delivery-Turn r broken v fits =
      returns-Turn r (close_receiver size r) false
        (Result-closed r (close_receiver size r) v refl refl refl)
  after_delivery-Turn r closed v fits =
      returns-Turn r (close_receiver size r) false
        (Result-closed r (close_receiver size r) v refl refl refl)
  after_delivery-Turn r (delivered bytes) v fits =
      let (some_byte, le) = fits bytes refl in
      let stored = store_delivery size r bytes in
      let result = stored-Result r bytes v le in
      elim (Bool-cases (ltb (get_free_size size stored.rcvbuf) 1300)) [
        | inl full ↦ rw full (returns-Turn r stored true result)
        | inr space ↦ rw space (record {
          result = result;
          shrinks = λ a. let used = get_free_size-receive size v bytes le in omega arith;
        })
      ]

  abbrev next_round : Receiver → Receiver
  next_round r = record r { rounds = r.rounds + 1 }

  next_round-Turn :
      (r : Receiver) (t : Next × Receiver)
      → IsValid size r.rcvbuf
      → Turn (next_round r) t
      → Turn r t
  next_round-Turn r t v turn = record {
    result =
        Result-then r (next_round r) t.1 (ok_of t.0) (Result-still r (next_round r) v refl refl)
          turn.result;
    shrinks = turn.shrinks;
  }

  pub after_poll-Turn :
      (os : Feed) (r : Receiver) (p : Option ℕ)
      → IsFeed os
      → IsValid size r.rcvbuf
      → Turn r (after_poll size os r p)
  after_poll-Turn os r none feed v =
      let closing = close_receiver size (next_round r) in
      returns-Turn r closing false (Result-closed r closing v refl refl refl)
  after_poll-Turn os r (some rb) feed v =
      let span = (get_1st_free size r.rcvbuf).1 in
      elim (Bool-cases (
        (ltb 0 rb || (r.ready_system || r.ready_pipe)) && ltb 1300 (get_free_size size r.rcvbuf))) [
          | inl go ↦ rw go (
              next_round-Turn r
                (after_delivery size (next_round r)
                  (os.deliver r.rounds (if ltb span 16384 then span else 16384)))
                v
                (after_delivery-Turn (next_round r)
                  (os.deliver r.rounds (if ltb span 16384 then span else 16384)) v
                  (λ bytes e.
                    let (some_byte, le) =
                      feed r.rounds (if ltb span 16384 then span else 16384) bytes e in
                    (some_byte, ground arith))))
          | inr stop ↦
              rw stop
                (returns-Turn r (next_round r) true (Result-still r (next_round r) v refl refl))
        ]

  -- That a computation of rcv_all ends, and how.
  abbrev pub Ends : Receiver → Option (Bool × Receiver) → Type 0
  Ends r out = (ok : Bool) × ((s : Receiver) × ((out ≡ some (ok, s)) × Result r ok s))

  rcv_next-Ends :
      (loop : Receiver → Option (Bool × Receiver)) (r : Receiver) (t : Next × Receiver)
      → Turn r t
      → (t.0 ≡ again → Ends t.1 (loop t.1))
      → Ends r (rcv_next size loop t)
  rcv_next-Ends loop r (again, s) turn rest =
      let (ok, (last, (e, result))) = rest refl in
      (ok, (last, (e, Result-then r s last ok turn.result result)))
  rcv_next-Ends loop r (returns ok, s) turn rest = (ok, (s, (refl, turn.result)))

  pub rcv_loop-Ends :
      (fuel : ℕ) (os : Feed) (r : Receiver)
      → IsFeed os
      → IsValid size r.rcvbuf
      → get_free_size size r.rcvbuf < fuel
      → Ends r (rcv_loop size fuel os r)
  rcv_loop-Ends zero os r feed v lt = absurd (omega arith)
  rcv_loop-Ends (suc fuel) os r feed v lt =
      let turn = after_poll-Turn os r (os.pending r.rounds) feed v in
      rcv_next-Ends (λ s. rcv_loop size fuel os s) r (after_poll size os r (os.pending r.rounds))
        turn
        (λ e.
          let fewer = turn.shrinks e in
          rcv_loop-Ends fuel os (after_poll size os r (os.pending r.rounds)).1 feed
            turn.result.valid (omega arith))

  -- From a valid buffer rcv_all always returns, and either the bytes that the socket delivered to it
  -- stand behind those that were held, or it returns false, the socket is closed, and nothing is held.
  pub rcv_all-Ends :
      (os : Feed) (r : Receiver) → IsFeed os → IsValid size r.rcvbuf → Ends r (rcv_all size os r)
  rcv_all-Ends os r feed v = elim (Bool-cases (is_full size r.rcvbuf)) [
    | inl full ↦ rw full (true, (r, (refl, Result-still r r v refl refl)))
    | inr room ↦
        rw room (
          rcv_loop-Ends (suc size) os r feed v (let sum = datasize-add-free size v in ground arith))
  ]
