-- ===== src/TcpPipe/Receive/Exact.antt =====
-- The loop of tcp_pipe::recv for an exact number of bytes comes to an end.
use imconee.Common.{
  ℕ, zero, suc, ◌+◌, ◌<◌, ◌≤◌, ◌≡◌, ◌≢◌, ◌⊎◌, inl, inr, refl, ap, ◌∙◌, Bool, true, false, Option,
  none, some, List, ◌&&◌, ◌||◌, ltb, if◌then◌else◌, length, length-append, length-take, Bool-cases,
  arith, take,
}
use imconee.CircularBuffer.{is_full, datasize, get_free_size, get_1st_free, receive, peek}
use imconee.CircularBuffer.Bounds.{IsValid}
use imconee.CircularBuffer.Refine.{receive_refines, circular_peek_refines, length-contents}
use imconee.CircularBuffer.Space.{datasize-add-free, free-not_full}
use imconee.TcpPipe.Receive.{
  Delivery, no_data, broken, closed, delivered, Feed, Receiver, Next, again, returns, exactly,
  after_delivery, after_poll, rcv_next, rcv_loop, rcv_all, wait_read, read_out, exact_next,
  exact_loop, recv,
}
use imconee.TcpPipe.Receive.Loop.{
  IsFeed, held, Result, Result-then, Result-still, Ends, rcv_loop-Ends, after_poll-Turn, Turn,
  ok_of,
}
use imconee.TcpPipe.Receive.Serve.{
  Answered, Answered-then, read_out-Answered, Result-Answered, read_state,
}

-- In every round there is something to read, and something comes of it: bytes, an error or the end.
abbrev pub IsFlowing : Feed → Type 0
IsFlowing os = (i : ℕ) → (os.pending i ≢ some 0) × ((k : ℕ) → os.deliver i k ≢ no_data)

module _ (size : ℕ) where
  after_delivery-grows :
      (r : Receiver) (d : Delivery)
      → IsValid size r.rcvbuf
      → ((bytes : List ℕ)
          → d ≡ delivered bytes
          → (0 < length bytes) × (length bytes ≤ (get_1st_free size r.rcvbuf).1))
      → d ≢ no_data
      → ok_of size (after_delivery size r d).0 ≡ true
      → length (held size r) < length (held size (after_delivery size r d).1)
  after_delivery-grows r no_data v fits some_data ok = absurd (some_data refl)
  after_delivery-grows r broken v fits some_data ok = let bot : ⊥ = cc in absurd bot
  after_delivery-grows r closed v fits some_data ok = let bot : ⊥ = cc in absurd bot
  after_delivery-grows r (delivered bytes) v fits some_data ok =
      let (pos, le) = fits bytes refl in
      let all =
        ap (λ xs. length xs) (receive_refines size v bytes le)
        ∙ length-append (held size r) bytes in
      elim (Bool-cases (ltb (get_free_size size (receive size r.rcvbuf bytes)) 1300)) [
        | inl full ↦ rw full (omega arith)
        | inr space ↦ rw space (omega arith)
      ]

  -- With room for more, and a socket that has something, a round without an error stores a byte.
  after_poll-grows :
      (os : Feed) (r : Receiver) (p : Option ℕ)
      → IsFeed os
      → IsValid size r.rcvbuf
      → 1300 < get_free_size size r.rcvbuf
      → p ≢ some 0
      → ((k : ℕ) → os.deliver r.rounds k ≢ no_data)
      → ok_of size (after_poll size os r p).0 ≡ true
      → length (held size r) < length (held size (after_poll size os r p).1)
  after_poll-grows os r none feed v room some_p some_d ok = let bot : ⊥ = cc in absurd bot
  after_poll-grows os r (some zero) feed v room some_p some_d ok = absurd (some_p refl)
  after_poll-grows os r (some (suc rb)) feed v room some_p some_d ok =
      let span = (get_1st_free size r.rcvbuf).1 in
      let offered = if ltb span 16384 then span else 16384 in
      let go : ltb 1300 (get_free_size size r.rcvbuf) ≡ true = ground arith in
      let some_rb : ltb 0 (suc rb) ≡ true = ground arith in
      let test : ((ltb 0 (suc rb) || (r.ready_system || r.ready_pipe))
            && ltb 1300 (get_free_size size r.rcvbuf))
          ≡ true =
        rw (some_rb, go) refl in
      let d = os.deliver r.rounds offered in
      let counted = record r { rounds = r.rounds + 1 } in
      let ok : ok_of size (after_delivery size counted d).0 ≡ true = rw test at ok in
      rw test (
        after_delivery-grows counted d v
          (λ bytes e. let (pos, le) = feed r.rounds offered bytes e in (pos, ground arith))
          (some_d offered) ok)

  -- That a computation of rcv_all ends, and has put in more bytes unless it failed.
  abbrev Grows : Receiver → Option (Bool × Receiver) → Type 0
  Grows r out =
      (ok : Bool) × ((s : Receiver) × ((out ≡ some (ok, s))
          × (Result size r ok s × (ok ≡ true → length (held size r) < length (held size s)))))

  rcv_next-Grows :
      (loop : Receiver → Option (Bool × Receiver)) (r : Receiver) (t : Next × Receiver)
      → Turn size r t
      → (ok_of size t.0 ≡ true → length (held size r) < length (held size t.1))
      → (t.0 ≡ again → Ends size t.1 (loop t.1))
      → Grows r (rcv_next size loop t)
  rcv_next-Grows loop r (again, s) turn more rest =
      let (ok, (last, (e, result))) = rest refl in
      (
        ok,
        (
          last,
          (
            e,
            (
              Result-then size r s last ok turn.result result,
              λ is.
                  let all =
                    ap (λ xs. length xs) (result.kept is)
                    ∙ length-append (held size s) result.fresh in
                  let first = more refl in omega arith,
            ),
          ),
        ),
      )
  rcv_next-Grows loop r (returns ok, s) turn more rest = (ok, (s, (refl, (turn.result, more))))

  rcv_all-Grows :
      (os : Feed) (r : Receiver)
      → IsFeed os
      → IsFlowing os
      → IsValid size r.rcvbuf
      → 1300 < get_free_size size r.rcvbuf
      → Grows r (rcv_all size os r)
  rcv_all-Grows os r feed flowing v room =
      let not_full : is_full size r.rcvbuf ≡ false = free-not_full size v 1300 room in
      let t = after_poll size os r (os.pending r.rounds) in
      let turn = after_poll-Turn size os r (os.pending r.rounds) feed v in
      rw not_full (
        rcv_next-Grows (λ s. rcv_loop size size os s) r t turn
          (after_poll-grows os r (os.pending r.rounds) feed v room (flowing r.rounds).0
            (flowing r.rounds).1)
          (λ e.
            let fewer = turn.shrinks e in
            let sum = datasize-add-free size v in
            let within : get_free_size size r.rcvbuf ≤ size = ground arith in
            rcv_loop-Ends size size os t.1 feed turn.result.valid (omega arith)))

  -- That a computation of the loop ends, with as many bytes as it was to read unless it failed.
  abbrev pub Reads : ℕ → Receiver → Option (Option (List ℕ) × Receiver) → Type 0
  Reads n r got =
      (out : Option (List ℕ)) × ((s : Receiver) × ((got ≡ some (out, s))
          × (Answered size r n out s
              × ((out ≡ none) ⊎ ((bytes : List ℕ) × ((out ≡ some bytes) × (length bytes ≡ n)))))))

  read_out-Reads :
      (n : ℕ) (r : Receiver)
      → IsValid size r.rcvbuf
      → n ≤ datasize size r.rcvbuf
      → Reads n r (read_out size n r)
  read_out-Reads n r v enough =
      let bytes = (peek size r.rcvbuf n).0 in
      let all = length-contents size v in
      let count : length bytes ≡ length (take n (held size r)) =
        ap (λ xs. length xs) (circular_peek_refines size v n).0 in
      (
        some bytes,
        (
          read_state size n r,
          (
            refl,
            (
              read_out-Answered size n r v,
              inr (bytes, (refl, ground (arith, length-take n (held size r)))),
            ),
          ),
        ),
      )

  Reads-then :
      (n : ℕ) (r s : Receiver) (got : Option (Option (List ℕ) × Receiver))
      → Result size r true s
      → Reads n s got
      → Reads n r got
  Reads-then n r s got first (out, (last, (e, (answered, exact)))) =
      (out, (last, (e, (Answered-then size r s last n out first answered, exact))))

  exact_next-Reads :
      (loop : Receiver → Option (Option (List ℕ) × Receiver)) (n : ℕ) (os : Feed) (r : Receiver)
      (got : Option (Bool × Receiver))
      → Grows r got
      → ((s : Receiver)
          → IsValid size s.rcvbuf
          → length (held size r) < length (held size s)
          → Reads n s (loop s))
      → Reads n r (exact_next size loop n os got)
  exact_next-Reads loop n os r got (false, (s, (e, (result, more)))) rest =
      rw e (none, (s, (refl, (Result-Answered size r s n result, inl refl))))
  exact_next-Reads loop n os r got (true, (s, (e, (result, more)))) rest =
      rw e (elim (Bool-cases (ltb (datasize size s.rcvbuf) n)) [
        | inl few ↦
            let waited = wait_read size os s in
            let same = Result-still size s waited result.valid refl refl in
            rw few (
              Reads-then n r s (loop waited) result
                (Reads-then n s waited (loop waited) same (rest waited result.valid (more refl))))
        | inr enough ↦ rw enough (
            Reads-then n r s (read_out size n s) result
              (read_out-Reads n s result.valid (ground arith)))
      ])

  exact_loop-Reads :
      (fuel n : ℕ) (os : Feed) (r : Receiver)
      → IsFeed os
      → IsFlowing os
      → IsValid size r.rcvbuf
      → n + 1301 ≤ size
      → 0 < fuel
      → n < fuel + length (held size r)
      → Reads n r (exact_loop size fuel n os r)
  exact_loop-Reads zero n os r feed flowing v fits pos lt = absurd (omega arith)
  exact_loop-Reads (suc fuel) n os r feed flowing v fits pos lt =
      let count = length-contents size v in
      let sum = datasize-add-free size v in
      elim (Bool-cases (ltb (datasize size r.rcvbuf) n)) [
        | inl few ↦
            let less : datasize size r.rcvbuf < n = ground arith in
            let room : 1300 < get_free_size size r.rcvbuf = ground arith in
            rw few (
              exact_next-Reads (λ s. exact_loop size fuel n os s) n os r (rcv_all size os r)
                (rcv_all-Grows os r feed flowing v room)
                (λ s valid more.
                  exact_loop-Reads fuel n os s feed flowing valid fits (omega arith) (omega arith)))
        | inr enough ↦ rw enough (read_out-Reads n r v (ground arith))
      ]

  -- When every round of the socket has something, a call of recv for exactly `n` bytes, where a buffer
  -- of `size` has more than 1300 bytes besides, returns after at most `n` waits: with the first `n` of
  -- the bytes held and of those that come, the others held in order; or with -1, and then the socket
  -- is closed and the bytes that were held are dropped.
  pub recv-exactly :
      (n : ℕ) (os : Feed) (r : Receiver)
      → IsFeed os
      → IsFlowing os
      → IsValid size r.rcvbuf
      → n + 1301 ≤ size
      → Reads n r (recv size (suc n) os (exactly n) r)
  recv-exactly n os r feed flowing v fits =
      exact_loop-Reads (suc n) n os r feed flowing v fits (omega arith) (omega arith)
