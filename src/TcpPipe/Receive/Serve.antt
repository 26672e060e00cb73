-- ===== src/TcpPipe/Receive/Serve.antt =====
-- What tcp_pipe::recv returns, and what it leaves.
use imconee.Common.{
  zero, suc, ◌∷◌, length, arith, ℕ, ◌≡◌, ◌⊎◌, inl, inr, refl, sym, ap, ◌∙◌, Bool, true, false,
  Option, none, some, List, [], ◌++◌, ltb, append_assoc, append-nil, Bool-cases, take, drop,
}
use imconee.CircularBuffer.{datasize, peek}
use imconee.CircularBuffer.Bounds.{IsValid, peek-IsValid}
use imconee.CircularBuffer.Refine.{circular_peek_refines, length-contents}
use imconee.TcpPipe.Receive.{give_out, Feed, Receiver, at_most, rcv_all, at_most_next, recv}
use imconee.TcpPipe.Receive.Loop.{IsFeed, held, Result, Ends, rcv_all-Ends}

abbrev no_byte : List ℕ
no_byte = []

module _ (size : ℕ) where
  -- A call for `n` bytes that returns `out` in `s`: the bytes are the first of those held and of those
  -- that came meanwhile, and the others are held; after a failure the socket is closed, and nothing
  -- is held.
  pub record Answered (r : Receiver) (n : ℕ) (out : Option (List ℕ)) (s : Receiver) : Type 0 where
    pub fresh : List ℕ
    pub came : s.given ≡ r.given ++ fresh
    pub outcome :
        ((bytes : List ℕ) × ((out ≡ some bytes)
            × ((bytes ≡ take n (held size r ++ fresh))
                × (held size s ≡ drop n (held size r ++ fresh)))))
        ⊎ ((out ≡ none) × ((held size s ≡ []) × (s.is_open ≡ false)))
    pub valid : IsValid size s.rcvbuf

  -- A call that was preceded by a successful rcv_all.
  pub Answered-then :
      (r s t : Receiver) (n : ℕ) (out : Option (List ℕ))
      → Result size r true s
      → Answered s n out t
      → Answered r n out t
  Answered-then r s t n out first second = record {
    fresh = first.fresh ++ second.fresh;
    came =
        second.came
        ∙ ap (λ g. g ++ second.fresh) first.came
        ∙ append_assoc r.given first.fresh second.fresh;
    outcome =
        let all : held size s ++ second.fresh ≡ held size r ++ (first.fresh ++ second.fresh) =
          ap (λ g. g ++ second.fresh) (first.kept refl)
          ∙ append_assoc (held size r) first.fresh second.fresh in
        elim second.outcome [
          | inl (bytes, (e, (a, b))) ↦
              inl (bytes, (e, (a ∙ ap (λ g. take n g) all, b ∙ ap (λ g. drop n g) all)))
          | inr failed ↦ inr failed
        ];
    valid = second.valid;
  }

  abbrev pub read_state : ℕ → Receiver → Receiver
  read_state n r = record r { rcvbuf = (peek size r.rcvbuf n).1 }

  pub read_out-Answered :
      (n : ℕ) (r : Receiver)
      → IsValid size r.rcvbuf
      → Answered r n (some (peek size r.rcvbuf n).0) (read_state n r)
  read_out-Answered n r v = record {
    fresh = [];
    came = sym (append-nil r.given);
    outcome =
        let (a, b) = circular_peek_refines size v n in
        let all = sym (append-nil (held size r)) in
        inl (
          (peek size r.rcvbuf n).0,
          (refl, (a ∙ ap (λ g. take n g) all, b ∙ ap (λ g. drop n g) all)),
        );
    valid = peek-IsValid size v n;
  }

  pub Result-Answered : (r s : Receiver) (n : ℕ) → Result size r false s → Answered r n none s
  Result-Answered r s n result = record {
    fresh = result.fresh;
    came = result.came;
    outcome = inr (refl, result.lost refl);
    valid = result.valid;
  }

  -- That a computation of recv ends, and how.
  abbrev pub Answers : ℕ → Receiver → Option (Option (List ℕ) × Receiver) → Type 0
  Answers n r got =
      (out : Option (List ℕ)) × ((s : Receiver) × ((got ≡ some (out, s)) × Answered r n out s))

  no_bytes : (xs : List ℕ) → length xs ≡ 0 → xs ≡ []
  no_bytes [] e = refl
  no_bytes (x ∷ xs) e = absurd (omega arith)

  none_held :
      (r : Receiver)
      → IsValid size r.rcvbuf
      → ltb 0 (datasize size r.rcvbuf) ≡ false
      → held size r ≡ []
  none_held r v e = no_bytes (held size r) (let count = length-contents size v in ground arith)

  take-none : (n : ℕ) → take n (no_byte ++ no_byte) ≡ no_byte
  take-none zero = refl
  take-none (suc n) = refl

  drop-none : (n : ℕ) → drop n (no_byte ++ no_byte) ≡ no_byte
  drop-none zero = refl
  drop-none (suc n) = refl

  nothing-Answered :
      (n : ℕ) (r : Receiver) → IsValid size r.rcvbuf → held size r ≡ [] → Answered r n (some []) r
  nothing-Answered n r v empty = record {
    fresh = [];
    came = sym (append-nil r.given);
    outcome = inl (
      [],
      (
        refl,
        (
          sym (take-none n) ∙ ap (λ g. take n (g ++ [])) (sym empty),
          empty ∙ sym (drop-none n) ∙ ap (λ g. drop n (g ++ [])) (sym empty),
        ),
      ),
    );
    valid = v;
  }

  give_out-Answers :
      (n : ℕ) (r : Receiver) → IsValid size r.rcvbuf → Answers n r (give_out size n r)
  give_out-Answers n r v = elim (Bool-cases (ltb 0 (datasize size r.rcvbuf))) [
    | inl some_held ↦
        rw some_held
          (some (peek size r.rcvbuf n).0, (read_state n r, (refl, read_out-Answered n r v)))
    | inr nothing ↦
        rw nothing (some [], (r, (refl, nothing-Answered n r v (none_held r v nothing))))
  ]

  at_most_next-Answers :
      (n : ℕ) (r : Receiver) (got : Option (Bool × Receiver))
      → Ends size r got
      → Answers n r (at_most_next size n got)
  at_most_next-Answers n r got (true, (s, (e, result))) =
      let (out, (t, (is, answered))) = give_out-Answers n s result.valid in
      rw e (out, (t, (is, Answered-then r s t n out result answered)))
  at_most_next-Answers n r got (false, (s, (e, result))) =
      rw e (none, (s, (refl, Result-Answered r s n result)))

  -- A call of recv for at most `n` bytes always returns, whatever the socket does: with the first `n`
  -- of the bytes held and of those that come, or all where they are fewer, the others held in order;
  -- or with -1, and then the socket is closed and the bytes that were held are dropped.
  pub recv-at_most :
      (fuel n : ℕ) (os : Feed) (r : Receiver)
      → IsFeed os
      → IsValid size r.rcvbuf
      → Answers n r (recv size fuel os (at_most n) r)
  recv-at_most fuel n os r feed v = elim (Bool-cases (ltb (datasize size r.rcvbuf) n)) [
    | inl few ↦
        rw few (at_most_next-Answers n r (rcv_all size os r) (rcv_all-Ends size os r feed v))
    | inr enough ↦ rw enough (give_out-Answers n r v)
  ]
