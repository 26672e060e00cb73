-- ===== src/Cipher/Stream/Loop.antt =====
-- The loop of aead_cryptor::decipher over the bytes in view, on the chunks of a stream.
use imconee.Common.{
  ℕ, zero, suc, ◌+◌, ◌-◌, ◌≤◌, ◌<◌, ◌≡◌, refl, sym, ap, ◌∙◌, ◌⊎◌, inl, inr, false, List, [], ◌∷◌,
  ◌++◌, ltb, ltb→ge, ge→ltb, ◌==◌, length, drop, arith, All, length-drop, length-append, Bool-cases,
  append_assoc, append-nil,
}
use imconee.Cipher.Nonce.{nonce_increment}
use imconee.Cipher.Mode.{AeadPair}
use imconee.Cipher.Filter.{flatten}
use imconee.Cipher.Frames.{IsPayload, frame, frames, nonce_behind}
use imconee.Cipher.Decipher.{Outcome, returned, Pass, decrypt, decrypt_loop, settle, size_of}
use imconee.Cipher.Stream.Chunk.{Awaits, Step, waits, reads, decrypt-Step, length-frame, next_bytes}

module _ (c : AeadPair) where
  -- The state before the chunks `ps`.
  abbrev pub AwaitsAll : List ℕ → ℕ → List ℕ → List (List ℕ) → List ℕ → ℕ → Type 0
  AwaitsAll V from n [] iv pending = (pending ≡ 0) × (iv ≡ n)
  AwaitsAll V from n (p ∷ ps) iv pending = Awaits c V from n p iv pending

  -- No whole chunk is left behind `from`.
  abbrev pub Stuck : List ℕ → ℕ → List ℕ → List (List ℕ) → Type 0
  Stuck V from n [] = Unit
  Stuck V from n (p ∷ ps) = length V - from < length (frame c n p)

  -- What the loop leaves: it has read the payloads `done`, and the chunks `left` are not whole yet.
  pub record Run (V rest n : List ℕ) (ps : List (List ℕ)) (from decr : ℕ) (plain : List ℕ)
      (r : Outcome × ℕ × Pass) : Type 0 where
    pub done : List (List ℕ)
    pub left : List (List ℕ)
    pub last : Pass
    pub whole : done ++ left ≡ ps
    pub result : r ≡ (returned 0, decr + length (flatten done), last)
    pub plain_is : last.plain ≡ plain ++ flatten done
    pub behind : drop last.from V ++ rest ≡ frames c (nonce_behind n done) left
    pub awaits : AwaitsAll V last.from (nonce_behind n done) left last.iv last.pending
    pub stuck : Stuck V last.from (nonce_behind n done) left
    pub in_view : last.from ≤ length V
    pub moved : ((done ≡ []) × (last.from ≡ from)) ⊎ ((0 < last.from) × (0 < length (flatten done)))

  module _ (V rest : List ℕ) where
    -- Nothing is read.
    nothing :
        (n : List ℕ) (ps : List (List ℕ)) (decr : ℕ) (s : Pass)
        → AwaitsAll V s.from n ps s.iv s.pending
        → Stuck V s.from n ps
        → s.from ≤ length V
        → drop s.from V ++ rest ≡ frames c n ps
        → Run V rest n ps s.from decr s.plain (returned 0, decr, s)
    nothing n ps decr s a k h e = record {
      done = [];
      left = ps;
      last = s;
      whole = refl;
      result = ap (λ (d : ℕ). (returned 0, d, s)) (omega arith);
      plain_is = sym (append-nil s.plain);
      behind = e;
      awaits = a;
      stuck = k;
      in_view = h;
      moved = inl (refl, refl);
    }

    -- A payload, and what is read behind it.
    one_more :
        (n p : List ℕ) (ps : List (List ℕ)) (from next decr : ℕ) (plain : List ℕ)
        (r : Outcome × ℕ × Pass)
        → 0 < length p
        → 0 < next
        → Run V rest (nonce_increment (nonce_increment n)) ps next (decr + length p) (plain ++ p) r
        → Run V rest n (p ∷ ps) from decr plain r
    one_more n p ps from next decr plain r pos npos w = record {
      done = p ∷ w.done;
      left = w.left;
      last = w.last;
      whole = ap (λ t. p ∷ t) w.whole;
      result =
          w.result
          ∙ ap (λ (d : ℕ). (returned 0, d, w.last))
              (omega (arith, length-append p (flatten w.done)));
      plain_is = w.plain_is ∙ append_assoc plain p (flatten w.done);
      behind = w.behind;
      awaits = w.awaits;
      stuck = w.stuck;
      in_view = w.in_view;
      moved =
          inr (ground (arith, w.moved, npos), omega (arith, length-append p (flatten w.done), pos));
    }

    end-Stuck : (n : List ℕ) (ps : List (List ℕ)) (from : ℕ) → length V ≤ from → Stuck V from n ps
    end-Stuck n [] from h = tt
    end-Stuck n (p ∷ ps) from h = omega (arith, length-frame c n p, h)

    nothing_left : (n : List ℕ) (from : ℕ) → drop from V ++ rest ≡ [] → length V ≤ from
    nothing_left n from e =
        omega (arith, ap length e, length-append (drop from V) rest, length-drop from V)

    fresh : (from : ℕ) (n : List ℕ) (ps : List (List ℕ)) → AwaitsAll V from n ps n 0
    fresh from n [] = (refl, refl)
    fresh from n (p ∷ ps) = inl (refl, refl)

    -- The end of a round, where the rest of the loop is known.
    after-Run :
        (fuel : ℕ) (n p : List ℕ) (ps : List (List ℕ)) (decr : ℕ) (s : Pass)
        → length V - s.from < suc fuel
        → All IsPayload (p ∷ ps)
        → AwaitsAll V s.from n (p ∷ ps) s.iv s.pending
        → s.from ≤ length V
        → drop s.from V ++ rest ≡ frames c n (p ∷ ps)
        → (let nn = nonce_increment (nonce_increment n) in
            (q : Pass)
            → length V - q.from < fuel
            → All IsPayload ps
            → AwaitsAll V q.from nn ps q.iv q.pending
            → (q.from ≡ 0) ⊎ (q.pending ≡ 0)
            → q.from ≤ length V
            → drop q.from V ++ rest ≡ frames c nn ps
            → Run V rest nn ps q.from
                (decr + length p)
                q.plain
                (decrypt_loop c.dec fuel V (decr + length p) q))
        → (r : Outcome × Pass) → Step c V n p s.from s.plain r
        → Run V rest n (p ∷ ps) s.from decr s.plain (
            settle decr r
              (decrypt_loop c.dec fuel V (decr + size_of r.0) (record (r.1) { pending = 0 })))
    unfolding settle size_of
    after-Run fuel n p ps decr s f v a h e ih r (waits iv pending b k) =
        nothing n (p ∷ ps) decr
          (record { iv = iv; pending = pending; from = s.from; plain = s.plain }) b k h e
    after-Run fuel n p ps decr s f v a h e ih r (reads iv next out i at inside o) =
        let nn = nonce_increment (nonce_increment n) in
        let size = length-frame c n p in
        let b =
          next_bytes V rest (frame c n p) (frames c nn ps) s.from e
            (omega (arith, at, inside, size)) in
        let behind = ap (λ (k : ℕ). drop k V ++ rest) at ∙ b.1 in
        let full : (length p == 0) ≡ false = ground (arith, v.0.0) in
        let q : Pass = record { iv = nn; pending = 0; from = next; plain = s.plain ++ p } in
        rw (full, i, o)
          (one_more n p ps s.from next decr s.plain _ v.0.0 (omega (arith, at, size)) (
            ih q (omega (arith, f, at, size, inside)) v.1 (fresh next nn ps) (inr refl) inside
              behind))

    pub decrypt_loop-Run :
        (fuel : ℕ) (n : List ℕ) (ps : List (List ℕ)) (decr : ℕ) (s : Pass)
        → length V - s.from < fuel
        → All IsPayload ps
        → AwaitsAll V s.from n ps s.iv s.pending
        → (s.from ≡ 0) ⊎ (s.pending ≡ 0)
        → s.from ≤ length V
        → drop s.from V ++ rest ≡ frames c n ps
        → Run V rest n ps s.from decr s.plain (decrypt_loop c.dec fuel V decr s)
    unfolding decrypt_loop settle size_of
    decrypt_loop-Run zero n ps decr s f v a st h e = absurd (omega (arith, f))
    decrypt_loop-Run (suc fuel) n [] decr s f v a st h e =
        let at_end = ge→ltb s.from (length V) (nothing_left n s.from e) in
        rw (decrypt_loop, at_end) (nothing n [] decr s a tt h e)
    decrypt_loop-Run (suc fuel) n (p ∷ ps) decr s f v a st h e =
        elim (Bool-cases (ltb s.from (length V))) [
          | inr at_end ↦ rw at_end (
              nothing n (p ∷ ps) decr s a
                (end-Stuck n (p ∷ ps) s.from (ltb→ge s.from (length V) at_end)) h e)
          | inl more ↦ rw more (
              after-Run fuel n p ps decr s f v a h e
                (λ q.
                  decrypt_loop-Run fuel (nonce_increment (nonce_increment n)) ps (decr + length p)
                    q)
                (decrypt c.dec V s)
                (decrypt-Step c V rest n p (frames c (nonce_increment (nonce_increment n)) ps) s v.0
                  a st e))
        ]
