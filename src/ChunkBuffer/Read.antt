-- ===== src/ChunkBuffer/Read.antt =====
-- What skip and the two peeks of the chunk buffer take out, and what its tests tell.
use imconee.Common.{
  ℕ, zero, suc, ◌+◌, ◌-◌, ◌≤◌, ◌<◌, ◌≡◌, ◌≢◌, refl, sym, ap, ◌∙◌, ◌⊎◌, inl, inr, List, [], ◌∷◌,
  ◌++◌, min, arith, length, take, drop, slice, length-append, length-take, length-drop,
  slice-append, drop-slice, length-slice, append-nil, take_all, drop_all, drop-append_le,
  drop-append_ge, take-append_le, drop-nil, take-nil, drop-drop, Bool-cases, ltb, leb, ltb→lt,
  ltb→ge, leb→le, leb→gt,
}
use imconee.ChunkBuffer.{ChunkBuffer, skip_loop, skip, get_1st_chunk, peek_loop, peek, before, used}
use imconee.ChunkBuffer.Bounds.{stored, contents, IsChain, IsValid, IsChain-tail, skip-le-stored}

module _ (size : ℕ) where
  nothing : {l ls : ℕ} → ls ≤ size → IsChain size [] l ls
  nothing h = record { arrays = tt; last_in = λ ne. absurd (ne refl); last_fits = h }

  -- A record of what skip_loop does.
  record Skipped (cs : List (List ℕ)) (l ls fs : ℕ) (b : ChunkBuffer) : Type 0 where
    left : contents b ≡ drop fs (stored cs l ls)
    valid : IsValid size b
    shorter : length b.chunks ≤ length cs

  skip_loop-Skipped :
      (cs : List (List ℕ)) (l ls fs : ℕ)
      → IsChain size cs l ls
      → fs ≤ length (stored cs l ls)
      → Skipped cs l ls fs (skip_loop size cs l ls fs)
  unfolding skip_loop
  skip_loop-Skipped [] l ls fs v h = record {
    left = refl;
    valid = record { chain = nothing v.last_fits; unread = inl (omega arith) };
    shorter = omega arith;
  }
  skip_loop-Skipped (c ∷ []) zero ls fs v h = elim (Bool-cases (ltb fs ls)) [
    | inl more ↦ rw more (record {
      left = refl;
      valid = record { chain = v; unread = inr (λ e. cc, ltb→lt fs ls more) };
      shorter = omega arith;
    })
    | inr out ↦ rw out (record {
      left =
          drop-nil (fs - ls)
          ∙ sym (drop_all fs (take ls c) (omega (arith, length-take ls c, ltb→ge fs ls out)));
      valid = record {
        chain = nothing v.last_fits;
        unread = inl (omega (arith, length-take ls c));
      };
      shorter = omega arith;
    })
  ]
  skip_loop-Skipped (c ∷ d ∷ cs) zero ls fs v h = absurd (omega (arith, v.last_in (λ e. cc)))
  skip_loop-Skipped (c ∷ cs) (suc l) ls fs v h =
      let within : fs - size ≤ length (stored cs l ls) =
        omega (arith, length-append c (stored cs l ls), v.arrays.0) in
      let ih = skip_loop-Skipped cs l ls (fs - size) (IsChain-tail size v) within in
      elim (Bool-cases (ltb fs size)) [
        | inl more ↦ rw more (record {
          left = refl;
          valid = record { chain = v; unread = inr (λ e. cc, ltb→lt fs size more) };
          shorter = omega arith;
        })
        | inr out ↦ rw out (record {
          left =
              ih.left
              ∙ sym (
                  drop-append_ge fs c (stored cs l ls)
                    (omega (arith, v.arrays.0, ltb→ge fs size out))
                  ∙ ap (λ k. drop (fs - k) (stored cs l ls)) v.arrays.0);
          valid = ih.valid;
          shorter = omega (arith, ih.shorter);
        })
      ]

  -- The first chunk's bytes are the oldest ones.
  pub get_1st_chunk-prefix :
      (cs : List (List ℕ)) (l fs ls : ℕ)
      → let b : ChunkBuffer = record { chunks = cs; last = l; first_skip = fs; last_size = ls } in
        IsValid size b
        → (rest : List ℕ) × (contents b ≡ get_1st_chunk size b ++ rest)
          × (cs ≢ [] → fs + length (get_1st_chunk size b) ≡ used size l ls)
  unfolding get_1st_chunk
  get_1st_chunk-prefix [] l fs ls v = ([], drop-nil fs, λ ne. absurd (ne refl))
  get_1st_chunk-prefix (c ∷ []) zero fs ls v = (
    [],
    ground (arith, drop-slice fs 0 ls (ls - fs) c, append-nil (slice fs (ls - fs) c)),
    λ _. ground (arith, length-slice fs (ls - fs) c),
  )
  get_1st_chunk-prefix (c ∷ d ∷ cs) zero fs ls v = absurd (omega (arith, v.chain.last_in (λ e. cc)))
  get_1st_chunk-prefix (c ∷ cs) (suc l) fs ls v = (
    stored cs l ls,
    ground (
      arith,
      drop-append_le fs c (stored cs l ls),
      take_all (size - fs) (drop fs c),
      length-drop fs c,
    ),
    λ _. ground (arith, length-slice fs (size - fs) c),
  )

  pub skip-Skipped :
      (b : ChunkBuffer) (n : ℕ)
      → IsValid size b
      → n ≤ length (contents b)
      → (contents (skip size b n) ≡ drop n (contents b))
        × IsValid size (skip size b n)
        × (length (skip size b n).chunks ≤ length b.chunks)
  unfolding skip
  skip-Skipped b n v h =
      let s = skip_loop-Skipped b.chunks b.last b.last_size (b.first_skip + n) v.chain (
        omega (
          arith,
          skip-le-stored size b v,
          length-drop b.first_skip (stored b.chunks b.last b.last_size),
        )) in
      (
        s.left ∙ sym (drop-drop n b.first_skip (stored b.chunks b.last b.last_size)),
        s.valid,
        s.shorter,
      )

  skip_loop-shorter :
      (cs : List (List ℕ)) (l ls fs : ℕ) → length (skip_loop size cs l ls fs).chunks ≤ length cs
  unfolding skip_loop
  skip_loop-shorter [] l ls fs = omega arith
  skip_loop-shorter (c ∷ cs) l ls fs =
      ground (arith, skip_loop-shorter cs (before l) ls (fs - used size l ls))

  -- Skipping the whole of the first chunk drops it.
  skip-drops :
      (cs : List (List ℕ)) (l fs ls n : ℕ)
      → cs ≢ []
      → used size l ls ≤ fs + n
      → length
          (skip size (record { chunks = cs; last = l; first_skip = fs; last_size = ls }) n).chunks
        < length cs
  unfolding skip skip_loop
  skip-drops [] l fs ls n ne u = absurd (ne refl)
  skip-drops (c ∷ cs) l fs ls n ne u =
      ground (arith, skip_loop-shorter cs (before l) ls (fs + n - used size l ls))

  record Peeked (b : ChunkBuffer) (sv : ℕ) (r : List ℕ × ChunkBuffer) : Type 0 where
    out : r.0 ≡ take sv (contents b)
    left : contents r.1 ≡ drop sv (contents b)
    valid : IsValid size r.1

  contents-nil : (b : ChunkBuffer) → b.chunks ≡ [] → contents b ≡ []
  contents-nil b e = rw e (drop-nil b.first_skip)

  Peeked-none :
      (b : ChunkBuffer) (sv : ℕ) → IsValid size b → (b.chunks ≡ []) ⊎ (sv ≡ 0) → Peeked b sv ([], b)
  Peeked-none b sv v (inl e) = record {
    out = rw (contents-nil b e) (sym (take-nil sv));
    left = rw (contents-nil b e) (sym (drop-nil sv));
    valid = v;
  }
  Peeked-none b sv v (inr e) = rw e (record { out = refl; left = refl; valid = v })

  -- Two reads in a row are one.
  Peeked-twice :
      {b b' : ChunkBuffer} {out : List ℕ} (n m k : ℕ) (r : List ℕ × ChunkBuffer)
      → n + m ≡ k
      → out ≡ take n (contents b)
      → contents b' ≡ drop n (contents b)
      → Peeked b' m r
      → Peeked b k (out ++ r.0, r.1)
  Peeked-twice {b} {b'} n m k r sum o e p = record {
    out = ground (arith, sum, o, e, p.out, slice-append 0 n m (contents b));
    left = ground (arith, sum, e, p.left, drop-drop m n (contents b));
    valid = p.valid;
  }

  -- The rounds left before a round that is not the last.
  round_left : {n fuel sv : ℕ} → (n ≤ suc fuel) ⊎ (sv ≡ 0) → 0 < sv → n ≤ suc fuel
  round_left f h = ground arith

  peek_loop-Peeked :
      (fuel : ℕ) (cs : List (List ℕ)) (l fs ls sv : ℕ)
      → let b : ChunkBuffer = record { chunks = cs; last = l; first_skip = fs; last_size = ls } in
        IsValid size b → (length cs ≤ fuel) ⊎ (sv ≡ 0) → Peeked b sv (peek_loop size fuel b sv)
  unfolding peek_loop
  peek_loop-Peeked zero [] l fs ls sv v f = Peeked-none _ sv v (inl refl)
  peek_loop-Peeked zero (c ∷ cs) l fs ls sv v f = Peeked-none _ sv v (inr (ground arith))
  peek_loop-Peeked (suc fuel) [] l fs ls sv v f = Peeked-none _ sv v (inl refl)
  peek_loop-Peeked (suc fuel) (c ∷ cs) l fs ls sv v f =
      let b : ChunkBuffer = record { chunks = c ∷ cs; last = l; first_skip = fs; last_size = ls } in
      let fc = get_1st_chunk size b in
      let cpy = min sv (length fc) in
      let pre = get_1st_chunk-prefix (c ∷ cs) l fs ls v in
      let whole : length (contents b) ≡ length fc + length pre.0 =
        ap length pre.1 ∙ length-append fc pre.0 in
      let s = skip-Skipped b cpy v (omega (arith, whole)) in
      let b' = skip size b cpy in
      let first : take cpy fc ≡ take cpy (contents b) =
        sym (ap (take cpy) pre.1 ∙ take-append_le cpy fc pre.0 (omega arith)) in
      let enough_fuel : (length b'.chunks ≤ fuel) ⊎ (sv - cpy ≡ 0) =
        elim (Bool-cases (leb sv (length fc))) [
          | inl short ↦ inr (omega (arith, leb→le sv (length fc) short))
          | inr long ↦ inl (
              omega (
                arith,
                skip-drops (c ∷ cs) l fs ls cpy (λ e. cc)
                    (omega (arith, leb→gt sv (length fc) long, pre.2 (λ e. cc))),
                round_left f (omega (arith, leb→gt sv (length fc) long)),
              ))
        ] in
      let rest =
        peek_loop-Peeked fuel b'.chunks b'.last b'.first_skip b'.last_size (sv - cpy) s.1
          enough_fuel in
      elim (Bool-cases (ltb 0 sv)) [
        | inl more ↦ rw more (Peeked-twice cpy (sv - cpy) sv _ (omega arith) first s.0 rest)
        | inr none_left ↦
            rw none_left (Peeked-none b sv v (inr (omega (arith, ltb→ge 0 sv none_left))))
      ]

-- Reading `sv` bytes takes the oldest `sv`, or all where fewer are held, and leaves the others.
pub peek_refines :
    (size : ℕ) {b : ChunkBuffer} (sv : ℕ)
    → IsValid size b
    → ((peek size b sv).0 ≡ take sv (contents b))
      × (contents (peek size b sv).1 ≡ drop sv (contents b))
      × IsValid size (peek size b sv).1
unfolding peek
peek_refines size {b} sv v =
    let p =
      peek_loop-Peeked size (length b.chunks) b.chunks b.last b.first_skip b.last_size sv v
        (inl (omega arith)) in
    (p.out, p.left, p.valid)
