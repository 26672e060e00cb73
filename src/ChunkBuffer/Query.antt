-- ===== src/ChunkBuffer/Query.antt =====
-- Reading the whole of the chunk buffer, and what its tests tell.
use imconee.Common.{
  ℕ, zero, suc, ◌+◌, ◌-◌, ◌≤◌, ◌<◌, ◌≡◌, refl, sym, ◌∙◌, inl, inr, List, [], ◌∷◌, arith, length,
  take, drop, slice, length-append, length-take, length-drop, drop-slice, append-nil, take_all,
  drop-append_le, drop-nil, drop_all, ◌==◌, leb,
}
use imconee.ChunkBuffer.{
  ChunkBuffer, peek_all_loop, peek_all, is_empty, enough_loop, enough, enough_for_loop, enough_for,
}
use imconee.ChunkBuffer.Bounds.{
  stored, contents, IsChain, IsValid, IsChain-tail, unread-lt, skip-le-stored,
}

module _ (size : ℕ) where
  length-stored :
      (c : List ℕ) (cs : List (List ℕ)) (l ls : ℕ)
      → IsChain size (c ∷ cs) (suc l) ls
      → length (stored (c ∷ cs) (suc l) ls) ≡ size + length (stored cs l ls)
  length-stored c cs l ls v = omega (arith, length-append c (stored cs l ls), v.arrays.0)

  enough_loop_lem :
      (cs : List (List ℕ)) (l ls csz sz : ℕ)
      → IsChain size cs l ls
      → enough_loop size cs l ls csz sz ≡ leb sz (csz + length (stored cs l ls))
  unfolding enough_loop
  enough_loop_lem [] l ls csz sz v = ground arith
  enough_loop_lem (c ∷ []) zero ls csz sz v = ground (arith, length-take ls c)
  enough_loop_lem (c ∷ d ∷ cs) zero ls csz sz v = absurd (omega (arith, v.last_in (λ e. cc)))
  enough_loop_lem (c ∷ cs) (suc l) ls csz sz v = ground (
    arith,
    length-stored c cs l ls v,
    enough_loop_lem cs l ls (csz + size) sz (IsChain-tail size v),
  )

  enough_for_loop_lem :
      (cs : List (List ℕ)) (l ls csz sz : ℕ)
      → IsChain size cs l ls
      → enough_for_loop size cs l ls csz sz ≡ leb (csz + length (stored cs l ls)) sz
  unfolding enough_for_loop
  enough_for_loop_lem [] l ls csz sz v = ground arith
  enough_for_loop_lem (c ∷ []) zero ls csz sz v = ground (arith, length-take ls c)
  enough_for_loop_lem (c ∷ d ∷ cs) zero ls csz sz v = absurd (omega (arith, v.last_in (λ e. cc)))
  enough_for_loop_lem (c ∷ cs) (suc l) ls csz sz v = ground (
    arith,
    length-stored c cs l ls v,
    enough_for_loop_lem cs l ls (csz + size) sz (IsChain-tail size v),
  )

  tail_of_take : (fs ls : ℕ) (c : List ℕ) → slice fs (ls - fs) c ≡ drop fs (take ls c)
  tail_of_take fs ls c =
      ground (arith, drop-slice fs 0 ls (ls - fs) c, drop_all fs (take ls c), length-take ls c)

  peek_all_loop_lem :
      (cs : List (List ℕ)) (l ls fs : ℕ)
      → IsChain size cs l ls
      → fs ≤ size
      → peek_all_loop size cs l ls fs ≡ drop fs (stored cs l ls)
  unfolding peek_all_loop
  peek_all_loop_lem [] l ls fs v h = sym (drop-nil fs)
  peek_all_loop_lem (c ∷ []) zero ls fs v h =
      append-nil (slice fs (ls - fs) c) ∙ tail_of_take fs ls c
  peek_all_loop_lem (c ∷ d ∷ cs) zero ls fs v h = absurd (omega (arith, v.last_in (λ e. cc)))
  peek_all_loop_lem (c ∷ cs) (suc l) ls fs v h = ground (
    arith,
    peek_all_loop_lem cs l ls 0 (IsChain-tail size v),
    drop-append_le fs c (stored cs l ls),
    take_all (size - fs) (drop fs c),
    length-drop fs c,
  )

  unread-fits : {b : ChunkBuffer} → IsValid size b → b.first_skip ≤ size
  unread-fits {b} v = elim v.unread [
    | inl z ↦ omega (arith, z)
    | inr u ↦ omega (arith, unread-lt size b.chunks b.last b.last_size b.first_skip v.chain u.0 u.1)
  ]

  peek_all_at :
      (cs : List (List ℕ)) (l fs ls : ℕ)
      → let b : ChunkBuffer = record { chunks = cs; last = l; first_skip = fs; last_size = ls } in
        IsValid size b
        → ((peek_all size b).0 ≡ contents b)
          × (contents (peek_all size b).1 ≡ [])
          × IsValid size (peek_all size b).1
  unfolding peek_all
  peek_all_at [] l fs ls v = (sym (drop-nil fs), drop-nil fs, v)
  peek_all_at (c ∷ cs) l fs ls v = (
    peek_all_loop_lem (c ∷ cs) l ls fs v.chain (unread-fits v),
    refl,
    record {
      chain = record {
        arrays = tt;
        last_in = λ ne. absurd (ne refl);
        last_fits = v.chain.last_fits;
      };
      unread = inl refl;
    },
  )

  is_empty_at :
      (cs : List (List ℕ)) (l fs ls : ℕ)
      → let b : ChunkBuffer = record { chunks = cs; last = l; first_skip = fs; last_size = ls } in
        0 < size → IsValid size b → is_empty b ≡ (length (contents b) == 0)
  unfolding is_empty
  is_empty_at [] l fs ls pos v = rw (drop-nil fs)
  is_empty_at (c ∷ []) zero fs ls pos v =
      ground (arith, length-drop fs (take ls c), length-take ls c)
  is_empty_at (c ∷ d ∷ cs) zero fs ls pos v = absurd (omega (arith, v.chain.last_in (λ e. cc)))
  is_empty_at (c ∷ cs) (suc l) fs ls pos v =
      ground (arith, length-drop fs (stored (c ∷ cs) (suc l) ls), length-stored c cs l ls v.chain)

module _ (size : ℕ) {b : ChunkBuffer} (v : IsValid size b) where
  -- The two tests on the size tell how the number of bytes held compares with `sz`.
  pub enough_refines :
      (sz : ℕ)
      → (enough size b sz ≡ leb sz (length (contents b)))
        × (enough_for size b sz ≡ leb (length (contents b)) sz)
  unfolding enough enough_for
  enough_refines sz =
      let n = length-drop b.first_skip (stored b.chunks b.last b.last_size) in
      let s = skip-le-stored size b v in
      (
        ground (
          arith,
          n,
          s,
          enough_loop_lem size b.chunks b.last b.last_size 0 (sz + b.first_skip) v.chain,
        ),
        ground (
          arith,
          n,
          s,
          enough_for_loop_lem size b.chunks b.last b.last_size 0 (sz + b.first_skip) v.chain,
        ),
      )

  -- The buffer is empty exactly when it holds no byte.
  pub is_empty_refines : 0 < size → is_empty b ≡ (length (contents b) == 0)
  is_empty_refines pos = is_empty_at size b.chunks b.last b.first_skip b.last_size pos v

  -- Reading the whole buffer gives every byte held, oldest first, and leaves none.
  pub peek_all_refines :
      ((peek_all size b).0 ≡ contents b)
      × (contents (peek_all size b).1 ≡ [])
      × IsValid size (peek_all size b).1
  peek_all_refines = peek_all_at size b.chunks b.last b.first_skip b.last_size v
