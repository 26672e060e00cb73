-- ===== src/ChunkBuffer/Bounds.antt =====
-- The representation invariant of the chunk buffer, and the bytes that it holds.
use imconee.Common.{
  refl, inl, inr, arith, length-take, length-append, ℕ, zero, suc, ◌+◌, ◌≤◌, ◌<◌, ◌≡◌, ◌≢◌, ◌⊎◌,
  List, [], ◌∷◌, ◌++◌, length, take, drop, All,
}
use imconee.ChunkBuffer.{ChunkBuffer, first_size, used}

-- Whole chunks up to the last one, of which `last_size` bytes are used.
abbrev pub stored : List (List ℕ) → ℕ → ℕ → List ℕ
stored [] last last_size = []
stored (c ∷ cs) zero last_size = take last_size c
stored (c ∷ cs) (suc last) last_size = c ++ stored cs last last_size

-- The bytes held, oldest first.
abbrev pub contents : ChunkBuffer → List ℕ
contents b = drop b.first_skip (stored b.chunks b.last b.last_size)

-- The chain is one of arrays of `size` bytes that ends with the chunk `last`.
pub record IsChain (size : ℕ) (chunks : List (List ℕ)) (last last_size : ℕ) : Type 0 where
  pub arrays : All (λ c. length c ≡ size) chunks
  pub last_in : chunks ≢ [] → last + 1 ≡ length chunks
  pub last_fits : last_size ≤ size

-- Also, some byte of the first chunk is not read yet, unless nothing is read of it.
pub record IsValid (size : ℕ) (b : ChunkBuffer) : Type 0 where
  pub chain : IsChain size b.chunks b.last b.last_size
  pub unread : (b.first_skip ≡ 0) ⊎ ((b.chunks ≢ []) × (b.first_skip < first_size size b))

module _ (size : ℕ) where
  pub IsChain-tail :
      {c : List ℕ} {cs : List (List ℕ)} {l ls : ℕ}
      → IsChain size (c ∷ cs) (suc l) ls
      → IsChain size cs l ls
  IsChain-tail {c} {cs} v = record {
    arrays = v.arrays.1;
    last_in = λ ne. omega (arith, v.last_in (λ e. cc));
    last_fits = v.last_fits;
  }

  -- Some byte is unread where something is.
  pub unread-lt :
      (cs : List (List ℕ)) (l ls fs : ℕ)
      → IsChain size cs l ls
      → cs ≢ []
      → fs < used size l ls
      → (fs < size) × (fs < length (stored cs l ls))
  unread-lt [] l ls fs v ne h = absurd (ne refl)
  unread-lt (c ∷ cs) zero ls fs v ne h =
      (omega arith, omega (arith, length-take ls c, v.arrays.0, v.last_fits))
  unread-lt (c ∷ cs) (suc l) ls fs v ne h =
      (h, omega (arith, length-append c (stored cs l ls), v.arrays.0))

  pub skip-le-stored :
      (b : ChunkBuffer)
      → IsValid size b
      → b.first_skip ≤ length (stored b.chunks b.last b.last_size)
  skip-le-stored b v = elim v.unread [
    | inl z ↦ omega (arith, z)
    | inr u ↦ omega (arith, unread-lt b.chunks b.last b.last_size b.first_skip v.chain u.0 u.1)
  ]
