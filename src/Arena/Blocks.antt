-- ===== src/Arena/Blocks.antt =====
-- The blocks of an arena do not overlap, and an address gives the number of its block.
use imconee.Common.{
  ℕ, zero, suc, ◌+◌, ◌-◌, ◌*◌, ◌/◌, ◌%◌, ◌^◌, ◌<◌, ◌≤◌, ◌≡◌, ◌≢◌, ◌⊎◌, ◌↔◌, true, ltb→lt, lt→ltb,
  ap, ◌∙◌, inl, inr, arith,
}
use native.Mathlib.Nat.{div-eq_of_lt, div-lt_iff_lt-mul, mul-add-div}
use imconee.Arena.{Arena, block, index_of, here}

le-split : (i j : ℕ) → i < suc j → (i < j) ⊎ (i ≡ j)
le-split i j h = ground arith

mul_suc_le : (e i j : ℕ) → i < j → e * i + e ≤ e * j
mul_suc_le e i zero h = absurd (omega arith)
mul_suc_le e i (suc j) h = elim (le-split i j h) [
  | inl lt ↦ omega (arith, mul_suc_le e i j lt)
  | inr same ↦ rw same (omega arith)
]

ne-split : (i j : ℕ) → i ≢ j → (i < j) ⊎ (j < i)
ne-split i j ne = ground arith

module _ (elsz arsz : ℕ) where
  -- Two blocks lie one behind the other.
  pub blocks_apart :
      (buf i j : ℕ)
      → i ≢ j
      → (block elsz arsz buf i + elsz ≤ block elsz arsz buf j)
        ⊎ (block elsz arsz buf j + elsz ≤ block elsz arsz buf i)
  blocks_apart buf i j ne = elim (ne-split i j ne) [
    | inl lt ↦ inl (omega (arith, mul_suc_le elsz i j lt))
    | inr gt ↦ inr (omega (arith, mul_suc_le elsz j i gt))
  ]

  pub block_inside : (buf i : ℕ) → i < arsz → block elsz arsz buf i + elsz ≤ buf + elsz * arsz
  block_inside buf i lt = omega (arith, mul_suc_le elsz i arsz lt)

  -- In an arena that ends in the address space an address is the number of its block.
  module _ (a : Arena) (fits : a.buf + elsz * arsz ≤ 2 ^ 64) where
    pub index_of-block :
        (i o : ℕ) → i < arsz → o < elsz → index_of elsz arsz a (block elsz arsz a.buf i + o) ≡ i
    index_of-block i o lt lo =
        let inside = block_inside a.buf i lt in
        let wraps : (block elsz arsz a.buf i + o + 2 ^ 64 - a.buf) % 2 ^ 64 ≡ elsz * i + o =
          omega arith in
        let rounds : o / elsz ≡ 0 = div-eq_of_lt lo in
        ap (λ d. d / elsz) wraps ∙ mul-add-div (omega arith) i o ∙ omega arith

    pub here_iff :
        (p : ℕ)
        → p < 2 ^ 64
        → 0 < elsz
        → (here elsz arsz a p ≡ true) ↔ ((a.buf ≤ p) × (p < a.buf + elsz * arsz))
    here_iff p lp pos =
        let d = (p + 2 ^ 64 - a.buf) % 2 ^ 64 in
        let both = div-lt_iff_lt-mul {k = elsz} {x = d} {y = arsz} pos in
        (
          λ h. let lt = both.0 (ltb→lt (d / elsz) arsz h) in (omega arith, omega arith),
          λ h. lt→ltb (d / elsz) arsz (both.1 (omega arith)),
        )
