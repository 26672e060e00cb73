-- ===== src/Pointer/Holders.antt =====
-- The number of pointers of source/imconee/tools.h that have an object.
use imconee.Common.{
  ℕ, zero, suc, ◌+◌, ◌<◌, ◌≤◌, ◌≡◌, inl, inr, refl, Bool, true, false, ◌==◌, if◌then◌else◌,
  Bool-cases, arith,
}

abbrev pub one_if : Bool → ℕ
one_if true = 1
one_if false = 0

abbrev pub holders : ℕ → (ℕ → ℕ) → ℕ → ℕ
holders zero object o = 0
holders (suc n) object o = one_if (object n == o) + holders n object o

abbrev pub update : (ℕ → ℕ) → ℕ → ℕ → ℕ → ℕ
update f v p w = if w == v then p else f w

holders-update_above :
    (n : ℕ) (f : ℕ → ℕ) (v p o : ℕ) → n ≤ v → holders n (update f v p) o ≡ holders n f o
holders-update_above zero f v p o le = refl
holders-update_above (suc n) f v p o le =
    ground (arith, holders-update_above n f v p o (omega arith))

-- A pointer that changes leaves one object and comes to another.
pub holders-update :
    (n : ℕ) (f : ℕ → ℕ) (v p o : ℕ)
    → v < n
    → holders n (update f v p) o + one_if (f v == o) ≡ holders n f o + one_if (p == o)
holders-update zero f v p o lt = absurd (omega arith)
holders-update (suc n) f v p o lt = elim (Bool-cases (n == v)) [
  | inl same ↦
      let e : v ≡ n = ground arith in
      rw e (ground (arith, holders-update_above n f n p o (omega arith)))
  | inr other ↦
      let below : v < n = ground arith in
      let ih = holders-update n f v p o below in rw other (omega arith)
]

pub holds-holders : (n : ℕ) (f : ℕ → ℕ) (v : ℕ) → v < n → 0 < holders n f (f v)
holds-holders zero f v lt = absurd (omega arith)
holds-holders (suc n) f v lt = elim (Bool-cases (n == v)) [
  | inl same ↦ let e : v ≡ n = ground arith in rw e (ground arith)
  | inr other ↦ let below : v < n = ground arith in omega (arith, holds-holders n f v below)
]

pub holders-positive :
    (n : ℕ) (f : ℕ → ℕ) (o : ℕ) → 0 < holders n f o → (v : ℕ) × ((v < n) × (f v ≡ o))
holders-positive zero f o h = absurd (omega arith)
holders-positive (suc n) f o h = elim (Bool-cases (f n == o)) [
  | inl same ↦ (n, (omega arith, ground arith))
  | inr other ↦
      let rest : 0 < 0 + holders n f o = rw other at h in
      let (v, (lt, e)) = holders-positive n f o (omega arith) in (v, (omega arith, e))
]
