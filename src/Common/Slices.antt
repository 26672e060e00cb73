-- ===== src/Common/Slices.antt =====
-- Sections of an array, and what a copy into the array does to them.
use Prim.Native.Nat.{ℕ, ◌+◌, ◌-◌, ◌≤◌}
use mathlib.Core.Path.{◌≡◌, refl, sym, ap, ◌∙◌}
use mathlib.Core.List.{List, ◌++◌, append-nil}
use native.Mathlib.Omega.{arith}
use imconee.Common.Lists.{
  length, take, drop, copy_at, length-append, length-take, length-drop, take-append_le,
  take-append_ge, drop-append_ge, drop-append_le, take-take, take-drop, drop-drop, take-append-drop,
}

module _ {ℓ} {A : Type ℓ} where
  -- The `n` elements from index `i` on.
  abbrev pub slice : ℕ → ℕ → List A → List A
  slice i n xs = take n (drop i xs)

  pub length-slice : (i n : ℕ) (xs : List A) → i + n ≤ length xs → length (slice i n xs) ≡ n
  length-slice i n xs h = omega (arith, length-take n (drop i xs), length-drop i xs)

  pub take-slice : (k i n : ℕ) (xs : List A) → k ≤ n → take k (slice i n xs) ≡ slice i k xs
  take-slice k i n xs h = take-take k n (drop i xs) h

  pub drop-slice :
      (k i n m : ℕ) (xs : List A) → k + m ≡ n → drop k (slice i n xs) ≡ slice (i + k) m xs
  drop-slice k i n m xs e =
      ap (λ t. drop k (take t (drop i xs))) (sym e)
      ∙ sym (take-drop m k (drop i xs))
      ∙ ap (take m) (drop-drop k i xs)

  pub slice-append :
      (i n m : ℕ) (xs : List A) → slice i n xs ++ slice (i + n) m xs ≡ slice i (n + m) xs
  slice-append i n m xs =
      rw (← take-slice n i (n + m) xs (omega arith), ← drop-slice n i (n + m) m xs refl)
        (take-append-drop n (slice i (n + m) xs))

module _ {ℓ} {A : Type ℓ} (xs : List A) (i : ℕ) (src : List A) where
  length-head : i + length src ≤ length xs → length (take i xs) ≡ i
  length-head h = omega (arith, length-take i xs)

  pub drop-copy_at :
      i + length src ≤ length xs → drop i (copy_at xs i src) ≡ src ++ drop (i + length src) xs
  drop-copy_at h =
      drop-append_ge i (take i xs) _ (omega (arith, length-head h))
      ∙ ap (λ k. drop k (src ++ drop (i + length src) xs)) {y = 0} (omega (arith, length-head h))

  pub slice-copy_at_self :
      i + length src ≤ length xs → slice i (length src) (copy_at xs i src) ≡ src
  slice-copy_at_self h =
      ap (take (length src)) (drop-copy_at h)
      ∙ take-append_ge (length src) src _ (omega arith)
      ∙ ap (λ k. src ++ take k (drop (i + length src) xs)) {y = 0} (omega arith)
      ∙ append-nil src

  pub slice-copy_at_before :
      (j n : ℕ)
      → i + length src ≤ length xs
      → j + n ≤ i
      → slice j n (copy_at xs i src) ≡ slice j n xs
  slice-copy_at_before j n h e =
      ap (take n) (drop-append_le j (take i xs) _ (omega (arith, length-head h)))
      ∙ take-append_le n (drop j (take i xs)) _
          (omega (arith, length-head h, length-drop j (take i xs)))
      ∙ ap (take n) (drop-slice j 0 i (i - j) xs (omega arith))
      ∙ ap (λ k. take n (slice k (i - j) xs)) {y = j} (omega arith)
      ∙ take-take n (i - j) (drop j xs) (omega arith)

  pub slice-copy_at_after :
      (j n : ℕ)
      → i + length src ≤ length xs
      → i + length src ≤ j
      → slice j n (copy_at xs i src) ≡ slice j n xs
  slice-copy_at_after j n h e = ap (take n) (
      drop-append_ge j (take i xs) _ (omega (arith, length-head h))
      ∙ drop-append_ge (j - length (take i xs)) src _ (omega (arith, length-head h))
      ∙ drop-drop (j - length (take i xs) - length src) (i + length src) xs
      ∙ ap (λ k. drop k xs) (omega (arith, length-head h)))

pub length-copy_at {ℓ} :
    {A : Type ℓ} (xs : List A) (i : ℕ) (src : List A)
    → i + length src ≤ length xs
    → length (copy_at xs i src) ≡ length xs
length-copy_at xs i src h = omega (
  arith,
  length-append (take i xs) (src ++ drop (i + length src) xs),
  length-append src (drop (i + length src) xs),
  length-take i xs,
  length-drop (i + length src) xs,
)
