-- ===== src/Cipher/Nonce.antt =====
-- nonceIncrement of source/imconee/cipher_ss.h: a nonce is a counter with its low byte first.
use imconee.Common.{
  ℕ, zero, suc, ◌+◌, ◌*◌, ◌/◌, ◌%◌, ◌^◌, ◌<◌, ◌≡◌, refl, sym, ap, ◌∙◌, List, [], ◌∷◌, arith, ◌==◌,
  if◌then◌else◌, Bool-cases, inl, inr, length, replicate, length-replicate, IsByte, All,
}
use native.Mathlib.Nat.{pow-suc, mod-eq_of_lt, add-mul-mod_self_left}

-- The loop, with the carry `c` into the first byte.
unfoldable pub increment_from : ℕ → List ℕ → List ℕ
increment_from c [] = []
increment_from c (b ∷ bs) =
    if c == 0 then b ∷ bs else (c + b) % 256 ∷ increment_from ((c + b) / 256) bs

unfoldable pub nonce_increment : List ℕ → List ℕ
unfolding increment_from
nonce_increment n = increment_from 1 n

-- The number that a nonce stands for.
unfoldable pub value : List ℕ → ℕ
value [] = 0
value (b ∷ bs) = b + 256 * value bs

carry_out : ℕ → List ℕ → ℕ
carry_out c [] = c
carry_out c (b ∷ bs) = carry_out ((c + b) / 256) bs

carry_out-zero : (n : List ℕ) → All IsByte n → carry_out 0 n ≡ 0
unfolding carry_out
carry_out-zero [] a = refl
carry_out-zero (b ∷ bs) a = let z : (0 + b) / 256 ≡ 0 = omega arith in rw z (carry_out-zero bs a.1)

value-increment_from :
    (c : ℕ) (n : List ℕ)
    → All IsByte n
    → value (increment_from c n) + 256 ^ length n * carry_out c n ≡ value n + c
unfolding value increment_from carry_out
value-increment_from c [] a = omega arith
value-increment_from c (b ∷ bs) a = elim (Bool-cases (c == 0)) [
  | inl stop ↦
      let none_left : carry_out ((c + b) / 256) bs ≡ 0 =
        let z : (c + b) / 256 ≡ 0 = ground arith in rw z (carry_out-zero bs a.1) in
      rw stop (ground (arith, none_left))
  | inr go ↦
      let ih = value-increment_from ((c + b) / 256) bs a.1 in
      rw (go, pow-suc) (omega (arith, ih, ap (λ (t : ℕ). 256 * t) ih))
]

length-increment_from : (c : ℕ) (n : List ℕ) → length (increment_from c n) ≡ length n
unfolding increment_from
length-increment_from c [] = refl
length-increment_from c (b ∷ bs) = ground (arith, length-increment_from ((c + b) / 256) bs)

increment_from-bytes : (c : ℕ) (n : List ℕ) → All IsByte n → All IsByte (increment_from c n)
unfolding increment_from
increment_from-bytes c [] a = tt
increment_from-bytes c (b ∷ bs) a = ground (arith, increment_from-bytes ((c + b) / 256) bs a.1)

abbrev pub IsNonce : List ℕ → Type 0
IsNonce n = All IsByte n

value-lt : (n : List ℕ) → IsNonce n → value n < 256 ^ length n
unfolding value
value-lt [] a = omega arith
value-lt (b ∷ bs) a = rw pow-suc (omega (arith, value-lt bs a.1))

-- Incrementing a nonce adds one to its number, modulo its size, and keeps its length and its bytes.
pub nonce_increment_lem :
    (n : List ℕ)
    → IsNonce n
    → (value (nonce_increment n) ≡ (value n + 1) % 256 ^ length n)
      × (length (nonce_increment n) ≡ length n)
      × IsNonce (nonce_increment n)
unfolding nonce_increment
nonce_increment_lem n a = (counted, length-increment_from 1 n, increment_from-bytes 1 n a)
  where
    sum : value (increment_from 1 n) + 256 ^ length n * carry_out 1 n ≡ value n + 1
    sum = value-increment_from 1 n a

    small : value (increment_from 1 n) < 256 ^ length n
    small =
        rw (← length-increment_from 1 n)
          (value-lt (increment_from 1 n) (increment_from-bytes 1 n a))

    counted : value (increment_from 1 n) ≡ (value n + 1) % 256 ^ length n
    counted = rw (← sum, add-mul-mod_self_left) (sym (mod-eq_of_lt small))

-- keyed_filter::setup: `iv.resize(NonceSize); iv.zeroise();`
unfoldable pub fresh_nonce : ℕ → List ℕ
fresh_nonce size = replicate size 0

-- The nonce after `k` messages.
unfoldable pub nonce_after : ℕ → List ℕ → List ℕ
nonce_after zero n = n
nonce_after (suc k) n = nonce_increment (nonce_after k n)

fresh_nonce-zero : (size : ℕ) → IsNonce (fresh_nonce size) × (value (fresh_nonce size) ≡ 0)
unfolding fresh_nonce value
fresh_nonce-zero zero = (tt, refl)
fresh_nonce-zero (suc size) =
    ((omega arith, (fresh_nonce-zero size).0), omega (arith, (fresh_nonce-zero size).1))

-- After `k` messages the nonce of a new cipher stands for `k`, while `k` fits into its bytes.
pub value-nonce_after :
    (size k : ℕ)
    → k < 256 ^ size
    → (value (nonce_after k (fresh_nonce size)) ≡ k)
      × (length (nonce_after k (fresh_nonce size)) ≡ size)
      × IsNonce (nonce_after k (fresh_nonce size))
unfolding nonce_after
value-nonce_after size zero h = (
  (fresh_nonce-zero size).1,
  (unfold fresh_nonce in length-replicate size 0),
  (fresh_nonce-zero size).0,
)
value-nonce_after size (suc k) h =
    let ih = value-nonce_after size k (omega arith) in
    let step = nonce_increment_lem (nonce_after k (fresh_nonce size)) ih.2 in
    (
      step.0
          ∙ rw (ih.0, ih.1) (mod-eq_of_lt {n = k + 1} {m = 256 ^ size} (omega arith) ∙ omega arith),
      step.1 ∙ ih.1,
      step.2,
    )

-- No nonce is used twice under one key: fewer than 256 ^ size messages have different nonces.
pub nonce_after-injective :
    (size i j : ℕ)
    → i < 256 ^ size
    → j < 256 ^ size
    → nonce_after i (fresh_nonce size) ≡ nonce_after j (fresh_nonce size)
    → i ≡ j
nonce_after-injective size i j hi hj e =
    sym (value-nonce_after size i hi).0 ∙ ap value e ∙ (value-nonce_after size j hj).0
