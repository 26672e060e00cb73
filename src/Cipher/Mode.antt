-- ===== src/Cipher/Mode.antt =====
-- What source/imconee/cipher_ss.cpp uses of a keyed Botan::Cipher_Mode, which is not part of this
-- development.
use mathlib.Core.Option
use imconee.Common.{ℕ, ◌+◌, ◌≤◌, ◌<◌, ◌≡◌, Option, some, List, ◌++◌, length}

pub record CipherMode : Type 1 where
  pub State : Type 0
  -- start(iv)
  pub start : List ℕ → State
  -- update(buf): the bytes that `buf` then holds, and the state.
  pub update : State → List ℕ → List ℕ × State
  -- finish(buf): `none` where it throws.
  pub finish : State → List ℕ → Option (List ℕ)
  pub ideal_granularity : ℕ
  pub minimum_final_size : ℕ
  -- A block of the granularity is not empty, and longer than a size field.
  pub granularity_lt : 2 < ideal_granularity
  -- A message may be given to `update` block by block, as long as enough is left for `finish`.
  pub update-finish :
      (s : State) (a b : List ℕ)
      → length a ≡ ideal_granularity
      → minimum_final_size ≤ length b
      → finish s (a ++ b) ≡ Option.map (λ out. (update s a).0 ++ out) (finish (update s a).1 b)

-- One message at once.
abbrev pub crypt : CipherMode → List ℕ → List ℕ → Option (List ℕ)
crypt m iv bytes = m.finish (m.start iv) bytes

abbrev pub tag_size : ℕ
tag_size = 16

-- An encryption and the decryption of the same cipher under the same key.
pub record AeadPair : Type 1 where
  pub enc : CipherMode
  pub dec : CipherMode
  -- The encrypted message with its tag.
  pub seal : List ℕ → List ℕ → List ℕ
  pub enc-seal : (iv bytes : List ℕ) → crypt enc iv bytes ≡ some (seal iv bytes)
  pub length-seal : (iv bytes : List ℕ) → length (seal iv bytes) ≡ length bytes + tag_size
  pub dec-seal : (iv bytes : List ℕ) → crypt dec iv (seal iv bytes) ≡ some bytes
  pub enc_final : enc.minimum_final_size ≡ 0
  pub dec_final : dec.minimum_final_size ≡ tag_size
