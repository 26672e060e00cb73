-- ===== src/Cipher/Encipher.antt =====
-- ss::core::aead_cryptor::encipher: a message becomes chunks, each an encrypted length and an
-- encrypted payload.
pub mod Chunks
use mathlib.Core.Option
use imconee.Common.{
  ℕ, zero, suc, ◌+◌, ◌≤◌, ◌<◌, ◌≡◌, Bool, true, false, Option, none, some, List, [], ◌∷◌, ◌++◌, min,
  ltb, if◌then◌else◌, length, take, drop,
}
use imconee.Net.Order.{to_ne, store_u16}
use imconee.Cipher.Nonce.{nonce_increment}
use imconee.Cipher.Mode.{CipherMode}
use imconee.Cipher.Filter.{Passed, flatten, process}

-- AEAD_CHUNK_SIZE_MASK
abbrev pub chunk_size_mask : ℕ
chunk_size_mask = 0x3FFF

-- What is appended to the output, and the nonce for the next message.
pub record Coded : Type 0 where
  pub out : List ℕ
  pub iv : List ℕ

module _ (enc : CipherMode) where
  -- cipher_enc::process; `none` where the cipher throws.
  unfoldable pub encode : List ℕ → List ℕ → Option Coded
  encode iv bytes =
      let r = process enc iv bytes in
      if r.thrown then none else some (record { out = flatten r.sends; iv = nonce_increment iv })

  infixl 5 ◌>>=◌
  abbrev ◌>>=◌ : {A B : Type 0} → Option A → (A → Option B) → Option B
  none >>= f = none
  some a >>= f = f a

  -- One chunk: the length in network order, then the payload.
  unfoldable pub encode_chunk : List ℕ → List ℕ → Option Coded
  encode_chunk iv payload = do
    size ← encode iv (store_u16 (to_ne (length payload)))
    block ← encode size.iv payload
    some (record { out = size.out ++ block.out; iv = block.iv })

  -- The call for the remaining part is on a shorter one; `fuel` bounds the depth.
  unfoldable pub encipher_loop : ℕ → List ℕ → List ℕ → Option Coded
  encipher_loop zero iv plain = none
  encipher_loop (suc fuel) iv plain =
      let in_len = min chunk_size_mask (length plain) in
      let rest = λ (first : Coded). encipher_loop fuel first.iv (drop in_len plain) >>= λ later.
      some (record { out = first.out ++ later.out; iv = later.iv }) in
      encode_chunk iv (take in_len plain) >>= λ first.
      if ltb in_len (length plain) then rest first else some first

  unfoldable pub encipher : List ℕ → List ℕ → Option Coded
  unfolding encipher_loop
  encipher iv plain = encipher_loop (length plain + 1) iv plain
