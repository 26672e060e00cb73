-- ===== src/Cipher/Frames.antt =====
-- The stream that a sequence of messages becomes: the abstract view of both directions.
use imconee.Common.{
  ℕ, ◌+◌, ◌≤◌, ◌<◌, ◌≡◌, refl, sym, ap, ◌∙◌, List, [], ◌∷◌, ◌++◌, length, append_assoc,
}
use imconee.Net.Order.{to_ne, store_u16}
use imconee.Cipher.Nonce.{nonce_increment}
use imconee.Cipher.Mode.{AeadPair, tag_size}
use imconee.Cipher.Encipher.{chunk_size_mask}

-- A payload that a chunk can carry.
abbrev pub IsPayload : List ℕ → Type 0
IsPayload p = (0 < length p) × (length p ≤ chunk_size_mask)

-- The nonce behind `ps` chunks.
abbrev pub nonce_behind : List ℕ → List (List ℕ) → List ℕ
nonce_behind iv [] = iv
nonce_behind iv (p ∷ ps) = nonce_behind (nonce_increment (nonce_increment iv)) ps

module _ (c : AeadPair) where
  -- The encrypted length of a chunk.
  abbrev pub size_block : List ℕ → List ℕ → List ℕ
  size_block iv p = c.seal iv (store_u16 (to_ne (length p)))

  abbrev pub frame : List ℕ → List ℕ → List ℕ
  frame iv p = size_block iv p ++ c.seal (nonce_increment iv) p

  abbrev pub frames : List ℕ → List (List ℕ) → List ℕ
  frames iv [] = []
  frames iv (p ∷ ps) = frame iv p ++ frames (nonce_increment (nonce_increment iv)) ps

  pub length-size_block : (iv p : List ℕ) → length (size_block iv p) ≡ 2 + tag_size
  unfolding store_u16
  length-size_block iv p = c.length-seal iv (store_u16 (to_ne (length p)))

  pub frames-append :
      (iv : List ℕ) (ps qs : List (List ℕ))
      → frames iv (ps ++ qs) ≡ frames iv ps ++ frames (nonce_behind iv ps) qs
  frames-append iv [] qs = refl
  frames-append iv (p ∷ ps) qs =
      ap (λ t. frame iv p ++ t) (frames-append (nonce_increment (nonce_increment iv)) ps qs)
      ∙ sym (append_assoc (frame iv p) _ _)

pub nonce_behind-append :
    (iv : List ℕ) (ps qs : List (List ℕ))
    → nonce_behind iv (ps ++ qs) ≡ nonce_behind (nonce_behind iv ps) qs
nonce_behind-append iv [] qs = refl
nonce_behind-append iv (p ∷ ps) qs =
    nonce_behind-append (nonce_increment (nonce_increment iv)) ps qs
