-- ===== src/Cipher/Tests.antt =====
-- A few messages through the sample cipher: how source/imconee/cipher_ss.cpp uses its cipher, on
-- concrete bytes.
use imconee.Common.{
  ℕ, ◌≡◌, refl, some, List, [], ◌∷◌, ◌++◌, take, drop, length, arith, ◌+◌, false, All,
}
use imconee.Cipher.Nonce.{
  increment_from, nonce_increment, nonce_after, fresh_nonce, nonce_after-injective,
  value-nonce_after, value, IsNonce,
}
use imconee.Cipher.Sample.{tag, tagging, untagging, pair}
use imconee.Cipher.Filter.{write, end_msg, process, process_refines, flatten}
use imconee.Cipher.Encipher.{Coded, encipher, encipher_loop, encode_chunk, encode}
use imconee.Cipher.Frames.{frames, nonce_behind, IsPayload}
use imconee.Net.Order.{to_ne, store_u16}
use imconee.Cipher.Decipher.{Decryptor}
use imconee.Cipher.Stream.Feed.{feed, new_decryptor, decipher-encipher}
use imconee.Cipher.Encipher.Chunks.{encipher_refines}

abbrev iv : List ℕ
iv = 255 ∷ 0 ∷ []

abbrev hello : List ℕ
hello = 104 ∷ 105 ∷ []

value-nonce_after_example :
    (value (nonce_after 3 (fresh_nonce 12)) ≡ 3)
    × (length (nonce_after 3 (fresh_nonce 12)) ≡ 12)
    × IsNonce (nonce_after 3 (fresh_nonce 12))
value-nonce_after_example = value-nonce_after 12 3 (omega arith)

nonce_after-injective_example : ◌≡◌ {A = ℕ} 3 3
nonce_after-injective_example = nonce_after-injective 12 3 3 (omega arith) (omega arith) refl

process_refines_example :
    (flatten (process tagging iv hello).sends ≡ hello ++ tag)
    × ((process tagging iv hello).thrown ≡ false)
process_refines_example = process_refines tagging iv hello (hello ++ tag) refl

encipher_refines_example :
    (ps : List (List ℕ)) × (encipher tagging iv hello
      ≡ some (record { out = frames pair iv ps; iv = nonce_behind iv ps }))
    × (flatten ps ≡ hello)
    × All IsPayload ps
encipher_refines_example = encipher_refines pair iv hello (omega arith)

nonce_test : nonce_increment iv ≡ 0 ∷ 1 ∷ []
unfolding nonce_increment
nonce_test = refl

-- The two bytes as a chunk, and its arrival in two pieces, the first of which ends inside the length.
abbrev coded : Coded
coded = record { out = (0 ∷ 2 ∷ []) ++ (tag ++ (hello ++ tag)); iv = 1 ∷ 1 ∷ [] }

hello_coded : encipher tagging iv hello ≡ some coded
unfolding encipher encipher_loop encode_chunk encode process write end_msg nonce_increment
    increment_from to_ne store_u16
hello_coded = refl

abbrev pieces : List (List ℕ)
pieces = take 5 coded.out ∷ drop 5 coded.out ∷ []

decipher-encipher_example :
    (d : Decryptor) × (feed untagging (λ old need. old + need) (new_decryptor iv 16) [] pieces
      ≡ some (d, hello))
    × (d.iv ≡ coded.iv)
decipher-encipher_example =
    decipher-encipher pair (λ old need. old + need) iv hello 16 coded pieces (omega arith)
      hello_coded refl
