-- ===== src/Cipher/Encipher/Chunks.antt =====
-- What aead_cryptor::encipher puts out, against the abstract stream of chunks.
use imconee.Common.{
  ℕ, zero, suc, ◌+◌, ◌<◌, ◌≡◌, refl, sym, ap, ◌∙◌, inl, inr, Option, some, List, [], ◌∷◌, ◌++◌, min,
  ltb, ltb→lt, ltb→ge, length, take, drop, length-take, length-drop, take-append-drop, take_all,
  append-nil, arith, Bool-cases, All,
}
use imconee.Net.Order.{to_ne, store_u16}
use imconee.Cipher.Nonce.{nonce_increment}
use imconee.Cipher.Mode.{AeadPair}
use imconee.Cipher.Filter.{flatten, process_refines}
use imconee.Cipher.Frames.{IsPayload, frame, frames, nonce_behind}
use imconee.Cipher.Encipher.{Coded, encode, encode_chunk, encipher_loop, encipher, chunk_size_mask}

module _ (c : AeadPair) where
  encode-seal :
      (iv bytes : List ℕ)
      → encode c.enc iv bytes ≡ some (record { out = c.seal iv bytes; iv = nonce_increment iv })
  unfolding encode
  encode-seal iv bytes =
      let p = process_refines c.enc iv bytes (c.seal iv bytes) (c.enc-seal iv bytes) in
      rw (p.1, p.0)

  encode_chunk-frame :
      (iv p : List ℕ)
      → encode_chunk c.enc iv p
        ≡ some (record { out = frame c iv p; iv = nonce_increment (nonce_increment iv) })
  unfolding encode_chunk
  encode_chunk-frame iv p =
      rw (encode-seal iv (store_u16 (to_ne (length p))), encode-seal (nonce_increment iv) p)

  -- A message as chunks: the output of a call, and the payloads that it carries.
  record Chunked (iv plain : List ℕ) (o : Option Coded) : Type 0 where
    payloads : List (List ℕ)
    coded : o ≡ some (record { out = frames c iv payloads; iv = nonce_behind iv payloads })
    whole : flatten payloads ≡ plain
    fit : 0 < length plain → All IsPayload payloads

  encipher_loop-Chunked :
      (fuel : ℕ) (iv plain : List ℕ)
      → length plain < fuel
      → Chunked iv plain (encipher_loop c.enc fuel iv plain)
  unfolding encipher_loop
  encipher_loop-Chunked zero iv plain h = absurd (omega arith)
  encipher_loop-Chunked (suc fuel) iv plain h =
      let in_len = min chunk_size_mask (length plain) in
      let first = take in_len plain in
      let rest = drop in_len plain in
      let iv' = nonce_increment (nonce_increment iv) in
      elim (Bool-cases (ltb in_len (length plain))) [
        | inl more ↦
            let big = ltb→lt in_len (length plain) more in
            let ih =
              encipher_loop-Chunked fuel iv' rest (omega (arith, length-drop in_len plain, big)) in
            rw (encode_chunk-frame iv first, more, ih.coded)
              (record {
                payloads = first ∷ ih.payloads;
                coded = refl;
                whole = ap (λ t. first ++ t) ih.whole ∙ take-append-drop in_len plain;
                fit = λ ne. (
                  omega (arith, length-take in_len plain),
                  ih.fit (omega (arith, length-drop in_len plain, big)),
                );
              })
        | inr last ↦
            let small = ltb→ge in_len (length plain) last in
            rw (encode_chunk-frame iv first, last)
              (record {
                payloads = first ∷ [];
                coded =
                    ap (λ t. some (record { out = t; iv = iv' }))
                      (sym (append-nil (frame c iv first)));
                whole = append-nil first ∙ take_all in_len plain small;
                fit = λ ne. (omega (arith, length-take in_len plain), tt);
              })
      ]

-- A message that is not empty is put out as the chunks of payloads that make it up, none of them
-- empty and none longer than a chunk may be; the nonce has moved on twice for each.
pub encipher_refines :
    (c : AeadPair) (iv plain : List ℕ)
    → 0 < length plain
    → (ps : List (List ℕ)) × (encipher c.enc iv plain
        ≡ some (record { out = frames c iv ps; iv = nonce_behind iv ps }))
      × (flatten ps ≡ plain)
      × All IsPayload ps
unfolding encipher
encipher_refines c iv plain ne =
    let r = encipher_loop-Chunked c (length plain + 1) iv plain (omega arith) in
    (r.payloads, r.coded, r.whole, r.fit ne)
