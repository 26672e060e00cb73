-- ===== src/Cipher/Decipher.antt =====
-- ss::core::aead_cryptor::decrypt and decipher: chunks are taken off the bytes received so far, as
-- many as are whole. The buffer of plain bytes is the list of its contents.
use imconee.Common.{
  ℕ, zero, suc, ◌+◌, ◌-◌, List, [], ◌∷◌, ◌++◌, ltb, ◌==◌, if◌then◌else◌, slice, length, ◌&&◌,
}
use imconee.Net.Order.{to_he, load_u16}
use imconee.Cipher.Nonce.{nonce_increment}
use imconee.Cipher.Mode.{CipherMode, tag_size}
use imconee.Cipher.Filter.{Passed, flatten, process}
use imconee.Cipher.SkipBuf.{SkipBuf, view, size, add, erase, clear}
use imconee.Cipher.Encipher.{chunk_size_mask}

-- The part of the cryptor that decrypts: the nonce of the filter, the bytes not decrypted yet, and
-- the payload size of a chunk whose length is decrypted already, or 0.
pub record Decryptor : Type 0 where
  pub iv : List ℕ
  pub unprocessed : SkipBuf
  pub last_block_payload_size : ℕ

-- The result of a call: the number returned, -1, or an exception that leaves it.
pub data Outcome : Type 0 where
  returned : ℕ → Outcome
  corrupted thrown : Outcome

-- The lambda `decode`: not enough bytes, or the message goes through the filter.
pub data Decoded : Type 0 where
  not_ready : Decoded
  passed : Passed → Decoded

-- The variables of a pass: iv, last_block_payload_size, `from`, and the plain bytes.
pub record Pass : Type 0 where
  pub iv : List ℕ
  pub pending : ℕ
  pub from : ℕ
  pub plain : List ℕ

-- u16acpt: the u16 at the front of the last piece.
unfoldable pub accept_u16 : List (List ℕ) → ℕ
accept_u16 [] = 0
accept_u16 (x ∷ []) = load_u16 x
accept_u16 (x ∷ y ∷ ys) = accept_u16 (y ∷ ys)

-- The end of a round of the loop of decipher: `next` is what the loop goes on to, if it does.
unfoldable pub settle : ℕ → Outcome × Pass → Outcome × ℕ × Pass → Outcome × ℕ × Pass
settle decr (corrupted, p) next = (corrupted, decr, p)
settle decr (thrown, p) next = (thrown, decr, p)
settle decr (returned d, p) next = if d == 0 then (returned 0, decr, p) else next

unfoldable pub size_of : Outcome → ℕ
size_of corrupted = 0
size_of thrown = 0
size_of (returned d) = d

module _ (dec : CipherMode) where
  -- `bytes` is what `unprocessed` holds in view.
  unfoldable pub decode : List ℕ → List ℕ → ℕ → ℕ → Decoded
  decode bytes iv skip capacity =
      if ltb (length bytes - skip) (capacity + tag_size)
      then not_ready
      else passed (process dec iv (slice skip (capacity + tag_size) bytes))

  -- The second half of decrypt, from `from_current` on. The exception of a payload that does not
  -- authenticate leaves the function; the pieces sent before it stay in `plain`.
  unfoldable pub accept_payload : Pass → ℕ → Decoded → Outcome × Pass
  accept_payload p next not_ready =
      (returned p.pending, record p { from = next - (p.pending + tag_size) })
  accept_payload p next (passed r) =
      if r.thrown then (thrown, record p { plain = p.plain ++ flatten r.sends }) else (
        returned p.pending,
        record p { iv = nonce_increment p.iv; from = next; plain = p.plain ++ flatten r.sends },
      )

  unfoldable pub read_payload : List ℕ → Pass → ℕ → Outcome × Pass
  unfolding accept_payload
  read_payload bytes p from_current =
      if ltb (length bytes - from_current) (p.pending + tag_size)
      then (returned 0, p)
      else accept_payload p (from_current + p.pending + tag_size)
          (decode bytes p.iv from_current p.pending)

  -- The first half, where no length is pending. An exception is caught and reported as -1.
  unfoldable pub accept_size : List ℕ → Pass → Decoded → Outcome × Pass
  unfolding read_payload
  accept_size bytes p not_ready = (returned 0, p)
  accept_size bytes p (passed r) =
      let payloadsize = to_he (accept_u16 r.sends) in
      if r.thrown
      then (corrupted, p)
      else (if ltb chunk_size_mask payloadsize
          then (corrupted, record p { iv = nonce_increment p.iv })
          else read_payload bytes (record p { iv = nonce_increment p.iv; pending = payloadsize })
              (p.from + (2 + tag_size)))

  unfoldable pub decrypt : List ℕ → Pass → Outcome × Pass
  unfolding accept_size
  decrypt bytes p =
      if ltb 0 p.pending
      then read_payload bytes p (2 + tag_size)
      else accept_size bytes p (decode bytes p.iv p.from 2)

  -- The loop of decipher over `from`, with the sum `decr` of the payload sizes.
  unfoldable pub decrypt_loop : ℕ → List ℕ → ℕ → Pass → Outcome × ℕ × Pass
  unfolding settle size_of
  decrypt_loop zero bytes decr p = (returned 0, decr, p)
  decrypt_loop (suc fuel) bytes decr p =
      let r = decrypt bytes p in
      let next = decrypt_loop fuel bytes (decr + size_of r.0) (record (r.1) { pending = 0 }) in
      if ltb p.from (length bytes) then settle decr r next else (returned 0, decr, p)

  -- What is left of `unprocessed`.
  unfoldable pub cut : SkipBuf → ℕ → ℕ → Outcome × SkipBuf
  cut u decr from =
      if ltb 0 decr
      then (if from == size u
          then (returned decr, clear u)
          else (if from == 0 && ltb chunk_size_mask (size u)
              then (corrupted, u)
              else (returned decr, erase u from)))
      else (returned decr, u)

  unfoldable pub finish : SkipBuf → Outcome × ℕ × Pass → Outcome × Decryptor × List ℕ
  unfolding cut
  finish u (returned n, decr, p) =
      let (o, u') = cut u decr p.from in
      (o, record { iv = p.iv; unprocessed = u'; last_block_payload_size = p.pending }, p.plain)
  finish u (o, decr, p) =
      (o, record { iv = p.iv; unprocessed = u; last_block_payload_size = p.pending }, p.plain)

  -- The outcome, the cryptor, and the plain bytes with what was appended.
  unfoldable pub decipher : (ℕ → ℕ → ℕ) → Decryptor → List ℕ → List ℕ → Outcome × Decryptor × List ℕ
  unfolding finish decrypt_loop
  decipher grow d plain cipher =
      let u = add grow d.unprocessed cipher in
      let start : Pass = record {
        iv = d.iv;
        pending = d.last_block_payload_size;
        from = 0;
        plain = plain;
      } in
      finish u (decrypt_loop (size u + 1) (view u) 0 start)
