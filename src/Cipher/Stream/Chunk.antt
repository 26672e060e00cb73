-- ===== src/Cipher/Stream/Chunk.antt =====
-- One call of aead_cryptor::decrypt, on a chunk of the stream.
use imconee.Common.{
  ℕ, ◌+◌, ◌-◌, ◌≤◌, ◌<◌, ◌≡◌, refl, sym, ap, ◌∙◌, ◌⊎◌, inl, inr, true, false, List, [], ◌∷◌, ◌++◌,
  ltb, ltb→lt, ltb→ge, lt→ltb, ge→ltb, slice, length, take, drop, arith, length-drop, length-append,
  take-append_le, drop-append_le, drop-append_ge, take_all, drop-drop, Bool-cases, append_assoc,
}
use imconee.Net.Order.{to_ne, store_u16, to_ne_bytes}
use imconee.Cipher.Nonce.{nonce_increment}
use imconee.Cipher.Mode.{AeadPair, tag_size}
use imconee.Cipher.Filter.{process, process_refines, process_short}
use imconee.Cipher.Encipher.{chunk_size_mask}
use imconee.Cipher.Frames.{IsPayload, size_block, frame, length-size_block}
use imconee.Cipher.Decipher.{
  Outcome, returned, not_ready, passed, Pass, accept_u16, decode, accept_payload, read_payload,
  accept_size, decrypt,
}

-- `a` comes next behind `from` in what is received, `V`, with what is still to come.
pub next_bytes :
    (V rest a t : List ℕ) (from : ℕ)
    → drop from V ++ rest ≡ a ++ t
    → length a ≤ length V - from
    → (slice from (length a) V ≡ a) × (drop (from + length a) V ++ rest ≡ t)
next_bytes V rest a t from e h =
    let fits : length a ≤ length (drop from V) = omega (arith, length-drop from V) in
    (
      sym (take-append_le (length a) (drop from V) rest fits)
          ∙ ap (take (length a)) e
          ∙ take-append_le (length a) a t (omega arith)
          ∙ take_all (length a) a (omega arith),
      ap (λ k. k ++ rest) (sym (drop-drop (length a) from V))
          ∙ sym (drop-append_le (length a) (drop from V) rest fits)
          ∙ ap (drop (length a)) e
          ∙ drop-append_ge (length a) a t (omega arith)
          ∙ ap (λ k. drop k t) {y = 0} (omega arith),
    )

module _ (c : AeadPair) where
  -- A sealed message that is received is decrypted.
  decode-seal :
      (V iv bytes : List ℕ) (from n : ℕ)
      → n ≡ length bytes
      → n + tag_size ≤ length V - from
      → slice from (length (c.seal iv bytes)) V ≡ c.seal iv bytes
      → decode c.dec V iv from n ≡ passed (process c.dec iv (c.seal iv bytes))
  unfolding decode
  decode-seal V iv bytes from n k h e =
      let cut : slice from (n + tag_size) V ≡ c.seal iv bytes =
        ap (λ (i : ℕ). slice from i V) {x = n + tag_size} {y = length (c.seal iv bytes)}
          (omega (arith, k, c.length-seal iv bytes))
        ∙ e in
      rw (ge→ltb (length V - from) (n + tag_size) h) (ap (λ t. passed (process c.dec iv t)) cut)

  -- The nonce and the pending length while the chunk of the payload `p` comes next behind `from`: its
  -- length may be decrypted already.
  abbrev pub Awaits : List ℕ → ℕ → List ℕ → List ℕ → List ℕ → ℕ → Type 0
  Awaits V from n p iv pending =
      ((pending ≡ 0) × (iv ≡ n))
      ⊎ ((pending ≡ length p) × (iv ≡ nonce_increment n) × (18 ≤ length V - from))

  decode_short :
      (V iv : List ℕ) (from : ℕ)
      → ltb (length V - from) (2 + tag_size) ≡ true
      → decode c.dec V iv from 2 ≡ not_ready
  unfolding decode
  decode_short V iv from h = rw h refl

  -- What a call leaves: it waits for the rest of the chunk, or has read the payload.
  pub data Step (V n p : List ℕ) (from : ℕ) (plain : List ℕ) : Outcome × Pass → Type 0 where
    waits :
        (iv : List ℕ) (pending : ℕ)
        → Awaits V from n p iv pending
        → length V - from < length (frame c n p)
        → Step V n p from plain
            (returned 0, record { iv = iv; pending = pending; from = from; plain = plain })
    reads :
        (iv : List ℕ) (next : ℕ) (out : List ℕ)
        → iv ≡ nonce_increment (nonce_increment n)
        → next ≡ from + length (frame c n p)
        → next ≤ length V
        → out ≡ p
        → Step V n p from plain (
          returned (length p),
          record { iv = iv; pending = length p; from = next; plain = plain ++ out },
        )

  pub length-frame : (n p : List ℕ) → length (frame c n p) ≡ 18 + (length p + tag_size)
  length-frame n p = omega (
    arith,
    length-append (size_block c n p) (c.seal (nonce_increment n) p),
    length-size_block c n p,
    c.length-seal (nonce_increment n) p,
  )

  -- The second half of a call, with the length of the chunk known.
  read_payload-Step :
      (V rest n p t : List ℕ) (s : Pass) (cur : ℕ)
      → s.iv ≡ nonce_increment n
      → s.pending ≡ length p
      → cur ≡ s.from + 18
      → 18 ≤ length V - s.from
      → drop cur V ++ rest ≡ c.seal (nonce_increment n) p ++ t
      → Step V n p s.from s.plain (read_payload c.dec V s cur)
  unfolding read_payload accept_payload
  read_payload-Step V rest n p t s cur iv pending at long e =
      let inc = nonce_increment n in
      let sealed = c.length-seal inc p in
      elim (Bool-cases (ltb (length V - cur) (length p + tag_size))) [
        | inl short ↦
            rw (pending, iv, short)
              (waits inc (length p) (inr (refl, refl, long)) (
                omega (
                  arith,
                  at,
                  length-frame n p,
                  ltb→lt (length V - cur) (length p + tag_size) short,
                )))
        | inr enough ↦
            let fits = ltb→ge (length V - cur) (length p + tag_size) enough in
            let b = next_bytes V rest (c.seal inc p) t cur e (omega (arith, sealed, fits)) in
            let d = decode-seal V inc p cur (length p) refl fits b.0 in
            let f = process_refines c.dec inc (c.seal inc p) p (c.dec-seal inc p) in
            rw (pending, iv, enough, d, f.1)
              (reads (nonce_increment inc) (cur + length p + tag_size) _ refl
                (omega (arith, at, length-frame n p)) (omega (arith, at, long, fits)) f.0)
      ]

  -- The length of a chunk goes through the filter in one piece.
  size_block-process :
      (n p : List ℕ)
      → process c.dec n (size_block c n p)
        ≡ record { sends = store_u16 (to_ne (length p)) ∷ []; thrown = false }
  size_block-process n p =
      process_short c.dec n (size_block c n p) (store_u16 (to_ne (length p)))
        (omega (arith, length-size_block c n p, c.dec.granularity_lt, c.dec_final))
        (c.dec-seal n (store_u16 (to_ne (length p))))

  -- The first half, where no length is pending.
  accept_size-Step :
      (V rest n p t : List ℕ) (s : Pass)
      → IsPayload p
      → s.iv ≡ n
      → s.pending ≡ 0
      → drop s.from V ++ rest ≡ frame c n p ++ t
      → Step V n p s.from s.plain (accept_size c.dec V s (decode c.dec V s.iv s.from 2))
  unfolding accept_size accept_u16 read_payload accept_payload
  accept_size-Step V rest n p t s v iv pending e =
      elim (Bool-cases (ltb (length V - s.from) (2 + tag_size))) [
        | inl short ↦ rw (decode_short V s.iv s.from short) (
            waits s.iv s.pending (inl (pending, iv))
              (omega (arith, length-frame n p, ltb→lt (length V - s.from) (2 + tag_size) short)))
        | inr enough ↦
            let fits = ltb→ge (length V - s.from) (2 + tag_size) enough in
            let b =
              next_bytes V rest (size_block c n p) (c.seal (nonce_increment n) p ++ t) s.from
                (e ∙ append_assoc (size_block c n p) (c.seal (nonce_increment n) p) t)
                (omega (arith, length-size_block c n p, fits)) in
            let d = decode-seal V n (store_u16 (to_ne (length p))) s.from 2 two_bytes fits b.0 in
            let size = (to_ne_bytes (length p) (omega (arith, v.1))).1 in
            let small = ge→ltb chunk_size_mask (length p) v.1 in
            let q = record s { iv = nonce_increment n; pending = length p } in
            let behind =
              ap (λ (k : ℕ). drop k V ++ rest) {x = s.from + 18}
                (omega (arith, length-size_block c n p))
              ∙ b.1 in
            rw (iv, d, size_block-process n p, size, small)
              (read_payload-Step V rest n p t q (s.from + 18) refl refl refl fits behind)
      ]
    where
      two_bytes : 2 ≡ length (store_u16 (to_ne (length p)))
      two_bytes = unfold store_u16 in refl

  -- A call, where the chunk of the payload `p` comes next.
  pub decrypt-Step :
      (V rest n p t : List ℕ) (s : Pass)
      → IsPayload p
      → Awaits V s.from n p s.iv s.pending
      → (s.from ≡ 0) ⊎ (s.pending ≡ 0)
      → drop s.from V ++ rest ≡ frame c n p ++ t
      → Step V n p s.from s.plain (decrypt c.dec V s)
  unfolding decrypt
  decrypt-Step V rest n p t s v (inl fresh) start e =
      let none : ltb 0 s.pending ≡ false = ge→ltb 0 s.pending (omega (arith, fresh.0)) in
      rw none (accept_size-Step V rest n p t s v fresh.1 fresh.0 e)
  decrypt-Step V rest n p t s v (inr half) start e =
      let some_left : ltb 0 s.pending ≡ true = lt→ltb 0 s.pending (omega (arith, half.0, v.0)) in
      let at : 18 ≡ s.from + 18 = ground (arith, start, half.0, v.0) in
      let b =
        next_bytes V rest (size_block c n p) (c.seal (nonce_increment n) p ++ t) s.from
          (e ∙ append_assoc (size_block c n p) (c.seal (nonce_increment n) p) t)
          (omega (arith, length-size_block c n p, half.2)) in
      let behind =
        ap (λ (k : ℕ). drop k V ++ rest) {x = 18} (omega (arith, length-size_block c n p, at))
        ∙ b.1 in
      rw some_left (read_payload-Step V rest n p t s 18 half.1 half.0 at half.2 behind)
