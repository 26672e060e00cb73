-- ===== src/Cipher/Stream/Feed.antt =====
-- aead_cryptor::decipher, called with one piece of a stream after the other.
use mathlib.Core.Option.{some-injective}
use mathlib.Core.Path.{subst}
use imconee.Common.{
  ℕ, ◌+◌, ◌-◌, ◌≤◌, ◌<◌, ◌≡◌, refl, sym, ap, ◌∙◌, ◌⊎◌, inl, inr, Option, none, some, List, [], ◌∷◌,
  ◌++◌, length, drop, arith, All, length-drop, length-append, drop_all, append_assoc, append-nil,
}
use imconee.Cipher.Nonce.{nonce_increment}
use imconee.Cipher.Mode.{AeadPair, CipherMode}
use imconee.Cipher.Filter.{flatten}
use imconee.Cipher.SkipBuf.{
  SkipBuf, view, size, add, add_refines, erase_refines, clear, IsSkip, length-view,
}
use imconee.Cipher.Encipher.{Coded, encipher}
use imconee.Cipher.Encipher.Chunks.{encipher_refines}
use imconee.Cipher.Frames.{IsPayload, frame, frames, nonce_behind, nonce_behind-append}
use imconee.Cipher.Decipher.{
  Decryptor, Outcome, returned, corrupted, thrown, Pass, cut, finish, decipher,
}
use imconee.Cipher.Stream.Chunk.{length-frame}
use imconee.Cipher.Stream.Loop.{AwaitsAll, Stuck, Run, decrypt_loop-Run}

-- The calls for the pieces received, up to the first that fails.
resume :
    Outcome × Decryptor × List ℕ
    → (Decryptor → List ℕ → Option (Decryptor × List ℕ))
    → Option (Decryptor × List ℕ)
resume (returned n, d, plain) go = go d plain
resume (corrupted, d, plain) go = none
resume (thrown, d, plain) go = none

unfoldable pub feed :
    CipherMode → (ℕ → ℕ → ℕ) → Decryptor → List ℕ → List (List ℕ) → Option (Decryptor × List ℕ)
unfolding resume
feed dec grow d plain [] = some (d, plain)
feed dec grow d plain (x ∷ xs) =
    resume (decipher dec grow d plain x) (λ d' plain'. feed dec grow d' plain' xs)

pub flatten-append : (xs ys : List (List ℕ)) → flatten (xs ++ ys) ≡ flatten xs ++ flatten ys
flatten-append [] ys = refl
flatten-append (x ∷ xs) ys =
    ap (λ t. x ++ t) (flatten-append xs ys) ∙ sym (append_assoc x (flatten xs) (flatten ys))

pub later_payloads :
    (done left ps : List (List ℕ)) → done ++ left ≡ ps → All IsPayload ps → All IsPayload left
later_payloads done left ps e v = behind done (subst (All IsPayload) (sym e) v)
  where
    behind : (xs : List (List ℕ)) → All IsPayload (xs ++ left) → All IsPayload left
    behind [] a = a
    behind (x ∷ xs) a = behind xs a.1

module _ (c : AeadPair) where
  -- What is left of the buffer is what is behind the chunks read.
  cut-view :
      (u : SkipBuf) (decr from : ℕ)
      → IsSkip u
      → from ≤ length (view u)
      → ((decr ≡ 0) × (from ≡ 0)) ⊎ ((0 < from) × (0 < decr))
      → ((cut c.dec u decr from).0 ≡ returned decr)
        × (view (cut c.dec u decr from).1 ≡ drop from (view u))
        × IsSkip (cut c.dec u decr from).1
  unfolding cut clear
  cut-view u decr from k h m =
      ground (arith, length-view u, erase_refines u from, drop_all from (view u))

  -- The cryptor between two calls: what is in view and what is to come are the chunks `ps`, of which
  -- the first is not whole yet.
  pub record Waiting (d : Decryptor) (rest n : List ℕ) (ps : List (List ℕ)) : Type 0 where
    pub is_skip : IsSkip d.unprocessed
    pub behind : view d.unprocessed ++ rest ≡ frames c n ps
    pub awaits : AwaitsAll c (view d.unprocessed) 0 n ps d.iv d.last_block_payload_size
    pub stuck : Stuck c (view d.unprocessed) 0 n ps

  AwaitsAll-more :
      (V W n : List ℕ) (i j : ℕ) (ps : List (List ℕ)) (iv : List ℕ) (pending : ℕ)
      → length V - i ≤ length W - j
      → AwaitsAll c V i n ps iv pending
      → AwaitsAll c W j n ps iv pending
  AwaitsAll-more V W n i j [] iv pending h a = a
  AwaitsAll-more V W n i j (p ∷ ps) iv pending h (inl a) = inl a
  AwaitsAll-more V W n i j (p ∷ ps) iv pending h (inr a) = inr (a.0, a.1, omega (arith, a.2, h))

  Stuck-less :
      (V W n : List ℕ) (i j : ℕ) (ps : List (List ℕ))
      → length W - j ≤ length V - i
      → Stuck c V i n ps
      → Stuck c W j n ps
  Stuck-less V W n i j [] h k = tt
  Stuck-less V W n i j (p ∷ ps) h k = omega (arith, k, h)

  -- What a call leaves: it has read the payloads `done`.
  pub record Fed (rest n : List ℕ) (ps : List (List ℕ)) (plain : List ℕ)
      (r : Outcome × Decryptor × List ℕ) : Type 0 where
    pub done : List (List ℕ)
    pub left : List (List ℕ)
    pub next : Decryptor
    pub whole : done ++ left ≡ ps
    pub result : r ≡ (returned (length (flatten done)), next, plain ++ flatten done)
    pub waiting : Waiting next rest (nonce_behind n done) left

  finish-Fed :
      (u : SkipBuf) (rest n : List ℕ) (ps : List (List ℕ)) (plain : List ℕ) (r : Outcome × ℕ × Pass)
      → IsSkip u
      → Run c (view u) rest n ps 0 0 plain r
      → Fed rest n ps plain (finish c.dec u r)
  unfolding finish cut
  finish-Fed u rest n ps plain r k w =
      let last = w.last in
      let decr = length (flatten w.done) in
      let moved : ((decr ≡ 0) × (last.from ≡ 0)) ⊎ ((0 < last.from) × (0 < decr)) =
        moved_by w.done w.moved in
      let v = cut-view u decr last.from k w.in_view moved in
      let u' = (cut c.dec u decr last.from).1 in
      let next : Decryptor = record {
        iv = last.iv;
        unprocessed = u';
        last_block_payload_size = last.pending;
      } in
      let len : length (view u') ≡ length (view u) - last.from =
        ap length v.1 ∙ length-drop last.from (view u) in
      record {
        done = w.done;
        left = w.left;
        next = next;
        whole = w.whole;
        result =
            ap (finish c.dec u) w.result
            ∙ ap (λ (k : ℕ). finish c.dec u (returned 0, k, last)) {y = decr} (omega arith)
            ∙ ap (λ (o : Outcome). (o, next, last.plain)) v.0
            ∙ ap (λ (t : List ℕ). (returned decr, next, t)) w.plain_is;
        waiting = record {
          is_skip = v.2;
          behind = ap (λ t. t ++ rest) v.1 ∙ w.behind;
          awaits =
              AwaitsAll-more (view u) (view u') (nonce_behind n w.done) last.from 0 w.left last.iv
                last.pending (omega (arith, len)) w.awaits;
          stuck =
              Stuck-less (view u) (view u') (nonce_behind n w.done) last.from 0 w.left
                (omega (arith, len)) w.stuck;
        };
      }
    where
      moved_by :
          (done : List (List ℕ))
          → ((done ≡ []) × (w.last.from ≡ 0)) ⊎ ((0 < w.last.from) × (0 < length (flatten done)))
          → ((length (flatten done) ≡ 0) × (w.last.from ≡ 0))
            ⊎ ((0 < w.last.from) × (0 < length (flatten done)))
      moved_by done (inl m) = inl (ap (λ t. length (flatten t)) m.0, m.1)
      moved_by done (inr m) = inr m

  -- A call with the next piece of the stream.
  pub decipher-Fed :
      (grow : ℕ → ℕ → ℕ) (d : Decryptor) (plain piece rest n : List ℕ) (ps : List (List ℕ))
      → All IsPayload ps
      → Waiting d (piece ++ rest) n ps
      → Fed rest n ps plain (decipher c.dec grow d plain piece)
  unfolding decipher
  decipher-Fed grow d plain piece rest n ps v w =
      let u = add grow d.unprocessed piece in
      let a = add_refines grow d.unprocessed piece w.is_skip in
      let len : length (view u) ≡ length (view d.unprocessed) + length piece =
        ap length a.0 ∙ length-append (view d.unprocessed) piece in
      let start : Pass = record {
        iv = d.iv;
        pending = d.last_block_payload_size;
        from = 0;
        plain = plain;
      } in
      finish-Fed u rest n ps plain _ a.1 (
        decrypt_loop-Run c (view u) rest (size u + 1) n ps 0 start (omega (arith, length-view u)) v
          (AwaitsAll-more (view d.unprocessed) (view u) n 0 0 ps d.iv d.last_block_payload_size
            (omega (arith, len)) w.awaits)
          (inl refl) (omega arith)
          (ap (λ t. t ++ rest) a.0 ∙ append_assoc (view d.unprocessed) piece rest ∙ w.behind))

  -- Where nothing is to come, no chunk is left.
  pub Waiting-drained :
      (d : Decryptor) (n p : List ℕ) (ps : List (List ℕ)) → Waiting d [] n (p ∷ ps) → ⊥
  Waiting-drained d n p ps w =
      let e = sym (append-nil (view d.unprocessed)) ∙ w.behind in
      omega (
        arith,
        ap length e,
        w.stuck,
        length-append (frame c n p) (frames c (nonce_increment (nonce_increment n)) ps),
      )

  -- All the pieces.
  feed-Waiting :
      (grow : ℕ → ℕ → ℕ) (pieces : List (List ℕ)) (d : Decryptor) (plain n : List ℕ)
      (ps : List (List ℕ))
      → All IsPayload ps
      → Waiting d (flatten pieces) n ps
      → (d' : Decryptor) × (feed c.dec grow d plain pieces ≡ some (d', plain ++ flatten ps))
        × (d'.iv ≡ nonce_behind n ps)
  unfolding feed
  feed-Waiting grow [] d plain n [] v w =
      (d, ap (λ t. some (d, t)) (sym (append-nil plain)), w.awaits.1)
  feed-Waiting grow [] d plain n (p ∷ ps) v w = absurd (Waiting-drained d n p ps w)
  feed-Waiting grow (x ∷ xs) d plain n ps v w =
      let f = decipher-Fed grow d plain x (flatten xs) n ps v w in
      let ih =
        feed-Waiting grow xs f.next (plain ++ flatten f.done) (nonce_behind n f.done) f.left
          (later_payloads f.done f.left ps f.whole v) f.waiting in
      (
        ih.0,
        ap (λ r. resume r (λ d' plain'. feed c.dec grow d' plain' xs)) f.result
            ∙ ih.1
            ∙ ap (λ t. some (ih.0, t))
                (append_assoc plain (flatten f.done) (flatten f.left)
                  ∙ ap (λ t. plain ++ t) (sym (flatten-append f.done f.left) ∙ ap flatten f.whole)),
        ih.2 ∙ sym (nonce_behind-append n f.done f.left) ∙ ap (nonce_behind n) f.whole,
      )

-- A cryptor that has decrypted nothing.
abbrev pub new_decryptor : List ℕ → ℕ → Decryptor
new_decryptor iv cap = record {
  iv = iv;
  unprocessed = record { bytes = []; skip = 0; cap = cap };
  last_block_payload_size = 0;
}

pub start-Waiting :
    (c : AeadPair) (rest n : List ℕ) (ps : List (List ℕ)) (cap : ℕ)
    → rest ≡ frames c n ps
    → Waiting c (new_decryptor n cap) rest n ps
start-Waiting c rest n [] cap e = record {
  is_skip = omega arith;
  behind = e;
  awaits = (refl, refl);
  stuck = tt;
}
start-Waiting c rest n (p ∷ ps) cap e = record {
  is_skip = omega arith;
  behind = e;
  awaits = inl (refl, refl);
  stuck = omega (arith, length-frame c n p);
}

-- What encipher makes of a message that is not empty is read back by decipher as that message, in
-- whatever pieces it arrives, with no call failing, and both sides then have the same nonce.
pub decipher-encipher :
    (c : AeadPair) (grow : ℕ → ℕ → ℕ) (iv plain : List ℕ) (cap : ℕ) (out : Coded)
    (pieces : List (List ℕ))
    → 0 < length plain
    → encipher c.enc iv plain ≡ some out
    → flatten pieces ≡ out.out
    → (d : Decryptor) × (feed c.dec grow (new_decryptor iv cap) [] pieces ≡ some (d, plain))
      × (d.iv ≡ out.iv)
decipher-encipher c grow iv plain cap out pieces ne e whole =
    let (ps, coded, parts, fit) = encipher_refines c iv plain ne in
    let same : out ≡ record { out = frames c iv ps; iv = nonce_behind iv ps } =
      some-injective _ _ (sym e ∙ coded) in
    let r =
      feed-Waiting c grow pieces (new_decryptor iv cap) [] iv ps fit
        (start-Waiting c (flatten pieces) iv ps cap (whole ∙ ap (λ t. t.out) same)) in
    (r.0, r.1 ∙ ap (λ t. some (r.0, t)) parts, r.2 ∙ sym (ap (λ t. t.iv) same))
