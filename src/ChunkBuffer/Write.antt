-- ===== src/ChunkBuffer/Write.antt =====
-- chunk_buffer::append puts its data behind the bytes held.
mod Chain
use imconee.Common.{
  length-copy_at, ℕ, zero, suc, ◌+◌, ◌-◌, ◌≤◌, ◌<◌, ◌≡◌, ◌≢◌, refl, sym, ap, ◌∙◌, ◌⊎◌, inl, inr,
  List, [], ◌∷◌, ◌++◌, min, arith, length, take, drop, slice, copy_at, All, replicate,
  length-replicate, length-append, length-take, length-drop, slice-append, slice-copy_at_self,
  slice-copy_at_before, append_assoc, append-nil, take-append-drop, take_all, drop-append_le,
  Bool-cases, ◌==◌, if◌then◌else◌,
}
use mathlib.Core.Path.{subst}
use imconee.ChunkBuffer.{
  ChunkBuffer, store_at, link_after, append_round, append_loop, with_first, append, new_chunk,
  first_size, used,
}
use imconee.ChunkBuffer.Bounds.{stored, contents, IsValid, unread-lt, skip-le-stored}
use Chain.{
  stored-store_at, store_at-arrays, length-store_at, stored-link_after, link_after-arrays,
  length-link_after,
}

module _ (size : ℕ) where
  -- A buffer with a chunk to write to.
  record IsOpen (b : ChunkBuffer) : Type 0 where
    arrays : All (λ c. length c ≡ size) b.chunks
    last_in : b.last + 1 ≡ length b.chunks
    last_fits : b.last_size ≤ size

  -- `b` has become `b'` by taking in `bytes`.
  record Took (b b' : ChunkBuffer) (bytes : List ℕ) : Type 0 where
    is_open : IsOpen b'
    held : stored b'.chunks b'.last b'.last_size ≡ stored b.chunks b.last b.last_size ++ bytes
    skipped : b'.first_skip ≡ b.first_skip

  length-cpy :
      (b : ChunkBuffer) (bytes : List ℕ)
      → b.last_size ≤ size
      → length (take (min (size - b.last_size) (length bytes)) bytes)
        ≡ min (size - b.last_size) (length bytes)
  length-cpy b bytes h = omega (arith, length-take (min (size - b.last_size) (length bytes)) bytes)

  append_round-Took :
      (b : ChunkBuffer) (bytes : List ℕ)
      → IsOpen b
      → Took b (append_round size b bytes) (take (min (size - b.last_size) (length bytes)) bytes)
  unfolding append_round
  append_round-Took b bytes o =
      let cpy = min (size - b.last_size) (length bytes) in
      let cs = store_at b.chunks b.last b.last_size (take cpy bytes) in
      let n = length-cpy b bytes o.last_fits in
      let fits : b.last_size + length (take cpy bytes) ≤ size = omega (arith, n, o.last_fits) in
      let len = length-store_at size b.chunks b.last b.last_size (take cpy bytes) in
      let arrays =
        store_at-arrays size b.chunks b.last b.last_size (take cpy bytes) o.arrays fits in
      let held =
        stored-store_at size b.chunks b.last b.last_size (take cpy bytes) o.arrays o.last_in fits in
      elim (Bool-cases (b.last_size + cpy == size)) [
        | inl full ↦ rw full (record {
          is_open = record {
            arrays =
                link_after-arrays size cs b.last (new_chunk size) arrays (length-replicate size 0);
            last_in = omega (
              arith,
              length-link_after size cs b.last (new_chunk size) (omega (arith, len, o.last_in)),
              o.last_in,
              len,
            );
            last_fits = omega arith;
          };
          held = ground (
            arith,
            held,
            n,
            stored-link_after size cs b.last (new_chunk size) arrays
                (omega (arith, len, o.last_in)),
          );
          skipped = refl;
        })
        | inr room ↦ rw room (record {
          is_open = record {
            arrays = arrays;
            last_in = omega (arith, len, o.last_in);
            last_fits = omega (arith, n, fits);
          };
          held = ground (arith, held, n);
          skipped = refl;
        })
      ]

  append_round-room :
      (b : ChunkBuffer) (bytes : List ℕ)
      → 0 < size
      → b.last_size ≤ size
      → (append_round size b bytes).last_size < size
  unfolding append_round
  append_round-room b bytes pos h = ground arith

  Took-trans :
      {a b c : ChunkBuffer} (xs ys : List ℕ) → Took a b xs → Took b c ys → Took a c (xs ++ ys)
  Took-trans {a} xs ys s t = record {
    is_open = t.is_open;
    held = ground (arith, s.held, t.held, append_assoc (stored a.chunks a.last a.last_size) xs ys);
    skipped = t.skipped ∙ s.skipped;
  }

  -- The rounds that the loop is given are enough: all of `bytes` is taken in.
  append_loop-Took :
      (fuel : ℕ) (b : ChunkBuffer) (bytes : List ℕ)
      → 0 < size
      → IsOpen b
      → length bytes ≤ fuel
      → (b.last_size < size) ⊎ (length bytes < fuel)
      → Took b (append_loop size fuel b bytes) bytes
  unfolding append_loop
  append_loop-Took zero b [] pos o h r = record {
    is_open = o;
    held = sym (append-nil _);
    skipped = refl;
  }
  append_loop-Took zero b (x ∷ xs) pos o h r = absurd (omega arith)
  append_loop-Took (suc fuel) b [] pos o h r = record {
    is_open = o;
    held = sym (append-nil _);
    skipped = refl;
  }
  append_loop-Took (suc fuel) b (x ∷ xs) pos o h r =
      let cpy = min (size - b.last_size) (length (x ∷ xs)) in
      let round = append_round-Took b (x ∷ xs) o in
      let n = length-drop cpy (x ∷ xs) in
      subst (Took b (append_loop size fuel (append_round size b (x ∷ xs)) (drop cpy (x ∷ xs))))
        (take-append-drop cpy (x ∷ xs))
        (Took-trans (take cpy (x ∷ xs)) (drop cpy (x ∷ xs)) round (
          append_loop-Took fuel (append_round size b (x ∷ xs)) (drop cpy (x ∷ xs)) pos round.is_open
            (omega (arith, n)) (inl (append_round-room b (x ∷ xs) pos o.last_fits))))

  with_first-Took_of :
      (cs : List (List ℕ)) (l fs ls : ℕ)
      → let b : ChunkBuffer = record { chunks = cs; last = l; first_skip = fs; last_size = ls } in
        IsValid size b → Took b (with_first size b) []
  unfolding with_first
  with_first-Took_of [] l fs ls v = record {
    is_open = record {
      arrays = (length-replicate size 0, tt);
      last_in = refl;
      last_fits = omega arith;
    };
    held = refl;
    skipped = refl;
  }
  with_first-Took_of (c ∷ cs) l fs ls v = record {
    is_open = record {
      arrays = v.chain.arrays;
      last_in = v.chain.last_in (λ e. cc);
      last_fits = v.chain.last_fits;
    };
    held = sym (append-nil _);
    skipped = refl;
  }

  length-stored_single : (cs : List (List ℕ)) (l ls : ℕ) → l ≡ 0 → length (stored cs l ls) ≤ ls
  length-stored_single [] l ls e = omega arith
  length-stored_single (c ∷ cs) zero ls e = omega (arith, length-take ls c)
  length-stored_single (c ∷ cs) (suc l) ls e = absurd (omega arith)

  lt-used : {fs : ℕ} (l ls : ℕ) → fs < size → (l ≡ 0 → fs < ls) → fs < used size l ls
  lt-used zero ls h k = k refl
  lt-used (suc l) ls h k = h

  still_unread :
      (b b' : ChunkBuffer) (bytes : List ℕ)
      → IsValid size b
      → Took b b' bytes
      → (b'.first_skip ≡ 0) ⊎ ((b'.chunks ≢ []) × (b'.first_skip < first_size size b'))
  still_unread b b' bytes v t = elim v.unread [
    | inl z ↦ inl (t.skipped ∙ z)
    | inr u ↦ inr (
      λ e. absurd (omega (arith, ap length e, t.is_open.last_in)),
      lt-used b'.last b'.last_size
          (omega (
            arith,
            t.skipped,
            unread-lt size b.chunks b.last b.last_size b.first_skip v.chain u.0 u.1,
          ))
          (λ e. omega (
            arith,
            t.skipped,
            unread-lt size b.chunks b.last b.last_size b.first_skip v.chain u.0 u.1,
            length-stored_single b'.chunks b'.last b'.last_size e,
            ap length t.held,
            length-append (stored b.chunks b.last b.last_size) bytes,
          )),
    )
  ]

  Took-refines :
      (b b' : ChunkBuffer) (bytes : List ℕ)
      → IsValid size b
      → Took b b' bytes
      → (contents b' ≡ contents b ++ bytes) × IsValid size b'
  Took-refines b b' bytes v t = (
    rw (t.held, t.skipped)
        (drop-append_le b.first_skip (stored b.chunks b.last b.last_size) bytes
          (skip-le-stored size b v)),
    record {
      chain = record {
        arrays = t.is_open.arrays;
        last_in = λ _. t.is_open.last_in;
        last_fits = t.is_open.last_fits;
      };
      unread = still_unread b b' bytes v t;
    },
  )

-- Appending puts the data behind the bytes held, and keeps the invariant.
pub append_refines :
    (size : ℕ) {b : ChunkBuffer} (bytes : List ℕ)
    → 0 < size
    → IsValid size b
    → (contents (append size b bytes) ≡ contents b ++ bytes) × IsValid size (append size b bytes)
unfolding append
append_refines size {b} bytes pos v =
    let first = with_first-Took_of size b.chunks b.last b.first_skip b.last_size v in
    Took-refines size b _ bytes v (
      Took-trans size [] bytes first (
        append_loop-Took size (length bytes + 1) (with_first size b) bytes pos first.is_open
          (omega arith) (inr (omega arith))))
