-- ===== src/Arena/Resize.antt =====
-- `rs` of source/imconee/mem.cpp keeps what the block holds.
use imconee.Common.{
  ℕ, ◌+◌, ◌*◌, ◌^◌, ◌<◌, ◌≤◌, ◌≡◌, ◌⊎◌, inl, inr, refl, ap, ◌∙◌, true, false, leb, leb→gt, le→leb,
  lt→ltb, Bool-cases, arith,
}
use imconee.Arena.{Mem, Arena, store_int, block, here, index_of, free}
use imconee.Arena.Memory.{store_int_outside}
use imconee.Arena.Blocks.{index_of-block, here_iff}
use imconee.Arena.Levels.{Libc, State, memcpy, ma, move8, move32, move64, rs, Layout, Elsewhere}
use imconee.Arena.Place.{Served, by_arena8, by_arena32, by_arena64, by_malloc, ma-Served}

-- The block is written to one side of the old one, which then becomes a link.
moved :
    (mem : Mem) (np p n k v : ℕ)
    → k < n
    → (np + n ≤ p) ⊎ (p + 4 ≤ np)
    → store_int (memcpy mem np p n) p v (np + k) ≡ mem (p + k)
moved mem np p n k v lt apart =
    store_int_outside (memcpy mem np p n) p v (np + k) (ground arith)
    ∙ rw (le→leb np (np + k) (omega arith), lt→ltb (np + k) (np + n) (omega arith))
        (ap (λ d. mem (p + d)) (omega arith))

module _ (elsz arsz : ℕ) (a : Arena) (fits : a.buf + elsz * arsz ≤ 2 ^ 64) (pos : 0 < elsz) where
  block_index : (i : ℕ) → i < arsz → index_of elsz arsz a (block elsz arsz a.buf i) ≡ i
  block_index i lt =
      ap (index_of elsz arsz a) {y = block elsz arsz a.buf i + 0} (omega arith)
      ∙ index_of-block elsz arsz a fits i 0 lt pos

  pub here-block : (i : ℕ) → i < arsz → here elsz arsz a (block elsz arsz a.buf i) ≡ true
  here-block i lt = rw (block_index i lt) (lt→ltb i arsz lt)

  pub outside_not_here :
      (p : ℕ) → p < 2 ^ 64 → (p < a.buf) ⊎ (a.buf + elsz * arsz ≤ p) → here elsz arsz a p ≡ false
  outside_not_here p lp out = elim (Bool-cases (here elsz arsz a p)) [
    | inl h ↦ let (ge, lt) = (here_iff elsz arsz a fits p lp pos).0 h in absurd (ground arith)
    | inr h ↦ h
  ]

  pub free_stores :
      (mem : Mem) (i : ℕ)
      → i < arsz
      → free elsz arsz a mem (block elsz arsz a.buf i)
        ≡ (true, record a { ff = i }, store_int mem (block elsz arsz a.buf i) a.ff)
  free_stores mem i lt = rw (here-block i lt, block_index i lt) refl

module _ {H : Type 0} (libc : Libc H) (s : State H) (layout : Layout s) (size : ℕ)
    (apart : Elsewhere s (libc.malloc s.heap size).0 size) where
  move8_keeps :
      (r : ℕ × State H)
      → Served libc s size r
      → 8 < size
      → (i k : ℕ) → i < 1024
      → k < 8
      → let p = block 8 1024 s.arena8.buf i in
        let q = move8 libc r p in q.1.mem (q.0 + k) ≡ s.mem (p + k)
  move8_keeps r (by_arena8 le left_over) gt i k li lk = absurd (omega arith)
  move8_keeps r (by_arena32 le left_over) gt i k li lk =
      let side = layout.apart8_32 in
      rw (free_stores 8 1024 s.arena8 layout.fits8 (omega arith) _ i li)
        (moved s.mem _ (block 8 1024 s.arena8.buf i) 8 k s.arena8.ff lk (ground arith))
  move8_keeps r (by_arena64 le left_over) gt i k li lk =
      let side = layout.apart8_64 in
      rw (free_stores 8 1024 s.arena8 layout.fits8 (omega arith) _ i li)
        (moved s.mem _ (block 8 1024 s.arena8.buf i) 8 k s.arena8.ff lk (ground arith))
  move8_keeps r by_malloc gt i k li lk =
      rw (free_stores 8 1024 s.arena8 layout.fits8 (omega arith) _ i li)
        (moved s.mem _ (block 8 1024 s.arena8.buf i) 8 k s.arena8.ff lk (ground arith))

  move32_keeps :
      (r : ℕ × State H)
      → Served libc s size r
      → 32 < size
      → (i k : ℕ) → i < 2048
      → k < 32
      → let p = block 32 2048 s.arena32.buf i in
        let q = move32 libc r p in q.1.mem (q.0 + k) ≡ s.mem (p + k)
  move32_keeps r (by_arena8 le left_over) gt i k li lk = absurd (omega arith)
  move32_keeps r (by_arena32 le left_over) gt i k li lk = absurd (omega arith)
  move32_keeps r (by_arena64 le left_over) gt i k li lk =
      let side = layout.apart32_64 in
      rw (free_stores 32 2048 s.arena32 layout.fits32 (omega arith) _ i li)
        (moved s.mem _ (block 32 2048 s.arena32.buf i) 32 k s.arena32.ff lk (ground arith))
  move32_keeps r by_malloc gt i k li lk =
      rw (free_stores 32 2048 s.arena32 layout.fits32 (omega arith) _ i li)
        (moved s.mem _ (block 32 2048 s.arena32.buf i) 32 k s.arena32.ff lk (ground arith))

  move64_keeps :
      (r : ℕ × State H)
      → Served libc s size r
      → 64 < size
      → (i k : ℕ) → i < 2048
      → k < 64
      → let p = block 64 2048 s.arena64.buf i in
        let q = move64 libc r p in q.1.mem (q.0 + k) ≡ s.mem (p + k)
  move64_keeps r (by_arena8 le left_over) gt i k li lk = absurd (omega arith)
  move64_keeps r (by_arena32 le left_over) gt i k li lk = absurd (omega arith)
  move64_keeps r (by_arena64 le left_over) gt i k li lk = absurd (omega arith)
  move64_keeps r by_malloc gt i k li lk =
      rw (free_stores 64 2048 s.arena64 layout.fits64 (omega arith) _ i li)
        (moved s.mem _ (block 64 2048 s.arena64.buf i) 64 k s.arena64.ff lk (ground arith))

module _ {H : Type 0} (s : State H) where
  -- `p` is a block of an arena, with so many bytes.
  pub data IsBlock : ℕ → ℕ → Type 0 where
    of_arena8 : (i : ℕ) → i < 1024 → IsBlock (block 8 1024 s.arena8.buf i) 8
    of_arena32 : (i : ℕ) → i < 2048 → IsBlock (block 32 2048 s.arena32.buf i) 32
    of_arena64 : (i : ℕ) → i < 2048 → IsBlock (block 64 2048 s.arena64.buf i) 64

module _ {H : Type 0} (s : State H) (layout : Layout s) where
  pub here8_32 : (i : ℕ) → i < 2048 → here 8 1024 s.arena8 (block 32 2048 s.arena32.buf i) ≡ false
  here8_32 i lt =
      let side = layout.apart8_32 in
      let f = layout.fits32 in
      outside_not_here 8 1024 s.arena8 layout.fits8 (omega arith) (block 32 2048 s.arena32.buf i)
        (omega arith) (ground arith)

  pub here8_64 : (i : ℕ) → i < 2048 → here 8 1024 s.arena8 (block 64 2048 s.arena64.buf i) ≡ false
  here8_64 i lt =
      let side = layout.apart8_64 in
      let f = layout.fits64 in
      outside_not_here 8 1024 s.arena8 layout.fits8 (omega arith) (block 64 2048 s.arena64.buf i)
        (omega arith) (ground arith)

  pub here32_64 :
      (i : ℕ) → i < 2048 → here 32 2048 s.arena32 (block 64 2048 s.arena64.buf i) ≡ false
  here32_64 i lt =
      let side = layout.apart32_64 in
      let f = layout.fits64 in
      outside_not_here 32 2048 s.arena32 layout.fits32 (omega arith) (block 64 2048 s.arena64.buf i)
        (omega arith) (ground arith)

-- The state in which `q` is the result, read behind the result.
abbrev byte_of : {H : Type 0} → ℕ × State H → ℕ → ℕ
byte_of q k = q.1.mem (q.0 + k)

module _ {H : Type 0} (libc : Libc H) (s : State H) where
  -- For a block of an arena, where the buffers lie apart and malloc returns memory outside of them, rs
  -- returns memory that begins with what the block held, up to the whole length of the block, whatever
  -- the new size is.
  pub rs_keeps :
      (p n size k : ℕ)
      → Layout s
      → Elsewhere s (libc.malloc s.heap size).0 size
      → IsBlock s p n
      → k < n
      → let q = rs libc s p size in q.1.mem (q.0 + k) ≡ s.mem (p + k)
  rs_keeps _ _ size k layout apart (of_arena8 i lt) lk =
      let p = block 8 1024 s.arena8.buf i in
      let h = here-block 8 1024 s.arena8 layout.fits8 (omega arith) i lt in
      elim (Bool-cases (leb size 8)) [
        | inl le ↦
            let stays : rs libc s p size ≡ (p, s) = rw (h, le) refl in ap (λ q. byte_of q k) stays
        | inr gt ↦
            let moves : rs libc s p size ≡ move8 libc (ma libc s size) p = rw (h, gt) refl in
            ap (λ q. byte_of q k) moves
            ∙ move8_keeps libc s layout size apart (ma libc s size) (ma-Served libc s size)
                (leb→gt size 8 gt) i k lt lk
      ]
  rs_keeps _ _ size k layout apart (of_arena32 i lt) lk =
      let p = block 32 2048 s.arena32.buf i in
      let o8 = here8_32 s layout i lt in
      let h = here-block 32 2048 s.arena32 layout.fits32 (omega arith) i lt in
      elim (Bool-cases (leb size 32)) [
        | inl le ↦
            let stays : rs libc s p size ≡ (p, s) = rw (o8, h, le) refl in
            ap (λ q. byte_of q k) stays
        | inr gt ↦
            let moves : rs libc s p size ≡ move32 libc (ma libc s size) p = rw (o8, h, gt) refl in
            ap (λ q. byte_of q k) moves
            ∙ move32_keeps libc s layout size apart (ma libc s size) (ma-Served libc s size)
                (leb→gt size 32 gt) i k lt lk
      ]
  rs_keeps _ _ size k layout apart (of_arena64 i lt) lk =
      let p = block 64 2048 s.arena64.buf i in
      let o8 = here8_64 s layout i lt in
      let o32 = here32_64 s layout i lt in
      let h = here-block 64 2048 s.arena64 layout.fits64 (omega arith) i lt in
      elim (Bool-cases (leb size 64)) [
        | inl le ↦
            let stays : rs libc s p size ≡ (p, s) = rw (o8, o32, h, le) refl in
            ap (λ q. byte_of q k) stays
        | inr gt ↦
            let moves : rs libc s p size ≡ move64 libc (ma libc s size) p =
              rw (o8, o32, h, gt) refl in
            ap (λ q. byte_of q k) moves
            ∙ move64_keeps libc s layout size apart (ma libc s size) (ma-Served libc s size)
                (leb→gt size 64 gt) i k lt lk
      ]
