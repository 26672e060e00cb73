-- ===== src/Arena/Undo.antt =====
-- `mf` of source/imconee/mem.cpp undoes `ma`.
use mathlib.Core.Path.{subst}
use imconee.Common.{ℕ, ◌+◌, ◌^◌, ◌<◌, ◌≡◌, ◌⊎◌, inl, inr, refl, sym, IsByte, arith}
use imconee.Arena.{Mem, load_int, store_int, block}
use imconee.Arena.Levels.{Libc, State, ma, mf, Layout, Elsewhere}
use imconee.Arena.Place.{Served, by_arena8, by_arena32, by_arena64, by_malloc, ma-Served}
use imconee.Arena.Resize.{free_stores, outside_not_here, here8_32, here8_64, here32_64}

store_int-load_int :
    (mem : Mem) (p x : ℕ) → ((y : ℕ) → IsByte (mem y)) → store_int mem p (load_int mem p) x ≡ mem x
store_int-load_int mem p x bytes =
    let b0 = bytes p in
    let b1 = bytes (p + 1) in let b2 = bytes (p + 2) in let b3 = bytes (p + 3) in ground arith

-- The lists of free blocks and the memory of two states are the same.
pub record SameArenas {H : Type 0} (s t : State H) : Type 0 where
  pub arena8 : t.arena8 ≡ s.arena8
  pub arena32 : t.arena32 ≡ s.arena32
  pub arena64 : t.arena64 ≡ s.arena64
  pub mem : (x : ℕ) → t.mem x ≡ s.mem x

module _ {H : Type 0} (libc : Libc H) (s : State H) (layout : Layout s) where
  record Undone (size : ℕ) (t : State H) : Type 0 where
    pub arenas : SameArenas s t
    pub heap :
        (t.heap ≡ s.heap)
        ⊎ (t.heap ≡ libc.free (libc.malloc s.heap size).1 (libc.malloc s.heap size).0)

  link_again :
      ((y : ℕ) → IsByte (s.mem y))
      → (size p : ℕ) → Undone size (record s { mem = store_int s.mem p (load_int s.mem p) })
  link_again bytes size p = record {
    arenas = record {
      arena8 = refl;
      arena32 = refl;
      arena64 = refl;
      mem = λ x. store_int-load_int s.mem p x bytes;
    };
    heap = inl refl;
  }

  Served-Undone :
      (size : ℕ) (r : ℕ × State H)
      → ((y : ℕ) → IsByte (s.mem y))
      → Elsewhere s (libc.malloc s.heap size).0 1
      → (libc.malloc s.heap size).0 < 2 ^ 64
      → Served libc s size r
      → Undone size (mf libc r.1 r.0)
  Served-Undone size r bytes out lp (by_arena8 le lt) =
      let i = s.arena8.ff in
      let p = block 8 1024 s.arena8.buf i in
      let a = record s.arena8 { ff = load_int s.mem p } in
      let f = free_stores 8 1024 a layout.fits8 (omega arith) s.mem i lt in
      let back : mf libc (record s { arena8 = a }) p
          ≡ record s { mem = store_int s.mem p (load_int s.mem p) } =
        rw (f) refl in
      subst (Undone size) (sym back) (link_again bytes size p)
  Served-Undone size r bytes out lp (by_arena32 le lt) =
      let i = s.arena32.ff in
      let p = block 32 2048 s.arena32.buf i in
      let a = record s.arena32 { ff = load_int s.mem p } in
      let o8 = here8_32 s layout i lt in
      let f = free_stores 32 2048 a layout.fits32 (omega arith) s.mem i lt in
      let back : mf libc (record s { arena32 = a }) p
          ≡ record s { mem = store_int s.mem p (load_int s.mem p) } =
        rw (o8, f) refl in
      subst (Undone size) (sym back) (link_again bytes size p)
  Served-Undone size r bytes out lp (by_arena64 le lt) =
      let i = s.arena64.ff in
      let p = block 64 2048 s.arena64.buf i in
      let a = record s.arena64 { ff = load_int s.mem p } in
      let o8 = here8_64 s layout i lt in
      let o32 = here32_64 s layout i lt in
      let f = free_stores 64 2048 a layout.fits64 (omega arith) s.mem i lt in
      let back : mf libc (record s { arena64 = a }) p
          ≡ record s { mem = store_int s.mem p (load_int s.mem p) } =
        rw (o8, o32, f) refl in
      subst (Undone size) (sym back) (link_again bytes size p)
  Served-Undone size r bytes out lp by_malloc =
      let m = libc.malloc s.heap size in
      let o8 = outside_not_here 8 1024 s.arena8 layout.fits8 (omega arith) m.0 lp (ground arith) in
      let o32 =
        outside_not_here 32 2048 s.arena32 layout.fits32 (omega arith) m.0 lp (ground arith) in
      let o64 =
        outside_not_here 64 2048 s.arena64 layout.fits64 (omega arith) m.0 lp (ground arith) in
      let back : mf libc (record s { heap = m.1 }) m.0 ≡ record s { heap = libc.free m.1 m.0 } =
        rw (o8, o32, o64) refl in
      subst (Undone size) (sym back) (record {
        arenas = record { arena8 = refl; arena32 = refl; arena64 = refl; mem = λ x. refl };
        heap = inr refl;
      })

  -- Where the buffers lie apart and malloc returns memory outside of them, mf of what ma has returned
  -- leaves every arena and the memory as they were before ma, and the allocator of the C library as it
  -- was, or as it is after its own malloc and free.
  pub mf-ma :
      (size : ℕ)
      → ((y : ℕ) → IsByte (s.mem y))
      → Elsewhere s (libc.malloc s.heap size).0 1
      → (libc.malloc s.heap size).0 < 2 ^ 64
      → let r = ma libc s size in
        let t = mf libc r.1 r.0 in
        let m = libc.malloc s.heap size in
        SameArenas s t × ((t.heap ≡ s.heap) ⊎ (t.heap ≡ libc.free m.1 m.0))
  mf-ma size bytes out lp =
      let u = Served-Undone size (ma libc s size) bytes out lp (ma-Served libc s size) in
      (u.arenas, u.heap)
