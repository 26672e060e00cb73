-- ===== src/Arena/LastBlock.antt =====
-- Two calls of alloc for the last free block of an arena of source/imconee/mem.cpp: the test of the
-- list comes before the lock, and is not made again under it.
use imconee.Common.{
  ℕ, ◌+◌, ◌-◌, ◌%◌, ◌*◌, ◌^◌, ◌<◌, ◌≡◌, ◌≢◌, refl, sym, ap, ◌∙◌, Bool, true, false, ==_refl, lt→ltb,
  ge→ltb, arith,
}
use native.Mathlib.Nat.{mul-div_cancel_left}
use imconee.Arena.{load_int, block, here}
use imconee.Arena.Race.{
  Word, same, unlocked, locked_with, Pc, outside, alloc_read, alloc_lock, alloc_next, alloc_unlock,
  took, System, put, begin_alloc, advance, Reach, start, allocate, go,
}
use imconee.Arena.Exclusion.{put_mine, put_theirs}

-- `r` is `s` with another word and another place of thread `t`.
record After (s : System) (t : ℕ) (w : Word) (pc : Pc) (r : System) : Type 0 where
  pub ff : r.ff ≡ w
  pub mem : r.mem ≡ s.mem
  pub mine : r.threads t ≡ pc
  pub theirs : (j : ℕ) → j ≢ t → r.threads j ≡ s.threads j

After-put :
    (s : System) (t : ℕ) (w : Word) (pc : Pc) → After s t w pc (put (record s { ff = w }) t pc)
After-put s t w pc = record {
  ff = refl;
  mem = refl;
  mine = put_mine (record s { ff = w }) t pc;
  theirs = put_theirs (record s { ff = w }) t pc;
}

After-trans :
    {s r q : System} {t : ℕ} {w v : Word} {pc next : Pc}
    → After s t w pc r
    → After r t v next q
    → After s t v next q
After-trans a b = record {
  ff = b.ff;
  mem = b.mem ∙ a.mem;
  mine = b.mine;
  theirs = λ j ne. b.theirs j ne ∙ a.theirs j ne;
}

finds :
    (w : Word) (u : ℕ) (b : Bool)
    → w ≡ record { head = u; locked = b }
    → same w (record { head = u; locked = b }) ≡ true
finds w u true e = rw (e, ==_refl u) refl
finds w u false e = rw (e, ==_refl u) refl

module _ (elsz arsz buf : ℕ) where
  go_read :
      (s : System) (t u : ℕ)
      → s.ff ≡ unlocked u
      → s.threads t ≡ alloc_read
      → After s t (unlocked u) (alloc_lock u) (advance elsz arsz buf s t)
  go_read s t u w e =
      let h : s.ff.head ≡ u = ap (λ x. x.head) w in
      rw (e, ← w, ← h) (After-put s t s.ff (alloc_lock s.ff.head))

  go_lock :
      (s : System) (t u : ℕ)
      → s.ff ≡ unlocked u
      → s.threads t ≡ alloc_lock u
      → After s t (locked_with u) (alloc_next u) (advance elsz arsz buf s t)
  go_lock s t u w e = rw (e, finds s.ff u false w) (After-put s t (locked_with u) (alloc_next u))

  go_next :
      (s : System) (t u : ℕ)
      → s.ff ≡ locked_with u
      → s.threads t ≡ alloc_next u
      → load_int s.mem (block elsz arsz buf u) < 0x80000000
      → After s t
          (locked_with u)
          (alloc_unlock u (load_int s.mem (block elsz arsz buf u)))
          (advance elsz arsz buf s t)
  go_next s t u w e lt =
      let number = lt→ltb (load_int s.mem (block elsz arsz buf u)) 0x80000000 lt in
      rw (e, number) (rw (sym w) (After-put s t s.ff _))

  go_unlock :
      (s : System) (t u v : ℕ)
      → s.ff ≡ locked_with u
      → s.threads t ≡ alloc_unlock u v
      → After s t (unlocked v) (took u) (advance elsz arsz buf s t)
  go_unlock s t u v w e = rw (e, finds s.ff u true w) (After-put s t (unlocked v) (took u))

  -- The four accesses of a call of alloc that has passed its test.
  take_head :
      (s : System) (t u v : ℕ)
      → s.ff ≡ unlocked u
      → load_int s.mem (block elsz arsz buf u) ≡ v
      → v < 0x80000000
      → s.threads t ≡ alloc_read
      → (r : System) × ((init : System) → Reach elsz arsz buf init s → Reach elsz arsz buf init r)
        × After s t (unlocked v) (took u) r
  take_head s t u v w link number e =
      let r1 = advance elsz arsz buf s t in
      let a1 : After s t (unlocked u) (alloc_lock u) r1 = go_read s t u w e in
      let r2 = advance elsz arsz buf r1 t in
      let a2 : After s t (locked_with u) (alloc_next u) r2 =
        After-trans a1 (go_lock r1 t u a1.ff a1.mine) in
      let r3 = advance elsz arsz buf r2 t in
      let next : load_int r2.mem (block elsz arsz buf u) ≡ v =
        ap (λ m. load_int m (block elsz arsz buf u)) a2.mem ∙ link in
      let a3 : After s t (locked_with u) (alloc_unlock u v) r3 =
        After-trans a2 (rw next at (go_next r2 t u a2.ff a2.mine (rw next number))) in
      let r4 = advance elsz arsz buf r3 t in
      (r4, λ init r. go (go (go (go r t) t) t) t, After-trans a3 (go_unlock r3 t u v a3.ff a3.mine))

  begin_passes :
      (s : System) (t : ℕ)
      → s.ff.head < arsz
      → After s t s.ff alloc_read (begin_alloc elsz arsz buf s t)
  begin_passes s t lt = rw (lt→ltb s.ff.head arsz lt) (After-put s t s.ff alloc_read)

  block_arsz_outside :
      (ff : ℕ)
      → 0 < elsz
      → buf + elsz * arsz < 2 ^ 64
      → here elsz arsz (record { buf = buf; ff = ff }) (block elsz arsz buf arsz) ≡ false
  block_arsz_outside ff pos fits =
      let wraps : (block elsz arsz buf arsz + 2 ^ 64 - buf) % 2 ^ 64 ≡ elsz * arsz = omega arith in
      rw (wraps, mul-div_cancel_left arsz pos) (ge→ltb arsz arsz (omega arith))

  -- When one block is free, and the int behind the buffer is not negative, two threads outside of all
  -- calls can both pass the test of alloc, and then one takes the block and the other the address behind
  -- the buffer, which `here` does not know.
  pub both_take_last :
      (s : System) (t j u : ℕ)
      → t ≢ j
      → s.threads t ≡ outside
      → s.threads j ≡ outside
      → s.ff ≡ unlocked u
      → u < arsz
      → load_int s.mem (block elsz arsz buf u) ≡ arsz
      → arsz < 0x80000000
      → load_int s.mem (block elsz arsz buf arsz) < 0x80000000
      → 0 < elsz
      → buf + elsz * arsz < 2 ^ 64
      → (r : System) × Reach elsz arsz buf s r
        × (r.threads t ≡ took u)
        × (r.threads j ≡ took arsz)
        × (here elsz arsz (record { buf = buf; ff = r.ff.head }) (block elsz arsz buf arsz) ≡ false)
  both_take_last s t j u ne te je w lt link small behind pos fits =
      let back : j ≢ t = λ e. ne (sym e) in
      let head : s.ff.head < arsz = rw w lt in
      let s1 = begin_alloc elsz arsz buf s t in
      let a1 = begin_passes s t head in
      let j1 = a1.theirs j back ∙ je in
      let s2 = begin_alloc elsz arsz buf s1 j in
      let head1 : s1.ff.head < arsz = rw a1.ff head in
      let a2 = begin_passes s1 j head1 in
      let w2 : s2.ff ≡ unlocked u = a2.ff ∙ a1.ff ∙ w in
      let m2 = a2.mem ∙ a1.mem in
      let (s3, r3, a3) =
        take_head s2 t u arsz w2 (ap (λ m. load_int m (block elsz arsz buf u)) m2 ∙ link) small
          (a2.theirs t ne ∙ a1.mine) in
      let (s4, r4, a4) =
        take_head s3 j arsz (load_int s3.mem (block elsz arsz buf arsz)) a3.ff refl
          (rw (a3.mem ∙ m2) behind) (a3.theirs j back ∙ a2.mine) in
      (
        s4,
        r4 s (r3 s (allocate (allocate start t te) j j1)),
        a4.theirs t ne ∙ a3.mine,
        a4.mine,
        block_arsz_outside s4.ff.head pos fits,
      )
