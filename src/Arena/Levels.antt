-- ===== src/Arena/Levels.antt =====
-- `ma`, `mf` and `rs` of source/imconee/mem.cpp: three arenas, each the fallback of the one with the
-- next smaller blocks, and the allocator of the C library behind them.
use imconee.Common.{ℕ, ◌+◌, ◌-◌, ◌^◌, ◌≤◌, ◌⊎◌, ◌&&◌, Option, none, some, ltb, leb, if◌then◌else◌}
use imconee.Arena.{Mem, Arena, here, alloc, free}

-- malloc, free and realloc of the C library, over a state of its own.
pub record Libc (H : Type 0) : Type 0 where
  pub malloc : H → ℕ → ℕ × H
  pub free : H → ℕ → H
  pub realloc : H → Mem → ℕ → ℕ → ℕ × H × Mem

pub record State (H : Type 0) : Type 0 where
  pub mem : Mem
  pub arena8 : Arena
  pub arena32 : Arena
  pub arena64 : Arena
  pub heap : H

abbrev pub memcpy : Mem → ℕ → ℕ → ℕ → Mem
memcpy mem to from n x = if leb to x && ltb x (to + n) then mem (from + (x - to)) else mem x

module _ {H : Type 0} (libc : Libc H) where
  abbrev pub fb0 : State H → ℕ → ℕ × State H
  fb0 s x = let r = libc.malloc s.heap x in (r.0, record s { heap = r.1 })

  -- arena64.alloc with its fallback, and so on.
  abbrev pub alloc64_by : Option (ℕ × Arena) → State H → ℕ → ℕ × State H
  alloc64_by none s x = fb0 s x
  alloc64_by (some (p, a)) s x = (p, record s { arena64 = a })

  abbrev pub alloc64 : State H → ℕ → ℕ × State H
  alloc64 s x = alloc64_by (alloc 64 2048 s.arena64 s.mem) s x

  abbrev pub alloc32_by : Option (ℕ × Arena) → State H → ℕ → ℕ × State H
  alloc32_by none s x = alloc64 s x
  alloc32_by (some (p, a)) s x = (p, record s { arena32 = a })

  abbrev pub alloc32 : State H → ℕ → ℕ × State H
  alloc32 s x = alloc32_by (alloc 32 2048 s.arena32 s.mem) s x

  abbrev pub alloc8_by : Option (ℕ × Arena) → State H → ℕ → ℕ × State H
  alloc8_by none s x = alloc32 s x
  alloc8_by (some (p, a)) s x = (p, record s { arena8 = a })

  abbrev pub alloc8 : State H → ℕ → ℕ × State H
  alloc8 s x = alloc8_by (alloc 8 1024 s.arena8 s.mem) s x

  abbrev pub ma : State H → ℕ → ℕ × State H
  ma s size =
      if leb size 8
      then alloc8 s size
      else if leb size 32
      then alloc32 s size
      else if leb size 64
      then alloc64 s size
      else fb0 s size

  -- The calls of `free`, each with the test of its result by the one before.
  abbrev pub free64 : State H → ℕ → State H
  free64 s p =
      let r = free 64 2048 s.arena64 s.mem p in
      if r.0 then record s { arena64 = r.1; mem = r.2 } else record s { heap = libc.free s.heap p }

  abbrev pub free32 : State H → ℕ → State H
  free32 s p =
      let r = free 32 2048 s.arena32 s.mem p in
      if r.0 then record s { arena32 = r.1; mem = r.2 } else free64 s p

  abbrev pub mf : State H → ℕ → State H
  mf s p =
      let r = free 8 1024 s.arena8 s.mem p in
      if r.0 then record s { arena8 = r.1; mem = r.2 } else free32 s p

  -- memcpy to the new block, then the old one is given back.
  abbrev pub move8 : ℕ × State H → ℕ → ℕ × State H
  move8 (np, s) p =
      let r = free 8 1024 s.arena8 (memcpy s.mem np p 8) p in
      (np, record s { arena8 = r.1; mem = r.2 })

  abbrev pub move32 : ℕ × State H → ℕ → ℕ × State H
  move32 (np, s) p =
      let r = free 32 2048 s.arena32 (memcpy s.mem np p 32) p in
      (np, record s { arena32 = r.1; mem = r.2 })

  abbrev pub move64 : ℕ × State H → ℕ → ℕ × State H
  move64 (np, s) p =
      let r = free 64 2048 s.arena64 (memcpy s.mem np p 64) p in
      (np, record s { arena64 = r.1; mem = r.2 })

  abbrev pub resize : State H → ℕ → ℕ → ℕ × State H
  resize s p size =
      let r = libc.realloc s.heap s.mem p size in (r.0, record s { heap = r.1; mem = r.2 })

  abbrev pub rs : State H → ℕ → ℕ → ℕ × State H
  rs s p size =
      if here 8 1024 s.arena8 p
      then (if leb size 8 then (p, s) else move8 (ma s size) p)
      else if here 32 2048 s.arena32 p
      then (if leb size 32 then (p, s) else move32 (ma s size) p)
      else if here 64 2048 s.arena64 p
      then (if leb size 64 then (p, s) else move64 (ma s size) p)
      else resize s p size

module _ {H : Type 0} (s : State H) where
  -- Where the arenas lie: apart, and inside the address space.
  pub record Layout : Type 0 where
    pub fits8 : s.arena8.buf + 8192 ≤ 2 ^ 64
    pub fits32 : s.arena32.buf + 65536 ≤ 2 ^ 64
    pub fits64 : s.arena64.buf + 131072 ≤ 2 ^ 64
    pub apart8_32 : (s.arena8.buf + 8192 ≤ s.arena32.buf) ⊎ (s.arena32.buf + 65536 ≤ s.arena8.buf)
    pub apart8_64 : (s.arena8.buf + 8192 ≤ s.arena64.buf) ⊎ (s.arena64.buf + 131072 ≤ s.arena8.buf)
    pub apart32_64 :
        (s.arena32.buf + 65536 ≤ s.arena64.buf) ⊎ (s.arena64.buf + 131072 ≤ s.arena32.buf)

  -- The bytes from `p` on do not meet the three buffers.
  abbrev pub Elsewhere : ℕ → ℕ → Type 0
  Elsewhere p n =
      ((p + n ≤ s.arena8.buf) ⊎ (s.arena8.buf + 8192 ≤ p))
      × ((p + n ≤ s.arena32.buf) ⊎ (s.arena32.buf + 65536 ≤ p))
      × ((p + n ≤ s.arena64.buf) ⊎ (s.arena64.buf + 131072 ≤ p))
