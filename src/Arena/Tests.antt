-- ===== src/Arena/Tests.antt =====
-- The allocator of source/imconee/mem.cpp at small arenas, and its theorems there.
use imconee.Common.{
  ℕ, ◌+◌, ◌<◌, ◌≤◌, ◌≡◌, ◌≢◌, ◌⊎◌, ◌↔◌, inl, inr, refl, true, false, none, some, List, [], ◌∷◌,
  length, if◌then◌else◌, ltb, arith,
}
use imconee.Arena.{Mem, Arena, load_int, block, init, here, alloc, free}
use imconee.Arena.Good.{occurs}
use imconee.Arena.Run.{Use, start, taken}
use imconee.Arena.Safe.{blocks_held}
use imconee.Arena.Race.{System, unlocked, outside, broken, took, Reach, allocate, go}
use imconee.Arena.Race
use imconee.Arena.Exclusion.{inside}
use imconee.Arena.Locked.{lock_exclusive}
use imconee.Arena.LastBlock.{both_take_last}
use imconee.Arena.Levels.{Libc, State, Layout, ma, mf, rs}
use imconee.Arena.Resize.{of_arena8, rs_keeps}
use imconee.Arena.Undo.{SameArenas, mf-ma}

abbrev zeros : Mem
zeros x = 0

-- Two blocks of 8 bytes at 64.
abbrev fresh : Arena × Mem
fresh = init 8 2 64 zeros

first_block : alloc 8 2 fresh.0 fresh.1 ≡ some (64, record { buf = 64; ff = 1 })
first_block = refl

second_block :
    alloc 8 2 (record { buf = 64; ff = 1 }) fresh.1 ≡ some (72, record { buf = 64; ff = 2 })
second_block = refl

empty_list : alloc 8 2 (record { buf = 64; ff = 2 }) fresh.1 ≡ none
empty_list = refl

abbrev both : List ℕ
both = 72 ∷ 64 ∷ []

abbrev both_used : Use 8 2 64 zeros fresh.1 (record { buf = 64; ff = 2 }) both
both_used = taken (taken start first_block) second_block

blocks_held_example :
    ((p : ℕ) → occurs p both ≤ 1)
    × ((p : ℕ)
        → 0 < occurs p both
        → (64 ≤ p) × (p + 8 ≤ 80) × ((free 8 2 (record { buf = 64; ff = 2 }) fresh.1 p).0 ≡ true))
    × ((p q : ℕ) → 0 < occurs p both → 0 < occurs q both → p ≢ q → (p + 8 ≤ q) ⊎ (q + 8 ≤ p))
    × ((alloc 8 2 (record { buf = 64; ff = 2 }) fresh.1 ≡ none) ↔ (length both ≡ 2))
blocks_held_example = blocks_held 8 2 (omega arith) (omega arith) 64 (omega arith) zeros both_used

-- Before any call, with the second block free alone.
abbrev idle : System
idle = record { ff = unlocked 1; mem = fresh.1; threads = λ t. outside }

-- Thread 3 is in alloc, and has made the first exchange.
abbrev locked_3 : System
locked_3 =
    imconee.Arena.Race.advance 8 2 64
      (imconee.Arena.Race.advance 8 2 64 (imconee.Arena.Race.begin_alloc 8 2 64 idle 3) 3) 3

lock_exclusive_example :
    ((locked_3.ff.locked ≡ true) ↔ ((t : ℕ) × (inside (locked_3.threads t) ≡ true)))
    × ((t j : ℕ) → inside (locked_3.threads t) ≡ true → inside (locked_3.threads j) ≡ true → t ≡ j)
    × ((t : ℕ) → locked_3.threads t ≢ broken)
lock_exclusive_example =
    lock_exclusive 8 2 64 {init = idle} (record { free_word = refl; no_calls = λ t. refl })
      (go (go (allocate imconee.Arena.Race.start 3 refl) 3) 3)

locked_by_3 : locked_3.ff.locked ≡ true
locked_by_3 = refl

behind_zero : load_int idle.mem (block 8 2 64 2) < 0x80000000
behind_zero = omega arith

both_take_last_example :
    (r : System) × Reach 8 2 64 idle r
    × (r.threads 0 ≡ took 1)
    × (r.threads 1 ≡ took 2)
    × (here 8 2 (record { buf = 64; ff = r.ff.head }) 80 ≡ false)
both_take_last_example =
    both_take_last 8 2 64 idle 0 1 1 (λ e. omega arith) refl refl refl (omega arith) refl
      (omega arith) behind_zero (omega arith) (omega arith)

-- malloc gives out memory from 1000000 on, and counts it.
abbrev libc : Libc ℕ
libc = record {
  malloc = λ h x. (1000000 + h, h + x);
  free = λ h p. h;
  realloc = λ h mem p x. (p, h, mem);
}

-- All blocks of the two smaller arenas are in use but the first of each.
abbrev state : State ℕ
state = record {
  mem = λ x. if ltb x 8 then 7 else 0;
  arena8 = record { buf = 0; ff = 0 };
  arena32 = record { buf = 8192; ff = 2048 };
  arena64 = record { buf = 100000; ff = 5 };
  heap = 0;
}

layout : Layout state
layout = record {
  fits8 = omega arith;
  fits32 = omega arith;
  fits64 = omega arith;
  apart8_32 = inl (omega arith);
  apart8_64 = inl (omega arith);
  apart32_64 = inl (omega arith);
}

-- Resizing the first block of 8 bytes to 20 takes a block of 64, since no block of 32 is free.
moved_to : (rs libc state 0 20).0 ≡ 100320
moved_to = refl

rs_keeps_example : let q = rs libc state 0 20 in q.1.mem (q.0 + 3) ≡ 7
rs_keeps_example =
    rs_keeps libc state 0 8 20 3 layout (inr (omega arith), inr (omega arith), inr (omega arith))
      (of_arena8 0 (omega arith)) (omega arith)

mf-ma_example :
    let r = ma libc state 20 in
    let t = mf libc r.1 r.0 in SameArenas state t × ((t.heap ≡ 0) ⊎ (t.heap ≡ 20))
mf-ma_example =
    mf-ma libc state layout 20 (λ y. ground arith)
      (inr (omega arith), inr (omega arith), inr (omega arith)) (omega arith)
