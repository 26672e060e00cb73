-- ===== src/Arena.antt =====
-- The memory of source/imconee/mem.cpp: three arenas of equal blocks whose free blocks are a list that
-- runs through the blocks themselves, and `ma`, `mf` and `rs`, which choose between them and the
-- allocator of the C library. Here an operation runs without interruption, and the checks that stop the
-- program are left out; Race has the accesses of several threads to `ff` one by one, and the checks.
pub mod Memory
pub mod Blocks
pub mod Good
pub mod Keep
pub mod Run
pub mod Safe
pub mod Levels
pub mod Place
pub mod Resize
pub mod Undo
pub mod Race
pub mod Exclusion
pub mod Locked
pub mod LastBlock
mod Tests
use imconee.Common.{
  ℕ, zero, suc, ◌+◌, ◌-◌, ◌*◌, ◌/◌, ◌%◌, ◌^◌, Bool, true, false, Option, none, some, if◌then◌else◌,
  ◌==◌, ltb,
}

-- Address to byte.
abbrev pub Mem : Type 0
Mem = ℕ → ℕ

-- *(int*)p, on a little-endian machine.
abbrev pub load_int : Mem → ℕ → ℕ
load_int mem p = mem p + 256 * mem (p + 1) + 65536 * mem (p + 2) + 16777216 * mem (p + 3)

abbrev pub store_int : Mem → ℕ → ℕ → Mem
store_int mem p v x =
    if x == p
    then v % 256
    else if x == p + 1
    then v / 256 % 256
    else if x == p + 2
    then v / 65536 % 256
    else if x == p + 3
    then v / 16777216 % 256
    else mem x

-- The address of `buf`, and the head of the list of free blocks without the bit of the lock.
pub record Arena : Type 0 where
  pub buf : ℕ
  pub ff : ℕ

-- `arsz` blocks of `elsz` bytes.
module _ (elsz arsz : ℕ) where
  -- The address of a block.
  abbrev pub block : ℕ → ℕ → ℕ
  block buf i = buf + elsz * i

  -- The constructor writes into each block the number of the next; the loop is at `i` with `n` to go.
  abbrev pub init_loop : ℕ → ℕ → ℕ → Mem → Mem
  init_loop zero i buf mem = mem
  init_loop (suc n) i buf mem = init_loop n (i + 1) buf (store_int mem (block buf i) (i + 1))

  abbrev pub init : ℕ → Mem → Arena × Mem
  init buf mem = (record { buf = buf; ff = 0 }, init_loop arsz 0 buf mem)

  -- pp - buf wraps around in 64 bits before the division, which `elsz` makes unsigned.
  abbrev pub index_of : Arena → ℕ → ℕ
  index_of a p = (p + 2 ^ 64 - a.buf) % 2 ^ 64 / elsz

  abbrev pub here : Arena → ℕ → Bool
  here a p = ltb (index_of a p) arsz

  -- `none` when the list is empty, and the call goes to fallback::alloc.
  abbrev pub alloc : Arena → Mem → Option (ℕ × Arena)
  alloc a mem =
      if ltb a.ff arsz
      then some (block a.buf a.ff, record a { ff = load_int mem (block a.buf a.ff) })
      else none

  abbrev pub free : Arena → Mem → ℕ → Bool × Arena × Mem
  free a mem p =
      if here a p
      then (true, record a { ff = index_of a p }, store_int mem (block a.buf (index_of a p)) a.ff)
      else (false, a, mem)
