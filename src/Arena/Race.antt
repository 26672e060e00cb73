-- ===== src/Arena/Race.antt =====
-- The accesses of several threads to an arena of source/imconee/mem.cpp, one by one.
use imconee.Common.{ℕ, ◌≡◌, Bool, true, false, ◌&&◌, not, ◌==◌, if◌then◌else◌, ltb}
use imconee.Arena.{Mem, load_int, store_int, block}

-- `ff` with the bit of its lock apart.
pub record Word : Type 0 where
  pub head : ℕ
  pub locked : Bool

abbrev pub unlocked : ℕ → Word
unlocked u = record { head = u; locked = false }

abbrev pub locked_with : ℕ → Word
locked_with u = record { head = u; locked = true }

-- The comparison of spinlock::atomic_replace.
abbrev pub same : Word → Word → Bool
same a b = (a.head == b.head) && (if a.locked then b.locked else not b.locked)

-- Where a thread is: outside, or in front of an access of alloc or free, with what it has read; or in
-- DEBUGBREAK, `trapped` where alloc has read a negative number, and `broken` where the word is not the
-- one that was left. A free has the number of its block, which is never negative.
pub data Pc : Type 0 where
  outside alloc_read fell_back broken : Pc
  alloc_lock alloc_next trapped took : ℕ → Pc
  alloc_unlock : ℕ → ℕ → Pc
  free_read : ℕ → Pc
  free_lock free_link free_unlock : ℕ → ℕ → Pc

pub record System : Type 0 where
  pub ff : Word
  pub mem : Mem
  pub threads : ℕ → Pc

abbrev pub put : System → ℕ → Pc → System
put s t pc = record s { threads = λ j. if j == t then pc else s.threads j }

module _ (elsz arsz buf : ℕ) where
  -- The test at the start of alloc.
  abbrev pub begin_alloc : System → ℕ → System
  begin_alloc s t = put s t (if ltb s.ff.head arsz then alloc_read else fell_back)

  -- The test at the start of free.
  abbrev pub begin_free : System → ℕ → ℕ → System
  begin_free s t i = put s t (if ltb i arsz then free_read i else outside)

  -- The next access of thread `t`.
  abbrev pub advance_at : Pc → System → ℕ → System
  advance_at outside s t = s
  advance_at fell_back s t = s
  advance_at broken s t = s
  advance_at (took u) s t = s
  advance_at (trapped u) s t = s
  advance_at alloc_read s t = put s t (alloc_lock s.ff.head)
  advance_at (alloc_lock u) s t =
      if same s.ff (unlocked u)
      then put (record s { ff = locked_with u }) t (alloc_next u)
      else put s t alloc_read
  -- The int at the block is negative when its highest bit is set.
  advance_at (alloc_next u) s t =
      if ltb (load_int s.mem (block elsz arsz buf u)) 0x80000000
      then put s t (alloc_unlock u (load_int s.mem (block elsz arsz buf u)))
      else put s t (trapped u)
  advance_at (alloc_unlock u v) s t =
      if same s.ff (locked_with u)
      then put (record s { ff = unlocked v }) t (took u)
      else put s t broken
  advance_at (free_read i) s t = put s t (free_lock i s.ff.head)
  advance_at (free_lock i u) s t =
      if same s.ff (unlocked u)
      then put (record s { ff = locked_with u }) t (free_link i u)
      else put s t (free_read i)
  advance_at (free_link i u) s t =
      put (record s { mem = store_int s.mem (block elsz arsz buf i) u }) t (free_unlock i u)
  advance_at (free_unlock i u) s t =
      if same s.ff (locked_with u)
      then put (record s { ff = unlocked i }) t outside
      else put s t broken

  abbrev pub advance : System → ℕ → System
  advance s t = advance_at (s.threads t) s t

  -- Any thread starts a call, returns from it, writes to the memory or makes its next access.
  pub data Reach (init : System) : System → Type 0 where
    start : Reach init init
    allocate :
        {s : System} → Reach init s → (t : ℕ) → s.threads t ≡ outside → Reach init (begin_alloc s t)
    release :
        {s : System}
        → Reach init s
        → (t i : ℕ) → s.threads t ≡ outside
        → Reach init (begin_free s t i)
    leave_took :
        {s : System}
        → Reach init s
        → (t u : ℕ) → s.threads t ≡ took u
        → Reach init (put s t outside)
    leave_fell :
        {s : System}
        → Reach init s
        → (t : ℕ) → s.threads t ≡ fell_back
        → Reach init (put s t outside)
    write : {s : System} → Reach init s → (new : Mem) → Reach init (record s { mem = new })
    go : {s : System} → Reach init s → (t : ℕ) → Reach init (advance s t)
