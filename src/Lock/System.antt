-- ===== src/Lock/System.antt =====
-- `n` threads over one lock of source/imconee/spinlock.h, interleaved in any order.
use imconee.Common.{ℕ, ◌<◌, ◌≡◌, if◌then◌else◌, ◌==◌}
use imconee.Lock.{
  LockWord, free, idle, Thread, Op, lock_write, lock_read, try_lock_write, try_lock_read,
  unlock_write, unlock_read, begin, advance,
}

pub record System : Type 0 where
  pub word : LockWord
  pub threads : ℕ → Thread

abbrev pub update : (ℕ → Thread) → ℕ → Thread → ℕ → Thread
update ts i t j = if j == i then t else ts j

-- A thread gives back only what it holds.
abbrev pub MayCall : Op → Thread → Type 0
MayCall lock_write t = Unit
MayCall lock_read t = Unit
MayCall try_lock_write t = Unit
MayCall try_lock_read t = Unit
MayCall unlock_write t = 0 < t.writes
MayCall unlock_read t = 0 < t.reads

abbrev pub put : System → ℕ → LockWord × Thread → System
put s i r = record { word = r.0; threads = update s.threads i r.1 }

-- `ids` are the results of tid_self. Thread `i` calls a function or makes the next access.
pub data Step (n : ℕ) (ids : ℕ → ℕ) (s : System) : System → Type 0 where
  call :
      (i : ℕ) (op : Op)
      → i < n
      → (s.threads i).pc ≡ idle
      → MayCall op (s.threads i)
      → Step n ids s (put s i (begin op (ids i) s.word (s.threads i)))
  go : (i : ℕ) → i < n → Step n ids s (put s i (advance (ids i) s.word (s.threads i)))

abbrev pub outside : Thread
outside = record { pc = idle; writes = 0; reads = 0 }

abbrev pub init : System
init = record { word = free; threads = λ _. outside }

pub data Reach (n : ℕ) (ids : ℕ → ℕ) : System → Type 0 where
  start : Reach n ids init
  later : {s t : System} → Reach n ids s → Step n ids s t → Reach n ids t
