-- ===== src/Lock.antt =====
-- The read-write lock of source/imconee/spinlock.h: a word that threads change by atomic operations.
-- The word is written as its three fields; what is added to it is added to its 64 bits. A step is one
-- atomic access to the word; `lock_read` and `lock_write` are chains of them.
pub mod Word
pub mod System
pub mod Count
pub mod Change
pub mod Invariant
pub mod Reachable
pub mod Exclusion
mod Tests
use imconee.Common.{ℕ, ◌+◌, ◌-◌, ◌*◌, ◌/◌, ◌%◌, ◌^◌, Bool, true, false, ◌&&◌, if◌then◌else◌, ◌==◌}

-- The number of read locks, the depth of the write lock, and the thread that has it, or 0.
pub record LockWord : Type 0 where
  pub readers : ℕ
  pub writes : ℕ
  pub thread : ℕ

abbrev pub read_val : ℕ
read_val = 0x0001000000000000

abbrev pub write_val : ℕ
write_val = 0x0000010000000000

-- The fields stand in 16, 8 and 40 bits, as the masks say.
unfoldable pub pack : LockWord → ℕ
pack w = w.readers * 0x1000000000000 + (w.writes * 0x10000000000 + w.thread)

unfoldable pub unpack : ℕ → LockWord
unpack val = record {
  readers = val / 0x1000000000000;
  writes = val / 0x10000000000 % 0x100;
  thread = val % 0x10000000000;
}

-- The sum of 64 bits: a field that is full runs over into the next, or out of the word.
unfoldable pub add64 : LockWord → ℕ → LockWord
unfolding pack unpack
add64 w k = unpack ((pack w + k) % 2 ^ 64)

abbrev pub free : LockWord
free = record { readers = 0; writes = 0; thread = 0 }

-- val & LOCK_READ_MASK
abbrev pub readers_only : LockWord → LockWord
readers_only v = record { readers = v.readers; writes = 0; thread = 0 }

-- The comparison of SLxInterlockedCompareExchange64.
abbrev pub same_word : LockWord → LockWord → Bool
same_word a b = (a.readers == b.readers) && ((a.writes == b.writes) && (a.thread == b.thread))

-- Where a thread is: outside the functions of the lock, or before an atomic operation, with the value
-- of the word that it has read.
pub data Pc : Type 0 where
  idle write_again write_wait read_again write_once : Pc
  write_try read_try read_once unlocking : LockWord → Pc

-- The locks that a thread holds; from the exchange on, a waiting writer counts as one.
pub record Thread : Type 0 where
  pub pc : Pc
  pub writes : ℕ
  pub reads : ℕ

pub data Op : Type 0 where
  lock_write lock_read try_lock_write try_lock_read unlock_write unlock_read : Op

-- `val - LOCK_WRITE_VAL`, with the thread reset for the last lock.
abbrev pub released : LockWord → LockWord
released v =
    let val = add64 v (2 ^ 64 - write_val) in if val.writes == 0 then readers_only val else val

-- lock_write: the first access, the two loops, and the lock of a thread that has it already.
abbrev pub enter_write : ℕ → LockWord → Thread → LockWord × Thread
enter_write tid w t = (w, record t { pc = if w.thread == tid then write_again else write_try w })

abbrev pub compare_write : LockWord → ℕ → LockWord → Thread → LockWord × Thread
compare_write v tid w t =
    if same_word w (readers_only v)
    then (
      record { readers = v.readers; writes = 1; thread = tid },
      record t { pc = write_wait; writes = 1 },
    )
    else (w, record t { pc = write_try w })

abbrev pub wait_readers : LockWord → Thread → LockWord × Thread
wait_readers w t = if w.readers == 0 then (w, record t { pc = idle }) else (w, t)

abbrev pub add_write : LockWord → Thread → LockWord × Thread
add_write w t = (add64 w write_val, record t { pc = idle; writes = t.writes + 1 })

-- lock_read.
abbrev pub enter_read : ℕ → LockWord → Thread → LockWord × Thread
enter_read tid w t = (w, record t { pc = if w.thread == tid then read_again else read_try w })

abbrev pub compare_read : LockWord → LockWord → Thread → LockWord × Thread
compare_read v w t =
    if same_word w (readers_only v)
    then (add64 (readers_only v) read_val, record t { pc = idle; reads = t.reads + 1 })
    else (w, record t { pc = read_try w })

abbrev pub add_read : LockWord → Thread → LockWord × Thread
add_read w t = (add64 w read_val, record t { pc = idle; reads = t.reads + 1 })

-- try_lock_read and try_lock_write; whether they succeed is to be seen from the locks of the thread.
abbrev pub enter_try_read : ℕ → LockWord → Thread → LockWord × Thread
enter_try_read tid w t = (w, record t { pc = if w.thread == tid then read_again else read_once w })

abbrev pub try_read : LockWord → LockWord → Thread → LockWord × Thread
try_read v w t =
    if same_word w (readers_only v)
    then (add64 (readers_only v) read_val, record t { pc = idle; reads = t.reads + 1 })
    else (w, record t { pc = idle })

abbrev pub enter_try_write : ℕ → LockWord → Thread → LockWord × Thread
enter_try_write tid w t = (w, record t { pc = if w.thread == tid then write_again else write_once })

abbrev pub try_write : ℕ → LockWord → Thread → LockWord × Thread
try_write tid w t =
    if same_word w free
    then (record { readers = 0; writes = 1; thread = tid }, record t { pc = idle; writes = 1 })
    else (w, record t { pc = idle })

-- unlock_write and unlock_read, which adds ~(LOCK_READ_VAL-1).
abbrev pub enter_unlock : LockWord → Thread → LockWord × Thread
enter_unlock w t = (w, record t { pc = unlocking w })

abbrev pub exchange_unlock : LockWord → LockWord → Thread → LockWord × Thread
exchange_unlock v w t =
    if same_word w v
    then (released v, record t { pc = idle; writes = t.writes - 1 })
    else (w, record t { pc = idle; writes = t.writes - 1 })

abbrev pub subtract_read : LockWord → Thread → LockWord × Thread
subtract_read w t = (add64 w 0xFFFF000000000000, record t { reads = t.reads - 1 })

-- The first access of a function, by the thread `tid`.
unfoldable pub begin : Op → ℕ → LockWord → Thread → LockWord × Thread
begin lock_write tid w t = enter_write tid w t
begin lock_read tid w t = enter_read tid w t
begin try_lock_write tid w t = enter_try_write tid w t
begin try_lock_read tid w t = enter_try_read tid w t
begin unlock_write tid w t = enter_unlock w t
begin unlock_read tid w t = subtract_read w t

-- The next access.
unfoldable pub advance_at : Pc → ℕ → LockWord → Thread → LockWord × Thread
advance_at idle tid w t = (w, t)
advance_at write_again tid w t = add_write w t
advance_at (write_try v) tid w t = compare_write v tid w t
advance_at write_wait tid w t = wait_readers w t
advance_at read_again tid w t = add_read w t
advance_at (read_try v) tid w t = compare_read v w t
advance_at write_once tid w t = try_write tid w t
advance_at (read_once v) tid w t = try_read v w t
advance_at (unlocking v) tid w t = exchange_unlock v w t

unfoldable pub advance : ℕ → LockWord → Thread → LockWord × Thread
unfolding advance_at
advance tid w t = advance_at t.pc tid w t
