-- ===== src/Lock/Tests.antt =====
-- Concrete runs of the lock of source/imconee/spinlock.h.
use imconee.Common.{ℕ, suc, ◌<◌, ◌≡◌, ◌≢◌, refl, ◌-◌, arith, ◌↔◌, ◌^◌}
use imconee.Lock.{
  LockWord, read_val, write_val, add64, pack, unpack, free, lock_write, lock_read, unlock_write,
  begin, advance, advance_at,
}
use imconee.Lock.System.{System, call, go, Reach, start, later}
use imconee.Lock.Count.{total, StaysBounded}
use imconee.Lock.Exclusion.{writer_alone, word_counts}
use imconee.Lock.Word.{word_adds}

-- Two threads, with the ids 1 and 2.
abbrev ids : ℕ → ℕ
ids i = suc i

ids_nonzero : (i : ℕ) → i < 2 → ids i ≢ 0
ids_nonzero i lt = λ e. omega arith

ids_distinct : (i j : ℕ) → i < 2 → j < 2 → ids i ≡ ids j → i ≡ j
ids_distinct i j li lj e = omega arith

-- Thread 0 locks for writing, and thread 1 spins for a read lock.
abbrev contended : (s : System) × Reach 2 ids s
unfolding begin advance advance_at
contended = (
  _,
  later
      (later
        (later (later (later start (call 0 lock_write (omega arith) refl tt)) (go 0 (omega arith)))
          (go 0 (omega arith)))
        (call 1 lock_read (omega arith) refl tt))
      (go 1 (omega arith)),
)

ids_narrow : (i : ℕ) → i < 2 → ids i < 0x10000000000
ids_narrow i lt = omega arith

contended_bounded : StaysBounded contended.1
unfolding begin advance advance_at total
contended_bounded = (
  (
    (((tt, (omega arith, omega arith)), (omega arith, omega arith)), (omega arith, omega arith)),
    (omega arith, omega arith),
  ),
  (omega arith, omega arith),
)

writer_alone_example : ((contended.0.threads 1).writes ≡ 0) × ((contended.0.threads 1).reads ≡ 0)
unfolding begin advance advance_at
writer_alone_example =
    writer_alone ids_nonzero ids_distinct ids_narrow contended.1 contended_bounded 0 (omega arith)
      (omega arith) refl 1 (omega arith) (omega arith)

word_counts_example :
    (contended.0.word.readers ≡ total (λ t. t.reads) 2 contended.0.threads)
    × (contended.0.word.writes ≡ total (λ t. t.writes) 2 contended.0.threads)
    × ((contended.0.word ≡ free) ↔ (
        (i : ℕ)
        → i < 2
        → ((contended.0.threads i).reads ≡ 0) × ((contended.0.threads i).writes ≡ 0)))
word_counts_example = word_counts ids_nonzero ids_distinct ids_narrow contended.1 contended_bounded

abbrev leaving : (s : System) × Reach 2 ids s
unfolding begin advance advance_at
leaving = (_, later contended.1 (call 0 unlock_write (omega arith) refl (omega arith)))

-- The reader gets the lock once the writer has left.
handed_over : (s : System) × Reach 2 ids s × ((s.threads 1).reads ≡ 1) × (s.word.readers ≡ 1)
unfolding begin advance advance_at add64 pack unpack
handed_over = (
  _,
  later (later (later leaving.1 (go 0 (omega arith))) (go 1 (omega arith))) (go 1 (omega arith)),
  refl,
  refl,
)

-- As many readers and as deep a write lock as the fields can count.
abbrev brimful : LockWord
brimful = record { readers = 65535; writes = 255; thread = 77 }

word_adds_example :
    (add64 brimful read_val ≡ record { readers = 0; writes = 255; thread = 77 })
    × (add64 brimful write_val ≡ record { readers = 0; writes = 0; thread = 77 })
    × (add64 brimful 0xFFFF000000000000 ≡ record { readers = 65534; writes = 255; thread = 77 })
    × (add64 brimful (2 ^ 64 - write_val) ≡ record { readers = 65535; writes = 254; thread = 77 })
word_adds_example =
    word_adds brimful
      (record { readers_in = omega arith; writes_in = omega arith; thread_in = omega arith })
