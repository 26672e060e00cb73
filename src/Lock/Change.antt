-- ===== src/Lock/Change.antt =====
-- What one access to the word of a lock of source/imconee/spinlock.h may do to the word and to the
-- thread that makes it.
use imconee.Common.{
  ℕ, ◌+◌, ◌-◌, ◌<◌, ◌≤◌, ◌≡◌, refl, sym, ap, ◌∙◌, Bool, true, false, if◌then◌else◌, ◌==◌, ◌⊎◌, inl,
  inr, Bool-cases, arith,
}
use imconee.Lock.{
  LockWord, free, readers_only, same_word, Pc, idle, write_again, write_wait, read_again,
  write_once, write_try, read_try, read_once, unlocking, Thread, Op, lock_write, lock_read,
  try_lock_write, try_lock_read, unlock_write, unlock_read, begin, advance_at,
}
use imconee.Lock.System.{MayCall}
use imconee.Lock.Word.{IsPacked, add_reader, add_writer, drop_reader, drop_writer}

abbrev pub waiting : Pc → Bool
waiting idle = false
waiting write_again = false
waiting write_wait = true
waiting read_again = false
waiting write_once = false
waiting (write_try v) = false
waiting (read_try v) = false
waiting (read_once v) = false
waiting (unlocking v) = false

-- What a thread that has `k` write locks knows before its access.
abbrev pub Local : LockWord → ℕ → Pc → Type 0
Local w k idle = Unit
Local w k write_again = 0 < k
Local w k write_wait = Unit
Local w k read_again = 0 < k
Local w k write_once = Unit
Local w k (write_try v) = Unit
Local w k (read_try v) = Unit
Local w k (read_once v) = Unit
Local w k (unlocking v) = (0 < k) × (w ≡ v)

pub data Change (tid : ℕ) (w : LockWord) (t : Thread) (x : LockWord) (u : Thread) : Type 0 where
  quiet :
      w ≡ x
      → u.writes ≡ t.writes
      → u.reads ≡ t.reads
      → (waiting u.pc ≡ waiting t.pc) ⊎ (w.readers ≡ 0)
      → Change tid w t x u
  take :
      w.writes ≡ 0
      → w.thread ≡ 0
      → x.readers ≡ w.readers
      → x.writes ≡ 1
      → x.thread ≡ tid
      → u.writes ≡ 1
      → u.reads ≡ t.reads
      → (waiting u.pc ≡ true) ⊎ (w.readers ≡ 0)
      → Change tid w t x u
  enter :
      (w.thread ≡ 0) ⊎ (0 < t.writes)
      → x.readers ≡ w.readers + 1
      → x.writes ≡ w.writes
      → x.thread ≡ w.thread
      → u.writes ≡ t.writes
      → u.reads ≡ t.reads + 1
      → waiting u.pc ≡ waiting t.pc
      → Change tid w t x u
  deepen :
      0 < t.writes
      → x.readers ≡ w.readers
      → x.writes ≡ w.writes + 1
      → x.thread ≡ w.thread
      → u.writes ≡ t.writes + 1
      → u.reads ≡ t.reads
      → waiting u.pc ≡ waiting t.pc
      → Change tid w t x u
  leave :
      0 < t.writes
      → x.readers ≡ w.readers
      → x.writes ≡ w.writes - 1
      → x.thread ≡ (if w.writes - 1 == 0 then 0 else w.thread)
      → u.writes ≡ t.writes - 1
      → u.reads ≡ t.reads
      → waiting u.pc ≡ waiting t.pc
      → Change tid w t x u
  drop :
      0 < t.reads
      → x.readers ≡ w.readers - 1
      → x.writes ≡ w.writes
      → x.thread ≡ w.thread
      → u.writes ≡ t.writes
      → u.reads ≡ t.reads - 1
      → waiting u.pc ≡ waiting t.pc
      → Change tid w t x u

abbrev readers_of : LockWord → ℕ
readers_of w = w.readers

abbrev writes_of : LockWord → ℕ
writes_of w = w.writes

abbrev thread_of : LockWord → ℕ
thread_of w = w.thread

same_word-≡ :
    (a b : LockWord)
    → same_word a b ≡ true
    → (a.readers ≡ b.readers) × (a.writes ≡ b.writes) × (a.thread ≡ b.thread)
same_word-≡ a b e = ground arith

pub begin-Change :
    (op : Op) (tid : ℕ) (w : LockWord) (t : Thread)
    → t.pc ≡ idle
    → MayCall op t
    → (w.thread ≡ tid → 0 < t.writes)
    → IsPacked w
    → t.reads ≤ w.readers
    → Change tid w t (begin op tid w t).0 (begin op tid w t).1
      × Local (begin op tid w t).0 (begin op tid w t).1.writes (begin op tid w t).1.pc
unfolding begin
begin-Change lock_write tid w t at may own p le = elim (Bool-cases (w.thread == tid)) [
  | inl e ↦ rw e (quiet refl refl refl (inl (ap waiting (sym at))), own (ground arith))
  | inr e ↦ rw e (quiet refl refl refl (inl (ap waiting (sym at))), tt)
]
begin-Change lock_read tid w t at may own p le = elim (Bool-cases (w.thread == tid)) [
  | inl e ↦ rw e (quiet refl refl refl (inl (ap waiting (sym at))), own (ground arith))
  | inr e ↦ rw e (quiet refl refl refl (inl (ap waiting (sym at))), tt)
]
begin-Change try_lock_write tid w t at may own p le = elim (Bool-cases (w.thread == tid)) [
  | inl e ↦ rw e (quiet refl refl refl (inl (ap waiting (sym at))), own (ground arith))
  | inr e ↦ rw e (quiet refl refl refl (inl (ap waiting (sym at))), tt)
]
begin-Change try_lock_read tid w t at may own p le = elim (Bool-cases (w.thread == tid)) [
  | inl e ↦ rw e (quiet refl refl refl (inl (ap waiting (sym at))), own (ground arith))
  | inr e ↦ rw e (quiet refl refl refl (inl (ap waiting (sym at))), tt)
]
begin-Change unlock_write tid w t at may own p le =
    (quiet refl refl refl (inl (ap waiting (sym at))), (may, refl))
begin-Change unlock_read tid w t at may own p le =
    let e = drop_reader w p (omega arith) in
    (drop may (ap readers_of e) (ap writes_of e) (ap thread_of e) refl refl refl, rw at tt)

pub advance-Change :
    (pc : Pc) (tid : ℕ) (w : LockWord) (k r : ℕ)
    → Local w k pc
    → IsPacked w
    → (0 < k → 0 < w.writes)
    → w.readers + (advance_at pc tid w (record { pc = pc; writes = k; reads = r })).1.reads
      < 0x10000 + r
    → w.writes + (advance_at pc tid w (record { pc = pc; writes = k; reads = r })).1.writes
      < 0x100 + k
    → let t : Thread = record { pc = pc; writes = k; reads = r } in
      Change tid w t (advance_at pc tid w t).0 (advance_at pc tid w t).1
      × Local
          (advance_at pc tid w t).0
          (advance_at pc tid w t).1.writes
          (advance_at pc tid w t).1.pc
unfolding advance_at
advance-Change idle tid w k r l p deep reads writes = (quiet refl refl refl (inl refl), l)
advance-Change write_again tid w k r l p deep reads writes =
    let e = add_writer w p (omega arith) in
    (deepen l (ap readers_of e) (ap writes_of e) (ap thread_of e) refl refl refl, tt)
advance-Change (write_try v) tid w k r l p deep reads writes =
    elim (Bool-cases (same_word w (readers_only v))) [
      | inl e ↦ rw e (
          let (e1, e2, e3) = same_word-≡ w (readers_only v) e in
          (take e2 e3 (sym e1) refl refl refl refl (inl refl), tt))
      | inr e ↦ rw e (quiet refl refl refl (inl refl), tt)
    ]
advance-Change write_wait tid w k r l p deep reads writes = elim (Bool-cases (w.readers == 0)) [
  | inl e ↦ rw e (quiet refl refl refl (inr (ground arith)), tt)
  | inr e ↦ rw e (quiet refl refl refl (inl refl), tt)
]
advance-Change read_again tid w k r l p deep reads writes =
    let e = add_reader w p (omega arith) in
    (enter (inr l) (ap readers_of e) (ap writes_of e) (ap thread_of e) refl refl refl, tt)
advance-Change (read_try v) tid w k r l p deep reads writes =
    elim (Bool-cases (same_word w (readers_only v))) [
      | inl e ↦ rw e (
          let (e1, e2, e3) = same_word-≡ w (readers_only v) e in
          let only : IsPacked (readers_only v) = record {
            readers_in = let q = p.readers_in in omega arith;
            writes_in = omega arith;
            thread_in = omega arith;
          } in
          let room : w.readers + (r + 1) < 0x10000 + r = rw e at reads in
          let a = add_reader (readers_only v) only (omega arith) in
          let e4 = ap readers_of a in
          (
            enter (inl e3) (omega arith) (ap writes_of a ∙ sym e2) (ap thread_of a ∙ sym e3) refl
                refl refl,
            tt,
          ))
      | inr e ↦ rw e (quiet refl refl refl (inl refl), tt)
    ]
advance-Change write_once tid w k r l p deep reads writes = elim (Bool-cases (same_word w free)) [
  | inl e ↦ rw e (
      let (e1, e2, e3) = same_word-≡ w free e in
      (take e2 e3 (sym e1) refl refl refl refl (inr e1), tt))
  | inr e ↦ rw e (quiet refl refl refl (inl refl), tt)
]
advance-Change (read_once v) tid w k r l p deep reads writes =
    elim (Bool-cases (same_word w (readers_only v))) [
      | inl e ↦ rw e (
          let (e1, e2, e3) = same_word-≡ w (readers_only v) e in
          let only : IsPacked (readers_only v) = record {
            readers_in = let q = p.readers_in in omega arith;
            writes_in = omega arith;
            thread_in = omega arith;
          } in
          let room : w.readers + (r + 1) < 0x10000 + r = rw e at reads in
          let a = add_reader (readers_only v) only (omega arith) in
          let e4 = ap readers_of a in
          (
            enter (inl e3) (omega arith) (ap writes_of a ∙ sym e2) (ap thread_of a ∙ sym e3) refl
                refl refl,
            tt,
          ))
      | inr e ↦ rw e (quiet refl refl refl (inl refl), tt)
    ]
advance-Change (unlocking v) tid w k r l p deep reads writes =
    let same : same_word w v ≡ true = ground arith in
    let packed : IsPacked v = rw l.1 at p in
    let some_write : 0 < v.writes = rw l.1 at (deep l.0) in
    rw (same, drop_writer v packed some_write)
      (elim (Bool-cases (v.writes - 1 == 0)) [
        | inl e ↦ rw e (leave l.0 (ground arith) (ground arith) (ground arith) refl refl refl, tt)
        | inr e ↦ rw e (leave l.0 (ground arith) (ground arith) (ground arith) refl refl refl, tt)
      ])
