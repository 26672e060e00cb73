-- ===== src/Lock/Exclusion.antt =====
-- What the read-write lock of source/imconee/spinlock.h promises.
use imconee.Common.{ℕ, ◌-◌, ◌<◌, ◌≡◌, ◌≢◌, ◌↔◌, sym, ap, ◌∙◌, true, false, arith}
use mathlib.Core.Path.{subst}
use imconee.Lock.{LockWord, free, same_word, Pc, idle, unlocking, released, advance, advance_at}
use imconee.Lock.System.{System, Reach}
use imconee.Lock.Count.{StaysBounded, total, total-zero, zero-total}
use imconee.Lock.Change.{waiting, Local}
use imconee.Lock.Reachable.{Reach-Inv}

module _ {n : ℕ} {ids : ℕ → ℕ} (nonzero : (i : ℕ) → i < n → ids i ≢ 0)
    (distinct : (i j : ℕ) → i < n → j < n → ids i ≡ ids j → i ≡ j)
    (narrow : (i : ℕ) → i < n → ids i < 0x10000000000) where
  -- In every state that threads with distinct nonzero ids of 40 bits can reach by a run on which they
  -- always hold fewer than 65536 read locks and fewer than 256 write locks, a thread with a write lock
  -- whose wait for the readers is over is alone: each other thread has no write lock and no read lock.
  pub writer_alone :
      {s : System} (r : Reach n ids s)
      → StaysBounded r
      → (i : ℕ) → i < n
      → 0 < (s.threads i).writes
      → waiting (s.threads i).pc ≡ false
      → (j : ℕ) → j < n
      → j ≢ i
      → ((s.threads j).writes ≡ 0) × ((s.threads j).reads ≡ 0)
  writer_alone {s} r bounded i li h still j lj ne =
      let inv = Reach-Inv nonzero distinct narrow r bounded in
      let mine = (inv.agrees i li).owns h in
      let theirs = (inv.agrees j lj).owns in
      let apart : ids j ≢ ids i = λ same. ne (distinct j i lj li same) in
      (ground arith, inv.alone i li h still j lj ne)

  -- In every state that threads with distinct nonzero ids of 40 bits can reach by a run on which they
  -- always hold fewer than 65536 read locks and fewer than 256 write locks, the word counts the locks:
  -- its readers are the read locks of all threads, its writes the write locks of all threads, and it is
  -- 0 exactly when no thread has a lock.
  pub word_counts :
      {s : System} (r : Reach n ids s)
      → StaysBounded r
      → (s.word.readers ≡ total (λ t. t.reads) n s.threads)
        × (s.word.writes ≡ total (λ t. t.writes) n s.threads)
        × ((s.word ≡ free)
            ↔ ((i : ℕ) → i < n → ((s.threads i).reads ≡ 0) × ((s.threads i).writes ≡ 0)))
  word_counts {s} r bounded =
      let inv = Reach-Inv nonzero distinct narrow r bounded in
      (
        inv.readers,
        inv.writes,
        (
          λ e i lt. (
            total-zero (λ t. t.reads) n s.threads (sym inv.readers ∙ ap (λ w. w.readers) e) i lt,
            total-zero (λ t. t.writes) n s.threads (sym inv.writes ∙ ap (λ w. w.writes) e) i lt,
          ),
          λ none.
              let a = inv.readers ∙ zero-total (λ t. t.reads) n s.threads (λ i lt. (none i lt).0) in
              let b = inv.writes ∙ zero-total (λ t. t.writes) n s.threads (λ i lt. (none i lt).1) in
              let c = inv.tied b in ground arith,
        ),
      )

  -- In every state of such a run a thread that is inside unlock_write finds the word it has read, so its
  -- single exchange is made and its lock is given back.
  pub unlock_write_succeeds :
      {s : System} (r : Reach n ids s)
      → StaysBounded r
      → (i : ℕ) → i < n
      → (v : LockWord) → (s.threads i).pc ≡ unlocking v
      → advance (ids i) s.word (s.threads i)
        ≡ (released s.word, record (s.threads i) { pc = idle; writes = (s.threads i).writes - 1 })
  unfolding advance imconee.Lock.advance_at
  unlock_write_succeeds {s} r bounded i lt v at =
      let local = (Reach-Inv nonzero distinct narrow r bounded).agrees i lt in
      let l : Local s.word (s.threads i).writes (unlocking v) =
        subst (λ p. Local s.word (s.threads i).writes p) at local.local in
      let same : same_word s.word v ≡ true = ground arith in rw (at, same) (ground arith)
