-- ===== src/Lock/Invariant.antt =====
-- What holds of every reachable state of the lock of source/imconee/spinlock.h.
use imconee.Common.{ℕ, ◌+◌, ◌<◌, ◌≤◌, ◌≡◌, ◌≢◌, refl, sym, ◌∙◌, false, ◌⊎◌, inl, inr, arith}
use imconee.Lock.{
  LockWord, Pc, idle, write_again, write_wait, read_again, write_once, write_try, read_try,
  read_once, unlocking, Thread,
}
use imconee.Lock.Count.{total}
use imconee.Lock.Change.{waiting, Local, Change, quiet, take, enter, deepen, leave, drop}

-- What the word and a thread say of each other.
pub record Agrees (w : LockWord) (tid : ℕ) (t : Thread) : Type 0 where
  pub owns : 0 < t.writes → w.thread ≡ tid
  pub depth : 0 < t.writes → w.writes ≡ t.writes
  pub owned : w.thread ≡ tid → 0 < t.writes
  pub local : Local w t.writes t.pc

-- The word counts the locks, and a writer that no longer waits is alone.
pub record Inv (n : ℕ) (ids : ℕ → ℕ) (w : LockWord) (ts : ℕ → Thread) : Type 0 where
  pub readers : w.readers ≡ total (λ t. t.reads) n ts
  pub writes : w.writes ≡ total (λ t. t.writes) n ts
  pub tied : w.writes ≡ 0 → w.thread ≡ 0
  pub narrow : w.thread < 0x10000000000
  pub agrees : (i : ℕ) → i < n → Agrees w (ids i) (ts i)
  pub alone :
      (i : ℕ)
      → i < n
      → 0 < (ts i).writes
      → waiting (ts i).pc ≡ false
      → (j : ℕ) → j < n
      → j ≢ i
      → (ts j).reads ≡ 0

Local-word :
    (pc : Pc) (w x : LockWord) (k : ℕ)
    → Local w k pc
    → (0 < k → waiting pc ≡ false → w ≡ x)
    → Local x k pc
Local-word idle w x k l same = tt
Local-word write_again w x k l same = l
Local-word write_wait w x k l same = tt
Local-word read_again w x k l same = l
Local-word write_once w x k l same = tt
Local-word (write_try v) w x k l same = tt
Local-word (read_try v) w x k l same = tt
Local-word (read_once v) w x k l same = tt
Local-word (unlocking v) w x k l same = (l.0, sym (same l.0 refl) ∙ l.1)

-- The thread that makes the access.
pub own-Agrees :
    {tid : ℕ} {w : LockWord} {t : Thread} {x : LockWord} {u : Thread}
    → Change tid w t x u
    → tid ≢ 0
    → Agrees w tid t
    → Local x u.writes u.pc
    → Agrees x tid u
own-Agrees (quiet e1 e2 e3 e4) nz a l =
    let o = a.owns in
    let d = a.depth in
    let b = a.owned in
    record {
      owns = λ h. ground arith;
      depth = λ h. ground arith;
      owned = λ h. ground arith;
      local = l;
    }
own-Agrees (take e1 e2 e3 e4 e5 e6 e7 e8) nz a l = record {
  owns = λ h. e5;
  depth = λ h. omega arith;
  owned = λ h. omega arith;
  local = l;
}
own-Agrees (enter e1 e2 e3 e4 e5 e6 e7) nz a l =
    let o = a.owns in
    let d = a.depth in
    let b = a.owned in
    record {
      owns = λ h. ground arith;
      depth = λ h. ground arith;
      owned = λ h. ground arith;
      local = l;
    }
own-Agrees (deepen e1 e2 e3 e4 e5 e6 e7) nz a l =
    let o = a.owns in
    let d = a.depth in
    record {
      owns = λ h. ground arith;
      depth = λ h. ground arith;
      owned = λ h. omega arith;
      local = l;
    }
own-Agrees (leave e1 e2 e3 e4 e5 e6 e7) nz a l =
    let o = a.owns e1 in
    let d = a.depth e1 in
    record {
      owns = λ h. ground arith;
      depth = λ h. ground arith;
      owned = λ h. ground arith;
      local = l;
    }
own-Agrees (drop e1 e2 e3 e4 e5 e6 e7) nz a l =
    let o = a.owns in
    let d = a.depth in
    let b = a.owned in
    record {
      owns = λ h. ground arith;
      depth = λ h. ground arith;
      owned = λ h. ground arith;
      local = l;
    }

-- Under a foreign owner, an access of another thread keeps the owner's part of the word.
pub foreign :
    {tid : ℕ} {w : LockWord} {t : Thread} {x : LockWord} {u : Thread}
    → Change tid w t x u
    → w.thread ≢ 0
    → t.writes ≡ 0
    → (x.thread ≡ w.thread)
      × (x.writes ≡ w.writes)
      × ((t.reads ≡ 0) → (x.readers ≡ w.readers) × (u.reads ≡ 0))
foreign (quiet e1 e2 e3 e4) nz none =
    (ground arith, ground arith, λ h. (ground arith, ground arith))
foreign (take e1 e2 e3 e4 e5 e6 e7 e8) nz none = ground arith
foreign (enter e1 e2 e3 e4 e5 e6 e7) nz none = ground arith
foreign (deepen e1 e2 e3 e4 e5 e6 e7) nz none = ground arith
foreign (leave e1 e2 e3 e4 e5 e6 e7) nz none = ground arith
foreign (drop e1 e2 e3 e4 e5 e6 e7) nz none = (e4, e3, λ h. (omega arith, omega arith))

-- No access gives the word to another thread.
unforced :
    {tid : ℕ} {w : LockWord} {t : Thread} {x : LockWord} {u : Thread}
    → Change tid w t x u
    → (other : ℕ) → other ≢ 0
    → other ≢ tid
    → x.thread ≡ other
    → w.thread ≡ other
unforced (quiet e1 e2 e3 e4) other nz ne h = ground arith
unforced (take e1 e2 e3 e4 e5 e6 e7 e8) other nz ne h = ground arith
unforced (enter e1 e2 e3 e4 e5 e6 e7) other nz ne h = ground arith
unforced (deepen e1 e2 e3 e4 e5 e6 e7) other nz ne h = ground arith
unforced (leave e1 e2 e3 e4 e5 e6 e7) other nz ne h = ground arith
unforced (drop e1 e2 e3 e4 e5 e6 e7) other nz ne h = ground arith

same-word :
    (w x : LockWord) → x.readers ≡ w.readers → x.writes ≡ w.writes → x.thread ≡ w.thread → w ≡ x
same-word w x e f g = ground arith

-- Another thread.
pub other-Agrees :
    {tid other : ℕ} {w : LockWord} {t : Thread} {x : LockWord} {u v : Thread}
    → Change tid w t x u
    → other ≢ 0
    → other ≢ tid
    → Agrees w tid t
    → Agrees w other v
    → (0 < v.writes → waiting v.pc ≡ false → t.reads ≡ 0)
    → Agrees x other v
other-Agrees {tid} {other} {w} {t} {x} {u} {v} change nz ne a b quiet_of = record {
  owns = λ h. (kept h).0 ∙ b.owns h;
  depth = λ h. (kept h).1 ∙ b.depth h;
  owned = λ h. b.owned (unforced change other nz ne h);
  local =
      Local-word v.pc w x v.writes b.local
        (λ h still. same-word w x ((kept h).2 (quiet_of h still)).0 (kept h).1 (kept h).0);
}
  where
    kept :
        0 < v.writes
        → (x.thread ≡ w.thread)
          × (x.writes ≡ w.writes)
          × ((t.reads ≡ 0) → (x.readers ≡ w.readers) × (u.reads ≡ 0))
    kept h =
        let mine = b.owns h in let theirs = a.owns in foreign change (ground arith) (ground arith)

-- The thread in the word is one that may lock, or none.
pub narrow_thread :
    {tid : ℕ} {w : LockWord} {t : Thread} {x : LockWord} {u : Thread}
    → Change tid w t x u
    → tid < 0x10000000000
    → w.thread < 0x10000000000
    → x.thread < 0x10000000000
narrow_thread (quiet e1 e2 e3 e4) i l = rw e1 at l
narrow_thread (take e1 e2 e3 e4 e5 e6 e7 e8) i l = rw e5 i
narrow_thread (enter e1 e2 e3 e4 e5 e6 e7) i l = rw e4 l
narrow_thread (deepen e1 e2 e3 e4 e5 e6 e7) i l = rw e4 l
narrow_thread (leave e1 e2 e3 e4 e5 e6 e7) i l = ground arith
narrow_thread (drop e1 e2 e3 e4 e5 e6 e7) i l = rw e4 l

-- What an access adds to the sums.
pub counted :
    {tid : ℕ} {w : LockWord} {t : Thread} {x : LockWord} {u : Thread}
    → Change tid w t x u
    → Agrees w tid t
    → t.reads ≤ w.readers
    → (x.readers + t.reads ≡ w.readers + u.reads)
      × (x.writes + t.writes ≡ w.writes + u.writes)
      × ((w.writes ≡ 0 → w.thread ≡ 0) → x.writes ≡ 0 → x.thread ≡ 0)
counted (quiet e1 e2 e3 e4) a le = (ground arith, ground arith, λ p h. ground arith)
counted (take e1 e2 e3 e4 e5 e6 e7 e8) a le =
    let d = a.depth in (omega arith, ground arith, λ p h. omega arith)
counted (enter e1 e2 e3 e4 e5 e6 e7) a le = (omega arith, omega arith, λ p h. ground arith)
counted (deepen e1 e2 e3 e4 e5 e6 e7) a le = (omega arith, omega arith, λ p h. ground arith)
counted (leave e1 e2 e3 e4 e5 e6 e7) a le =
    let d = a.depth e1 in (omega arith, omega arith, λ p h. ground arith)
counted (drop e1 e2 e3 e4 e5 e6 e7) a le = (omega arith, omega arith, λ p h. ground arith)

-- A writer is past its wait since an earlier access, or no reader is left.
pub settled :
    {tid : ℕ} {w : LockWord} {t : Thread} {x : LockWord} {u : Thread}
    → Change tid w t x u
    → Agrees w tid t
    → tid ≢ 0
    → 0 < u.writes
    → waiting u.pc ≡ false
    → (w.readers ≡ 0) ⊎ ((0 < t.writes) × (waiting t.pc ≡ false))
settled (quiet e1 e2 e3 (inl e4)) a nz h still = inr (ground arith, sym e4 ∙ still)
settled (quiet e1 e2 e3 (inr e4)) a nz h still = inl e4
settled (take e1 e2 e3 e4 e5 e6 e7 (inl e8)) a nz h still = let bot : ⊥ = cc in absurd bot
settled (take e1 e2 e3 e4 e5 e6 e7 (inr e8)) a nz h still = inl e8
settled (enter e1 e2 e3 e4 e5 e6 e7) a nz h still = inr (omega arith, sym e7 ∙ still)
settled (deepen e1 e2 e3 e4 e5 e6 e7) a nz h still = inr (e1, sym e7 ∙ still)
settled (leave e1 e2 e3 e4 e5 e6 e7) a nz h still = inr (e1, sym e7 ∙ still)
settled (drop e1 e2 e3 e4 e5 e6 e7) a nz h still = inr (omega arith, sym e7 ∙ still)
