-- ===== src/Lock/Reachable.antt =====
-- Every step of the lock of source/imconee/spinlock.h keeps the invariant.
use imconee.Common.{
  ℕ, ◌<◌, ◌≡◌, ◌≢◌, refl, sym, ap, ◌∙◌, false, ◌==◌, inl, inr, if◌then◌else◌, Bool-cases, arith,
}
use imconee.Lock.{LockWord, Pc, Thread, begin, advance}
use imconee.Lock.System.{System, update, Step, call, go, init, Reach, start, later}
use imconee.Lock.Word.{IsPacked}
use imconee.Lock.Count.{
  Bounded, StaysBounded, StaysBounded-Bounded, total-update, total-zero, zero-total, part-total,
}
use imconee.Lock.Change.{waiting, Local, Change, begin-Change, advance-Change}
use imconee.Lock.Invariant.{
  Agrees, Inv, own-Agrees, other-Agrees, foreign, counted, settled, narrow_thread,
}

module _ {n : ℕ} {ids : ℕ → ℕ} (nonzero : (i : ℕ) → i < n → ids i ≢ 0)
    (distinct : (i j : ℕ) → i < n → j < n → ids i ≡ ids j → i ≡ j)
    (narrow : (i : ℕ) → i < n → ids i < 0x10000000000) where
  update-Agrees :
      {w : LockWord} {ts : ℕ → Thread} {i : ℕ} {x : LockWord} {u : Thread}
      → Inv n ids w ts
      → i < n
      → Change (ids i) w (ts i) x u
      → Local x u.writes u.pc
      → (k : ℕ) → k < n
      → Agrees x (ids k) (update ts i u k)
  update-Agrees {w} {ts} {i} {x} {u} inv lt change l k lk = elim (Bool-cases (k == i)) [
    | inl e ↦
        let s : i ≡ k = ground arith in
        rw e (rw (← s) (own-Agrees change (nonzero i lt) (inv.agrees i lt) l))
    | inr e ↦
        let other : ids k ≢ ids i = λ same. let s = distinct k i lk lt same in ground arith in
        rw e (
          other-Agrees change (nonzero k lk) other (inv.agrees i lt) (inv.agrees k lk)
            (λ h still. inv.alone k lk h still i lt (ground arith)))
  ]

  update-alone :
      {w : LockWord} {ts : ℕ → Thread} {i : ℕ} {x : LockWord} {u : Thread}
      → Inv n ids w ts
      → i < n
      → Change (ids i) w (ts i) x u
      → (k : ℕ) → k < n
      → 0 < (update ts i u k).writes
      → waiting (update ts i u k).pc ≡ false
      → (j : ℕ) → j < n
      → j ≢ k
      → (update ts i u j).reads ≡ 0
  update-alone {w} {ts} {i} {x} {u} inv lt change k lk h still j lj ne =
      elim (Bool-cases (k == i)) [
        | inl mine ↦
            let s : i ≡ k = ground arith in
            let hh : 0 < u.writes = ground arith in
            let st : waiting u.pc ≡ false =
              ap (λ b. waiting (if b then u else ts k).pc) (sym mine) ∙ still in
            elim (settled change (inv.agrees i lt) (nonzero i lt) hh st) [
              | inl none ↦
                  let z = total-zero (λ t. t.reads) n ts (sym inv.readers ∙ none) j lj in
                  ground arith
              | inr past ↦ let z = inv.alone i lt past.0 past.1 j lj (ground arith) in ground arith
            ]
        | inr theirs ↦
            let hh : 0 < (ts k).writes = ground arith in
            let st : waiting (ts k).pc ≡ false =
              ap (λ b. waiting (if b then u else ts k).pc) (sym theirs) ∙ still in
            elim (Bool-cases (j == i)) [
              | inl mine ↦
                  let owner = (inv.agrees k lk).owns hh in
                  let nz = nonzero k lk in
                  let own = (inv.agrees i lt).owns in
                  let apart : ids k ≢ ids i =
                    λ same. let s = distinct k i lk lt same in ground arith in
                  let none : (ts i).writes ≡ 0 = ground arith in
                  let z =
                    (foreign change (ground arith) none).2
                      (inv.alone k lk hh st i lt (ground arith)) in
                  ground arith
              | inr other ↦ let z = inv.alone k lk hh st j lj ne in ground arith
            ]
      ]

  Change-Inv :
      {w : LockWord} {ts : ℕ → Thread} {i : ℕ} {x : LockWord} {u : Thread}
      → Inv n ids w ts
      → i < n
      → Change (ids i) w (ts i) x u
      → Local x u.writes u.pc
      → Inv n ids x (update ts i u)
  Change-Inv {w} {ts} {i} {x} {u} inv lt change l =
      let part = part-total (λ t. t.reads) n i ts lt in
      let all = inv.readers in
      let all_writes = inv.writes in
      let sums = counted change (inv.agrees i lt) (omega arith) in
      let (e1, e2, e3) = sums in
      record {
        readers = omega (arith, total-update (λ t. t.reads) n i ts u lt);
        writes = omega (arith, total-update (λ t. t.writes) n i ts u lt);
        tied = e3 inv.tied;
        narrow = narrow_thread change (narrow i lt) inv.narrow;
        agrees = update-Agrees inv lt change l;
        alone = update-alone inv lt change;
      }

  packed : {s : System} → Inv n ids s.word s.threads → Bounded n s → IsPacked s.word
  packed inv (reads, writes) =
      let a = inv.readers in
      let b = inv.writes in
      record { readers_in = omega arith; writes_in = omega arith; thread_in = inv.narrow }

  Step-Inv :
      {s t : System}
      → Inv n ids s.word s.threads
      → Bounded n s
      → Step n ids s t
      → Bounded n t
      → Inv n ids t.word t.threads
  unfolding advance imconee.Lock.advance_at
  Step-Inv {s} inv here (call i op lt at may) there =
      let part = part-total (λ t. t.reads) n i s.threads lt in
      let all = inv.readers in
      let (change, l) =
        begin-Change op (ids i) s.word (s.threads i) at may (inv.agrees i lt).owned
          (packed inv here) (omega arith) in
      Change-Inv inv lt change l
  Step-Inv {s} inv here (go i lt) (reads, writes) =
      let t = s.threads i in
      let u = (advance (ids i) s.word t).1 in
      let all = inv.readers in
      let all_writes = inv.writes in
      let deep : 0 < t.writes → 0 < s.word.writes =
        λ h. let d = (inv.agrees i lt).depth h in omega arith in
      let (change, l) =
        advance-Change t.pc (ids i) s.word t.writes t.reads (inv.agrees i lt).local
          (packed inv here) deep (omega (arith, total-update (λ t. t.reads) n i s.threads u lt))
          (omega (arith, total-update (λ t. t.writes) n i s.threads u lt)) in
      Change-Inv inv lt change l

  pub Reach-Inv : {s : System} (r : Reach n ids s) → StaysBounded r → Inv n ids s.word s.threads
  Reach-Inv start b = record {
    readers = sym (zero-total (λ t. t.reads) n init.threads (λ i lt. refl));
    writes = sym (zero-total (λ t. t.writes) n init.threads (λ i lt. refl));
    tied = λ h. refl;
    narrow = omega arith;
    agrees = λ i lt.
        let nz = nonzero i lt in
        record {
          owns = λ h. omega arith;
          depth = λ h. omega arith;
          owned = λ h. ground arith;
          local = tt;
        };
    alone = λ i lt h still j lj ne. refl;
  }
  Reach-Inv (later r step) (before, now) =
      Step-Inv (Reach-Inv r before) (StaysBounded-Bounded r before) step now
