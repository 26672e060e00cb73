-- ===== src/Lock/Count.antt =====
-- Sums over the threads of a lock of source/imconee/spinlock.h.
use imconee.Common.{ℕ, zero, suc, ◌+◌, ◌<◌, ◌≤◌, ◌≡◌, refl, Bool-cases, ◌==◌, inl, inr, arith}
use imconee.Lock.{Thread}
use imconee.Lock.System.{update, System, Reach, start, later, init}

unfoldable pub total : (Thread → ℕ) → ℕ → (ℕ → Thread) → ℕ
total f zero ts = 0
total f (suc n) ts = f (ts n) + total f n ts

total-update-above :
    (f : Thread → ℕ) (n i : ℕ) (ts : ℕ → Thread) (t : Thread)
    → n ≤ i
    → total f n (update ts i t) ≡ total f n ts
unfolding total
total-update-above f zero i ts t le = refl
total-update-above f (suc n) i ts t le = ground (arith, total-update-above f n i ts t (omega arith))

-- What thread `i` counts is exchanged.
pub total-update :
    (f : Thread → ℕ) (n i : ℕ) (ts : ℕ → Thread) (t : Thread)
    → i < n
    → total f n (update ts i t) + f (ts i) ≡ total f n ts + f t
unfolding total
total-update f zero i ts t lt = omega arith
total-update f (suc n) i ts t lt = elim (Bool-cases (n == i)) [
  | inl e ↦ ground (arith, total-update-above f n i ts t (ground arith))
  | inr e ↦ ground (arith, total-update f n i ts t (ground arith))
]

pub total-zero :
    (f : Thread → ℕ) (n : ℕ) (ts : ℕ → Thread) → total f n ts ≡ 0 → (i : ℕ) → i < n → f (ts i) ≡ 0
unfolding total
total-zero f zero ts e i lt = omega arith
total-zero f (suc n) ts e i lt = elim (Bool-cases (n == i)) [
  | inl s ↦ ground arith
  | inr s ↦ total-zero f n ts (omega arith) i (ground arith)
]

pub zero-total :
    (f : Thread → ℕ) (n : ℕ) (ts : ℕ → Thread) → ((i : ℕ) → i < n → f (ts i) ≡ 0) → total f n ts ≡ 0
unfolding total
zero-total f zero ts z = refl
zero-total f (suc n) ts z =
    let a = z n (omega arith) in
    let b = zero-total f n ts (λ i lt. z i (omega arith)) in omega arith

pub part-total : (f : Thread → ℕ) (n i : ℕ) (ts : ℕ → Thread) → i < n → f (ts i) ≤ total f n ts
unfolding total
part-total f zero i ts lt = omega arith
part-total f (suc n) i ts lt = elim (Bool-cases (n == i)) [
  | inl e ↦ ground arith
  | inr e ↦ ground (arith, part-total f n i ts (ground arith))
]

-- The locks that threads hold are fewer than the fields of the word can count.
abbrev pub Bounded : ℕ → System → Type 0
Bounded n s =
    (total (λ t. t.reads) n s.threads < 0x10000) × (total (λ t. t.writes) n s.threads < 0x100)

-- A run with fewer than 65536 read locks, and a write lock less than 256 deep, all the time.
abbrev pub StaysBounded : {n : ℕ} {ids : ℕ → ℕ} {s : System} → Reach n ids s → Type 0
StaysBounded start = Unit
StaysBounded {n} (later {t = t} r step) = StaysBounded r × Bounded n t

pub StaysBounded-Bounded :
    {n : ℕ} {ids : ℕ → ℕ} {s : System} (r : Reach n ids s) → StaysBounded r → Bounded n s
StaysBounded-Bounded {n} start b =
    let reads = zero-total (λ t. t.reads) n init.threads (λ i lt. refl) in
    let writes = zero-total (λ t. t.writes) n init.threads (λ i lt. refl) in
    (omega arith, omega arith)
StaysBounded-Bounded (later r step) b = b.1
