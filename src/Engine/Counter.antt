-- ===== src/Engine/Counter.antt =====
-- engine::numlisteners of source/imconee/engine.cpp counts the listeners that run.
use imconee.Common.{
  ℕ, zero, suc, ◌+◌, ◌<◌, ◌≤◌, ◌≡◌, refl, sym, inl, inr, Bool, ◌==◌, ==_refl, Bool-cases, arith,
}
use imconee.Engine.Acceptor.{
  Listener, Step, open_running, open_start, open_count, open_create, stop_idle, stop_begin,
  stop_flag, stop_read, stop_end, stop_reset, works, listens, fails, goes_on, leaves, accepts, ends,
  counts, init, counting,
}
use imconee.Engine.Presence.{Inv, empty, owner}
use imconee.Engine.OneThread.{IsCounted, Inv-IsCounted, Step-Inv}
use imconee.Engine.Program.{Program, new_count, put, Reach, start, later}

abbrev pub total : ℕ → (ℕ → Listener) → ℕ
total zero ls = 0
total (suc n) ls = (ls n).share + total n ls

total-put_above :
    (n : ℕ) (p : Program) (i : ℕ) (r : Listener) → n ≤ i → total n (put p i r) ≡ total n p.listeners
total-put_above zero p i r le = refl
total-put_above (suc n) p i r le = ground (arith, total-put_above n p i r (omega arith))

total-put :
    (n : ℕ) (p : Program) (i : ℕ) (r : Listener)
    → i < n
    → total n (put p i r) + (p.listeners i).share ≡ total n p.listeners + r.share
total-put zero p i r lt = absurd (omega arith)
total-put (suc n) p i r lt = elim (Bool-cases (n == i)) [
  | inl same ↦
      let e : i ≡ n = ground arith in
      rw e (ground (arith, ==_refl n, total-put_above n p n r (omega arith)))
  | inr other ↦
      let below : i < n = ground arith in let ih = total-put n p i r below in rw other (omega arith)
]

part-total : (n : ℕ) (ls : ℕ → Listener) (i : ℕ) → i < n → (ls i).share ≤ total n ls
part-total zero ls i lt = absurd (omega arith)
part-total (suc n) ls i lt = elim (Bool-cases (n == i)) [
  | inl same ↦ let e : i ≡ n = ground arith in rw e (omega arith)
  | inr other ↦ let below : i < n = ground arith in omega (arith, part-total n ls i below)
]

-- A step changes the counter by what it changes in the share of its listener.
new_count-share :
    {nix : Bool} {s r : Listener} (step : Step nix s r) (k : ℕ)
    → Inv s
    → s.share ≤ k
    → new_count step k + s.share ≡ k + r.share
new_count-share (open_running c h g) k inv le = refl
new_count-share (open_start c h g) k inv le = refl
new_count-share (open_count c) k inv le = omega arith
new_count-share (open_create t c at) k inv le = refl
new_count-share (stop_idle c h g) k inv le = refl
new_count-share (stop_begin c h g) k inv le = refl
new_count-share (stop_flag c h) k inv le = refl
new_count-share (stop_read c h) k inv le = refl
new_count-share (stop_end c h g) k inv le = refl
new_count-share (stop_reset c h free) k inv le = refl
new_count-share (works t at h free) k inv le = refl
new_count-share (listens t at) k inv le = refl
new_count-share (fails t at) k inv le = refl
new_count-share (goes_on t at h n) k inv le = refl
new_count-share (leaves t at h n) k inv le = refl
new_count-share (accepts t at) k inv le = refl
new_count-share (ends t at h free) k inv le = refl
new_count-share {s = s} (counts t at) k inv le =
    let one = (owner s t counting inv at refl).count in omega arith

init-Inv : Inv init
init-Inv = empty (record { none_there = λ t. refl; count = refl; free = refl; stage = refl }) refl

total-zero : (n : ℕ) → total n (λ i. init) ≡ 0
total-zero zero = refl
total-zero (suc n) = ground (arith, total-zero n)

put-Inv :
    (p : Program) (i : ℕ) (r : Listener)
    → Inv r
    → ((j : ℕ) → Inv (p.listeners j))
    → (j : ℕ) → Inv (put p i r j)
put-Inv p i r new all j = elim (Bool-cases (j == i)) [
  | inl same ↦ rw same new
  | inr other ↦ rw other (all j)
]

record Whole (n : ℕ) (p : Program) : Type 0 where
  sum : p.numlisteners ≡ total n p.listeners
  each : (i : ℕ) → Inv (p.listeners i)

Reach-Whole : {nix : Bool} (n : ℕ) (p : Program) → Reach nix n p → Whole n p
Reach-Whole n p start = record { sum = sym (total-zero n); each = λ i. init-Inv }
Reach-Whole n p (later {p = old} {r = r} reach i lt step) =
    let w = Reach-Whole n old reach in
    let all = w.sum in
    let part = part-total n old.listeners i lt in
    let change = new_count-share step old.numlisteners (w.each i) (omega arith) in
    record {
      sum = omega (arith, total-put n old i r lt);
      each = put-Inv old i r (Step-Inv step (w.each i)) w.each;
    }

-- In every state that a program of `n` listeners comes to, numlisteners is the sum of their shares. The
-- share of a listener is 1 where one thread of it runs, and no other, or where open is about to make
-- the thread, and else 0; no thread of it runs where stop has left its loop.
pub listeners-IsCounted :
    {nix : Bool} (n : ℕ) (p : Program)
    → Reach nix n p
    → (p.numlisteners ≡ total n p.listeners) × ((i : ℕ) → IsCounted (p.listeners i))
listeners-IsCounted n p reach =
    let w = Reach-Whole n p reach in (w.sum, λ i. Inv-IsCounted (p.listeners i) (w.each i))
