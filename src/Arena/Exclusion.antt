-- ===== src/Arena/Exclusion.antt =====
-- The lock in `ff` of source/imconee/mem.cpp, for any number of threads.
use imconee.Common.{
  ℕ, ◌≡◌, ◌≢◌, ◌⊎◌, inl, inr, refl, sym, ap, ◌∙◌, Bool, true, false, ◌==◌, ==_refl, ltb, Bool-cases,
  arith,
}
use imconee.Arena.{load_int, block}
use imconee.Arena.Race.{
  Word, unlocked, locked_with, same, Pc, outside, alloc_read, fell_back, broken, alloc_lock,
  alloc_next, trapped, took, alloc_unlock, free_read, free_lock, free_link, free_unlock, System,
  put, advance_at,
}

-- Between the two exchanges, be it in DEBUGBREAK, and the head read there.
abbrev pub inside : Pc → Bool
inside (alloc_next u) = true
inside (alloc_unlock u v) = true
inside (trapped u) = true
inside (free_link i u) = true
inside (free_unlock i u) = true
inside _ = false

abbrev pub read_by : Pc → ℕ
read_by (alloc_next u) = u
read_by (alloc_unlock u v) = u
read_by (trapped u) = u
read_by (free_link i u) = u
read_by (free_unlock i u) = u
read_by _ = 0

abbrev pub is_broken : Pc → Bool
is_broken broken = true
is_broken _ = false

pub record Inv (w : Word) (ts : ℕ → Pc) : Type 0 where
  pub reads : (t : ℕ) → inside (ts t) ≡ true → (w.locked ≡ true) × (w.head ≡ read_by (ts t))
  pub alone : (t j : ℕ) → inside (ts t) ≡ true → inside (ts j) ≡ true → t ≡ j
  pub owner : w.locked ≡ true → (t : ℕ) × (inside (ts t) ≡ true)
  pub sound : (t : ℕ) → is_broken (ts t) ≡ false

eq_or_ne : (j t : ℕ) → (j ≡ t) ⊎ (j ≢ t)
eq_or_ne j t = ground arith

-- `us` are the threads after the change of thread `t`.
module _ {q : Pc} (ts us : ℕ → Pc) (t : ℕ) (mine : us t ≡ q)
    (theirs : (j : ℕ) → j ≢ t → us j ≡ ts j) where
  change_sound : {w : Word} → Inv w ts → is_broken q ≡ false → (j : ℕ) → is_broken (us j) ≡ false
  change_sound inv ok j = elim (eq_or_ne j t) [
    | inl e ↦ rw (e, mine) ok
    | inr ne ↦ rw (theirs j ne) (inv.sound j)
  ]

  quiet_inside : inside q ≡ inside (ts t) → (j : ℕ) → inside (us j) ≡ inside (ts j)
  quiet_inside keep j = elim (eq_or_ne j t) [
    | inl e ↦ rw (e, mine) keep
    | inr ne ↦ ap inside (theirs j ne)
  ]

  quiet_read :
      (inside (ts t) ≡ true → read_by q ≡ read_by (ts t))
      → (j : ℕ) → inside (ts j) ≡ true
      → read_by (us j) ≡ read_by (ts j)
  quiet_read keep j h = elim (eq_or_ne j t) [
    | inl e ↦ rw (e, mine) (keep (rw e at h))
    | inr ne ↦ ap read_by (theirs j ne)
  ]

  -- Where only `t` can be inside, an inside thread is `t`.
  only_mine : ((j : ℕ) → j ≢ t → inside (ts j) ≡ false) → (j : ℕ) → inside (us j) ≡ true → j ≡ t
  only_mine others j h = elim (eq_or_ne j t) [
    | inl e ↦ e
    | inr ne ↦ let f = ap inside (theirs j ne) ∙ others j ne in let bot : ⊥ = cc in absurd bot
  ]

  quiet_Inv :
      {w : Word}
      → Inv w ts
      → inside q ≡ inside (ts t)
      → (inside (ts t) ≡ true → read_by q ≡ read_by (ts t))
      → is_broken q ≡ false
      → Inv w us
  quiet_Inv inv keep reads ok = record {
    reads = λ j h.
        let before = sym (quiet_inside keep j) ∙ h in
        let (l, r) = inv.reads j before in (l, r ∙ sym (quiet_read reads j before));
    alone = λ j k hj hk.
        inv.alone j k (sym (quiet_inside keep j) ∙ hj) (sym (quiet_inside keep k) ∙ hk);
    owner = λ l. let (j, h) = inv.owner l in (j, quiet_inside keep j ∙ h);
    sound = change_sound inv ok;
  }

  acquire_Inv :
      {w v : Word}
      → Inv w ts
      → w.locked ≡ false
      → v ≡ locked_with (read_by q)
      → inside q ≡ true
      → is_broken q ≡ false
      → Inv v us
  acquire_Inv inv idle e entered ok =
      let others : (j : ℕ) → j ≢ t → inside (ts j) ≡ false = λ j ne.
        elim (Bool-cases (inside (ts j))) [
          | inl h ↦ let l = (inv.reads j h).0 in let bot : ⊥ = cc in absurd bot
          | inr h ↦ h
        ] in
      record {
        reads = λ j h. let m = only_mine others j h in rw (e, m, mine) (refl, refl);
        alone = λ j k hj hk. only_mine others j hj ∙ sym (only_mine others k hk);
        owner = λ l. (t, ap inside mine ∙ entered);
        sound = change_sound inv ok;
      }

  give_up_Inv :
      {w v : Word}
      → Inv w ts
      → inside (ts t) ≡ true
      → inside q ≡ false
      → v.locked ≡ false
      → is_broken q ≡ false
      → Inv v us
  give_up_Inv inv was now e ok =
      let others : (j : ℕ) → j ≢ t → inside (ts j) ≡ false = λ j ne.
        elim (Bool-cases (inside (ts j))) [
          | inl h ↦ absurd (ne (inv.alone j t h was))
          | inr h ↦ h
        ] in
      let none : (j : ℕ) → inside (us j) ≡ true → ⊥ = λ j h.
        let m = only_mine others j h in
        let f = ap (λ k. inside (us k)) m ∙ ap inside mine ∙ now in let bot : ⊥ = cc in bot in
      record {
        reads = λ j h. absurd (none j h);
        alone = λ j k hj hk. absurd (none j hj);
        owner = λ l. let bot : ⊥ = cc in absurd bot;
        sound = change_sound inv ok;
      }

pub put_mine : (s : System) (t : ℕ) (q : Pc) → (put s t q).threads t ≡ q
put_mine s t q = rw (==_refl t) refl

pub put_theirs : (s : System) (t : ℕ) (q : Pc) (j : ℕ) → j ≢ t → (put s t q).threads j ≡ s.threads j
put_theirs s t q j ne = let e : (j == t) ≡ false = ground arith in rw e refl

-- A step between two places outside the lock, or between two inside it with the same head.
pub quiet_put :
    (s : System) (t : ℕ) (p q : Pc)
    → Inv s.ff s.threads
    → s.threads t ≡ p
    → inside q ≡ inside p
    → (inside p ≡ true → read_by q ≡ read_by p)
    → is_broken q ≡ false
    → Inv s.ff (put s t q).threads
quiet_put s t p q inv e keep reads ok =
    quiet_Inv s.threads (put s t q).threads t (put_mine s t q) (put_theirs s t q) inv (rw e keep)
      (rw e reads) ok

acquire_put :
    (s : System) (t u : ℕ) (p q : Pc)
    → Inv s.ff s.threads
    → s.threads t ≡ p
    → same s.ff (unlocked u) ≡ true
    → inside q ≡ true
    → read_by q ≡ u
    → is_broken q ≡ false
    → Inv (locked_with u) (put s t q).threads
acquire_put s t u p q inv e idle entered read ok =
    acquire_Inv s.threads (put s t q).threads t (put_mine s t q) (put_theirs s t q) inv
      (ground arith) (rw read refl) entered ok

give_up_put :
    (s : System) (t v : ℕ) (p q : Pc)
    → Inv s.ff s.threads
    → s.threads t ≡ p
    → inside p ≡ true
    → inside q ≡ false
    → is_broken q ≡ false
    → Inv (unlocked v) (put s t q).threads
give_up_put s t v p q inv e was now ok =
    give_up_Inv s.threads (put s t q).threads t (put_mine s t q) (put_theirs s t q) inv (rw e was)
      now refl ok

-- A thread inside finds the word as it left it.
finds_same :
    (s : System) (t : ℕ) (p : Pc)
    → Inv s.ff s.threads
    → s.threads t ≡ p
    → inside p ≡ true
    → same s.ff (locked_with (read_by p)) ≡ true
finds_same s t p inv e was =
    let (l, r) = inv.reads t (ap inside e ∙ was) in let r' = r ∙ ap read_by e in ground arith

module _ (elsz arsz buf : ℕ) where
  pub advance_at-Inv :
      (p : Pc) (s : System) (t : ℕ)
      → Inv s.ff s.threads
      → s.threads t ≡ p
      → Inv (advance_at elsz arsz buf p s t).ff (advance_at elsz arsz buf p s t).threads
  advance_at-Inv outside s t inv e = inv
  advance_at-Inv fell_back s t inv e = inv
  advance_at-Inv broken s t inv e = inv
  advance_at-Inv (took u) s t inv e = inv
  advance_at-Inv (trapped u) s t inv e = inv
  advance_at-Inv alloc_read s t inv e =
      quiet_put s t alloc_read (alloc_lock s.ff.head) inv e refl (λ h. cc) refl
  advance_at-Inv (alloc_lock u) s t inv e = elim (Bool-cases (same s.ff (unlocked u))) [
    | inl idle ↦ rw idle (acquire_put s t u (alloc_lock u) (alloc_next u) inv e idle refl refl refl)
    | inr taken ↦ rw taken (quiet_put s t (alloc_lock u) alloc_read inv e refl (λ h. cc) refl)
  ]
  advance_at-Inv (alloc_next u) s t inv e =
      let v = load_int s.mem (block elsz arsz buf u) in
      elim (Bool-cases (ltb v 0x80000000)) [
        | inl number ↦
            rw number (quiet_put s t (alloc_next u) (alloc_unlock u v) inv e refl (λ h. refl) refl)
        | inr negative ↦
            rw negative (quiet_put s t (alloc_next u) (trapped u) inv e refl (λ h. refl) refl)
      ]
  advance_at-Inv (alloc_unlock u v) s t inv e =
      rw (finds_same s t (alloc_unlock u v) inv e refl)
        (give_up_put s t v (alloc_unlock u v) (took u) inv e refl refl refl)
  advance_at-Inv (free_read i) s t inv e =
      quiet_put s t (free_read i) (free_lock i s.ff.head) inv e refl (λ h. cc) refl
  advance_at-Inv (free_lock i u) s t inv e = elim (Bool-cases (same s.ff (unlocked u))) [
    | inl idle ↦
        rw idle (acquire_put s t u (free_lock i u) (free_link i u) inv e idle refl refl refl)
    | inr taken ↦ rw taken (quiet_put s t (free_lock i u) (free_read i) inv e refl (λ h. cc) refl)
  ]
  advance_at-Inv (free_link i u) s t inv e =
      quiet_put s t (free_link i u) (free_unlock i u) inv e refl (λ h. refl) refl
  advance_at-Inv (free_unlock i u) s t inv e =
      rw (finds_same s t (free_unlock i u) inv e refl)
        (give_up_put s t i (free_unlock i u) outside inv e refl refl refl)
