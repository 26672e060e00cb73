-- ===== src/Arena/Locked.antt =====
-- What holds of the lock in `ff` of source/imconee/mem.cpp in every reachable state.
use imconee.Common.{ℕ, ◌≡◌, ◌≢◌, ◌↔◌, inl, inr, refl, sym, ap, ◌∙◌, true, false, ltb, Bool-cases}
use imconee.Arena.Exclusion.{inside, is_broken, Inv, quiet_put, advance_at-Inv}
use imconee.Arena.Race.{
  outside, alloc_read, fell_back, broken, took, free_read, System, Reach, start, allocate, release,
  leave_took, leave_fell, write, go,
}

module _ (elsz arsz buf : ℕ) where
  -- The states from which the program starts: the word is not locked, and no thread is in a call.
  pub record Quiet (s : System) : Type 0 where
    pub free_word : s.ff.locked ≡ false
    pub no_calls : (t : ℕ) → s.threads t ≡ outside

  Reach-Inv : {init s : System} → Quiet init → Reach elsz arsz buf init s → Inv s.ff s.threads
  Reach-Inv {init} quiet start = record {
    reads = λ t h. let o = ap inside (quiet.no_calls t) in let bot : ⊥ = cc in absurd bot;
    alone = λ t j h hj. let o = ap inside (quiet.no_calls t) in let bot : ⊥ = cc in absurd bot;
    owner = λ l. let o = quiet.free_word in let bot : ⊥ = cc in absurd bot;
    sound = λ t. ap is_broken (quiet.no_calls t);
  }
  Reach-Inv quiet (allocate {s} r t e) = elim (Bool-cases (ltb s.ff.head arsz)) [
    | inl some_left ↦
        rw some_left (quiet_put s t outside alloc_read (Reach-Inv quiet r) e refl (λ h. cc) refl)
    | inr empty ↦
        rw empty (quiet_put s t outside fell_back (Reach-Inv quiet r) e refl (λ h. cc) refl)
  ]
  Reach-Inv quiet (release {s} r t i e) = elim (Bool-cases (ltb i arsz)) [
    | inl own ↦
        rw own (quiet_put s t outside (free_read i) (Reach-Inv quiet r) e refl (λ h. cc) refl)
    | inr foreign ↦
        rw foreign (quiet_put s t outside outside (Reach-Inv quiet r) e refl (λ h. cc) refl)
  ]
  Reach-Inv quiet (leave_took {s} r t u e) =
      quiet_put s t (took u) outside (Reach-Inv quiet r) e refl (λ h. cc) refl
  Reach-Inv quiet (leave_fell {s} r t e) =
      quiet_put s t fell_back outside (Reach-Inv quiet r) e refl (λ h. cc) refl
  Reach-Inv quiet (write {s} r new) = Reach-Inv quiet r
  Reach-Inv quiet (go {s} r t) =
      advance_at-Inv elsz arsz buf (s.threads t) s t (Reach-Inv quiet r) refl

  -- From a quiet state, whatever threads call alloc and free, the word is locked exactly while a thread
  -- is between the two exchanges of a call, there is at most one such thread, and no thread finds
  -- the word changed when it unlocks it.
  pub lock_exclusive :
      {init s : System}
      → Quiet init
      → Reach elsz arsz buf init s
      → ((s.ff.locked ≡ true) ↔ ((t : ℕ) × (inside (s.threads t) ≡ true)))
        × ((t j : ℕ) → inside (s.threads t) ≡ true → inside (s.threads j) ≡ true → t ≡ j)
        × ((t : ℕ) → s.threads t ≢ broken)
  lock_exclusive quiet r =
      let inv = Reach-Inv quiet r in
      (
        (inv.owner, λ h. (inv.reads h.0 h.1).0),
        inv.alone,
        λ t e. let o = sym (inv.sound t) ∙ ap is_broken e in let bot : ⊥ = cc in bot,
      )
