-- ===== src/Engine/Presence.antt =====
-- The invariant of the thread of a tcp_listener of source/imconee/listener.cpp.
use imconee.Common.{
  ℕ, ◌≡◌, ◌≢◌, ◌⊎◌, inl, inr, refl, sym, ap, ◌∙◌, Bool, true, false, ◌==◌, ==_refl, arith,
}
use imconee.Engine.Acceptor.{
  Stage, stage_idle, acceptor_start, Place, absent, counting, Caller, incrementing, creating,
  resetting, Listener, is_idle, place,
}

abbrev pub present : Place → Bool
present absent = false
present _ = true

abbrev pub is_counting : Place → Bool
is_counting counting = true
is_counting _ = false

abbrev pub mid_open : Caller → Bool
mid_open incrementing = true
mid_open creating = true
mid_open _ = false

abbrev pub is_resetting : Caller → Bool
is_resetting resetting = true
is_resetting _ = false

-- There is no thread; in open there will be one.
pub record Empty (s : Listener) (n : ℕ) (g : Stage) : Type 0 where
  pub none_there : (t : ℕ) → s.threads t ≡ absent
  pub count : s.share ≡ n
  pub free : s.held ≡ false
  pub stage : s.stage ≡ g

-- Thread `t` is there alone.
pub record Running (s : Listener) (t : ℕ) (p : Place) : Type 0 where
  pub there : s.threads t ≡ p
  pub is_present : present p ≡ true
  pub others : (j : ℕ) → j ≢ t → s.threads j ≡ absent
  pub count : s.share ≡ 1
  pub held : s.held ≡ is_counting p
  pub stage : is_idle s.stage ≡ is_counting p
  pub not_open : mid_open s.caller ≡ false
  pub not_reset : is_resetting s.caller ≡ false

pub data Inv (s : Listener) : Type 0 where
  empty : Empty s 0 stage_idle → mid_open s.caller ≡ false → Inv s
  opening : Empty s 0 acceptor_start → s.caller ≡ incrementing → Inv s
  opened : Empty s 1 acceptor_start → s.caller ≡ creating → Inv s
  running : (t : ℕ) (p : Place) → Running s t p → Inv s

pub eq_or_ne : (j t : ℕ) → (j ≡ t) ⊎ (j ≢ t)
eq_or_ne j t = ground arith

-- A thread that is there is the one of the invariant.
pub owner :
    (s : Listener) (t : ℕ) (p : Place) → Inv s → s.threads t ≡ p → present p ≡ true → Running s t p
owner s t p (empty e c) at here =
    let f = ap present (sym (e.none_there t) ∙ at) in let bot : ⊥ = cc in absurd bot
owner s t p (opening e c) at here =
    let f = ap present (sym (e.none_there t) ∙ at) in let bot : ⊥ = cc in absurd bot
owner s t p (opened e c) at here =
    let f = ap present (sym (e.none_there t) ∙ at) in let bot : ⊥ = cc in absurd bot
owner s t p (running u q r) at here = elim (eq_or_ne t u) [
  | inl same ↦ let e : q ≡ p = sym r.there ∙ sym (ap s.threads same) ∙ at in rw (same, ← e) r
  | inr ne ↦ let f = ap present (sym (r.others t ne) ∙ at) in let bot : ⊥ = cc in absurd bot
]

pub place_mine : (s : Listener) (t : ℕ) (q : Place) → place s t q t ≡ q
place_mine s t q = rw (==_refl t) refl

pub place_theirs : (s : Listener) (t : ℕ) (q : Place) (j : ℕ) → j ≢ t → place s t q j ≡ s.threads j
place_theirs s t q j ne = let e : (j == t) ≡ false = ground arith in rw e refl
