-- ===== src/Engine/OneThread.antt =====
-- What holds of the thread of a tcp_listener of source/imconee/listener.cpp in every reachable state.
use imconee.Common.{ℕ, ◌+◌, ◌≡◌, ◌≢◌, ◌⊎◌, inl, inr, refl, sym, ap, ◌∙◌, Bool, true, false, arith}
use imconee.Engine.Acceptor.{
  Stage, stage_idle, acceptor_start, acceptor_works, Place, absent, begun, binding, testing,
  accepting, ending, counting, Caller, outside, incrementing, creating, flagging, reading, waiting,
  resetting, Listener, is_idle, place, Step, open_running, open_start, open_count, open_create,
  stop_idle, stop_begin, stop_flag, stop_read, stop_end, stop_reset, works, listens, fails, goes_on,
  leaves, accepts, ends, counts, init, Steps, start, later,
}
use imconee.Engine.Presence.{
  present, is_counting, mid_open, is_resetting, Empty, Running, Inv, empty, opening, opened,
  running, eq_or_ne, owner, place_mine, place_theirs,
}

-- A step of the thread that changes neither the lock nor the end of the work.
moves :
    (s : Listener) (t : ℕ) (p q : Place) (g : Stage)
    → Running s t p
    → is_counting p ≡ false
    → is_counting q ≡ false
    → present q ≡ true
    → is_idle g ≡ false
    → Inv (record s { stage = g; threads = place s t q })
moves s t p q g r was now here busy = running t q (record {
  there = place_mine s t q;
  is_present = here;
  others = λ j ne. place_theirs s t q j ne ∙ r.others j ne;
  count = r.count;
  held = r.held ∙ was ∙ sym now;
  stage = busy ∙ sym now;
  not_open = r.not_open;
  not_reset = r.not_reset;
})

-- Without the lock, the idle stage tells that there is no thread.
idle-Empty : (s : Listener) → Inv s → s.held ≡ false → is_idle s.stage ≡ true → Empty s 0 stage_idle
idle-Empty s (empty e c) free idle = e
idle-Empty s (opening e c) free idle = let f = ap is_idle e.stage in let bot : ⊥ = cc in absurd bot
idle-Empty s (opened e c) free idle = let f = ap is_idle e.stage in let bot : ⊥ = cc in absurd bot
idle-Empty s (running t p r) free idle =
    let f = sym r.held ∙ free in let g = sym r.stage ∙ idle in let bot : ⊥ = cc in absurd bot

-- A step of the caller between places outside of open.
calls :
    (s : Listener) (b : Bool) (c : Caller)
    → Inv s
    → mid_open s.caller ≡ false
    → mid_open c ≡ false
    → is_resetting c ≡ false
    → Inv (record s { need_stop = b; caller = c })
calls s b c (empty e k) was now not_reset =
    empty (record { none_there = e.none_there; count = e.count; free = e.free; stage = e.stage })
      now
calls s b c (opening e k) was now not_reset =
    let f = sym was ∙ ap mid_open k in let bot : ⊥ = cc in absurd bot
calls s b c (opened e k) was now not_reset =
    let f = sym was ∙ ap mid_open k in let bot : ⊥ = cc in absurd bot
calls s b c (running t p r) was now not_reset = running t p (record {
  there = r.there;
  is_present = r.is_present;
  others = r.others;
  count = r.count;
  held = r.held;
  stage = r.stage;
  not_open = now;
  not_reset = not_reset;
})

-- A step of the thread that leaves the stage.
stays :
    (s : Listener) (t : ℕ) (p q : Place)
    → Inv s
    → s.threads t ≡ p
    → present p ≡ true
    → is_counting p ≡ false
    → is_counting q ≡ false
    → present q ≡ true
    → Inv (record s { threads = place s t q })
stays s t p q inv at was_here was now here =
    let r = owner s t p inv at was_here in moves s t p q s.stage r was now here (r.stage ∙ was)

creates :
    (s : Listener) (t : ℕ)
    → Inv s
    → s.caller ≡ creating
    → Inv (record s { caller = outside; threads = place s t begun })
creates s t (empty e k) c = let f = sym k ∙ ap mid_open c in let bot : ⊥ = cc in absurd bot
creates s t (opening e k) c = let bot : ⊥ = cc in absurd bot
creates s t (opened e k) c = running t begun (record {
  there = place_mine s t begun;
  is_present = refl;
  others = λ j ne. place_theirs s t begun j ne ∙ e.none_there j;
  count = e.count;
  held = e.free;
  stage = ap is_idle e.stage;
  not_open = refl;
  not_reset = refl;
})
creates s t (running u p r) c =
    let f = sym r.not_open ∙ ap mid_open c in let bot : ⊥ = cc in absurd bot

increments :
    (s : Listener)
    → Inv s
    → s.caller ≡ incrementing
    → Inv (record s { share = s.share + 1; caller = creating })
increments s (empty e k) c = let f = sym k ∙ ap mid_open c in let bot : ⊥ = cc in absurd bot
increments s (opening e k) c =
    opened
      (record {
        none_there = e.none_there;
        count = let n = e.count in omega arith;
        free = e.free;
        stage = e.stage;
      })
      refl
increments s (opened e k) c = let bot : ⊥ = cc in absurd bot
increments s (running u p r) c =
    let f = sym r.not_open ∙ ap mid_open c in let bot : ⊥ = cc in absurd bot

resets : (s : Listener) → Inv s → s.caller ≡ resetting → Empty s 0 stage_idle
resets s (empty e k) c = e
resets s (opening e k) c = let bot : ⊥ = cc in absurd bot
resets s (opened e k) c = let bot : ⊥ = cc in absurd bot
resets s (running u p r) c =
    let f = sym r.not_reset ∙ ap is_resetting c in let bot : ⊥ = cc in absurd bot

idle_stage : (g : Stage) → is_idle g ≡ true → g ≡ stage_idle
idle_stage stage_idle e = refl
idle_stage acceptor_start e = let bot : ⊥ = cc in absurd bot
idle_stage acceptor_works e = let bot : ⊥ = cc in absurd bot

pub Step-Inv : {nix : Bool} {s r : Listener} → Step nix s r → Inv s → Inv r
Step-Inv (open_running c h g) inv = inv
Step-Inv (stop_idle c h g) inv = inv
Step-Inv {s = s} (open_start c h g) inv =
    let e = idle-Empty s inv h g in
    opening (record { none_there = e.none_there; count = e.count; free = e.free; stage = refl })
      refl
Step-Inv {s = s} (open_count c) inv = increments s inv c
Step-Inv {s = s} (open_create t c at) inv = creates s t inv c
Step-Inv {s = s} (stop_begin c h g) inv = calls s s.need_stop flagging inv (ap mid_open c) refl refl
Step-Inv {s = s} (stop_flag c h) inv = calls s true reading inv (ap mid_open c) refl refl
Step-Inv {s = s} (stop_read c h) inv = calls s s.need_stop waiting inv (ap mid_open c) refl refl
Step-Inv {s = s} (stop_end c h g) inv =
    let e = idle-Empty s inv h g in
    empty (record { none_there = e.none_there; count = e.count; free = e.free; stage = e.stage })
      refl
Step-Inv {s = s} (stop_reset c h free) inv =
    let e = resets s inv c in
    empty (record { none_there = e.none_there; count = e.count; free = e.free; stage = e.stage })
      refl
Step-Inv {s = s} (works t at h free) inv =
    moves s t begun binding acceptor_works (owner s t begun inv at refl) refl refl refl refl
Step-Inv {s = s} (listens t at) inv = stays s t binding testing inv at refl refl refl refl
Step-Inv {s = s} (fails t at) inv = stays s t binding ending inv at refl refl refl refl
Step-Inv {s = s} (goes_on t at h n) inv = stays s t testing accepting inv at refl refl refl refl
Step-Inv {s = s} (leaves t at h n) inv = stays s t testing ending inv at refl refl refl refl
Step-Inv {s = s} (accepts t at) inv = stays s t accepting testing inv at refl refl refl refl
Step-Inv {s = s} (ends t at h free) inv =
    let r = owner s t ending inv at refl in
    running t counting (record {
      there = place_mine s t counting;
      is_present = refl;
      others = λ j ne. place_theirs s t counting j ne ∙ r.others j ne;
      count = r.count;
      held = refl;
      stage = refl;
      not_open = r.not_open;
      not_reset = r.not_reset;
    })
Step-Inv {s = s} (counts t at) inv =
    let r = owner s t counting inv at refl in
    empty
      (record {
        none_there = λ j. elim (eq_or_ne j t) [
          | inl same ↦ ap (place s t absent) same ∙ place_mine s t absent
          | inr ne ↦ place_theirs s t absent j ne ∙ r.others j ne
        ];
        count = let n = r.count in omega arith;
        free = refl;
        stage = idle_stage s.stage r.stage;
      })
      r.not_open

pub Reach-Inv : {nix : Bool} {s : Listener} → Steps nix init s → Inv s
Reach-Inv start =
    empty (record { none_there = λ t. refl; count = refl; free = refl; stage = refl }) refl
Reach-Inv (later r step) = Step-Inv step (Reach-Inv r)

-- One thread of the listener runs and its share is 1, or none runs and its share is 0, or is 1 where
-- open is about to make the thread; no thread runs where stop has left its loop.
abbrev pub IsCounted : Listener → Type 0
IsCounted s =
    ((t : ℕ) × (present (s.threads t) ≡ true)
      × ((j : ℕ) → j ≢ t → s.threads j ≡ absent)
      × (s.share ≡ 1)
      × (s.caller ≢ resetting))
    ⊎ (((t : ℕ) → s.threads t ≡ absent) × ((s.share ≡ 0) ⊎ ((s.share ≡ 1) × (s.caller ≡ creating))))

pub Inv-IsCounted : (s : Listener) → Inv s → IsCounted s
Inv-IsCounted s inv = elim inv [
  | empty e k ↦ inr (e.none_there, inl e.count)
  | opening e k ↦ inr (e.none_there, inl e.count)
  | opened e k ↦ inr (e.none_there, inr (e.count, k))
  | running t p r ↦ inl (
    t,
    ap present r.there ∙ r.is_present,
    r.others,
    r.count,
    λ c. let f = sym r.not_reset ∙ ap is_resetting c in let bot : ⊥ = cc in bot,
  )
]
