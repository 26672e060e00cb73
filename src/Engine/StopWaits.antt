-- ===== src/Engine/StopWaits.antt =====
-- stop of source/imconee/listener.cpp on Linux, where it keeps the lock that it takes to read the address.
use imconee.Common.{◌≡◌, ◌≢◌, refl, sym, ap, ◌∙◌, true, false}
use imconee.Engine.Acceptor.{
  counting, Caller, outside, incrementing, creating, flagging, reading, waiting, resetting,
  Listener, is_idle, reader, Step, open_running, open_start, open_count, open_create, stop_idle,
  stop_begin, stop_flag, stop_read, stop_end, stop_reset, works, listens, fails, goes_on, leaves,
  accepts, ends, counts, init, Steps, start, later,
}
use imconee.Engine.OneThread.{Step-Inv, Reach-Inv}
use imconee.Engine.Presence.{Inv, owner}

-- The thread has not ended while stop waits for it with the lock.
record Waits (s : Listener) : Type 0 where
  pub caller : s.caller ≡ waiting
  pub busy : is_idle s.stage ≡ false
  pub inv : Inv s

-- Another place of the caller than the one where it waits.
elsewhere : {c : Caller} {A : Type 0} (d : Caller) → c ≡ d → c ≡ waiting → (waiting ≢ d) → A
elsewhere d e w ne = absurd (ne (sym w ∙ e))

Step-Waits :
    {s r : Listener} → Step true s r → Waits s → (r.caller ≡ waiting) × (is_idle r.stage ≡ false)
Step-Waits (open_running c h g) w = (w.caller, w.busy)
Step-Waits (stop_idle c h g) w = (w.caller, w.busy)
Step-Waits (open_start c h g) w = elsewhere outside c w.caller (λ e. cc)
Step-Waits (open_count c) w = elsewhere incrementing c w.caller (λ e. cc)
Step-Waits (open_create t c at) w = elsewhere creating c w.caller (λ e. cc)
Step-Waits (stop_begin c h g) w = elsewhere outside c w.caller (λ e. cc)
Step-Waits (stop_flag c h) w = elsewhere flagging c w.caller (λ e. cc)
Step-Waits (stop_read c h) w = elsewhere reading c w.caller (λ e. cc)
Step-Waits (stop_reset c h free) w = elsewhere resetting c w.caller (λ e. cc)
Step-Waits (stop_end c h g) w = let f = sym w.busy ∙ g in let bot : ⊥ = cc in absurd bot
Step-Waits (works t at h free) w = (w.caller, refl)
Step-Waits (listens t at) w = (w.caller, w.busy)
Step-Waits (fails t at) w = (w.caller, w.busy)
Step-Waits (goes_on t at h n) w = (w.caller, w.busy)
Step-Waits (leaves t at h n) w = (w.caller, w.busy)
Step-Waits (accepts t at) w = (w.caller, w.busy)
Step-Waits (ends t at h free) w =
    let f = sym free ∙ ap (reader true) w.caller in let bot : ⊥ = cc in absurd bot
Step-Waits {s = s} (counts t at) w =
    let f = sym w.busy ∙ (owner s t counting w.inv at refl).stage in let bot : ⊥ = cc in absurd bot

Steps-Waits : {s r : Listener} → Waits s → Steps true s r → Waits r
Steps-Waits w start = w
Steps-Waits w (later steps step) =
    let v = Steps-Waits w steps in
    let (c, b) = Step-Waits step v in record { caller = c; busy = b; inv = Step-Inv step v.inv }

-- On Linux a call of stop that has come to its loop while the thread of the listener has not ended never
-- leaves it, whatever steps follow: the thread cannot end, since stop keeps the lock.
pub stop_waits :
    {s r : Listener}
    → Steps true init s
    → s.caller ≡ waiting
    → is_idle s.stage ≡ false
    → Steps true s r
    → (r.caller ≡ waiting) × (is_idle r.stage ≡ false)
stop_waits reached c busy steps =
    let w = Steps-Waits (record { caller = c; busy = busy; inv = Reach-Inv reached }) steps in
    (w.caller, w.busy)
