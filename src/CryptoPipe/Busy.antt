-- ===== src/CryptoPipe/Busy.antt =====
-- The counter `busy` of ss::core::crypto_pipe of source/imconee/cipher_ss.h: calls of send, recv and
-- get_waitable count up and down, and close adds 10001, in any order.
use imconee.Common.{ℕ, ◌+◌, ◌-◌, ◌<◌, ◌≤◌, ◌≡◌, Bool, true, false, ltb, if◌then◌else◌, arith}

-- `calls` is the number of objects incdec that are alive; the pipe below is there or was closed.
pub record Busy : Type 0 where
  pub busy : ℕ
  pub calls : ℕ
  pub is_open : Bool

-- incdec::incdec. It sets its parameter `owner`, not the field, so that no call is refused.
abbrev pub enter_call : Busy → Busy
enter_call b = record b { busy = b.busy + 1; calls = b.calls + 1 }

-- crypto_pipe::close
abbrev pub close : Busy → Busy
close b =
    if ltb 0 b.busy
    then record b { busy = b.busy + 10001 }
    else record b { busy = b.busy + 10001; is_open = false }

-- incdec::~incdec
abbrev pub leave_call : Busy → Busy
leave_call b =
    let after : Busy = record b { busy = b.busy - 1; calls = b.calls - 1 } in
    if ltb 10000 after.busy then close after else after

-- A call begins while there is a pipe, and ends once it has begun; close comes at any time.
pub data Event (b : Busy) : Busy → Type 0 where
  enters : b.is_open ≡ true → Event b (enter_call b)
  leaves : 0 < b.calls → Event b (leave_call b)
  closes : Event b (close b)

pub data Events : Busy → Busy → Type 0 where
  none_more : {b : Busy} → Events b b
  one_more : {a b c : Busy} → Events a b → Event b c → Events a c

abbrev pub fresh : Busy
fresh = record { busy = 0; calls = 0; is_open = true }

-- The counter never falls behind the calls.
Event-calls : {a b : Busy} → a.calls ≤ a.busy → Event a b → b.calls ≤ b.busy
Event-calls k (enters o) = omega arith
Event-calls k (leaves h) = ground arith
Event-calls k closes = ground arith

Events-calls : {a b : Busy} → a.calls ≤ a.busy → Events a b → b.calls ≤ b.busy
Events-calls k none_more = k
Events-calls k (one_more es e) = Event-calls (Events-calls k es) e

-- After a close that was lost.
record Lost (b : Busy) : Type 0 where
  counted : b.calls + 10001 ≤ b.busy
  still : b.is_open ≡ true

Event-Lost : {a b : Busy} → Lost a → Event a b → Lost b
Event-Lost k (enters o) = record { counted = omega (arith, k.counted); still = k.still }
Event-Lost {a} k (leaves h) =
    let c = k.counted in
    let more : ltb 10000 (a.busy - 1) ≡ true = ground arith in
    let busy : ltb 0 (a.busy - 1) ≡ true = ground arith in
    rw (more, busy) (record { counted = omega arith; still = k.still })
Event-Lost {a} k closes =
    let c = k.counted in
    let busy : ltb 0 a.busy ≡ true = ground arith in
    rw busy (record { counted = omega arith; still = k.still })

Events-Lost : {a b : Busy} → Lost a → Events a b → Lost b
Events-Lost k none_more = k
Events-Lost k (one_more es e) = Event-Lost (Events-Lost k es) e

-- A close that comes while a call is in progress is lost: the pipe below is not closed, not when the
-- call ends and not by a later close, whatever else is called.
pub close_while_busy :
    {b c : Busy}
    → Events fresh b
    → b.is_open ≡ true
    → 0 < b.calls
    → Events (close b) c
    → c.is_open ≡ true
close_while_busy {b} r o h after =
    let k = Events-calls {a = fresh} (omega arith) r in
    let busy : ltb 0 b.busy ≡ true = ground arith in
    let lost : Lost (close b) = rw busy (record { counted = omega arith; still = o }) in
    (Events-Lost lost after).still
