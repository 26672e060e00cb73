-- ===== src/Bridge/Tick.antt =====
-- handler::processing_thread of source/imconee/handlers.h and handlers.cpp: bridges are added to a
-- thread, passed on to the next one, and served by tick. What becomes of one bridge is a parameter.
use imconee.Common.{
  ℕ, zero, suc, ◌+◌, ◌-◌, Bool, true, false, Option, none, some, List, [], ◌∷◌, ◌&&◌, ltb, ◌==◌,
  if◌then◌else◌,
}
use imconee.Bridge.{Masks, End, process, ProcessResult, slot_dead, slot_processes, slot_skipped}
use imconee.Bridge.Slots.{Count, slots_used, locked, maximum_slots, put, moveslot, close_gaps}

pub record Thread (B : Type 0) : Type 0 where
  pub numslots : Count
  pub slots : ℕ → Option B

-- The result of try_add_bridge: -1, 0 or 1.
pub data Added : Type 0 where
  thread_ended thread_full bridge_added : Added

-- The result of tick: -1, or a number.
pub data Ticked : Type 0 where
  ended : Ticked
  goes_on : ℕ → Ticked

-- The variables of the loop of tick over the slots, was_del being -1 for no slot.
pub record Scan (B M : Type 0) : Type 0 where
  pub mask : M
  pub slots : ℕ → Option B
  pub was_del : Option ℕ
  pub rv : ℕ

module _ {B : Type 0} where
  -- try_add_bridge; the pipes may be null.
  unfoldable pub add_counted : Count → Option B → Thread B → Added × Thread B
  add_counted locked b t = (thread_ended, t)
  add_counted (slots_used n) b t =
      if ltb n maximum_slots
      then (bridge_added, record { numslots = slots_used (n + 1); slots = put t.slots n b })
      else (thread_full, t)

  unfoldable pub try_add_bridge : Option B → Thread B → Added × Thread B
  unfolding add_counted
  try_add_bridge b t = add_counted t.numslots b t

  -- What forward does once the next thread has answered: whether this thread ends, and the threads.
  unfoldable pub after_add : ℕ → ℕ → Thread B → Added × Thread B → Bool × Thread B × Thread B
  unfolding moveslot
  after_add slot ns t (bridge_added, next) =
      let slots = moveslot t.slots slot (ns - 1) in
      if ns - 1 == 0
      then (true, record { numslots = locked; slots = slots }, next)
      else (false, record { numslots = slots_used (ns - 1); slots = slots }, next)
  after_add slot ns t (r, next) = (false, t, next)

  -- forward, for a thread that has `ns` slots.
  unfoldable pub forward : ℕ → ℕ → Thread B → Thread B → Bool × Thread B × Thread B
  unfolding after_add try_add_bridge
  forward slot ns t next = after_add slot ns t (try_add_bridge (t.slots slot) next)

  module _ {M : Type 0} (no_bits : M → Bool) (process : B → M → ProcessResult × B × M) where
    -- `if (rv > MAXIMUM_SLOTS && SLOT_SKIPPED == pr) rv = i;`
    abbrev pub idle : ℕ → ℕ → ℕ
    idle rv i = if ltb maximum_slots rv then i else rv

    abbrev pub first_dead : Option ℕ → ℕ → Option ℕ
    first_dead none i = some i
    first_dead (some d) i = some d

    -- What is done with the result of process. A slot that is cleared is processed once more, unless
    -- no bit is left, and is skipped then, since it has no bits.
    unfoldable pub after_process : ℕ → Scan B M → ProcessResult × B × M → Scan B M
    after_process i s (slot_dead, b, m) = record {
      mask = m;
      slots = put s.slots i none;
      was_del = first_dead s.was_del i;
      rv = if no_bits m then s.rv else idle s.rv i;
    }
    after_process i s (slot_processes, b, m) = record s { mask = m; slots = put s.slots i (some b) }
    after_process i s (slot_skipped, b, m) = record s {
      mask = m;
      slots = put s.slots i (some b);
      rv = idle s.rv i;
    }

    unfoldable pub scan_slot : Option B → ℕ → Scan B M → Scan B M
    unfolding after_process
    scan_slot none i s = record s { rv = idle s.rv i }
    scan_slot (some b) i s = after_process i s (process b s.mask)

    -- The loop over the slots, with `left` of them from `i` on.
    unfoldable pub scan_slots : ℕ → ℕ → Scan B M → Scan B M
    unfolding scan_slot
    scan_slots zero i s = s
    scan_slots (suc left) i s =
        if no_bits s.mask then s else scan_slots left (i + 1) (scan_slot (s.slots i) i s)

    -- The end of tick, when the thread has `ns` slots.
    unfoldable pub finish_count : ℕ → ℕ → (ℕ → Option B) → Ticked × Thread B
    finish_count ns rv slots =
        if ns == 0
        then (ended, record { numslots = locked; slots = slots })
        else (goes_on rv, record { numslots = slots_used ns; slots = slots })

    unfoldable pub finish_tick : ℕ → Option ℕ → ℕ → (ℕ → Option B) → Ticked × Thread B
    unfolding close_gaps finish_count
    finish_tick ns none rv slots = finish_count ns rv slots
    finish_tick ns (some d) rv slots =
        let (n, r, s) = close_gaps (ns - (d + 1)) (d + 1) d rv slots in finish_count n r s

    -- tick behind the wait: of the `ns` slots there are by then, `cur` were there when the loop began.
    unfoldable pub tick_found : ℕ → ℕ → M → (ℕ → Option B) → Ticked × Thread B
    unfolding scan_slots finish_tick
    tick_found cur ns mask slots =
        let s =
          scan_slots cur 0
            (record { mask = mask; slots = slots; was_del = none; rv = maximum_slots + 1 }) in
        finish_tick ns s.was_del s.rv s.slots

  -- The loop at the start of tick: a slot that cannot be waited for is replaced by the last one,
  -- which is not prepared in its turn. `left` slots from `i` on, of `ns`.
  unfoldable pub prepare_loop :
      {W : Type 0}
      → (Option B → W → Bool × Option B × W)
      → ℕ
      → ℕ
      → ℕ
      → W
      → (ℕ → Option B)
      → ℕ × W × (ℕ → Option B)
  unfolding moveslot
  prepare_loop prepare zero i ns w slots = (ns, w, slots)
  prepare_loop prepare (suc left) i ns w slots =
      let (ok, b, w') = prepare (slots i) w in
      let n = if ok then ns else ns - 1 in
      let s = if ok then put slots i b else moveslot slots i (ns - 1) in
      let rest = prepare_loop prepare left (i + 1) n w' s in
      if ltb i ns then rest else (ns, w, slots)

-- handler::bridged, whose process is that of Bridge.
pub record Bridged : Type 0 where
  pub mask1 : List ℕ
  pub mask2 : List ℕ
  pub pipe1 : End
  pub pipe2 : End

unfoldable pub serve : Bridged → Masks → ProcessResult × Bridged × Masks
unfolding process
serve b k =
    let w = process b.mask1 b.mask2 k b.pipe1 b.pipe2 in
    (w.rv, record b { pipe1 = w.pipe1; pipe2 = w.pipe2 }, w.masks)

abbrev pub no_members : List ℕ → Bool
no_members [] = true
no_members (x ∷ xs) = false

-- mask::is_empty
abbrev pub is_empty : Masks → Bool
is_empty k = no_members k.readm && (no_members k.closem && no_members k.writem)

-- tick behind the wait, with the bridges as they are.
unfoldable pub tick : ℕ → ℕ → Masks → (ℕ → Option Bridged) → Ticked × Thread Bridged
unfolding tick_found
tick cur ns masks slots = tick_found is_empty serve cur ns masks slots
