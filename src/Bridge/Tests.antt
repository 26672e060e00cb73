-- ===== src/Bridge/Tests.antt =====
-- Bridges of source/imconee/handlers.cpp with concrete pipes.
use imconee.Common.{
  ℕ, zero, suc, ◌<◌, ◌≡◌, ◌≢◌, ◌⊎◌, refl, Option, none, some, List, [], ◌∷◌, ◌++◌, arith, true,
}
use imconee.TcpPipe.{send_ok, send_fail, send_bufferfull}
use imconee.Bridge.{
  Masks, End, Turn, run, process, slot_dead, recv, recv_by, send, send_by, is_bufferfull, full_by,
  after_send, after_recv, relay, push_unsent, process_open, after_turn,
}
use imconee.Bridge.Relay.{Short}
use imconee.Bridge.Run.{run_carries}
use imconee.Bridge.Slots.{slots_used, close_gaps, move_down}
use imconee.Bridge.Tick.{
  Bridged, Thread, serve, is_empty, tick, tick_found, forward, try_add_bridge, add_counted,
  after_add, goes_on, scan_slots, scan_slot, after_process, finish_tick, finish_count,
}
use imconee.Bridge.Kept.{Served, tick_keeps}

-- A pipe that gives two bytes, whose buffer is full at the first call.
abbrev left : End
left = record {
  inbox = 1 ∷ 2 ∷ 3 ∷ [];
  ready = some 2 ∷ some 5 ∷ [];
  answers = send_ok ∷ send_fail ∷ [];
  full = true ∷ [];
  received = [];
  sent = [];
}

abbrev right : End
right = record {
  inbox = 9 ∷ [];
  ready = some 4 ∷ [];
  answers = send_bufferfull ∷ send_ok ∷ [];
  full = [];
  received = [];
  sent = [];
}

abbrev both_ready : Masks
both_ready = record { readm = 0 ∷ 1 ∷ []; closem = []; writem = [] }

abbrev turns : List Turn
turns =
    record { mask1 = 0 ∷ []; mask2 = 1 ∷ []; masks = both_ready }
    ∷ record {
      mask1 = 0 ∷ [];
      mask2 = 1 ∷ [];
      masks = record { readm = 0 ∷ []; closem = []; writem = [] };
    }
    ∷ []

run_carries_example :
    (s : Short (run turns left right).pipe1 (run turns left right).pipe2) × (t : Short
      (run turns left right).pipe2
      (run turns left right).pipe1)
    × (((run turns left right).rv ≡ slot_dead) ⊎ ((s.lost ≡ []) × (t.lost ≡ [])))
    × ((run turns left right).pipe1.received ++ (run turns left right).pipe1.inbox ≡ 1 ∷ 2 ∷ 3 ∷ [])
    × ((run turns left right).pipe2.received ++ (run turns left right).pipe2.inbox ≡ 9 ∷ [])
run_carries_example = run_carries turns left right refl refl

run_test : (run turns left right).pipe2.sent ≡ 1 ∷ 2 ∷ 3 ∷ []
unfolding run after_turn process process_open relay push_unsent recv recv_by send send_by
    is_bufferfull full_by after_send after_recv
run_test = refl

-- Slots 0 and 2 have a bridge, and slot 1 was cleared.
-- A bridge is served, and the next one is closed by its peer with bytes left to read.
abbrev two_bridges : ℕ → Option Bridged
two_bridges zero = some (record { mask1 = 0 ∷ []; mask2 = 1 ∷ []; pipe1 = left; pipe2 = right })
two_bridges (suc n) = some (record { mask1 = 2 ∷ []; mask2 = 3 ∷ []; pipe1 = left; pipe2 = right })

abbrev closing : Masks
closing = record { readm = 0 ∷ 2 ∷ []; closem = 2 ∷ []; writem = [] }

two_full : (j : ℕ) → j < 2 → two_bridges j ≢ none
two_full zero h = λ e. let bot : ⊥ = cc in absurd bot
two_full (suc j) h = λ e. let bot : ⊥ = cc in absurd bot

tick_keeps_example :
    Served is_empty serve 2
      (scan_slots is_empty serve 2 0
        (record { mask = closing; slots = two_bridges; was_del = none; rv = 31 })).slots
      (tick_found is_empty serve 2 2 closing two_bridges)
tick_keeps_example = tick_keeps is_empty serve 2 2 closing two_bridges (omega arith) two_full

-- The number returned is that of the slot that was cleared: 1, of the 1 slot left.
dead_slot_returned :
    ((tick 2 2 closing two_bridges).0 ≡ goes_on 1)
    × ((tick 2 2 closing two_bridges).1.numslots ≡ slots_used 1)
    × ((tick 2 2 closing two_bridges).1.slots 1 ≡ none)
unfolding tick tick_found scan_slots scan_slot after_process finish_tick finish_count close_gaps
    move_down serve process process_open relay push_unsent recv recv_by send send_by is_bufferfull
    full_by after_send after_recv
dead_slot_returned = (refl, refl, refl)

-- forward with that number passes an empty slot on, and then ends the thread, whose bridge is lost.
dead_slot_forwarded :
    (next : Thread Bridged)
    → next.numslots ≡ slots_used 4
    → (forward 1 1 (tick 2 2 closing two_bridges).1 next).0 ≡ true
unfolding forward try_add_bridge add_counted after_add
dead_slot_forwarded next e = rw e
