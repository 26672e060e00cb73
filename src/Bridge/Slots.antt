-- ===== src/Bridge/Slots.antt =====
-- The slots of handler::processing_thread of source/imconee/handlers.h and handlers.cpp.
use imconee.Common.{
  ℕ, zero, suc, ◌+◌, Option, none, some, List, [], ◌∷◌, ◌++◌, ltb, ◌==◌, if◌then◌else◌,
}

-- `slots`; a slot that is cleared or was moved from has no bridge. `numslots` is negative once the
-- thread takes no more bridges.
pub data Count : Type 0 where
  slots_used : ℕ → Count
  locked : Count

abbrev pub maximum_slots : ℕ
maximum_slots = 30

module _ {B : Type 0} where
  abbrev pub put : (ℕ → Option B) → ℕ → Option B → ℕ → Option B
  put slots i b j = if j == i then b else slots j

  -- moveslot
  unfoldable pub moveslot : (ℕ → Option B) → ℕ → ℕ → ℕ → Option B
  moveslot slots dst src =
      if ltb dst src then put (put slots dst (slots src)) src none else put slots src none

  -- A round of the loop of tick that closes the gaps, for the slot `i`: the variables was_del and rv,
  -- and the slots.
  unfoldable pub move_down : Option B → ℕ → ℕ → ℕ → (ℕ → Option B) → ℕ × ℕ × (ℕ → Option B)
  move_down none i was_del rv slots = (was_del, rv, slots)
  move_down (some b) i was_del rv slots =
      (was_del + 1, if rv == i then was_del else rv, put (put slots was_del (some b)) i none)

  -- The loop, with `left` slots to come.
  unfoldable pub close_gaps : ℕ → ℕ → ℕ → ℕ → (ℕ → Option B) → ℕ × ℕ × (ℕ → Option B)
  unfolding move_down
  close_gaps zero i was_del rv slots = (was_del, rv, slots)
  close_gaps (suc left) i was_del rv slots =
      let (d, r, s) = move_down (slots i) i was_del rv slots in close_gaps left (i + 1) d r s

  abbrev pub one_bridge : Option B → List B
  one_bridge none = []
  one_bridge (some b) = b ∷ []

  -- The bridges of the first `n` slots, in order.
  unfoldable pub bridges : ℕ → (ℕ → Option B) → List B
  bridges zero slots = []
  bridges (suc n) slots = bridges n slots ++ one_bridge (slots n)
