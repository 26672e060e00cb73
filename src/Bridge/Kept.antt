-- ===== src/Bridge/Kept.antt =====
-- What a call of processing_thread::tick of source/imconee/handlers.cpp keeps of the bridges.
use imconee.Common.{
  ℕ, zero, suc, ◌+◌, ◌-◌, ◌<◌, ◌≤◌, ◌≡◌, ◌≢◌, refl, sym, ◌∙◌, ◌⊎◌, inl, inr, Bool, Option, none,
  some, ◌==◌, Bool-cases, arith,
}
use imconee.Bridge.{ProcessResult, slot_dead, slot_processes, slot_skipped}
use imconee.Bridge.Slots.{slots_used, locked, maximum_slots, put, close_gaps, bridges}
use imconee.Bridge.Gaps.{close_gaps_lem}
use imconee.Bridge.Tick.{
  Thread, Scan, Ticked, ended, goes_on, after_process, scan_slot, scan_slots, finish_count,
  finish_tick, tick_found, first_dead,
}

module _ {B M : Type 0} (is_empty : M → Bool) (process : B → M → ProcessResult × B × M) where
  -- The first slot without a bridge, before the slot `i`, is the one that was_del names.
  abbrev Marks : ℕ → ℕ → Option ℕ → (ℕ → Option B) → Type 0
  Marks n i none s = (j : ℕ) → j < n → s j ≢ none
  Marks n i (some d) s = (d < i) × (s d ≡ none) × ((j : ℕ) → j < d → s j ≢ none)

  some-put : (s : ℕ → Option B) (i : ℕ) (b : B) (j : ℕ) → s j ≢ none → put s i (some b) j ≢ none
  some-put s i b j h = elim (Bool-cases (j == i)) [
    | inl e ↦ rw e (λ z. let bot : ⊥ = cc in absurd bot)
    | inr e ↦ rw e h
  ]

  Marks-put :
      (n i : ℕ) (o : Option ℕ) (s : ℕ → Option B) (b : B)
      → Marks n i o s
      → Marks n (i + 1) o (put s i (some b))
  Marks-put n i none s b m = λ j h. some-put s i b j (m j h)
  Marks-put n i (some d) s b m =
      let at_d = m.1 in
      let below = m.0 in (omega (arith, m.0), ground arith, λ j h. some-put s i b j (m.2 j h))

  Marks-clear :
      (n i : ℕ) (o : Option ℕ) (s : ℕ → Option B)
      → i < n
      → Marks n i o s
      → Marks n (i + 1) (first_dead is_empty process o i) (put s i none)
  Marks-clear n i none s lt m = (
    omega arith,
    ground arith,
    λ j h. let same : put s i none j ≡ s j = ground arith in λ z. m j (omega arith) (sym same ∙ z),
  )
  Marks-clear n i (some d) s lt m =
      let at_d = m.1 in
      let below = m.0 in
      (
        omega (arith, m.0),
        ground arith,
        λ j h. let same : put s i none j ≡ s j = ground arith in λ z. m.2 j h (sym same ∙ z),
      )

  after_process-Marks :
      (n i : ℕ) (s : Scan B M) (r : ProcessResult × B × M)
      → i < n
      → Marks n i s.was_del s.slots
      → let t = after_process is_empty process i s r in Marks n (i + 1) t.was_del t.slots
  unfolding after_process
  after_process-Marks n i s (slot_dead, b, k) lt m = Marks-clear n i s.was_del s.slots lt m
  after_process-Marks n i s (slot_processes, b, k) lt m = Marks-put n i s.was_del s.slots b m
  after_process-Marks n i s (slot_skipped, b, k) lt m = Marks-put n i s.was_del s.slots b m

  after_process-beyond :
      (i : ℕ) (s : Scan B M) (r : ProcessResult × B × M) (j : ℕ)
      → i < j
      → (after_process is_empty process i s r).slots j ≡ s.slots j
  unfolding after_process
  after_process-beyond i s (slot_dead, b, k) j lt = ground arith
  after_process-beyond i s (slot_processes, b, k) j lt = ground arith
  after_process-beyond i s (slot_skipped, b, k) j lt = ground arith

  Marks-end : (n i : ℕ) (o : Option ℕ) (s : ℕ → Option B) → i ≤ n → Marks n i o s → Marks n n o s
  Marks-end n i none s le m = m
  Marks-end n i (some d) s le m = (omega (arith, m.0), m.1, m.2)

  scan_slot-Marks :
      (n i : ℕ) (s : Scan B M) (o : Option B)
      → i < n
      → o ≢ none
      → Marks n i s.was_del s.slots
      → let t = scan_slot is_empty process o i s in Marks n (i + 1) t.was_del t.slots
  unfolding scan_slot
  scan_slot-Marks n i s none lt f m = absurd (f refl)
  scan_slot-Marks n i s (some b) lt f m = after_process-Marks n i s (process b s.mask) lt m

  scan_slot-beyond :
      (i : ℕ) (s : Scan B M) (o : Option B) (j : ℕ)
      → i < j
      → (scan_slot is_empty process o i s).slots j ≡ s.slots j
  unfolding scan_slot
  scan_slot-beyond i s none j lt = refl
  scan_slot-beyond i s (some b) j lt = after_process-beyond i s (process b s.mask) j lt

  scan_slots-Marks :
      (left i n : ℕ) (s : Scan B M)
      → i + left ≤ n
      → Marks n i s.was_del s.slots
      → ((j : ℕ) → i ≤ j → j < n → s.slots j ≢ none)
      → let t = scan_slots is_empty process left i s in Marks n n t.was_del t.slots
  unfolding scan_slots
  scan_slots-Marks zero i n s le m f = Marks-end n i s.was_del s.slots (omega arith) m
  scan_slots-Marks (suc left) i n s le m f = elim (Bool-cases (is_empty s.mask)) [
    | inl none_left ↦ rw none_left (Marks-end n i s.was_del s.slots (omega arith) m)
    | inr more ↦ rw more (
        scan_slots-Marks left (i + 1) n (scan_slot is_empty process (s.slots i) i s) (omega arith)
          (scan_slot-Marks n i s (s.slots i) (omega arith) (f i (omega arith) (omega arith)) m)
          (λ j lo hi z.
            f j (omega arith) hi (sym (scan_slot-beyond i s (s.slots i) j (omega arith)) ∙ z)))
  ]

  -- What tick leaves: `live` slots, all with a bridge.
  pub record Served (ns : ℕ) (found : ℕ → Option B) (r : Ticked × Thread B) : Type 0 where
    pub live : ℕ
    pub bound : live ≤ ns
    pub kept : bridges live r.1.slots ≡ bridges ns found
    pub full : (j : ℕ) → j < live → r.1.slots j ≢ none
    pub result :
        ((live ≡ 0) × (r.0 ≡ ended) × (r.1.numslots ≡ locked))
        ⊎ ((0 < live) × (r.0 ≢ ended) × (r.1.numslots ≡ slots_used live))

  finish_count-Served :
      (ns n rv : ℕ) (found slots : ℕ → Option B)
      → n ≤ ns
      → bridges n slots ≡ bridges ns found
      → ((j : ℕ) → j < n → slots j ≢ none)
      → Served ns found (finish_count is_empty process n rv slots)
  unfolding finish_count
  finish_count-Served ns n rv found slots le e f = elim (Bool-cases (n == 0)) [
    | inl z ↦ rw z (record {
      live = n;
      bound = le;
      kept = e;
      full = f;
      result = inl (ground arith, refl, refl);
    })
    | inr p ↦ rw p (record {
      live = n;
      bound = le;
      kept = e;
      full = f;
      result = inr (ground arith, λ (z : goes_on rv ≡ ended). let bot : ⊥ = cc in absurd bot, refl);
    })
  ]

  finish_tick-Served :
      (ns rv : ℕ) (o : Option ℕ) (found : ℕ → Option B)
      → Marks ns ns o found
      → Served ns found (finish_tick is_empty process ns o rv found)
  unfolding finish_tick
  finish_tick-Served ns rv none found m =
      finish_count-Served ns ns rv found found (omega arith) refl m
  finish_tick-Served ns rv (some d) found m =
      let r = close_gaps (ns - (d + 1)) (d + 1) d rv found in
      let c = close_gaps_lem ns d rv found m.0 m.1 m.2 in
      finish_count-Served ns r.0 r.1 found r.2 c.0 c.1 c.2

  -- tick behind the wait, for a thread with `ns` slots that all have a bridge, `cur` of which it looks
  -- at: the bridges that its loop has not cleared are kept, in their order, in the first slots, which
  -- it counts, and the thread ends exactly if there is none.
  pub tick_keeps :
      (cur ns : ℕ) (mask : M) (slots : ℕ → Option B)
      → cur ≤ ns
      → ((j : ℕ) → j < ns → slots j ≢ none)
      → Served ns
          (scan_slots is_empty process cur 0
            (record { mask = mask; slots = slots; was_del = none; rv = maximum_slots + 1 })).slots
          (tick_found is_empty process cur ns mask slots)
  unfolding tick_found
  tick_keeps cur ns mask slots le f = finish_tick-Served ns _ _ _ (
      scan_slots-Marks cur 0 ns
        (record { mask = mask; slots = slots; was_del = none; rv = maximum_slots + 1 })
        (omega arith) f (λ j lo hi. f j hi))
