-- ===== src/Bridge/Gaps.antt =====
-- What the end of processing_thread::tick of source/imconee/handlers.cpp leaves in the slots.
use imconee.Common.{
  ℕ, zero, suc, ◌+◌, ◌-◌, ◌<◌, ◌≤◌, ◌≡◌, ◌≢◌, refl, sym, ap, ◌∙◌, inl, inr, Option, none, some, [],
  ◌∷◌, ◌++◌, ◌==◌, if◌then◌else◌, Bool-cases, append-nil, arith,
}
use imconee.Bridge.Slots.{put, move_down, close_gaps, one_bridge, bridges}

module _ {B : Type 0} where
  bridges-agree :
      (n : ℕ) (s t : ℕ → Option B) → ((j : ℕ) → j < n → s j ≡ t j) → bridges n s ≡ bridges n t
  unfolding bridges
  bridges-agree zero s t h = refl
  bridges-agree (suc n) s t h =
      ap (λ x. x ++ one_bridge (s n)) (bridges-agree n s t (λ j lt. h j (omega arith)))
      ∙ ap (λ o. bridges n t ++ one_bridge o) (h n (omega arith))

  -- Slots without a bridge.
  abbrev Gap : ℕ → ℕ → (ℕ → Option B) → Type 0
  Gap low high s = (j : ℕ) → low ≤ j → j < high → s j ≡ none

  bridges-Gap : (n w : ℕ) (s : ℕ → Option B) → w ≤ n → Gap w n s → bridges n s ≡ bridges w s
  unfolding bridges
  bridges-Gap zero w s le g = ap (λ n. bridges n s) {x = zero} {y = w} (omega arith)
  bridges-Gap (suc n) w s le g = elim (Bool-cases (w == suc n)) [
    | inl e ↦ ap (λ n. bridges n s) {x = suc n} {y = w} (ground arith)
    | inr e ↦
        ap (λ o. bridges n s ++ one_bridge o) (g n (ground arith) (omega arith))
        ∙ append-nil (bridges n s)
        ∙ bridges-Gap n w s (ground arith) (λ j lo hi. g j lo (omega arith))
  ]

  -- A bridge moved down over a gap.
  moved :
      (k i w : ℕ) (b : B) (s : ℕ → Option B)
      → w < i
      → Gap w i s
      → s i ≡ some b
      → bridges (suc (i + k)) (put (put s w (some b)) i none) ≡ bridges (suc (i + k)) s
  unfolding bridges
  moved zero i w b s lt g e =
      let t = put (put s w (some b)) i none in
      let at_i : t i ≡ none = ground arith in
      let at_w : t w ≡ some b = ground arith in
      let here : i + 0 ≡ i = omega arith in
      ap (λ n. bridges n t ++ one_bridge (t n)) here
      ∙ ap (λ o. bridges i t ++ one_bridge o) at_i
      ∙ append-nil (bridges i t)
      ∙ bridges-Gap i (suc w) t (omega arith)
          (λ j lo hi. let z = g j (omega arith) hi in ground arith)
      ∙ ap (λ o. bridges w t ++ one_bridge o) at_w
      ∙ ap (λ x. x ++ (b ∷ []))
          (bridges-agree w t s (λ j lo. ground arith) ∙ sym (bridges-Gap i w s (omega arith) g))
      ∙ ap (λ o. bridges i s ++ one_bridge o) (sym e)
      ∙ ap (λ n. bridges n s ++ one_bridge (s n)) (sym here)
  moved (suc k) i w b s lt g e =
      let t = put (put s w (some b)) i none in
      let up : i + suc k ≡ suc (i + k) = omega arith in
      let same : t (i + suc k) ≡ s (i + suc k) = ground arith in
      ap (λ o. bridges (i + suc k) t ++ one_bridge o) same
      ∙ ap (λ x. x ++ one_bridge (s (i + suc k)))
          (ap (λ n. bridges n t) up ∙ moved k i w b s lt g e ∙ ap (λ n. bridges n s) (sym up))

  -- What the loop leaves.
  record Closed (n low rv : ℕ) (s : ℕ → Option B) (r : ℕ × ℕ × (ℕ → Option B)) : Type 0 where
    bound : r.0 ≤ n
    kept : bridges r.0 r.2 ≡ bridges n s
    full : ((j : ℕ) → j < low → s j ≢ none) → (j : ℕ) → j < r.0 → r.2 j ≢ none
    follows : (b : B) → s rv ≡ some b → r.2 r.1 ≡ some b

  followed :
      (i w rv : ℕ) (b x : B) (s : ℕ → Option B)
      → w < i
      → Gap w i s
      → s i ≡ some b
      → s rv ≡ some x
      → put (put s w (some b)) i none (if rv == i then w else rv) ≡ some x
  followed i w rv b x s lt g e at =
      let at_w : s w ≡ none = g w (omega arith) lt in
      elim (Bool-cases (rv == i)) [
        | inl same ↦
            let target : put (put s w (some b)) i none w ≡ some b = ground arith in
            rw same (target ∙ sym e ∙ ap s {x = i} {y = rv} (ground arith) ∙ at)
        | inr other ↦ elim (Bool-cases (rv == w)) [
          | inl gone ↦
              let none_there : s rv ≡ none = ap s {x = rv} {y = w} (ground arith) ∙ at_w in
              let bot : ⊥ = cc in absurd bot
          | inr kept ↦ rw (other, other, kept) at
        ]
      ]

  close_round :
      (left i w rv : ℕ) (s : ℕ → Option B) (o : Option B)
      → ((w rv : ℕ) (s : ℕ → Option B)
          → w < i + 1
          → Gap w (i + 1) s
          → Closed (i + 1 + left) w rv s (close_gaps left (i + 1) w rv s))
      → s i ≡ o
      → w < i
      → Gap w i s
      → Closed
          (i + suc left)
          w
          rv
          s
          (let (d, r, t) = move_down o i w rv s in close_gaps left (i + 1) d r t)
  unfolding move_down
  close_round left i w rv s none ih e lt g =
      let c = ih w rv s (omega arith) (λ j lo hi. elim (Bool-cases (j == i)) [
        | inl h ↦ ap s (ground arith) ∙ e
        | inr h ↦ g j lo (ground arith)
      ]) in
      record {
        bound = omega (arith, c.bound);
        kept = c.kept ∙ ap (λ n. bridges n s) (omega arith);
        full = c.full;
        follows = c.follows;
      }
  close_round left i w rv s (some b) ih e lt g =
      let t = put (put s w (some b)) i none in
      let rv' = if rv == i then w else rv in
      let c = ih (w + 1) rv' t (omega arith) (λ j lo hi. elim (Bool-cases (j == i)) [
        | inl h ↦ rw h
        | inr h ↦ let z = g j (omega arith) (ground arith) in ground arith
      ]) in
      record {
        bound = omega (arith, c.bound);
        kept =
            c.kept
            ∙ ap (λ n. bridges n t) {y = suc (i + left)} (omega arith)
            ∙ moved left i w b s lt g e
            ∙ ap (λ n. bridges n s) (omega arith);
        full = λ f. c.full (λ j h. elim (Bool-cases (j == w)) [
          | inl here ↦ λ z. let at_j : t j ≡ some b = ground arith in let bot : ⊥ = cc in absurd bot
          | inr below ↦
              λ z. let at_j : t j ≡ s j = ground arith in f j (ground arith) (sym at_j ∙ z)
        ]);
        follows = λ x at. c.follows x (followed i w rv b x s lt g e at);
      }

  close_gaps-Closed :
      (left i w rv : ℕ) (s : ℕ → Option B)
      → w < i
      → Gap w i s
      → Closed (i + left) w rv s (close_gaps left i w rv s)
  unfolding close_gaps
  close_gaps-Closed zero i w rv s lt g = record {
    bound = omega arith;
    kept = sym (bridges-Gap (i + 0) w s (omega arith) (λ j lo hi. g j lo (omega arith)));
    full = λ f j h. f j h;
    follows = λ b e. e;
  }
  close_gaps-Closed (suc left) i w rv s lt g =
      close_round left i w rv s (s i)
        (λ w' rv' s' l' g'. close_gaps-Closed left (i + 1) w' rv' s' l' g') refl lt g

  -- Where the first slots are full up to one that is not, the loop at the end of tick moves the
  -- bridges of all `n` slots, in their order, to the first slots, with no gap, and counts them, and
  -- the slot to be returned goes with its bridge, if it has one.
  pub close_gaps_lem :
      (n was_del rv : ℕ) (slots : ℕ → Option B)
      → was_del < n
      → slots was_del ≡ none
      → ((j : ℕ) → j < was_del → slots j ≢ none)
      → let (ns, r, s) = close_gaps (n - (was_del + 1)) (was_del + 1) was_del rv slots in
        (ns ≤ n)
        × (bridges ns s ≡ bridges n slots)
        × ((j : ℕ) → j < ns → s j ≢ none)
        × ((b : B) → slots rv ≡ some b → s r ≡ some b)
  close_gaps_lem n d rv slots lt e full =
      let c =
        close_gaps-Closed (n - (d + 1)) (d + 1) d rv slots (omega arith)
          (λ j lo hi. ap slots {x = j} {y = d} (omega arith) ∙ e) in
      (
        omega (arith, c.bound),
        c.kept ∙ ap (λ k. bridges k slots) (omega arith),
        c.full full,
        c.follows,
      )
