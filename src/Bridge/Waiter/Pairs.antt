-- ===== src/Bridge/Waiter/Pairs.antt =====
-- The two pipes of a bridge in the waiter: bridged::prepare_wait of source/imconee/handlers.h.
use imconee.Common.{
  ℕ, ◌+◌, ◌-◌, ◌≡◌, ◌⊎◌, refl, ap, ◌∙◌, inl, inr, Bool, true, false, Option, none, some, List, [],
  ◌∷◌, ◌++◌, ◌||◌, ◌==◌, length, take, append_assoc, length-append, take-append_le, take_all, arith,
}
use imconee.Bridge.{without}
use imconee.Bridge.Waiter.{
  all_below, Waitable, Waiter, add_bit, reg, unreg_last, Prepared, prepare_wait,
}

without-fresh : (n : ℕ) (m : List ℕ) → all_below n m ≡ true → without (n ∷ []) m ≡ m
without-fresh n [] below = refl
without-fresh n (x ∷ xs) below =
    let other : ((n == x) || false) ≡ false = ground arith in
    let rest : all_below n xs ≡ true = ground arith in
    rw other (ap (λ t. x ∷ t) (without-fresh n xs rest))

without-added :
    (c : Bool) (n : ℕ) (m : List ℕ) → all_below n m ≡ true → without (n ∷ []) (add_bit c n m) ≡ m
without-added true n m below =
    let same : ((n == n) || false) ≡ true = ground arith in rw same (without-fresh n m below)
without-added false n m below = without-fresh n m below

all_below-suc : (n : ℕ) (m : List ℕ) → all_below n m ≡ true → all_below (n + 1) m ≡ true
all_below-suc n [] below = refl
all_below-suc n (x ∷ xs) below =
    let rest : all_below n xs ≡ true = ground arith in ground (arith, all_below-suc n xs rest)

all_below-added :
    (c : Bool) (n : ℕ) (m : List ℕ)
    → all_below n m ≡ true
    → all_below (n + 1) (add_bit c n m) ≡ true
all_below-added true n m below = ground (arith, all_below-suc n m below)
all_below-added false n m below = all_below-suc n m below

reg-all_below :
    (ws : ℕ → Waitable) (x : ℕ) (w : Waiter)
    → all_below (length w.pipes) w.readymask ≡ true
    → all_below (length (reg ws (some x) w).1.pipes) (reg ws (some x) w).1.readymask ≡ true
reg-all_below ws x w below =
    rw (length-append w.pipes (x ∷ []))
      (all_below-added (ws x).ready (length w.pipes) w.readymask below)

take-pushed : (x : ℕ) (xs : List ℕ) → take (length (xs ++ (x ∷ [])) - 1) (xs ++ (x ∷ [])) ≡ xs
take-pushed x xs =
    let count = length-append xs (x ∷ []) in
    let n : length (xs ++ (x ∷ [])) - 1 ≡ length xs = omega arith in
    rw n
      (take-append_le (length xs) xs (x ∷ []) (omega arith) ∙ take_all (length xs) xs (omega arith))

unreg_last-reg :
    (ws : ℕ → Waitable) (x : ℕ) (w : Waiter)
    → all_below (length w.pipes) w.readymask ≡ true
    → unreg_last (reg ws (some x) w).1 ≡ w
unreg_last-reg ws x w below =
    let count = length-append w.pipes (x ∷ []) in
    let n : length (w.pipes ++ (x ∷ [])) - 1 ≡ length w.pipes = omega arith in
    let gone = without-added (ws x).ready (length w.pipes) w.readymask below in
    rw (take-pushed x w.pipes, n, gone) refl

-- How prepare_wait ends.
pub record Registered (w : Waiter) (x y : ℕ) (r : Prepared) : Type 0 where
  pub both : r.ok ≡ true
  pub first : r.mask1 ≡ (length w.pipes ∷ [])
  pub second : r.mask2 ≡ ((length w.pipes + 1) ∷ [])
  pub pipes : r.waiter.pipes ≡ w.pipes ++ (x ∷ y ∷ [])
  pub below : all_below (length r.waiter.pipes) r.waiter.readymask ≡ true

-- With a waiter whose bits are all of registered pipes: where both pipes have a waitable, prepare_wait
-- puts them at the next two places and returns their two bits, and the bits of the waiter are of
-- registered pipes again; where one has none, it fails and the waiter is what it was.
pub prepare_wait_lem :
    (ws : ℕ → Waitable) (pipe1 pipe2 : Option ℕ) (mask2 : List ℕ) (w : Waiter)
    → all_below (length w.pipes) w.readymask ≡ true
    → ((x : ℕ) × ((y : ℕ) × ((pipe1 ≡ some x)
            × ((pipe2 ≡ some y) × Registered w x y (prepare_wait ws pipe1 pipe2 mask2 w)))))
      ⊎ (((pipe1 ≡ none) ⊎ (pipe2 ≡ none))
          × (((prepare_wait ws pipe1 pipe2 mask2 w).ok ≡ false)
              × ((prepare_wait ws pipe1 pipe2 mask2 w).waiter ≡ w)))
prepare_wait_lem ws none pipe2 mask2 w below = inr (inl refl, (refl, refl))
prepare_wait_lem ws (some x) none mask2 w below =
    inr (inr refl, (refl, unreg_last-reg ws x w below))
prepare_wait_lem ws (some x) (some y) mask2 w below = inl (
  x,
  (
    y,
    (
      refl,
      (
        refl,
        record {
          both = refl;
          first = refl;
          second = ap (λ n. n ∷ []) (length-append w.pipes (x ∷ []));
          pipes = append_assoc w.pipes (x ∷ []) (y ∷ []);
          below = reg-all_below ws y (reg ws (some x) w).1 (reg-all_below ws x w below);
        },
      ),
    ),
  ),
)
