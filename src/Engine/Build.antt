-- ===== src/Engine/Build.antt =====
-- The constructor of the engine of source/imconee/engine.cpp.
use imconee.Common.{
  ℕ, Bool, true, false, Option, none, some, List, [], ◌∷◌, ◌++◌, if◌then◌else◌, ◌==◌,
}
use imconee.Net.Address.{Family}
use imconee.Settings.Text.{is_nil}
use imconee.Settings.Tree.{Sts, Elements}
use imconee.Engine.{ℤ, exit_ok, exit_fail_nolisteners, Loader, load_conf, iterate, iterate_if}

-- The engine behind its constructor: `opened` are the listeners that were opened.
pub record Engine (P L : Type 0) : Type 0 where
  pub exit_code : ℕ
  pub exit : Bool
  pub prox : List P
  pub listners : List L
  pub opened : List L

-- What the calls of a loop keep: the exit code of the loader, and what has been built.
abbrev pub built : {X : Type 0} → List X → Option (Option X × ℕ) → Option (Bool × (ℕ × List X))
built xs none = none
built xs (some (none, code)) = some (false, (code, xs))
built xs (some (some x, code)) = some (true, (code, xs ++ x ∷ []))

-- The function that the constructor gives to iterate_p or iterate_l.
abbrev pub add :
    {X : Type 0}
    → (ℕ → List ℕ → Sts → Option (Option X × ℕ))
    → List ℕ
    → Sts
    → ℕ × List X
    → Option (Bool × (ℕ × List X))
add build name b (code, xs) =
    if is_nil name then some (true, (code, xs)) else built xs (build code name b)

module _ {P L : Type 0} (number : List ℕ → Option ℤ)
    (build_p : ℕ → List ℕ → Sts → Option (Option P × ℕ))
    (build_l : ℕ → List ℕ → Sts → Option (Option L × ℕ)) where
  abbrev pub failed : ℕ → List P → Engine P L
  failed code ps = record { exit_code = code; exit = true; prox = ps; listners = []; opened = [] }

  -- The exit code that is tested behind the listeners is the engine's, which nothing has set.
  abbrev pub open_all : List P → Option (Bool × (ℕ × List L)) → Option (Engine P L)
  open_all ps none = none
  open_all ps (some (b, (code, []))) = some (failed exit_fail_nolisteners ps)
  open_all ps (some (b, (code, l ∷ ls))) =
      some (record {
        exit_code = exit_ok;
        exit = false;
        prox = ps;
        listners = l ∷ ls;
        opened = l ∷ ls;
      })

  abbrev pub build_listeners : Option Elements → ℕ → List P → Option (Engine P L)
  build_listeners none code ps = open_all ps (some (false, (code, [])))
  build_listeners (some es) code ps = open_all ps (iterate (add build_l) es (code, []))

  abbrev pub after_proxies : Loader → Option (Bool × (ℕ × List P)) → Option (Engine P L)
  after_proxies l none = none
  after_proxies l (some (b, (code, ps))) =
      if code == exit_ok then build_listeners l.listeners code ps else some (failed code ps)

  abbrev pub after_config : Option (Bool × Loader) → Option (Engine P L)
  after_config none = none
  after_config (some (false, l)) = some (failed l.exit_code [])
  after_config (some (true, l)) =
      after_proxies l (iterate_if (add build_p) l.prox (l.exit_code, []))

  abbrev pub engine : Option (List ℕ) → Family → Option (Engine P L)
  engine file def = after_config (
      load_conf number file
        (record { exit_code = exit_ok; listeners = none; prox = none; getip_def = def }))
