-- ===== src/Engine/Tests.antt =====
-- The start of the program of source/imconee/engine.cpp on small configurations.
use Prim.Native.Char.{code}
use Prim.Native.String.{String}
use imconee.Common.{
  ℕ, ◌-◌, ◌≡◌, ◌≢◌, ◌⊎◌, refl, true, false, Option, none, some, List, [], ◌∷◌, arith,
}
use imconee.Net.Address.{Family, prior4, prior6}
use imconee.Settings.Tree.{Sts, sts, Elements, nil, cons, named, get, value, same_text}
use imconee.Engine.{ℤ, pos, at_least_zero, Loader, iterate_if, load_settings}
use imconee.Engine.Listener.{TcpListener, build_listener}
use imconee.Engine.Build.{add, build_listeners, after_proxies, failed}
use imconee.Engine.Priority.{Follows, load_settings-family}
use imconee.Engine.Start.{before, done, one, failing_element}
use imconee.Engine.Acceptor.{
  waiting, Listener, is_idle, init, open_start, open_count, open_create, stop_begin, stop_flag,
  stop_read, works, listens, leaves, Steps, start, later,
}
use imconee.Engine.OneThread.{IsCounted}
use imconee.Engine.Program
use imconee.Engine.Program.{Program, Reach}
use imconee.Engine.Counter.{total, listeners-IsCounted}
use imconee.Engine.StopWaits.{stop_waits}

abbrev codes : String → List ℕ
codes String.[] = []
codes (String.◌∷◌ c s) = code c ∷ codes s

-- Of texts of at most one byte: a digit, or nothing.
abbrev digit : List ℕ → Option ℤ
digit [] = none
digit (c ∷ r) = some (pos (c - b'0'))

abbrev leaf : String → Sts
leaf s = sts (codes s) nil

abbrev settings : Elements
settings = cons (named (codes "ipv4")) (leaf "2") (cons (named (codes "ipv6")) (leaf "3") nil)

abbrev loader : Loader
loader = record { exit_code = 0; listeners = none; prox = none; getip_def = prior4 }

load_settings_test :
    load_settings digit (some settings) loader ≡ some (true, record loader { getip_def = prior6 })
unfolding get
load_settings_test = refl

load_settings-family_example :
    ((at_least_zero (pos 2) ≡ at_least_zero (pos 3))
      × (load_settings digit (some settings) loader
          ≡ some (false, record loader { exit_code = 14 })))
    ⊎ ((at_least_zero (pos 2) ≢ at_least_zero (pos 3))
        × ((f : Family) × (load_settings digit (some settings) loader
              ≡ some (true, record loader { getip_def = f }))
            × Follows f 2 3))
unfolding get
load_settings-family_example = load_settings-family digit settings (pos 2) (pos 3) loader refl refl

-- A handler is its value, and "bad" is none.
abbrev handler : ℕ → Sts → Option (List ℕ) × ℕ
handler code s = elim (same_text (value s) (codes "bad")) [
  | true ↦ (none, 4)
  | false ↦ (some (value s), code)
]

abbrev tcp : String → Sts
tcp h = sts [] (
    cons (named (codes "type")) (leaf "tcp")
      (cons (named (codes "port")) (leaf "7") (cons (named (codes "handler")) (leaf h) nil)))

abbrev listener : String → TcpListener (List ℕ) (List ℕ)
listener s = record { name = codes s; handler = some (codes "h"); bind = some []; port = 7 }

abbrev build : ℕ → List ℕ → Sts → Option (Option (TcpListener (List ℕ) (List ℕ)) × ℕ)
build = build_listener digit handler (λ b. b)

build_test : build 0 (codes "x") (tcp "h") ≡ some (some (listener "x"), 0)
unfolding get
build_test = refl

failing_element_example :
    (after_proxies digit build build loader (
        iterate_if
          (add build)
          (some (before nil (cons (named (codes "y")) (tcp "bad") nil)))
          (0, []))
      ≡ some (failed digit build build 4 []))
    × (build_listeners digit build build
          (some (
            before
              (cons (named (codes "x")) (tcp "h") nil)
              (cons (named (codes "y")) (tcp "bad") nil)))
          0
          []
        ≡ some (record {
          exit_code = 0;
          exit = false;
          prox = [];
          listners = listener "x" ∷ [];
          opened = listener "x" ∷ [];
        }))
unfolding get
failing_element_example =
    failing_element digit build build b'y' [] (tcp "bad") nil 4 loader done (one refl refl done)
      refl (λ e. omega arith) refl refl

-- Thread 5 listens, and stop waits for it.
abbrev stopping : (s : Listener) × Steps true init s
stopping = (
  _,
  later
      (later
        (later
          (later
            (later
              (later (later (later start (open_start refl refl refl)) (open_count refl))
                (open_create 5 refl refl))
              (works 5 refl refl refl))
            (listens 5 refl))
          (stop_begin refl refl refl))
        (stop_flag refl refl))
      (stop_read refl refl),
)

-- Of two listeners the first runs, and the second is about to.
abbrev two_counted : (p : Program) × Reach true 2 p
two_counted = (
  _,
  imconee.Engine.Program.later
      (imconee.Engine.Program.later
        (imconee.Engine.Program.later
          (imconee.Engine.Program.later
            (imconee.Engine.Program.later imconee.Engine.Program.start 0 (omega arith)
              (open_start refl refl refl))
            0 (omega arith) (open_count refl))
          0 (omega arith) (open_create 5 refl refl))
        1 (omega arith) (open_start refl refl refl))
      1 (omega arith) (open_count refl),
)

two_listeners : two_counted.0.numlisteners ≡ 2
two_listeners = refl

listeners-IsCounted_example :
    (two_counted.0.numlisteners ≡ total 2 two_counted.0.listeners)
    × ((i : ℕ) → IsCounted (two_counted.0.listeners i))
listeners-IsCounted_example = listeners-IsCounted 2 two_counted.0 two_counted.1

-- The thread sees the flag, and leaves its loop.
abbrev left_loop : (r : Listener) × Steps true stopping.0 r
left_loop = (_, later start (leaves 5 refl refl refl))

stop_waits_example : (left_loop.0.caller ≡ waiting) × (is_idle left_loop.0.stage ≡ false)
stop_waits_example = stop_waits stopping.1 refl refl left_loop.1
