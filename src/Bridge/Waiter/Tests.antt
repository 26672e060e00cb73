-- ===== src/Bridge/Waiter/Tests.antt =====
-- Two bridges in a waiter: pipe_waiter and prepare_wait of source/imconee on concrete pipes.
use imconee.Common.{
  ◌<◌, length, ℕ, ◌≡◌, ◌⊎◌, refl, true, false, Option, none, some, [], ◌==◌, if◌then◌else◌,
}
use imconee.Bridge.Waiter.{Waitable, Waiter, Outside, no_pipes, wait, prepare_wait}
use imconee.Bridge.Waiter.Found.{found_at, by_wait, wait_finds}
use imconee.Bridge.Waiter.Pairs.{Registered, prepare_wait_lem}

-- Pipe 7 is marked ready, and the buffer of pipe 9 is full.
abbrev waitables : ℕ → Waitable
waitables x = record { ready = x == 7; bufferfull = x == 9 }

abbrev system : Outside
system = record {
  fionread = λ x. if x == 8 then none else some 5;
  outq = λ x. some 100;
  polled = some (λ i asked. record { hangup = false; pollin = i == 1; pollout = asked });
}

-- Pipes 8 and 9, of one bridge.
abbrev one_bridge : Waiter
one_bridge = (prepare_wait waitables (some 8) (some 9) [] no_pipes).waiter

found_polled : found_at (wait 200 system waitables one_bridge).0 1 ≡ (true, false, true)
found_polled = refl

abbrev two_bridges : Waiter
two_bridges = (prepare_wait waitables (some 7) (some 8) [] one_bridge).waiter

found_error : found_at (wait 200 system waitables two_bridges).0 3 ≡ (false, true, false)
found_error = refl

wait_finds_example :
    (found_at (wait 200 system waitables two_bridges).0 4
      ≡ by_wait 200 system waitables two_bridges 4)
    × ((4 < length two_bridges.pipes)
        ⊎ (found_at (wait 200 system waitables two_bridges).0 4 ≡ (false, false, false)))
    × ((wait 200 system waitables two_bridges).2 ≡ no_pipes)
wait_finds_example = wait_finds 200 system waitables two_bridges 4 refl

abbrev marked_pipe : Option ℕ
marked_pipe = some 7

abbrev broken_pipe : Option ℕ
broken_pipe = some 8

prepare_wait_lem_example :
    ((x : ℕ) × ((y : ℕ) × ((marked_pipe ≡ some x)
          × ((broken_pipe ≡ some y)
              × Registered one_bridge x y
                  (prepare_wait waitables marked_pipe broken_pipe [] one_bridge)))))
    ⊎ (((marked_pipe ≡ none) ⊎ (broken_pipe ≡ none))
        × (((prepare_wait waitables marked_pipe broken_pipe [] one_bridge).ok ≡ false)
            × ((prepare_wait waitables marked_pipe broken_pipe [] one_bridge).waiter ≡ one_bridge)))
prepare_wait_lem_example = prepare_wait_lem waitables marked_pipe broken_pipe [] one_bridge refl
