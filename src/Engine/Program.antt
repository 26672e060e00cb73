-- ===== src/Engine/Program.antt =====
-- All listeners of the program, and engine::numlisteners of source/imconee/engine.cpp, which they share.
use imconee.Common.{ℕ, ◌+◌, ◌-◌, ◌<◌, Bool, ◌==◌, if◌then◌else◌}
use imconee.Engine.Acceptor.{Listener, Step, open_count, counts, init}

pub record Program : Type 0 where
  pub numlisteners : ℕ
  pub listeners : ℕ → Listener

-- What a step does to the counter: open increments it, the end of acceptor decrements it.
abbrev pub new_count : {nix : Bool} {s r : Listener} → Step nix s r → ℕ → ℕ
new_count (open_count c) k = k + 1
new_count (counts t at) k = k - 1
new_count step k = k

abbrev pub put : Program → ℕ → Listener → ℕ → Listener
put p i r j = if j == i then r else p.listeners j

-- The listeners below `n`, each with its thread and with calls of open and stop, in any order.
pub data Reach (nix : Bool) (n : ℕ) : Program → Type 0 where
  start : Reach nix n (record { numlisteners = 0; listeners = λ i. init })
  later :
      {p : Program} {r : Listener}
      → Reach nix n p
      → (i : ℕ) → i < n
      → (step : Step nix (p.listeners i) r)
      → Reach nix n (record { numlisteners = new_count step p.numlisteners; listeners = put p i r })
