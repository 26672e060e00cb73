-- ===== src/Engine/Acceptor.antt =====
-- The thread of a tcp_listener of source/imconee/listener.cpp, and the calls of open and stop, one
-- access to the shared state a step.
use imconee.Common.{ℕ, ◌+◌, ◌-◌, ◌≡◌, Bool, true, false, ◌==◌, if◌then◌else◌}

pub data Stage : Type 0 where
  stage_idle acceptor_start acceptor_works : Stage

-- Where a thread of the listener is: not there, or in front of an access of acceptor.
pub data Place : Type 0 where
  absent begun binding testing accepting ending counting : Place

-- Where the thread of the engine is: outside of open and stop, in open in front of the increment or of the
-- new thread, or in stop in front of the flag, in front of the lock for the address, in its loop, or in
-- front of its end.
pub data Caller : Type 0 where
  outside incrementing creating flagging reading waiting resetting : Caller

-- The state of the listener, whether its lock is held across steps, and its share of the counter
-- engine::numlisteners: what it has added and not taken off yet.
pub record Listener : Type 0 where
  pub stage : Stage
  pub need_stop : Bool
  pub held : Bool
  pub share : ℕ
  pub caller : Caller
  pub threads : ℕ → Place

abbrev pub is_idle : Stage → Bool
is_idle stage_idle = true
is_idle acceptor_start = false
is_idle acceptor_works = false

abbrev pub place : Listener → ℕ → Place → ℕ → Place
place s t p j = if j == t then p else s.threads j

-- On Linux, with `nix`, stop keeps the lock that it takes to read the address until it returns.
abbrev pub reader : Bool → Caller → Bool
reader nix waiting = nix
reader nix resetting = nix
reader nix _ = false

-- Steps of the engine's thread. The lock is free for a reader when no writer holds it, and for a writer
-- when there is no reader either.
pub data Step (nix : Bool) (s : Listener) : Listener → Type 0 where
  open_running : s.caller ≡ outside → s.held ≡ false → is_idle s.stage ≡ false → Step nix s s
  open_start :
      s.caller ≡ outside
      → s.held ≡ false
      → is_idle s.stage ≡ true
      → Step nix s (record s { stage = acceptor_start; caller = incrementing })
  open_count :
      s.caller ≡ incrementing → Step nix s (record s { share = s.share + 1; caller = creating })
  -- The new thread has a number that no running one has.
  open_create :
      (t : ℕ)
      → s.caller ≡ creating
      → s.threads t ≡ absent
      → Step nix s (record s { caller = outside; threads = place s t begun })
  stop_idle : s.caller ≡ outside → s.held ≡ false → is_idle s.stage ≡ true → Step nix s s
  stop_begin :
      s.caller ≡ outside
      → s.held ≡ false
      → is_idle s.stage ≡ false
      → Step nix s (record s { caller = flagging })
  stop_flag :
      s.caller ≡ flagging
      → s.held ≡ false
      → Step nix s (record s { need_stop = true; caller = reading })
  stop_read : s.caller ≡ reading → s.held ≡ false → Step nix s (record s { caller = waiting })
  stop_end :
      s.caller ≡ waiting
      → s.held ≡ false
      → is_idle s.stage ≡ true
      → Step nix s (record s { caller = resetting })
  stop_reset :
      s.caller ≡ resetting
      → s.held ≡ false
      → reader nix s.caller ≡ false
      → Step nix s (record s { need_stop = false; caller = outside })
  -- Steps of acceptor.
  works :
      (t : ℕ)
      → s.threads t ≡ begun
      → s.held ≡ false
      → reader nix s.caller ≡ false
      → Step nix s (record s { stage = acceptor_works; threads = place s t binding })
  listens : (t : ℕ) → s.threads t ≡ binding → Step nix s (record s { threads = place s t testing })
  fails : (t : ℕ) → s.threads t ≡ binding → Step nix s (record s { threads = place s t ending })
  goes_on :
      (t : ℕ)
      → s.threads t ≡ testing
      → s.held ≡ false
      → s.need_stop ≡ false
      → Step nix s (record s { threads = place s t accepting })
  leaves :
      (t : ℕ)
      → s.threads t ≡ testing
      → s.held ≡ false
      → s.need_stop ≡ true
      → Step nix s (record s { threads = place s t ending })
  accepts :
      (t : ℕ) → s.threads t ≡ accepting → Step nix s (record s { threads = place s t testing })
  -- The lock is held until the function returns.
  ends :
      (t : ℕ)
      → s.threads t ≡ ending
      → s.held ≡ false
      → reader nix s.caller ≡ false
      → Step nix s (record s { stage = stage_idle; held = true; threads = place s t counting })
  counts :
      (t : ℕ)
      → s.threads t ≡ counting
      → Step nix s (record s { share = s.share - 1; held = false; threads = place s t absent })

abbrev pub init : Listener
init = record {
  stage = stage_idle;
  need_stop = false;
  held = false;
  share = 0;
  caller = outside;
  threads = λ t. absent;
}

-- The states that steps lead to.
pub data Steps (nix : Bool) (s : Listener) : Listener → Type 0 where
  start : Steps nix s s
  later : {r t : Listener} → Steps nix s r → Step nix r t → Steps nix s t
