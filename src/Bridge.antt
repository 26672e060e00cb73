-- ===== src/Bridge.antt =====
-- handler::bridged of source/imconee/handlers.h and handlers.cpp: what one connection of a bridge
-- receives is sent over the other. Slots are the bridges of one thread, and
-- Waiter finds out which of their pipes are ready.
pub mod Relay
pub mod Run
pub mod Slots
pub mod Gaps
pub mod Tick
pub mod Kept
pub mod Waiter
mod Tests
use imconee.Common.{
  ℕ, zero, suc, Bool, true, false, not, Option, none, some, List, [], ◌∷◌, ◌++◌, min, ltb, ◌==◌,
  ◌||◌, ◌&&◌, if◌then◌else◌, length, take, drop,
}
use imconee.TcpPipe.{SendResult, send_ok, send_fail, send_bufferfull}

-- A u64 of flags, as the list of the bits that are set: the pipes of the waiter.
abbrev pub has : List ℕ → ℕ → Bool
has [] i = false
has (x ∷ xs) i = (x == i) || has xs i

abbrev pub overlaps : List ℕ → List ℕ → Bool
overlaps ms [] = false
overlaps ms (x ∷ xs) = has ms x || overlaps ms xs

abbrev pub without : List ℕ → List ℕ → List ℕ
without ms [] = []
without ms (x ∷ xs) = if has ms x then without ms xs else x ∷ without ms xs

-- pipe_waiter::mask
pub record Masks : Type 0 where
  pub readm : List ℕ
  pub closem : List ℕ
  pub writem : List ℕ

-- have_read, have_closed and have_write: whether a bit is set, which is then reset.
abbrev pub have_read : List ℕ → Masks → Bool × Masks
have_read m k = (overlaps m k.readm, record k { readm = without m k.readm })

abbrev pub have_closed : List ℕ → Masks → Bool × Masks
have_closed m k = (overlaps m k.closem, record k { closem = without m k.closem })

abbrev pub have_write : List ℕ → Masks → Bool × Masks
have_write m k = (overlaps m k.writem, record k { writem = without m k.writem })

abbrev pub remove_write : List ℕ → Masks → Masks
remove_write m k = record k { writem = without m k.writem }

-- A pipe of a bridge: the bytes still to come, for each call of recv how many have arrived, or that
-- it fails, for each call of send what it returns, and whether a call with no data finds the buffer
-- full; and the bytes that recv has given and that send has taken so far.
pub record End : Type 0 where
  pub inbox : List ℕ
  pub ready : List (Option ℕ)
  pub answers : List SendResult
  pub full : List Bool
  pub received : List ℕ
  pub sent : List ℕ

-- recv(data, n) with n > 0; it fails where nothing is said of the call.
unfoldable pub recv_by : List (Option ℕ) → ℕ → End → Option (List ℕ) × End
recv_by [] n e = (none, e)
recv_by (none ∷ rs) n e = (none, record e { ready = rs })
recv_by (some k ∷ rs) n e =
    let x = take (min n k) e.inbox in
    (some x, record e { inbox = drop (min n k) e.inbox; ready = rs; received = e.received ++ x })

unfoldable pub recv : ℕ → End → Option (List ℕ) × End
unfolding recv_by
recv n e = recv_by e.ready n e

-- send(data, n): a pipe that does not fail has taken the bytes, to the socket or into its buffer.
unfoldable pub send_by : List SendResult → List ℕ → End → SendResult × End
send_by [] bytes e = (send_fail, e)
send_by (send_fail ∷ rs) bytes e = (send_fail, record e { answers = rs })
send_by (r ∷ rs) bytes e = (r, record e { answers = rs; sent = e.sent ++ bytes })

unfoldable pub send : List ℕ → End → SendResult × End
unfolding send_by
send bytes e = send_by e.answers bytes e

-- send(nullptr, 0) == SEND_BUFFERFULL
unfoldable pub full_by : List Bool → End → Bool × End
full_by [] e = (false, e)
full_by (b ∷ bs) e = (b, record e { full = bs })

unfoldable pub is_bufferfull : End → Bool × End
unfolding full_by
is_bufferfull e = full_by e.full e

pub data ProcessResult : Type 0 where
  slot_dead slot_processes slot_skipped : ProcessResult

-- The variables of process.
pub record Work : Type 0 where
  pub rv : ProcessResult
  pub masks : Masks
  pub pipe1 : End
  pub pipe2 : End

abbrev pub bridge_buffer_size : ℕ
bridge_buffer_size = 65536

-- A direction of process: the state of the two pipes, and what comes of it.
pub record Passed : Type 0 where
  pub rv : ProcessResult
  pub masks : Masks
  pub source : End
  pub target : End

-- What follows send, and what follows recv.
unfoldable pub after_send : List ℕ → Masks → End → SendResult × End → Passed
after_send target_mask k a (send_fail, b) = record {
  rv = slot_dead;
  masks = k;
  source = a;
  target = b;
}
after_send target_mask k a (send_ok, b) = record {
  rv = slot_processes;
  masks = remove_write target_mask k;
  source = a;
  target = b;
}
after_send target_mask k a (send_bufferfull, b) = record {
  rv = slot_processes;
  masks = k;
  source = a;
  target = b;
}

unfoldable pub after_recv : List ℕ → Masks → End → Option (List ℕ) × End → Passed
unfolding after_send
after_recv target_mask k b (none, a) = record { rv = slot_dead; masks = k; source = a; target = b }
after_recv target_mask k b (some [], a) = record {
  rv = slot_processes;
  masks = k;
  source = a;
  target = b;
}
after_recv target_mask k b (some (x ∷ xs), a) = after_send target_mask k a (send (x ∷ xs) b)

-- `if (masks.have_read(mask1))` and its like for mask2.
unfoldable pub relay : ProcessResult → List ℕ → List ℕ → Masks → End → End → Passed
unfolding is_bufferfull after_recv
relay rv source_mask target_mask masks a b =
    let (ready, k) = have_read source_mask masks in
    let (full, b') = is_bufferfull b in
    let passed = after_recv target_mask k b' (recv (if full then 1 else bridge_buffer_size) a) in
    if ready then passed else record { rv = rv; masks = k; source = a; target = b }

-- `if (masks.have_write(mask1))` and its like: the buffer of the pipe is sent.
abbrev pub push_result : SendResult → ProcessResult
push_result send_fail = slot_dead
push_result send_ok = slot_processes
push_result send_bufferfull = slot_processes

unfoldable pub push_unsent : ProcessResult → List ℕ → Masks → End → ProcessResult × Masks × End
push_unsent rv m masks a =
    let (ready, k) = have_write m masks in
    let (r, a') = send [] a in if ready then (push_result r, k, a') else (rv, k, a)

-- An early return.
abbrev pub unless_dead : ProcessResult → Work → (Work → Work) → Work
unless_dead slot_dead w f = w
unless_dead slot_processes w f = f w
unless_dead slot_skipped w f = f w

module _ (mask1 mask2 : List ℕ) where
  abbrev pub read1 : Work → Work
  read1 w =
      let r = relay w.rv mask1 mask2 w.masks w.pipe1 w.pipe2 in
      record { rv = r.rv; masks = r.masks; pipe1 = r.source; pipe2 = r.target }

  abbrev pub read2 : Work → Work
  read2 w =
      let r = relay w.rv mask2 mask1 w.masks w.pipe2 w.pipe1 in
      record { rv = r.rv; masks = r.masks; pipe1 = r.target; pipe2 = r.source }

  abbrev pub write1 : Work → Work
  write1 w =
      let r = push_unsent w.rv mask1 w.masks w.pipe1 in
      record w { rv = r.0; masks = r.1; pipe1 = r.2 }

  abbrev pub write2 : Work → Work
  write2 w =
      let r = push_unsent w.rv mask2 w.masks w.pipe2 in
      record w { rv = r.0; masks = r.1; pipe2 = r.2 }

  -- process from the first read on.
  unfoldable pub process_open : Work → Work
  unfolding relay push_unsent
  process_open start =
      let w1 = read1 start in
      let w2 = unless_dead w1.rv w1 read2 in
      let w3 = unless_dead w2.rv w2 write1 in unless_dead w3.rv w3 write2

  unfoldable pub process : Masks → End → End → Work
  unfolding process_open
  process masks a b =
      let (closed, k) = have_closed (mask1 ++ mask2) masks in
      if closed
      then record { rv = slot_dead; masks = k; pipe1 = a; pipe2 = b }
      else process_open (record { rv = slot_skipped; masks = k; pipe1 = a; pipe2 = b })

-- What a tick finds for one bridge: the bits of its two pipes, and the masks by then.
pub record Turn : Type 0 where
  pub mask1 : List ℕ
  pub mask2 : List ℕ
  pub masks : Masks

-- The calls of process for one bridge, up to the one that finds it dead.
unfoldable pub after_turn : ProcessResult → Work → (End → End → Work) → Work
after_turn slot_dead w go = w
after_turn slot_processes w go = go w.pipe1 w.pipe2
after_turn slot_skipped w go = go w.pipe1 w.pipe2

unfoldable pub run : List Turn → End → End → Work
unfolding after_turn
run [] a b = record {
  rv = slot_skipped;
  masks = record { readm = []; closem = []; writem = [] };
  pipe1 = a;
  pipe2 = b;
}
run (t ∷ ts) a b =
    let w = process t.mask1 t.mask2 t.masks a b in after_turn w.rv w (λ x y. run ts x y)
