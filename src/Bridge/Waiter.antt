-- ===== src/Bridge/Waiter.antt =====
-- netkit::pipe_waiter of source/imconee/netkit.h and netkit.cpp, as Linux has it: the pipes to wait
-- for, and what is found. A pipe is the number of its waitable_data, or none where it has none; what
-- poll and ioctl say is a parameter.
pub mod Found
pub mod Pairs
mod Tests
use imconee.Common.{
  ℕ, ◌+◌, ◌-◌, Bool, true, false, not, Option, none, some, List, [], ◌∷◌, ◌++◌, ltb, ◌&&◌, ◌==◌,
  if◌then◌else◌, length, take,
}
use imconee.Bridge.{Masks, without}

-- `ready`, with the marks together, and `bufferfull` of waitable_data.
pub record Waitable : Type 0 where
  pub ready : Bool
  pub bufferfull : Bool

-- The pipes registered, whose number is `numw`, and `readymask`.
pub record Waiter : Type 0 where
  pub pipes : List ℕ
  pub readymask : List ℕ

-- What poll stores: POLLHUP, POLLERR or POLLNVAL; POLLIN; POLLOUT.
pub record Revents : Type 0 where
  pub hangup : Bool
  pub pollin : Bool
  pub pollout : Bool

-- What ioctl stores for FIONREAD and for SIOCOUTQ, none for an error; and what poll stores for a place,
-- where POLLOUT is asked for or not, none for an error.
pub record Outside : Type 0 where
  pub fionread : ℕ → Option ℕ
  pub outq : ℕ → Option ℕ
  pub polled : Option (ℕ → Bool → Revents)

abbrev pub no_masks : Masks
no_masks = record { readm = []; closem = []; writem = [] }

abbrev pub no_pipes : Waiter
no_pipes = record { pipes = []; readymask = [] }

-- `if (c) m |= 1ull << i`
abbrev pub add_bit : Bool → ℕ → List ℕ → List ℕ
add_bit c i m = if c then i ∷ m else m

abbrev pub make_ready : Bool → (ℕ → Waitable) → ℕ → ℕ → Waitable
make_ready c ws x y = if c then (if y == x then record (ws y) { ready = true } else ws y) else ws y

-- pipe_waiter::reg: the bit of the pipe, or no bit.
abbrev pub reg : (ℕ → Waitable) → Option ℕ → Waiter → List ℕ × Waiter
reg ws none w = ([], w)
reg ws (some x) w = (
  length w.pipes ∷ [],
  record {
    pipes = w.pipes ++ (x ∷ []);
    readymask = add_bit (ws x).ready (length w.pipes) w.readymask;
  },
)

-- pipe_waiter::unreg_last
abbrev pub unreg_last : Waiter → Waiter
unreg_last w = record {
  pipes = take (length w.pipes - 1) w.pipes;
  readymask = without ((length w.pipes - 1) ∷ []) w.readymask;
}

abbrev pub has_bytes : Option ℕ → Bool
has_bytes none = false
has_bytes (some rb) = ltb 0 rb

abbrev pub is_failure : Option ℕ → Bool
is_failure none = true
is_failure (some rb) = false

-- The difference is unsigned, so that it is positive unless it is 0.
abbrev pub has_space : ℕ → Option ℕ → Bool
has_space buffer none = false
has_space buffer (some rb) = not (rb == buffer)

-- The loop of checkall over the pipes from the place `i` on; `buffer` is send_buffer_size.
abbrev pub check_loop : ℕ → Outside → ℕ → List ℕ → Masks → (ℕ → Waitable) → Masks × (ℕ → Waitable)
check_loop buffer sys i [] m ws = (m, ws)
check_loop buffer sys i (x ∷ xs) m ws =
    let full = (ws x).bufferfull in
    let closed = add_bit (is_failure (sys.fionread x)) i m.closem in
    check_loop buffer sys (i + 1) xs
      (record {
        readm = add_bit (has_bytes (sys.fionread x)) i m.readm;
        closem = if full then add_bit (is_failure (sys.outq x)) i closed else closed;
        writem = if full then add_bit (has_space buffer (sys.outq x)) i m.writem else m.writem;
      })
      (make_ready (has_bytes (sys.fionread x)) ws x)

abbrev pub checkall : ℕ → Outside → (ℕ → Waitable) → Waiter → Masks × (ℕ → Waitable) × Waiter
checkall buffer sys ws w =
    let (m, ws') = check_loop buffer sys 0 w.pipes (record no_masks { readm = w.readymask }) ws in
    (m, ws', no_pipes)

-- The loop behind poll, over the pipes from the place `i` on.
abbrev pub poll_loop : (ℕ → Revents) → ℕ → List ℕ → Masks → (ℕ → Waitable) → Masks × (ℕ → Waitable)
poll_loop rev i [] m ws = (m, ws)
poll_loop rev i (x ∷ xs) m ws =
    poll_loop rev (i + 1) xs
      (record {
        readm = add_bit (rev i).pollin i m.readm;
        closem = add_bit (rev i).hangup i m.closem;
        writem = add_bit (rev i).pollout i m.writem;
      })
      (make_ready (rev i).pollin ws x)

-- Whether a place has a pipe with a property.
abbrev pub at_place : List ℕ → ℕ → (ℕ → Bool) → Bool
at_place [] i f = false
at_place (x ∷ xs) i f = if i == 0 then f x else at_place xs (i - 1) f

-- Whether POLLOUT is asked for at a place.
abbrev pub asks_pollout : (ℕ → Waitable) → List ℕ → ℕ → Bool
asks_pollout ws xs i = at_place xs i (λ x. (ws x).bufferfull)

abbrev pub after_polling :
    ℕ
    → Outside
    → Option (ℕ → Bool → Revents)
    → (ℕ → Waitable)
    → Waiter
    → Masks × (ℕ → Waitable) × Waiter
after_polling buffer sys none ws w = checkall buffer sys ws w
after_polling buffer sys (some rev) ws w =
    let (m, ws') = poll_loop (λ i. rev i (asks_pollout ws w.pipes i)) 0 w.pipes no_masks ws in
    (m, ws', no_pipes)

-- pipe_waiter::wait
abbrev pub wait : ℕ → Outside → (ℕ → Waitable) → Waiter → Masks × (ℕ → Waitable) × Waiter
wait buffer sys ws w =
    if length w.readymask == 0
    then (if length w.pipes == 0
        then (no_masks, ws, no_pipes)
        else after_polling buffer sys sys.polled ws w)
    else checkall buffer sys ws w

-- Whether all bits are of places below `n`: those of the registered pipes, where `n` is their number.
abbrev pub all_below : ℕ → List ℕ → Bool
all_below n [] = true
all_below n (x ∷ xs) = ltb x n && all_below n xs

-- The two bits of a bridge, or no registration of it.
pub record Prepared : Type 0 where
  pub ok : Bool
  pub mask1 : List ℕ
  pub mask2 : List ℕ
  pub waiter : Waiter

abbrev pub prepare_second : List ℕ → List ℕ × Waiter → Prepared
prepare_second mask1 ([], w) = record {
  ok = false;
  mask1 = mask1;
  mask2 = [];
  waiter = unreg_last w;
}
prepare_second mask1 (i ∷ is, w) = record { ok = true; mask1 = mask1; mask2 = i ∷ is; waiter = w }

abbrev pub prepare_first : (ℕ → Waitable) → Option ℕ → List ℕ → List ℕ × Waiter → Prepared
prepare_first ws pipe2 mask2 ([], w) = record { ok = false; mask1 = []; mask2 = mask2; waiter = w }
prepare_first ws pipe2 mask2 (i ∷ is, w) = prepare_second (i ∷ is) (reg ws pipe2 w)

-- bridged::prepare_wait, for a bridge that had `mask2` as its second bit.
abbrev pub prepare_wait : (ℕ → Waitable) → Option ℕ → Option ℕ → List ℕ → Waiter → Prepared
prepare_wait ws pipe1 pipe2 mask2 w = prepare_first ws pipe2 mask2 (reg ws pipe1 w)
