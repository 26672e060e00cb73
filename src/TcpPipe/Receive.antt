-- ===== src/TcpPipe/Receive.antt =====
-- Receiving of netkit::tcp_pipe, source/imconee/netkit.cpp: recv, rcv_all, and netkit::wait as recv
-- calls it, over the circular buffer. What the system says to ioctl, recv and select is a parameter.
pub mod Loop
pub mod Serve
pub mod Exact
mod Tests
use imconee.Common.{
  ℕ, zero, suc, ◌+◌, Bool, true, false, Option, none, some, List, [], ◌++◌, ◌&&◌, ◌||◌, not, ltb,
  if◌then◌else◌, length,
}
use imconee.CircularBuffer.{
  CircularBuffer, is_full, datasize, get_free_size, get_1st_free, receive, clear, peek,
}

-- What ::recv returns: SOCKET_ERROR because nothing can be read now, SOCKET_ERROR for another reason,
-- 0, or the number of bytes that it has stored.
pub data Delivery : Type 0 where
  no_data broken closed : Delivery
  delivered : List ℕ → Delivery

-- The socket in each round of the loop: what FIONREAD stores, or none for SOCKET_ERROR; what ::recv
-- does with a span of that size; and whether a wait after that many rounds finds it readable.
pub record Feed : Type 0 where
  pub pending : ℕ → Option ℕ
  pub deliver : ℕ → ℕ → Delivery
  pub woken : ℕ → Bool

-- The receive buffer, the two marks of `ready`, whether the socket is not closed yet, the rounds so
-- far, and the bytes that the socket has delivered so far.
pub record Receiver : Type 0 where
  pub rcvbuf : CircularBuffer
  pub ready_system : Bool
  pub ready_pipe : Bool
  pub is_open : Bool
  pub rounds : ℕ
  pub given : List ℕ

-- How a round ends: with `continue`, or with `rcv_all` returning.
pub data Next : Type 0 where
  again : Next
  returns : Bool → Next

-- What recv asks for: exactly so many bytes, which is a negative `maxdatasz`, or at most so many.
pub data Request : Type 0 where
  exactly at_most : ℕ → Request

module _ (size : ℕ) where
  -- tcp_pipe::close
  abbrev pub close_receiver : Receiver → Receiver
  close_receiver r = record r { rcvbuf = clear size r.rcvbuf; is_open = false }

  -- The bytes are in the span, and confirmed.
  abbrev pub store_delivery : Receiver → List ℕ → Receiver
  store_delivery r bytes = record r {
    rcvbuf = receive size r.rcvbuf bytes;
    ready_system = false;
    given = r.given ++ bytes;
  }

  abbrev pub after_delivery : Receiver → Delivery → Next × Receiver
  after_delivery r no_data = (returns true, r)
  after_delivery r broken = (returns false, close_receiver r)
  after_delivery r closed = (returns false, close_receiver r)
  after_delivery r (delivered bytes) =
      let stored = store_delivery r bytes in
      if ltb (get_free_size size stored.rcvbuf) 1300
      then (returns true, stored)
      else (again, stored)

  -- Reading is for a socket that has bytes, or a mark, and for a buffer with room. The size of the
  -- span offered is at most 16384.
  abbrev pub after_poll : Feed → Receiver → Option ℕ → Next × Receiver
  after_poll os r none = (returns false, close_receiver (record r { rounds = r.rounds + 1 }))
  after_poll os r (some rb) =
      if (ltb 0 rb || (r.ready_system || r.ready_pipe)) && ltb 1300 (get_free_size size r.rcvbuf)
      then after_delivery (record r { rounds = r.rounds + 1 })
          (os.deliver r.rounds (
            if ltb (get_1st_free size r.rcvbuf).1 16384
            then (get_1st_free size r.rcvbuf).1
            else 16384))
      else (returns true, record r { rounds = r.rounds + 1 })

  abbrev pub rcv_next :
      (Receiver → Option (Bool × Receiver)) → Next × Receiver → Option (Bool × Receiver)
  rcv_next loop (again, r) = loop r
  rcv_next loop (returns ok, r) = some (ok, r)

  abbrev pub rcv_loop : ℕ → Feed → Receiver → Option (Bool × Receiver)
  rcv_loop zero os r = none
  rcv_loop (suc fuel) os r =
      rcv_next (λ r'. rcv_loop fuel os r') (after_poll os r (os.pending r.rounds))

  -- Every `continue` has stored a byte, so that one round more than the size is enough.
  abbrev pub rcv_all : Feed → Receiver → Option (Bool × Receiver)
  rcv_all os r = if is_full size r.rcvbuf then some (true, r) else rcv_loop (suc size) os r

  -- netkit::wait, whose result recv does not use.
  abbrev pub wait_read : Feed → Receiver → Receiver
  wait_read os r = record r {
    ready_system = r.ready_system || (not r.ready_pipe && os.woken r.rounds);
  }

  abbrev pub read_out : ℕ → Receiver → Option (Option (List ℕ) × Receiver)
  read_out n r =
      some (some (peek size r.rcvbuf n).0, record r { rcvbuf = (peek size r.rcvbuf n).1 })

  abbrev pub exact_next :
      (Receiver → Option (Option (List ℕ) × Receiver))
      → ℕ
      → Feed
      → Option (Bool × Receiver)
      → Option (Option (List ℕ) × Receiver)
  exact_next loop n os none = none
  exact_next loop n os (some (false, r)) = some (none, r)
  exact_next loop n os (some (true, r)) =
      if ltb (datasize size r.rcvbuf) n then loop (wait_read os r) else read_out n r

  -- The loop for exactly `n` bytes; the fuel is the number of times that it tries.
  abbrev pub exact_loop : ℕ → ℕ → Feed → Receiver → Option (Option (List ℕ) × Receiver)
  exact_loop zero n os r = none
  exact_loop (suc fuel) n os r =
      if ltb (datasize size r.rcvbuf) n
      then exact_next (λ r'. exact_loop fuel n os r') n os (rcv_all os r)
      else read_out n r

  -- The end of recv: 0 bytes where none is held.
  abbrev pub give_out : ℕ → Receiver → Option (Option (List ℕ) × Receiver)
  give_out n r = if ltb 0 (datasize size r.rcvbuf) then read_out n r else some (some [], r)

  abbrev pub at_most_next : ℕ → Option (Bool × Receiver) → Option (Option (List ℕ) × Receiver)
  at_most_next n none = none
  at_most_next n (some (false, r)) = some (none, r)
  at_most_next n (some (true, r)) = give_out n r

  -- tcp_pipe::recv: the bytes, or none for -1.
  abbrev pub recv : ℕ → Feed → Request → Receiver → Option (Option (List ℕ) × Receiver)
  recv fuel os (exactly n) r = exact_loop fuel n os r
  recv fuel os (at_most n) r =
      if ltb (datasize size r.rcvbuf) n then at_most_next n (rcv_all os r) else give_out n r
