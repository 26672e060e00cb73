-- ===== src/TcpPipe.antt =====
-- netkit::tcp_pipe of source/imconee/netkit.cpp: sending through the buffer of what the socket has
-- not taken yet.
pub mod Order
pub mod Receive
mod Tests
use imconee.Common.{
  ℕ, ◌+◌, ◌-◌, Bool, true, false, Option, none, some, List, [], ◌∷◌, ◌++◌, ltb, ◌==◌, if◌then◌else◌,
  length, take, drop,
}
use imconee.ChunkBuffer.{ChunkBuffer, append, skip, get_1st_chunk, is_empty}

-- What ::send returns: SOCKET_ERROR because nothing can be sent now, SOCKET_ERROR for another reason,
-- or the number of bytes taken.
pub data Taken : Type 0 where
  would_block broken : Taken
  took : ℕ → Taken

-- pipe::sendrslt
pub data SendResult : Type 0 where
  send_ok send_fail send_bufferfull : SendResult

-- The bytes that the socket has taken, the buffer behind them, and the mark for the waiter.
pub record TcpPipe : Type 0 where
  pub taken : List ℕ
  pub outbuf : ChunkBuffer
  pub bufferfull : Bool

module _ (size : ℕ) where
  -- The first chunk is offered to the socket.
  unfoldable pub flush : TcpPipe → Taken → SendResult × TcpPipe
  flush p would_block = (send_bufferfull, p)
  flush p broken = (send_fail, p)
  flush p (took n) =
      let sent = record p {
        taken = p.taken ++ take n (get_1st_chunk size p.outbuf);
        outbuf = skip size p.outbuf n;
      } in
      if is_empty sent.outbuf
      then (send_ok, record sent { bufferfull = false })
      else (send_bufferfull, sent)

  -- What the socket has not taken is kept.
  unfoldable pub keep : TcpPipe → List ℕ → ℕ → SendResult × TcpPipe
  keep p bytes n =
      let sent = record p { taken = p.taken ++ take n bytes } in
      if ltb n (length bytes)
      then (
        send_bufferfull,
        record sent { outbuf = append size p.outbuf (drop n bytes); bufferfull = true },
      )
      else (send_ok, sent)

  direct : TcpPipe → List ℕ → Taken → SendResult × TcpPipe
  unfolding keep
  direct p bytes would_block = keep p bytes 0
  direct p bytes broken = (send_fail, p)
  direct p bytes (took n) = keep p bytes n

  -- send with data that is not null, and `os` for what the socket says to the bytes offered.
  unfoldable pub send : TcpPipe → List ℕ → (List ℕ → Taken) → SendResult × TcpPipe
  unfolding flush direct
  send p bytes os =
      let queued =
        if ltb 0 (length bytes) then record p { outbuf = append size p.outbuf bytes } else p in
      if is_empty p.outbuf
      then (if length bytes == 0 then (send_ok, p) else direct p bytes (os bytes))
      else flush queued (os (get_1st_chunk size queued.outbuf))

  -- send(nullptr, 0)
  unfoldable pub poll : TcpPipe → SendResult
  poll p = if is_empty p.outbuf then send_ok else send_bufferfull
