-- ===== src/CircularBuffer.antt =====
-- tools::circular_buffer of source/imconee/tools.h: the receive buffer of a TCP pipe. `signed_t`
-- values are numbers; where the source's difference can be negative it is clamped, as written there.
pub mod Bounds
pub mod Refine
pub mod Space
pub mod Move
mod Tests
use imconee.Common.{
  ℕ, ◌+◌, ◌-◌, Bool, ◌&&◌, ◌||◌, List, [], ◌++◌, ltb, leb, ◌==◌, if◌then◌else◌, length, take, drop,
  copy_at,
}

-- `mem` is what the member `b` holds; its `size` is a parameter below.
pub record CircularBuffer : Type 0 where
  pub mem : List ℕ
  pub start : ℕ
  pub end : ℕ

module _ (size : ℕ) where
  unfoldable pub is_full : CircularBuffer → Bool
  is_full b = (b.start == 0 && b.end == size) || b.end + 1 == b.start

  unfoldable pub datasize : CircularBuffer → ℕ
  datasize b = if leb b.start b.end then b.end - b.start else (size - b.start) + b.end

  unfoldable pub get_free_size : CircularBuffer → ℕ
  get_free_size b =
      if leb b.start b.end then (size - b.end) + (b.start - 1) else b.start - b.end - 1

  -- The offset and the length of the span.
  unfoldable pub get_1st_free : CircularBuffer → ℕ × ℕ
  get_1st_free b =
      if leb b.start b.end
      then (if size - b.end == 0 then (0, b.start - 1) else (b.end, size - b.end))
      else (b.end, b.start - b.end - 1)

  unfoldable pub confirm : CircularBuffer → ℕ → CircularBuffer
  confirm b sz =
      if leb b.start b.end
      then (if leb sz (size - b.end)
          then record b { end = b.end + sz }
          else record b { end = sz - (size - b.end) })
      else record b { end = b.end + sz }

  unfoldable pub clear : CircularBuffer → CircularBuffer
  clear b = record b { start = 0; end = 0 }

  -- `if (start == end) clear();`
  unfoldable pub clear_if_empty : CircularBuffer → CircularBuffer
  unfolding clear
  clear_if_empty b = if b.start == b.end then clear b else b

  -- The case of one continuous block.
  unfoldable pub peek_block : CircularBuffer → ℕ → List ℕ × CircularBuffer
  unfolding clear_if_empty
  peek_block b outsize =
      let n = if leb outsize (b.end - b.start) then outsize else b.end - b.start in
      (take n (drop b.start b.mem), clear_if_empty (record b { start = b.start + n }))

  -- The case of two blocks, from `start` to `size` and from 0 to `end`.
  unfoldable pub peek_wrapped : CircularBuffer → ℕ → List ℕ × CircularBuffer
  peek_wrapped b outsize =
      let sz1 = size - b.start in
      if leb outsize sz1
      then (
        take outsize (drop b.start b.mem),
        record b { start = if b.start + outsize == size then 0 else b.start + outsize },
      )
      else (if ltb (outsize - sz1) b.end
          then (
            take sz1 (drop b.start b.mem) ++ take (outsize - sz1) b.mem,
            record b { start = outsize - sz1 },
          )
          else (take sz1 (drop b.start b.mem) ++ take b.end b.mem, record b { start = b.end }))

  -- The bytes copied to `output`, whose number is the result of the call, and the new state.
  unfoldable pub peek : CircularBuffer → ℕ → List ℕ × CircularBuffer
  unfolding peek_block peek_wrapped
  peek b outsize = if leb b.start b.end then peek_block b outsize else peek_wrapped b outsize

  -- What tcp_pipe::rcv_all does with the buffer when the socket delivers `bytes`: they are written
  -- to the span of get_1st_free, and confirmed.
  unfoldable pub receive : CircularBuffer → List ℕ → CircularBuffer
  unfolding get_1st_free confirm
  receive b bytes =
      confirm (record b { mem = copy_at b.mem (get_1st_free b).0 bytes }) (length bytes)

  -- circular_buffer(circular_buffer &&x), over an array `mem`: the whole of `x` moved to the front.
  unfoldable pub move_from : List ℕ → CircularBuffer → CircularBuffer × CircularBuffer
  move_from mem x =
      let (out, x') = peek x size in
      (record { mem = copy_at mem 0 out; start = 0; end = length out }, x')
