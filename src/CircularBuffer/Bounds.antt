-- ===== src/CircularBuffer/Bounds.antt =====
-- The representation invariant of the circular buffer: every index stays inside the array.
use imconee.Common.{ℕ, ◌+◌, ◌≤◌, ◌<◌, List, arith, length, length-copy_at}
use imconee.CircularBuffer.{CircularBuffer, get_1st_free, peek, receive}

-- `start` is an index of the array, and `end` at most one past its last.
pub record IsValid (size : ℕ) (b : CircularBuffer) : Type 0 where
  pub room : size ≤ length b.mem
  pub end_in : b.end ≤ size
  pub start_in : b.start < size

module _ (size : ℕ) {b : CircularBuffer} (v : IsValid size b) where
  -- The span that the socket writes to lies inside the array.
  pub get_1st_free_in : (get_1st_free size b).0 + (get_1st_free size b).1 ≤ length b.mem
  unfolding get_1st_free
  get_1st_free_in = ground arith

  pub peek-IsValid : (outsize : ℕ) → IsValid size (peek size b outsize).1
  unfolding peek
  peek-IsValid outsize = ground arith

  pub receive-IsValid :
      (bytes : List ℕ)
      → length bytes ≤ (get_1st_free size b).1
      → IsValid size (receive size b bytes)
  unfolding receive
  receive-IsValid bytes h =
      ground (arith, length-copy_at b.mem b.end bytes, length-copy_at b.mem 0 bytes)
