-- ===== src/CircularBuffer/Refine.antt =====
-- A valid circular buffer behaves as the queue of the bytes that it holds.
use imconee.Common.{
  ℕ, ◌+◌, ◌-◌, ◌≤◌, ◌<◌, ◌≡◌, refl, List, [], ◌∷◌, ◌++◌, arith, leb, if◌then◌else◌, length, take,
  drop, slice, length-slice, take-slice, drop-slice, slice-append, append-nil, append_assoc,
  copy_at, slice-copy_at_self, slice-copy_at_before, slice-copy_at_after, take-append_le,
  take-append_ge, drop-append_le, drop-append_ge, length-append, take_all, drop_all,
}
use imconee.CircularBuffer.{CircularBuffer, get_1st_free, peek, receive, datasize}
use imconee.CircularBuffer.Bounds.{IsValid}

-- The bytes held, oldest first.
abbrev pub contents : ℕ → CircularBuffer → List ℕ
contents size b =
    if leb b.start b.end
    then slice b.start (b.end - b.start) b.mem
    else slice b.start (size - b.start) b.mem ++ slice 0 b.end b.mem

-- The tail of a section, up to its end `j`.
drop-slice_to :
    (k i j : ℕ) (xs : List ℕ)
    → i + k ≤ j
    → drop k (slice i (j - i) xs) ≡ slice (i + k) (j - (i + k)) xs
drop-slice_to k i j xs h = drop-slice k i (j - i) (j - (i + k)) xs (omega arith)

no_bytes : (bytes : List ℕ) → length bytes ≡ 0 → bytes ≡ []
no_bytes [] h = refl
no_bytes (x ∷ xs) h = absurd (omega arith)

module _ (size : ℕ) {b : CircularBuffer} (v : IsValid size b) where
  pub length-contents : length (contents size b) ≡ datasize size b
  unfolding datasize
  length-contents = ground (
    arith,
    length-slice b.start (b.end - b.start) b.mem,
    length-slice b.start (size - b.start) b.mem,
    length-slice 0 b.end b.mem,
    length-append (slice b.start (size - b.start) b.mem) (slice 0 b.end b.mem),
  )

  peek_out : (n : ℕ) → (peek size b n).0 ≡ take n (contents size b)
  unfolding peek
  peek_out n = ground (
    arith,
    take-slice n b.start (b.end - b.start) b.mem,
    take_all n (slice b.start (b.end - b.start) b.mem),
    length-slice b.start (b.end - b.start) b.mem,
    length-slice b.start (size - b.start) b.mem,
    take-append_le n (slice b.start (size - b.start) b.mem) (slice 0 b.end b.mem),
    take-append_ge n (slice b.start (size - b.start) b.mem) (slice 0 b.end b.mem),
    take-slice n b.start (size - b.start) b.mem,
    take-slice (n - (size - b.start)) 0 b.end b.mem,
    take_all (n - (size - b.start)) (slice 0 b.end b.mem),
    length-slice 0 b.end b.mem,
  )

  peek_rest : (n : ℕ) → contents size (peek size b n).1 ≡ drop n (contents size b)
  unfolding peek
  peek_rest n = ground (
    arith,
    drop-slice_to n b.start b.end b.mem,
    drop_all n (slice b.start (b.end - b.start) b.mem),
    length-slice b.start (b.end - b.start) b.mem,
    length-slice b.start (size - b.start) b.mem,
    drop-append_le n (slice b.start (size - b.start) b.mem) (slice 0 b.end b.mem),
    drop-append_ge n (slice b.start (size - b.start) b.mem) (slice 0 b.end b.mem),
    drop-slice_to n b.start size b.mem,
    drop-slice_to (n - (size - b.start)) 0 b.end b.mem,
    drop_all (n - (size - b.start)) (slice 0 b.end b.mem),
    length-slice 0 b.end b.mem,
  )

  receive_at_end :
      (bytes : List ℕ)
      → b.start ≤ b.end
      → b.end < size
      → length bytes ≤ size - b.end
      → contents size (receive size b bytes) ≡ contents size b ++ bytes
  unfolding receive
  receive_at_end bytes p q h = ground (
    arith,
    slice-append b.start (b.end - b.start) (length bytes) (copy_at b.mem b.end bytes),
    slice-copy_at_self b.mem b.end bytes,
    slice-copy_at_before b.mem b.end bytes b.start (b.end - b.start),
  )

  receive_at_front :
      (bytes : List ℕ)
      → b.start ≤ b.end
      → b.end ≡ size
      → length bytes ≤ b.start - 1
      → contents size (receive size b bytes) ≡ contents size b ++ bytes
  unfolding receive
  receive_at_front bytes p q h = ground (
    arith,
    slice-copy_at_self b.mem 0 bytes,
    slice-copy_at_after b.mem 0 bytes b.start (size - b.start),
    no_bytes bytes,
    append-nil (slice b.start (b.end - b.start) b.mem),
  )

  receive_wrapped :
      (bytes : List ℕ)
      → b.end < b.start
      → length bytes ≤ b.start - b.end - 1
      → contents size (receive size b bytes) ≡ contents size b ++ bytes
  unfolding receive
  receive_wrapped bytes p h = ground (
    arith,
    slice-append 0 b.end (length bytes) (copy_at b.mem b.end bytes),
    slice-copy_at_self b.mem b.end bytes,
    slice-copy_at_before b.mem b.end bytes 0 b.end,
    slice-copy_at_after b.mem b.end bytes b.start (size - b.start),
    append_assoc (slice b.start (size - b.start) b.mem) (slice 0 b.end b.mem) bytes,
  )

  -- What the socket delivers into the free span is appended to the bytes held.
  pub receive_refines :
      (bytes : List ℕ)
      → length bytes ≤ (get_1st_free size b).1
      → contents size (receive size b bytes) ≡ contents size b ++ bytes
  unfolding get_1st_free
  receive_refines bytes h =
      ground (arith, receive_at_end bytes, receive_at_front bytes, receive_wrapped bytes)

  -- Reading `n` bytes takes the oldest `n`, or all where fewer are held, and leaves the others.
  pub circular_peek_refines :
      (n : ℕ)
      → ((peek size b n).0 ≡ take n (contents size b))
        × (contents size (peek size b n).1 ≡ drop n (contents size b))
  circular_peek_refines n = (peek_out n, peek_rest n)
