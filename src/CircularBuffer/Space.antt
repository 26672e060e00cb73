-- ===== src/CircularBuffer/Space.antt =====
-- How many bytes the circular buffer still takes.
use imconee.Common.{
  ℕ, ◌+◌, ◌-◌, ◌≤◌, ◌<◌, ◌≡◌, ◌⊎◌, true, false, ◌==◌, if◌then◌else◌, List, length, arith,
}
use imconee.CircularBuffer.{CircularBuffer, is_full, datasize, get_free_size, get_1st_free, receive}
use imconee.CircularBuffer.Bounds.{IsValid}

module _ (size : ℕ) {b : CircularBuffer} (v : IsValid size b) where
  -- What is held and what is free make up the array, less one byte unless the start is at 0.
  pub datasize-add-free :
      datasize size b + get_free_size size b ≡ (if b.start == 0 then size else size - 1)
  unfolding datasize get_free_size
  datasize-add-free = ground arith

  -- A buffer without a free byte is full, or its only free byte is the one in front of the start.
  pub is_full_iff :
      get_free_size size b ≡ 0 → (is_full size b ≡ true) ⊎ ((b.start ≡ 1) × (b.end ≡ size))
  unfolding is_full get_free_size
  is_full_iff z = ground arith

  -- While a byte is free, the span for the socket is not empty, and no longer than the free space.
  pub get_1st_free-le :
      ((get_1st_free size b).1 ≤ get_free_size size b)
      × ((get_1st_free size b).1 ≡ 0 → get_free_size size b ≡ 0)
  unfolding get_1st_free get_free_size
  get_1st_free-le = (ground arith, ground arith)

  -- Taking in bytes uses up as much of the free space.
  pub get_free_size-receive :
      (bytes : List ℕ)
      → length bytes ≤ (get_1st_free size b).1
      → get_free_size size (receive size b bytes) + length bytes ≡ get_free_size size b
  unfolding receive get_free_size
  get_free_size-receive bytes h = ground arith

  -- A buffer that still takes bytes is not full.
  pub free-not_full : (n : ℕ) → n < get_free_size size b → is_full size b ≡ false
  unfolding is_full get_free_size
  free-not_full n h = ground arith
