-- ===== src/CircularBuffer/Move.antt =====
-- The move constructor of circular_buffer in source/imconee/tools.h.
use imconee.Common.{
  ℕ, ◌≤◌, ◌≡◌, ◌∙◌, List, [], arith, length, copy_at, take_all, drop_all, slice-copy_at_self,
  length-copy_at,
}
use imconee.CircularBuffer.{CircularBuffer, peek, datasize, move_from}
use imconee.CircularBuffer.Bounds.{IsValid}
use imconee.CircularBuffer.Refine.{contents, length-contents, circular_peek_refines}

module _ (size : ℕ) {b : CircularBuffer} (v : IsValid size b) where
  datasize-lt : datasize size b ≤ size
  unfolding datasize
  datasize-lt = ground (arith, v.end_in, v.start_in)

  -- An array with `out` at its front, as a buffer.
  front :
      (mem out : List ℕ)
      → length mem ≡ size
      → length out ≤ size
      → let b' : CircularBuffer = record { mem = copy_at mem 0 out; start = 0; end = length out } in
        (contents size b' ≡ out) × IsValid size b'
  front mem out e h = (
    ground (arith, slice-copy_at_self mem 0 out (omega (arith, e, h))),
    record {
      room = omega (arith, length-copy_at mem 0 out, e, h);
      end_in = h;
      start_in = omega (arith, v.start_in);
    },
  )

  -- Moving a buffer to another array of the same size keeps its contents, leaves none behind, and
  -- gives a valid buffer.
  pub move_from_refines :
      (mem : List ℕ)
      → length mem ≡ size
      → (contents size (move_from size mem b).0 ≡ contents size b)
        × (contents size (move_from size mem b).1 ≡ [])
        × IsValid size (move_from size mem b).0
  unfolding move_from
  move_from_refines mem e =
      let short : length (contents size b) ≤ size =
        omega (arith, length-contents size v, datasize-lt) in
      let p = circular_peek_refines size v size in
      let out = p.0 ∙ take_all size (contents size b) short in
      let f = front mem (peek size b size).0 e (rw out short) in
      (f.0 ∙ out, p.1 ∙ drop_all size (contents size b) short, f.1)
