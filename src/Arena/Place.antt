-- ===== src/Arena/Place.antt =====
-- Where the block lies that `ma` of source/imconee/mem.cpp returns.
use imconee.Common.{ℕ, ◌<◌, ◌≤◌, inl, inr, ltb, leb, leb→le, ltb→lt, Bool-cases, arith}
use imconee.Arena.{load_int, block}
use imconee.Arena.Levels.{Libc, State, fb0, alloc64, alloc32, alloc8, ma}

-- The four ways in which a call is served.
module _ {H : Type 0} (libc : Libc H) (s : State H) (size : ℕ) where
  pub data Served : ℕ × State H → Type 0 where
    by_arena8 :
        size ≤ 8
        → s.arena8.ff < 1024
        → Served (
          block 8 1024 s.arena8.buf s.arena8.ff,
          record s {
            arena8 = record s.arena8 {
              ff = load_int s.mem (block 8 1024 s.arena8.buf s.arena8.ff);
            };
          },
        )
    by_arena32 :
        size ≤ 32
        → s.arena32.ff < 2048
        → Served (
          block 32 2048 s.arena32.buf s.arena32.ff,
          record s {
            arena32 = record s.arena32 {
              ff = load_int s.mem (block 32 2048 s.arena32.buf s.arena32.ff);
            };
          },
        )
    by_arena64 :
        size ≤ 64
        → s.arena64.ff < 2048
        → Served (
          block 64 2048 s.arena64.buf s.arena64.ff,
          record s {
            arena64 = record s.arena64 {
              ff = load_int s.mem (block 64 2048 s.arena64.buf s.arena64.ff);
            };
          },
        )
    by_malloc : Served (fb0 libc s size)

  alloc64-Served : size ≤ 64 → Served (alloc64 libc s size)
  alloc64-Served le = elim (Bool-cases (ltb s.arena64.ff 2048)) [
    | inl left_over ↦ rw left_over (by_arena64 le (ltb→lt s.arena64.ff 2048 left_over))
    | inr empty ↦ rw empty by_malloc
  ]

  alloc32-Served : size ≤ 32 → Served (alloc32 libc s size)
  alloc32-Served le = elim (Bool-cases (ltb s.arena32.ff 2048)) [
    | inl left_over ↦ rw left_over (by_arena32 le (ltb→lt s.arena32.ff 2048 left_over))
    | inr empty ↦ rw empty (alloc64-Served (omega arith))
  ]

  alloc8-Served : size ≤ 8 → Served (alloc8 libc s size)
  alloc8-Served le = elim (Bool-cases (ltb s.arena8.ff 1024)) [
    | inl left_over ↦ rw left_over (by_arena8 le (ltb→lt s.arena8.ff 1024 left_over))
    | inr empty ↦ rw empty (alloc32-Served (omega arith))
  ]

  pub ma-Served : Served (ma libc s size)
  ma-Served = elim (Bool-cases (leb size 8)) [
    | inl le8 ↦ rw le8 (alloc8-Served (leb→le size 8 le8))
    | inr gt8 ↦ elim (Bool-cases (leb size 32)) [
      | inl le32 ↦ rw (gt8, le32) (alloc32-Served (leb→le size 32 le32))
      | inr gt32 ↦ elim (Bool-cases (leb size 64)) [
        | inl le64 ↦ rw (gt8, gt32, le64) (alloc64-Served (leb→le size 64 le64))
        | inr gt64 ↦ rw (gt8, gt32, gt64) by_malloc
      ]
    ]
  ]
