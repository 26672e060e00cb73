-- ===== src/Arena/Safe.antt =====
-- What holds of the blocks that a program has from an arena of source/imconee/mem.cpp.
use imconee.Common.{
  ℕ, ◌+◌, ◌*◌, ◌^◌, ◌<◌, ◌≤◌, ◌≡◌, ◌≢◌, ◌⊎◌, ◌↔◌, inl, inr, sym, ap, ◌∙◌, true, none, List, ltb,
  ltb→lt, length, Bool-cases, arith,
}
use imconee.Arena.{Mem, Arena, block, alloc, free}
use imconee.Arena.Blocks.{block_inside, blocks_apart}
use imconee.Arena.Good.{occurs}
use imconee.Arena.Run.{Use, which_block, held_lt, none_iff, occurs-blocks, length-blocks, Use-Holds}
use imconee.Arena.Keep.{free-Good}

module _ (elsz arsz : ℕ) (four : 4 ≤ elsz) (small : arsz < 2 ^ 31) (buf : ℕ)
    (fits : buf + elsz * arsz ≤ 2 ^ 64) (m : Mem) where
  held_inside :
      {mem : Mem} {a : Arena} {held : List ℕ}
      → Use elsz arsz buf m mem a held
      → (p : ℕ) → 0 < occurs p held
      → (buf ≤ p) × (p + elsz ≤ buf + elsz * arsz) × ((free elsz arsz a mem p).0 ≡ true)
  held_inside {mem} {a} u p held_p =
      let h = Use-Holds elsz arsz four small buf fits m u in
      let (i, e, used_i) = which_block elsz arsz buf p h.used (rw h.is at held_p) in
      let lt : i < arsz = held_lt elsz arsz h i used_i in
      let at_p : p ≡ block elsz arsz a.buf i + 0 = let at = h.at in omega arith in
      let (ok, _, _) =
        free-Good elsz arsz mem a h.unused h.used i 0 four small (rw h.at fits) h.good used_i
          (omega arith) in
      (omega arith, rw e (block_inside elsz arsz buf i lt), rw at_p ok)

  held_once :
      {mem : Mem} {a : Arena} {held : List ℕ}
      → Use elsz arsz buf m mem a held
      → (p : ℕ) → occurs p held ≤ 1
  held_once {held = held} u p = elim (Bool-cases (ltb 0 (occurs p held))) [
    | inl some_p ↦
        let h = Use-Holds elsz arsz four small buf fits m u in
        let (i, e, used_i) =
          which_block elsz arsz buf p h.used (rw h.is at (ltb→lt 0 (occurs p held) some_p)) in
        let once_i = h.good.once i (held_lt elsz arsz h i used_i) in
        rw (h.is, e, occurs-blocks elsz arsz buf i h.used (omega arith)) (omega arith)
    | inr none_p ↦ ground arith
  ]

  held_apart :
      {mem : Mem} {a : Arena} {held : List ℕ}
      → Use elsz arsz buf m mem a held
      → (p q : ℕ) → 0 < occurs p held
      → 0 < occurs q held
      → p ≢ q
      → (p + elsz ≤ q) ⊎ (q + elsz ≤ p)
  held_apart u p q held_p held_q ne =
      let h = Use-Holds elsz arsz four small buf fits m u in
      let (i, e, _) = which_block elsz arsz buf p h.used (rw h.is at held_p) in
      let (j, e', _) = which_block elsz arsz buf q h.used (rw h.is at held_q) in
      rw (e, e')
        (blocks_apart elsz arsz buf i j (λ same. ne (e ∙ ap (block elsz arsz buf) same ∙ sym e')))

  alloc-none_iff :
      {mem : Mem} {a : Arena} {held : List ℕ}
      → Use elsz arsz buf m mem a held
      → (alloc elsz arsz a mem ≡ none) ↔ (length held ≡ arsz)
  alloc-none_iff {mem} {a} {held} u =
      let h = Use-Holds elsz arsz four small buf fits m u in
      let n = h.good.count in
      let l : length held ≡ length h.used = ap length h.is ∙ length-blocks elsz arsz buf h.used in
      none_iff elsz arsz mem a h.unused h.used (length held) h.good l

  -- Whatever a program does with an arena that gives back only blocks it holds and writes into no other
  -- bytes of the arena: each block it holds was given out once, lies inside the buffer and is taken back
  -- by free, two of them do not overlap, and alloc goes to its fallback exactly when all blocks are held.
  pub blocks_held :
      {mem : Mem} {a : Arena} {held : List ℕ}
      → Use elsz arsz buf m mem a held
      → ((p : ℕ) → occurs p held ≤ 1)
        × ((p : ℕ)
            → 0 < occurs p held
            → (buf ≤ p) × (p + elsz ≤ buf + elsz * arsz) × ((free elsz arsz a mem p).0 ≡ true))
        × ((p q : ℕ)
            → 0 < occurs p held
            → 0 < occurs q held
            → p ≢ q
            → (p + elsz ≤ q) ⊎ (q + elsz ≤ p))
        × ((alloc elsz arsz a mem ≡ none) ↔ (length held ≡ arsz))
  blocks_held u = (held_once u, held_inside u, held_apart u, alloc-none_iff u)
