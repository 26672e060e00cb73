-- ===== src/Arena/Good.antt =====
-- A well-formed arena of source/imconee/mem.cpp: the free blocks are linked through their first bytes
-- from `ff` on, and each block is either free or in use.
use imconee.Common.{
  ℕ, zero, suc, ◌+◌, ◌^◌, ◌<◌, ◌≤◌, ◌≡◌, inl, inr, refl, ap, ◌∙◌, List, [], ◌∷◌, ◌==◌,
  if◌then◌else◌, length, Bool-cases, arith,
}
use imconee.Arena.{Mem, Arena, load_int, store_int, block, init_loop, init}
use imconee.Arena.Memory.{load_int-store_int, store_int_outside, load_int_same}

abbrev pub occurs : ℕ → List ℕ → ℕ
occurs k [] = 0
occurs k (j ∷ js) = (if k == j then 1 else 0) + occurs k js

-- i, i + 1, ..., i + n - 1
abbrev pub numbers : ℕ → ℕ → List ℕ
numbers zero i = []
numbers (suc n) i = i ∷ numbers n (i + 1)

pub occurs-numbers_before : (k n i : ℕ) → k < i → occurs k (numbers n i) ≡ 0
occurs-numbers_before k zero i lt = refl
occurs-numbers_before k (suc n) i lt =
    ground (arith, occurs-numbers_before k n (i + 1) (omega arith))

pub occurs-numbers : (k n i : ℕ) → i ≤ k → k < i + n → occurs k (numbers n i) ≡ 1
occurs-numbers k zero i le lt = absurd (omega arith)
occurs-numbers k (suc n) i le lt = elim (Bool-cases (k == i)) [
  | inl same ↦ ground (arith, occurs-numbers_before k n (i + 1))
  | inr other ↦ ground (arith, occurs-numbers k n (i + 1))
]

length-numbers : (n i : ℕ) → length (numbers n i) ≡ n
length-numbers zero i = refl
length-numbers (suc n) i = ap suc (length-numbers n (i + 1))

module _ (elsz arsz : ℕ) where
  -- From block `i` on, the blocks of the list are linked, and the last one is followed by `arsz`.
  abbrev pub Chain : Mem → ℕ → ℕ → List ℕ → Type 0
  Chain mem buf i [] = i ≡ arsz
  Chain mem buf i (j ∷ js) =
      (i ≡ j) × (j < arsz) × Chain mem buf (load_int mem (block elsz arsz buf j)) js

  pub record Good (mem : Mem) (a : Arena) (free used : List ℕ) : Type 0 where
    pub chain : Chain mem a.buf a.ff free
    pub once : (i : ℕ) → i < arsz → occurs i free + occurs i used ≡ 1
    pub inside : (i : ℕ) → arsz ≤ i → occurs i used ≡ 0
    pub count : length free + length used ≡ arsz

  pub head_le : (mem : Mem) (buf i : ℕ) (js : List ℕ) → Chain mem buf i js → i ≤ arsz
  head_le mem buf i [] c = omega arith
  head_le mem buf i (j ∷ js) c = let (same, lt, _) = c in omega arith

  -- A chain depends on the links of its own blocks only.
  pub frame :
      (mem new : Mem) (buf : ℕ) (js : List ℕ) (i : ℕ)
      → Chain mem buf i js
      → ((k : ℕ)
          → k < arsz
          → 0 < occurs k js
          → load_int new (block elsz arsz buf k) ≡ load_int mem (block elsz arsz buf k))
      → Chain new buf i js
  frame mem new buf [] i c same = c
  frame mem new buf (j ∷ js) i c same =
      let (e, lt, rest) = c in
      (
        e,
        lt,
        rw (same j lt (ground arith))
            (frame mem new buf js _ rest (λ k lk h. same k lk (omega arith))),
      )

  init_loop_below :
      (n i buf : ℕ) (mem : Mem) (x : ℕ)
      → x < block elsz arsz buf i
      → init_loop elsz arsz n i buf mem x ≡ mem x
  init_loop_below zero i buf mem x lt = refl
  init_loop_below (suc n) i buf mem x lt =
      init_loop_below n (i + 1) buf (store_int mem (block elsz arsz buf i) (i + 1)) x (omega arith)
      ∙ store_int_outside mem (block elsz arsz buf i) (i + 1) x (inl lt)

  init_loop-Chain :
      (n i buf : ℕ) (mem : Mem)
      → 4 ≤ elsz
      → arsz < 2 ^ 31
      → i + n ≡ arsz
      → Chain (init_loop elsz arsz n i buf mem) buf i (numbers n i)
  init_loop-Chain zero i buf mem four fits e = omega arith
  init_loop-Chain (suc n) i buf mem four fits e =
      let p = block elsz arsz buf i in
      let stored = store_int mem p (i + 1) in
      let read : load_int (init_loop elsz arsz n (i + 1) buf stored) p ≡ i + 1 =
        load_int_same stored (init_loop elsz arsz n (i + 1) buf stored) p
          (λ x l g. init_loop_below n (i + 1) buf stored x (omega arith))
        ∙ load_int-store_int mem p (i + 1) (omega arith) in
      (refl, omega arith, rw read (init_loop-Chain n (i + 1) buf stored four fits (omega arith)))

  pub init-Good :
      (buf : ℕ) (mem : Mem)
      → 4 ≤ elsz
      → arsz < 2 ^ 31
      → Good (init elsz arsz buf mem).1 (init elsz arsz buf mem).0 (numbers arsz 0) []
  init-Good buf mem four fits = record {
    chain = init_loop-Chain arsz 0 buf mem four fits (omega arith);
    once = λ i lt. omega (arith, occurs-numbers i arsz 0 (omega arith) (omega arith));
    inside = λ i le. refl;
    count = omega (arith, length-numbers arsz 0);
  }
