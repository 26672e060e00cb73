-- ===== src/Arena/Keep.antt =====
-- The operations of an arena of source/imconee/mem.cpp keep it well-formed.
use imconee.Common.{
  ℕ, ◌+◌, ◌-◌, ◌*◌, ◌^◌, ◌<◌, ◌≤◌, ◌≡◌, ◌≢◌, inl, inr, refl, true, none, some, List, [], ◌∷◌, ◌==◌,
  if◌then◌else◌, length, ltb, lt→ltb, Bool-cases, arith,
}
use imconee.Arena.{Mem, Arena, load_int, store_int, block, alloc, free}
use imconee.Arena.Memory.{load_int-store_int, store_int_outside, load_int_same}
use imconee.Arena.Blocks.{blocks_apart, index_of-block}
use imconee.Arena.Good.{occurs, Good, head_le, frame}

abbrev pub remove : ℕ → List ℕ → List ℕ
remove i [] = []
remove i (j ∷ js) = if i == j then js else j ∷ remove i js

occurs-remove_self : (i : ℕ) (js : List ℕ) → occurs i (remove i js) ≡ occurs i js - 1
occurs-remove_self i [] = refl
occurs-remove_self i (j ∷ js) = elim (Bool-cases (i == j)) [
  | inl same ↦ rw same (omega arith)
  | inr other ↦ rw (other) (ground (arith, occurs-remove_self i js))
]

length-remove : (i : ℕ) (js : List ℕ) → 0 < occurs i js → length (remove i js) + 1 ≡ length js
length-remove i [] h = absurd (omega arith)
length-remove i (j ∷ js) h = elim (Bool-cases (i == j)) [
  | inl same ↦ rw same (omega arith)
  | inr other ↦ rw other (ground (arith, length-remove i js))
]

occurs-remove_other : (i k : ℕ) (js : List ℕ) → k ≢ i → occurs k (remove i js) ≡ occurs k js
occurs-remove_other i k [] ne = refl
occurs-remove_other i k (j ∷ js) ne = elim (Bool-cases (i == j)) [
  | inl same ↦ ground arith
  | inr other ↦ rw other (omega (arith, occurs-remove_other i k js ne))
]

module _ (elsz arsz : ℕ) where
  -- What alloc does: it takes the head of the list, or goes to the fallback.
  abbrev pub Allocated : Mem → Arena → List ℕ → List ℕ → Type 0
  Allocated mem a [] used = alloc elsz arsz a mem ≡ none
  Allocated mem a (i ∷ js) used =
      (rest : ℕ) × (alloc elsz arsz a mem ≡ some (block elsz arsz a.buf i, record a { ff = rest }))
      × (i < arsz)
      × (occurs i used ≡ 0)
      × Good elsz arsz mem (record a { ff = rest }) js (i ∷ used)

  pub alloc-Allocated :
      (mem : Mem) (a : Arena) (fs used : List ℕ)
      → Good elsz arsz mem a fs used
      → Allocated mem a fs used
  alloc-Allocated mem a [] used g = let c = g.chain in ground arith
  alloc-Allocated mem a (i ∷ js) used g =
      let (same, lt, rest) = g.chain in
      let full = g.once i lt in
      (
        load_int mem (block elsz arsz a.buf i),
        rw (same, lt→ltb i arsz lt) refl,
        lt,
        ground arith,
        record {
          chain = rest;
          once = λ k lk. let o = g.once k lk in omega arith;
          inside = λ k le. let o = g.inside k le in ground arith;
          count = let n = g.count in omega arith;
        },
      )

  -- A write that spares the free blocks keeps the arena.
  pub write-Good :
      (mem new : Mem) (a : Arena) (fs used : List ℕ)
      → 4 ≤ elsz
      → Good elsz arsz mem a fs used
      → ((k x : ℕ)
          → k < arsz
          → 0 < occurs k fs
          → block elsz arsz a.buf k ≤ x
          → x < block elsz arsz a.buf k + 4
          → new x ≡ mem x)
      → Good elsz arsz new a fs used
  write-Good mem new a fs used four g same = record {
    chain =
        frame elsz arsz mem new a.buf fs a.ff g.chain
          (λ k lk h. load_int_same mem new (block elsz arsz a.buf k) (λ x l u. same k x lk h l u));
    once = g.once;
    inside = g.inside;
    count = g.count;
  }

  store_int_apart :
      (mem : Mem) (buf i k v : ℕ)
      → 4 ≤ elsz
      → k ≢ i
      → load_int (store_int mem (block elsz arsz buf i) v) (block elsz arsz buf k)
        ≡ load_int mem (block elsz arsz buf k)
  store_int_apart mem buf i k v four ne =
      let apart = blocks_apart elsz arsz buf k i ne in
      let p = block elsz arsz buf i in
      load_int_same mem (store_int mem p v) (block elsz arsz buf k)
        (λ x l u. store_int_outside mem p v x (ground arith))

  pub free-Good :
      (mem : Mem) (a : Arena) (fs used : List ℕ) (i o : ℕ)
      → 4 ≤ elsz
      → arsz < 2 ^ 31
      → a.buf + elsz * arsz ≤ 2 ^ 64
      → Good elsz arsz mem a fs used
      → 0 < occurs i used
      → o < elsz
      → let r = free elsz arsz a mem (block elsz arsz a.buf i + o) in
        (r.0 ≡ true) × (r.1 ≡ record a { ff = i }) × Good elsz arsz r.2 r.1 (i ∷ fs) (remove i used)
  free-Good mem a fs used i o four small fits g held lo =
      let lt : i < arsz = elim (Bool-cases (ltb i arsz)) [
        | inl below ↦ ground arith
        | inr beyond ↦ let z = g.inside i (ground arith) in absurd (omega arith)
      ] in
      let once_i = g.once i lt in
      let head = head_le elsz arsz mem a.buf a.ff fs g.chain in
      let p = block elsz arsz a.buf i in
      rw (index_of-block elsz arsz a fits i o lt lo, lt→ltb i arsz lt)
        (
          refl,
          refl,
          record {
            chain = (
              refl,
              lt,
              rw (load_int-store_int mem p a.ff (omega arith)) (
                  frame elsz arsz mem (store_int mem p a.ff) a.buf fs a.ff g.chain (λ k lk h.
                    store_int_apart mem a.buf i k a.ff four
                      (λ e. let b : occurs i fs ≡ 0 = omega arith in ground arith))),
            );
            once = λ k lk.
                let o = g.once k lk in
                elim (Bool-cases (k == i)) [
                  | inl same ↦ ground (arith, occurs-remove_self i used)
                  | inr other ↦ ground (arith, occurs-remove_other i k used)
                ];
            inside = λ k le.
                let o = g.inside k le in omega (arith, occurs-remove_other i k used (omega arith));
            count = let n = g.count in omega (arith, length-remove i used held);
          },
        )
