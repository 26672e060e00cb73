-- ===== src/Arena/Run.antt =====
-- A program that uses an arena of source/imconee/mem.cpp: it holds the blocks it was given, gives back
-- only such blocks, and writes into nothing else of the arena; outside the arena it writes at will.
use imconee.Common.{
  ℕ, suc, ◌+◌, ◌*◌, ◌^◌, ◌<◌, ◌≤◌, ◌≡◌, ◌⊎◌, ◌↔◌, inl, inr, refl, sym, ap, ◌∙◌, none, some, List,
  [], ◌∷◌, ◌==◌, ==_refl, ltb, length, Bool-cases, arith,
}
use imconee.Arena.{Mem, Arena, block, init, alloc, free}
use imconee.Arena.Blocks.{blocks_apart, block_inside}
use imconee.Arena.Good.{occurs, numbers, Good, init-Good}
use imconee.Arena.Keep.{remove, alloc-Allocated, write-Good, free-Good}

module _ (elsz arsz : ℕ) where
  -- The program may reach the memory, the arena and the blocks it holds, by their addresses.
  pub data Use (buf : ℕ) (m : Mem) : Mem → Arena → List ℕ → Type 0 where
    start : Use buf m (init elsz arsz buf m).1 (init elsz arsz buf m).0 []
    taken :
        {mem : Mem} {a b : Arena} {held : List ℕ} {p : ℕ}
        → Use buf m mem a held
        → alloc elsz arsz a mem ≡ some (p, b)
        → Use buf m mem b (p ∷ held)
    given :
        {mem : Mem} {a : Arena} {held : List ℕ}
        → Use buf m mem a held
        → (p : ℕ) → 0 < occurs p held
        → Use buf m (free elsz arsz a mem p).2 (free elsz arsz a mem p).1 (remove p held)
    written :
        {mem : Mem} {a : Arena} {held : List ℕ}
        → Use buf m mem a held
        → (new : Mem)
        → ((x : ℕ)
            → buf ≤ x
            → x < buf + elsz * arsz
            → ((p : ℕ) → 0 < occurs p held → (x < p) ⊎ (p + elsz ≤ x))
            → new x ≡ mem x)
        → Use buf m new a held

  abbrev pub blocks : ℕ → List ℕ → List ℕ
  blocks buf [] = []
  blocks buf (i ∷ is) = block elsz arsz buf i ∷ blocks buf is

  block_injective : (buf i j : ℕ) → 0 < elsz → block elsz arsz buf i ≡ block elsz arsz buf j → i ≡ j
  block_injective buf i j pos e = elim (Bool-cases (i == j)) [
    | inl same ↦ ground arith
    | inr other ↦ let apart = blocks_apart elsz arsz buf i j (ground arith) in absurd (ground arith)
  ]

  block_eq : (buf i j : ℕ) → 0 < elsz → (block elsz arsz buf i == block elsz arsz buf j) ≡ (i == j)
  block_eq buf i j pos = elim (Bool-cases (i == j)) [
    | inl same ↦
        let e : i ≡ j = ground arith in rw e (==_refl (block elsz arsz buf j) ∙ sym (==_refl j))
    | inr other ↦ rw other (ground (arith, block_injective buf i j pos))
  ]

  pub occurs-blocks :
      (buf i : ℕ) (used : List ℕ)
      → 0 < elsz
      → occurs (block elsz arsz buf i) (blocks buf used) ≡ occurs i used
  occurs-blocks buf i [] pos = refl
  occurs-blocks buf i (j ∷ js) pos = rw (block_eq buf i j pos, occurs-blocks buf i js pos) refl

  remove-blocks :
      (buf i : ℕ) (used : List ℕ)
      → 0 < elsz
      → remove (block elsz arsz buf i) (blocks buf used) ≡ blocks buf (remove i used)
  remove-blocks buf i [] pos = refl
  remove-blocks buf i (j ∷ js) pos = elim (Bool-cases (i == j)) [
    | inl same ↦ rw (block_eq buf i j pos, same) refl
    | inr other ↦ rw (block_eq buf i j pos, other, remove-blocks buf i js pos) refl
  ]

  pub which_block :
      (buf p : ℕ) (used : List ℕ)
      → 0 < occurs p (blocks buf used)
      → (i : ℕ) × (p ≡ block elsz arsz buf i) × (0 < occurs i used)
  which_block buf p [] h = absurd (omega arith)
  which_block buf p (j ∷ js) h = elim (Bool-cases (p == block elsz arsz buf j)) [
    | inl same ↦ (j, ground arith, ground (arith, ==_refl j))
    | inr other ↦ let (i, e, o) = which_block buf p js (ground arith) in (i, e, omega arith)
  ]

  pub length-blocks : (buf : ℕ) (used : List ℕ) → length (blocks buf used) ≡ length used
  length-blocks buf [] = refl
  length-blocks buf (i ∷ is) = ap suc (length-blocks buf is)

  -- The blocks that the program holds are those that are not free.
  pub record Holds (buf : ℕ) (mem : Mem) (a : Arena) (held : List ℕ) : Type 0 where
    pub unused : List ℕ
    pub used : List ℕ
    pub good : Good elsz arsz mem a unused used
    pub at : a.buf ≡ buf
    pub is : held ≡ blocks buf used

  taken-Holds :
      (buf : ℕ) (mem : Mem) (a b : Arena) (held fs used : List ℕ) (p : ℕ)
      → Good elsz arsz mem a fs used
      → a.buf ≡ buf
      → held ≡ blocks buf used
      → alloc elsz arsz a mem ≡ some (p, b)
      → Holds buf mem b (p ∷ held)
  taken-Holds buf mem a b held [] used p g at is e =
      let none_left = alloc-Allocated elsz arsz mem a [] used g in let bot : ⊥ = cc in absurd bot
  taken-Holds buf mem a b held (i ∷ js) used p g at is e =
      let (rest, r, lt, fresh, g') = alloc-Allocated elsz arsz mem a (i ∷ js) used g in
      let same : some (block elsz arsz a.buf i, record a { ff = rest }) ≡ some (p, b) = sym r ∙ e in
      let left_part : block elsz arsz a.buf i ≡ p = cc in
      let right_part : record a { ff = rest } ≡ b = cc in
      record {
        unused = js;
        used = i ∷ used;
        good = rw (← right_part) g';
        at = rw (← right_part) at;
        is = rw (← left_part, is, at) refl;
      }

  pub held_lt :
      {buf : ℕ} {mem : Mem} {a : Arena} {held : List ℕ}
      → (h : Holds buf mem a held) → (i : ℕ) → 0 < occurs i h.used
      → i < arsz
  held_lt h i used_i = elim (Bool-cases (ltb i arsz)) [
    | inl below ↦ ground arith
    | inr beyond ↦ let z = h.good.inside i (ground arith) in absurd (omega arith)
  ]

  pub none_iff :
      (mem : Mem) (a : Arena) (fs used : List ℕ) (n : ℕ)
      → Good elsz arsz mem a fs used
      → n ≡ length used
      → (alloc elsz arsz a mem ≡ none) ↔ (n ≡ arsz)
  none_iff mem a [] used n g l =
      let c = g.count in (λ e. omega arith, λ e. alloc-Allocated elsz arsz mem a [] used g)
  none_iff mem a (i ∷ js) used n g l =
      let c = g.count in
      let (rest, r, _, _, _) = alloc-Allocated elsz arsz mem a (i ∷ js) used g in
      (λ e. let bot : ⊥ = cc in absurd bot, λ e. absurd (omega arith))

  module _ (four : 4 ≤ elsz) (small : arsz < 2 ^ 31) (buf : ℕ) (fits : buf + elsz * arsz ≤ 2 ^ 64)
      (m : Mem) where
    given-Holds :
        (mem : Mem) (a : Arena) (held : List ℕ)
        → Holds buf mem a held
        → (p : ℕ) → 0 < occurs p held
        → Holds buf (free elsz arsz a mem p).2 (free elsz arsz a mem p).1 (remove p held)
    given-Holds mem a held h p held_p =
        let (i, e, used_i) = which_block buf p h.used (rw h.is at held_p) in
        let at_p : p ≡ block elsz arsz a.buf i + 0 = let at = h.at in omega arith in
        let (_, new, g) =
          free-Good elsz arsz mem a h.unused h.used i 0 four small (rw h.at fits) h.good used_i
            (omega arith) in
        record {
          unused = i ∷ h.unused;
          used = remove i h.used;
          good = rw at_p g;
          at = rw (at_p, new) h.at;
          is = rw (h.is, e) (remove-blocks buf i h.used (omega arith));
        }

    written-Holds :
        (mem new : Mem) (a : Arena) (held : List ℕ)
        → Holds buf mem a held
        → ((x : ℕ)
            → buf ≤ x
            → x < buf + elsz * arsz
            → ((p : ℕ) → 0 < occurs p held → (x < p) ⊎ (p + elsz ≤ x))
            → new x ≡ mem x)
        → Holds buf new a held
    written-Holds mem new a held h spares = record {
      unused = h.unused;
      used = h.used;
      good = write-Good elsz arsz mem new a h.unused h.used four h.good (λ k x lk free_k l u.
          let at_buf = h.at in
          let lower : buf ≤ x = omega arith in
          let upper : x < buf + elsz * arsz = omega (arith, block_inside elsz arsz a.buf k lk) in
          spares x lower upper (λ p held_p.
            let (i, e, used_i) = which_block buf p h.used (rw h.is at held_p) in
            let once_k = h.good.once k lk in
            let apart =
              blocks_apart elsz arsz buf k i
                (λ same. let z : 0 < occurs k h.used = rw same used_i in omega arith) in
            let at = h.at in ground arith));
      at = h.at;
      is = h.is;
    }

    pub Use-Holds :
        {mem : Mem} {a : Arena} {held : List ℕ} → Use buf m mem a held → Holds buf mem a held
    Use-Holds start = record {
      unused = numbers arsz 0;
      used = [];
      good = init-Good elsz arsz buf m four small;
      at = refl;
      is = refl;
    }
    Use-Holds (taken {mem} {a} {b} {held} {p} u e) =
        let h = Use-Holds u in taken-Holds buf mem a b held h.unused h.used p h.good h.at h.is e
    Use-Holds (given {mem} {a} {held} u p held_p) = given-Holds mem a held (Use-Holds u) p held_p
    Use-Holds (written {mem} {a} {held} u new spares) =
        written-Holds mem new a held (Use-Holds u) spares
