-- ===== src/Settings/Enough.antt =====
-- Every round of the loop of load of source/imconee/sts.cpp takes a byte.
use imconee.Common.{
  ℕ, suc, ◌≤◌, ◌<◌, ◌≡◌, refl, inl, inr, Bool, true, false, ◌&&◌, not, Option, none, some, List, [],
  ◌∷◌, ◌++◌, if◌then◌else◌, ◌==◌, length, drop, Bool-cases, arith,
}
use imconee.Settings.Text.{starts_with, token_start, token_end, is_space_or_tab}
use imconee.Settings.Tree.{Elements, elements, block_of, add_block}
use imconee.Settings.Tokens.{
  Within, Within-mono, AtToken, token_start-Within, token_start-AtToken, next-Within, Progress,
  name-Progress,
}
use imconee.Settings.Read.{
  skip_separators, Quoted, quoted, quoted_by, Read, more, stop, set_value, loaded, read_inner,
  read_open, read_quoted_by, read_unquoted_by, read_value, read_switch, read_name_by, read_element,
  read_by, read_sts,
}

abbrev pub Load : Type 0
Load = List ℕ → Elements → Option (List ℕ) × Elements

-- What is left is shorter than `n` bytes where the loop goes on, and no longer otherwise.
abbrev pub Less : ℕ → Read → Type 0
Less n (more s es) = length s < n
Less n (stop o es) = Within n o

-- On texts shorter than `n` a load leaves no more than it got.
abbrev pub Shrinks : ℕ → Load → Type 0
Shrinks n f = (s : List ℕ) (es : Elements) → length s < n → Within (length s) (f s es).0

abbrev pub Agree : ℕ → Load → Load → Type 0
Agree n f g = (s : List ℕ) (es : Elements) → length s < n → f s es ≡ g s es

pub skip_separators-le : (s : List ℕ) → length (skip_separators s) ≤ length s
unfolding skip_separators
skip_separators-le [] = omega arith
skip_separators-le (c ∷ r) = elim (Bool-cases (is_space_or_tab c)) [
  | inl e ↦ rw e (omega (arith, skip_separators-le r))
  | inr e ↦ rw e (omega arith)
]

quoted_by-Within :
    (b : Bool) (v r : List ℕ) (q : Quoted)
    → Within (length r) q.rest
    → Within (length r) (quoted_by b v r q).rest
quoted_by-Within true v r q h = omega arith
quoted_by-Within false v r q h = h

pub quoted-Within : (b : Bool) (v part s : List ℕ) → Within (length s) (quoted b v part s).rest
unfolding quoted
quoted-Within b v part [] = tt
quoted-Within true v part (c ∷ r) =
    Within-mono (length r) (suc (length r)) (quoted false v [] r).rest (omega arith)
      (quoted-Within false v [] r)
quoted-Within false v part (c ∷ r) =
    let two = (c == b'`') && starts_with b'`' r in
    let w = if two then v ++ (part ++ c ∷ []) else v in
    let p = if two then [] else part ++ c ∷ [] in
    let closes = (c == b'`') && not (starts_with b'`' r) in
    let q = quoted two w p r in
    Within-mono (length r) (suc (length r)) (quoted_by closes (v ++ part) r q).rest (omega arith)
      (quoted_by-Within closes (v ++ part) r q (quoted-Within two w p r))

pub starts-length : (c : ℕ) (s : List ℕ) → starts_with c s ≡ true → length (drop 1 s) < length s
starts-length c [] h = let bot : ⊥ = cc in absurd bot
starts-length c (d ∷ r) h = omega arith

module _ (n : ℕ) (f : Load) (shrinks : Shrinks n f) where
  loaded-Less :
      (es : Elements) (name : List ℕ) (p : Option (List ℕ) × Elements) (k : ℕ)
      → k < n
      → Within k p.0
      → Less n (loaded es name p)
  loaded-Less es name (none, inner) k lt h = tt
  loaded-Less es name (some s, inner) k lt h = omega arith

  inner-Less :
      (r : List ℕ) (es : Elements) (name : List ℕ) → length r < n → Less n (read_inner f r es name)
  inner-Less r es name lt =
      loaded-Less es name (f r (elements (block_of es name))) (length r) lt
        (shrinks r (elements (block_of es name)) lt)

  open-Less :
      (b : Bool) (s : List ℕ) (es : Elements) (name : List ℕ)
      → starts_with b'{' s ≡ b
      → length s < n
      → Less n (read_open f b s es name)
  open-Less true s es name e lt =
      inner-Less (drop 1 s) es name (omega (arith, starts-length b'{' s e))
  open-Less false s es name e lt = lt

  quoted-Less :
      (o : Option (List ℕ)) (es : Elements) (name : List ℕ) (k : ℕ)
      → k < n
      → Within k o
      → Less n (read_quoted_by f o es name)
  quoted-Less none es name k lt h = omega arith
  quoted-Less (some r) es name k lt h =
      open-Less (starts_with b'{' (skip_separators r)) (skip_separators r) es name refl
        (omega (arith, skip_separators-le r))

  unquoted-Less :
      (o : Option (List ℕ)) (es : Elements) (name : List ℕ) (k : ℕ)
      → k < n
      → Within k o
      → Less n (read_unquoted_by f o es name)
  unquoted-Less none es name k lt h = tt
  unquoted-Less (some s) es name k lt h =
      open-Less (starts_with b'{' s) s es name refl (omega arith)

  value-Less :
      (b : Bool) (s : List ℕ) (es : Elements) (name : List ℕ)
      → starts_with b'`' s ≡ b
      → length s < n
      → Less n (read_value f b s es name)
  value-Less true s es name e lt =
      let q = quoted false [] [] (drop 1 s) in
      quoted-Less q.rest (set_value es name q.text) name (length (drop 1 s))
        (omega (arith, starts-length b'`' s e)) (quoted-Within false [] [] (drop 1 s))
  value-Less false s es name e lt =
      unquoted-Less (token_end b'}' s).next _ name (length s) lt (next-Within b'}' s)

  switch-Less :
      (b d : Bool) (s : List ℕ) (es : Elements) (name : List ℕ)
      → starts_with b'=' s ≡ b
      → starts_with b'{' s ≡ d
      → length s ≤ n
      → (b ≡ false → d ≡ false → length s < n)
      → Less n (read_switch f b d s es name)
  switch-Less true d s es name e e' le progress =
      let t = skip_separators (drop 1 s) in
      value-Less (starts_with b'`' t) t es name refl
        (omega (arith, starts-length b'=' s e, skip_separators-le (drop 1 s)))
  switch-Less false true s es name e e' le progress =
      inner-Less (drop 1 s) es name (omega (arith, starts-length b'{' s e'))
  switch-Less false false s es name e e' le progress = progress refl refl

  name_by-Less :
      (o : Option (List ℕ)) (start : List ℕ) (es : Elements) (name : List ℕ)
      → length start ≤ n
      → Within (length start) o
      → Progress start o
      → Less n (read_name_by f o es name)
  name_by-Less none start es name le h p = tt
  name_by-Less (some s) start es name le h p =
      switch-Less (starts_with b'=' s) (starts_with b'{' s) s es name refl refl (omega arith)
        (λ e e'. let lt = p e e' in omega arith)

  element-Less :
      (b : Bool) (s : List ℕ) (es : Elements)
      → AtToken (some s)
      → length s ≤ n
      → Less n (read_element f b s es)
  element-Less b [] es at le = absurd at
  element-Less true (c ∷ r) es at le = omega arith
  element-Less false (c ∷ r) es at le =
      let e = token_end b'=' (c ∷ r) in
      name_by-Less e.next (c ∷ r) (add_block es e.token) e.token le (next-Within b'=' (c ∷ r))
        (name-Progress c r at)

  by-Less :
      (o : Option (List ℕ)) (start : List ℕ) (es : Elements)
      → AtToken o
      → Within n o
      → Less n (read_by f o start es)
  by-Less none start es at h = tt
  by-Less (some s) start es at h = element-Less (starts_with b'}' s) s _ at h

  pub read_sts-Less : (s : List ℕ) (es : Elements) → length s ≤ n → Less n (read_sts f s es)
  unfolding read_sts
  read_sts-Less s es le =
      by-Less (token_start s) s es (token_start-AtToken s)
        (Within-mono (length s) n (token_start s) le (token_start-Within s))
