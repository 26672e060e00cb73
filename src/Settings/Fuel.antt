-- ===== src/Settings/Fuel.antt =====
-- The fuel of load of source/imconee/sts.cpp: a round for each byte and one more is enough.
use imconee.Common.{
  ℕ, zero, suc, ◌+◌, ◌≤◌, ◌<◌, ◌≡◌, refl, sym, ap, ◌∙◌, Bool, true, false, Option, none, some, List,
  [], length, drop, arith,
}
use imconee.Settings.Text.{starts_with, token_start, token_end}
use imconee.Settings.Tree.{Elements, elements, block_of, add_block}
use imconee.Settings.Tokens.{Within, Within-mono, token_start-Within, next-Within}
use imconee.Settings.Read.{
  skip_separators, quoted, Read, more, stop, set_value, loaded, read_inner, read_open,
  read_quoted_by, read_unquoted_by, read_value, read_switch, read_name_by, read_element, read_by,
  read_sts, go_on, load,
}
use imconee.Settings.Enough.{
  Load, Less, Agree, starts-length, skip_separators-le, quoted-Within, read_sts-Less,
}

-- Two loads that agree on shorter texts make the same of a text.
module _ (n : ℕ) (f g : Load) (agree : Agree n f g) where
  inner-Agree :
      (r : List ℕ) (es : Elements) (name : List ℕ)
      → length r < n
      → read_inner f r es name ≡ read_inner g r es name
  inner-Agree r es name lt = ap (loaded es name) (agree r (elements (block_of es name)) lt)

  open-Agree :
      (b : Bool) (s : List ℕ) (es : Elements) (name : List ℕ)
      → starts_with b'{' s ≡ b
      → length s < n
      → read_open f b s es name ≡ read_open g b s es name
  open-Agree true s es name e lt =
      inner-Agree (drop 1 s) es name (omega (arith, starts-length b'{' s e))
  open-Agree false s es name e lt = refl

  quoted-Agree :
      (o : Option (List ℕ)) (es : Elements) (name : List ℕ) (k : ℕ)
      → k < n
      → Within k o
      → read_quoted_by f o es name ≡ read_quoted_by g o es name
  quoted-Agree none es name k lt h = refl
  quoted-Agree (some r) es name k lt h =
      open-Agree (starts_with b'{' (skip_separators r)) (skip_separators r) es name refl
        (omega (arith, skip_separators-le r))

  unquoted-Agree :
      (o : Option (List ℕ)) (es : Elements) (name : List ℕ) (k : ℕ)
      → k < n
      → Within k o
      → read_unquoted_by f o es name ≡ read_unquoted_by g o es name
  unquoted-Agree none es name k lt h = refl
  unquoted-Agree (some s) es name k lt h =
      open-Agree (starts_with b'{' s) s es name refl (omega arith)

  value-Agree :
      (b : Bool) (s : List ℕ) (es : Elements) (name : List ℕ)
      → starts_with b'`' s ≡ b
      → length s < n
      → read_value f b s es name ≡ read_value g b s es name
  value-Agree true s es name e lt =
      let q = quoted false [] [] (drop 1 s) in
      quoted-Agree q.rest (set_value es name q.text) name (length (drop 1 s))
        (omega (arith, starts-length b'`' s e)) (quoted-Within false [] [] (drop 1 s))
  value-Agree false s es name e lt =
      unquoted-Agree (token_end b'}' s).next _ name (length s) lt (next-Within b'}' s)

  switch-Agree :
      (b d : Bool) (s : List ℕ) (es : Elements) (name : List ℕ)
      → starts_with b'=' s ≡ b
      → starts_with b'{' s ≡ d
      → length s ≤ n
      → read_switch f b d s es name ≡ read_switch g b d s es name
  switch-Agree true d s es name e e' le =
      let t = skip_separators (drop 1 s) in
      value-Agree (starts_with b'`' t) t es name refl
        (omega (arith, starts-length b'=' s e, skip_separators-le (drop 1 s)))
  switch-Agree false true s es name e e' le =
      inner-Agree (drop 1 s) es name (omega (arith, starts-length b'{' s e'))
  switch-Agree false false s es name e e' le = refl

  name_by-Agree :
      (o : Option (List ℕ)) (es : Elements) (name : List ℕ)
      → Within n o
      → read_name_by f o es name ≡ read_name_by g o es name
  name_by-Agree none es name h = refl
  name_by-Agree (some s) es name h =
      switch-Agree (starts_with b'=' s) (starts_with b'{' s) s es name refl refl h

  element-Agree :
      (b : Bool) (s : List ℕ) (es : Elements)
      → length s ≤ n
      → read_element f b s es ≡ read_element g b s es
  element-Agree true s es le = refl
  element-Agree false s es le =
      let e = token_end b'=' s in
      name_by-Agree e.next (add_block es e.token) e.token
        (Within-mono (length s) n e.next le (next-Within b'=' s))

  by-Agree :
      (o : Option (List ℕ)) (start : List ℕ) (es : Elements)
      → Within n o
      → read_by f o start es ≡ read_by g o start es
  by-Agree none start es h = refl
  by-Agree (some s) start es h = element-Agree (starts_with b'}' s) s _ h

  read_sts-Agree : (s : List ℕ) (es : Elements) → length s ≤ n → read_sts f s es ≡ read_sts g s es
  unfolding read_sts
  read_sts-Agree s es le =
      by-Agree (token_start s) s es
        (Within-mono (length s) n (token_start s) le (token_start-Within s))

go_on-Within :
    (f : Load) (k : ℕ) (r : Read)
    → ((s : List ℕ) (es : Elements) → Within (length s) (f s es).0)
    → Less k r
    → Within k (go_on f r).0
go_on-Within f k (more s es) h l = Within-mono (length s) k (f s es).0 (omega arith) (h s es)
go_on-Within f k (stop o es) h l = l

load-Within : (n : ℕ) (s : List ℕ) (es : Elements) → Within (length s) (load n s es).0
unfolding load
load-Within zero s es = tt
load-Within (suc n) s es =
    go_on-Within (load n) (length s) (read_sts (load n) s es) (load-Within n)
      (read_sts-Less (length s) (load n) (λ t fs lt. load-Within n t fs) s es (omega arith))

go_on-Agree :
    (f g : Load) (k n : ℕ) (r : Read) → Agree n f g → k ≤ n → Less k r → go_on f r ≡ go_on g r
go_on-Agree f g k n (more s es) agree le l = agree s es (omega arith)
go_on-Agree f g k n (stop o es) agree le l = refl

load-Agree : (n : ℕ) → Agree n (load n) (load (suc n))
unfolding load
load-Agree zero s es lt = absurd (omega arith)
load-Agree (suc n) s es lt =
    go_on-Agree (load n) (load (suc n)) (length s) n (read_sts (load n) s es) (load-Agree n)
      (omega arith)
      (read_sts-Less (length s) (load n) (λ t fs l. load-Within n t fs) s es (omega arith))
    ∙ ap (go_on (load (suc n)))
        (read_sts-Agree n (load n) (load (suc n)) (load-Agree n) s es (omega arith))

-- With a round for each byte and one more, further rounds change nothing: neither the tree nor the place
-- where the text is left.
pub load-enough :
    (k : ℕ) (s : List ℕ) (es : Elements) → load (length s + 1 + k) s es ≡ load (length s + 1) s es
load-enough zero s es = ap (λ n. load n s es) (omega arith)
load-enough (suc k) s es =
    ap (λ n. load n s es) {y = suc (length s + 1 + k)} (omega arith)
    ∙ sym (load-Agree (length s + 1 + k) s es (omega arith))
    ∙ load-enough k s es
