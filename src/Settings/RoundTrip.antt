-- ===== src/Settings/RoundTrip.antt =====
-- A value that store_value of source/imconee/sts.cpp writes is read back by read_sts.
use mathlib.Core.List.{append_assoc}
use imconee.Common.{
  ℕ, suc, ◌-◌, ◌≡◌, refl, ap, ◌∙◌, inl, inr, Bool, true, false, ◌&&◌, not, Option, none, some, List,
  [], ◌∷◌, ◌++◌, ◌==◌, leb, length, take, Bool-cases, All, arith,
}
use imconee.Settings.Text.{
  is_blank, starts_with, between, is_token, scan, is_nil, ends, split_end, drop_end, trim_token,
  token_start, token_end, text_between, trim, is_space_or_tab,
}
use imconee.Settings.Tree.{Elements, has, add_block}
use imconee.Settings.Read.{
  skip_separators, Read, more, stop, keep_trimmed, set_value, loaded, read_open, read_unquoted_by,
  read_value, read_switch, read_name, read_sts,
}
use imconee.Settings.Store.{has_special, has_slashes, double_quotes, store_value, append_value}
use imconee.Settings.Values.{
  value_of, value_of-comment, has-add_block, value_of-set_value, value_of-set_elements,
}
use imconee.Settings.Enough.{Load}
use imconee.Settings.Stored.{quoted-double_quotes, token-value}

abbrev pub elements_of : Read → Elements
elements_of (more s es) = es
elements_of (stop o es) = es

module _ (f : Load) (c : ℕ) (n : List ℕ) (v : List ℕ) where
  loaded-keeps :
      (p : Option (List ℕ) × Elements) (es : Elements)
      → value_of es (c ∷ n) ≡ some v
      → value_of (elements_of (loaded es (c ∷ n) p)) (c ∷ n) ≡ some v
  loaded-keeps (none, inner) es e = value_of-set_elements c n es inner v e
  loaded-keeps (some s, inner) es e = value_of-set_elements c n es inner v e

  open-keeps :
      (b : Bool) (s : List ℕ) (es : Elements)
      → value_of es (c ∷ n) ≡ some v
      → value_of (elements_of (read_open f b s es (c ∷ n))) (c ∷ n) ≡ some v
  open-keeps true s es e = loaded-keeps _ es e
  open-keeps false s es e = e

  trimmed-keeps :
      (trim : List ℕ → List ℕ) (es : Elements) (t : List ℕ)
      → value_of es (c ∷ n) ≡ some v
      → value_of (keep_trimmed trim es t) (c ∷ n) ≡ some v
  trimmed-keeps trim es t e = elim (Bool-cases (leb 2 (length t) && not (is_nil (trim t)))) [
    | inl kept ↦ rw kept (value_of-comment c n es (trim t) v e)
    | inr dropped ↦ rw dropped e
  ]

  unquoted-keeps :
      (o : Option (List ℕ)) (es : Elements)
      → value_of es (c ∷ n) ≡ some v
      → value_of (elements_of (read_unquoted_by f o es (c ∷ n))) (c ∷ n) ≡ some v
  unquoted-keeps none es e = e
  unquoted-keeps (some s) es e = open-keeps (starts_with b'{' s) s es e

  -- What is read behind the equals sign.
  quoted-keeps :
      (rest : List ℕ) (es : Elements)
      → has es (c ∷ n) ≡ true
      → starts_with b'`' rest ≡ false
      → value_of
          (elements_of (read_value f true (b'`' ∷ (double_quotes v ++ b'`' ∷ rest)) es (c ∷ n)))
          (c ∷ n)
        ≡ some v
  quoted-keeps rest es h last = rw (quoted-double_quotes v [] [] rest last) (
      open-keeps (starts_with b'{' (skip_separators rest)) (skip_separators rest)
        (set_value es (c ∷ n) v) (value_of-set_value c n es v h))

  plain-keeps :
      (rest : List ℕ) (es : Elements)
      → has es (c ∷ n) ≡ true
      → has_special v ≡ false
      → has_slashes v ≡ false
      → value_of (elements_of (read_value f false (v ++ b'\r' ∷ rest) es (c ∷ n))) (c ∷ n) ≡ some v
  plain-keeps rest es h plain still =
      let e = token_end b'}' (v ++ b'\r' ∷ rest) in
      unquoted-keeps e.next _ (
        trimmed-keeps trim (set_value es (c ∷ n) e.token) (text_between e.behind e.next)
          (value_of-set_value c n es e.token h ∙ ap some (token-value v rest plain still)))

skip-first : (x : ℕ) (r : List ℕ) → is_space_or_tab x ≡ false → skip_separators (x ∷ r) ≡ x ∷ r
unfolding skip_separators
skip-first x r h = rw h refl

module _ (f : Load) (c : ℕ) (n : List ℕ) (x : ℕ) (v : List ℕ) where
  value-keeps :
      (allow : Bool) (rest : List ℕ) (es : Elements)
      → has es (c ∷ n) ≡ true
      → value_of
          (elements_of (
            read_switch f true false
              (b'=' ∷ (store_value (x ∷ v) allow ++ b'\r' ∷ rest))
              es
              (c ∷ n)))
          (c ∷ n)
        ≡ some (x ∷ v)
  value-keeps allow rest es h =
      elim (Bool-cases (allow && (not (has_special (x ∷ v)) && not (has_slashes (x ∷ v))))) [
        | inl plain ↦
            let s : has_special (x ∷ v) ≡ false = ground arith in
            let k : has_slashes (x ∷ v) ≡ false = ground arith in
            let q : (x == b'`') ≡ false = ground arith in
            let t : is_space_or_tab x ≡ false = ground arith in
            rw plain (
              rw (skip-first x (v ++ b'\r' ∷ rest) t)
                (rw q (plain-keeps f c n (x ∷ v) rest es h s k)))
        | inr special ↦ rw special (
            rw (append_assoc (double_quotes (x ∷ v)) (b'`' ∷ []) (b'\r' ∷ rest)) (
              rw (skip-first b'`' (double_quotes (x ∷ v) ++ b'`' ∷ b'\r' ∷ rest) refl)
                (quoted-keeps f c n (x ∷ v) (b'\r' ∷ rest) es h refl)))
      ]

-- A byte that may stand in a name.
abbrev pub is_plain : ℕ → Bool
is_plain c =
    not (is_blank c)
    && (not (c == b'=') && (not (c == b'{') && (not (c == b'}') && not (c == b'/'))))

abbrev pub IsPlain : ℕ → Type 0
IsPlain c = is_plain c ≡ true

split_end-name : (n r : List ℕ) → All IsPlain n → split_end b'=' (n ++ b'=' ∷ r) ≡ (n, b'=' ∷ r)
unfolding split_end
split_end-name [] r h = refl
split_end-name (c ∷ n) r (p, h) =
    let e : ends b'=' c (n ++ b'=' ∷ r) ≡ false = ground arith in rw (e, split_end-name n r h) refl

drop_end-name : (n : List ℕ) → All IsPlain n → drop_end is_space_or_tab n ≡ n
unfolding drop_end
drop_end-name [] h = refl
drop_end-name (c ∷ []) (p, h) = let e : is_space_or_tab c ≡ false = ground arith in rw e refl
drop_end-name (c ∷ d ∷ n) (p, h) = rw (drop_end-name (d ∷ n) h) refl

take-none : (k : ℕ) (s : List ℕ) → take (k - k) s ≡ []
take-none k s = ap (λ d. take d s) {y = 0} (omega arith)

module _ (f : Load) (c : ℕ) (n : List ℕ) (name : All IsPlain (c ∷ n)) where
  name-token : (r : List ℕ) → (token_end b'=' (c ∷ (n ++ b'=' ∷ r))).token ≡ c ∷ n
  unfolding token_end trim_token
  name-token r =
      ap (λ p. trim_token p.0) (split_end-name (c ∷ n) r name)
      ∙ ap (λ t. c ∷ t) (drop_end-name n name.1)

  name-next : (r : List ℕ) → (token_end b'=' (c ∷ (n ++ b'=' ∷ r))).next ≡ some (b'=' ∷ r)
  unfolding token_end token_start scan
  name-next r = ap (λ p. token_start p.1) (split_end-name (c ∷ n) r name)

  start-name : (r : List ℕ) → token_start (c ∷ r) ≡ some (c ∷ r)
  unfolding token_start scan
  start-name r = let p = name.0 in let t : is_token between c r ≡ true = ground arith in rw t refl

  to_name : (r : List ℕ) (es : Elements) → read_sts f (c ∷ r) es ≡ read_name f (c ∷ r) es
  unfolding read_sts
  to_name r es =
      let p = name.0 in
      let b : (c == b'}') ≡ false = ground arith in
      rw (start-name r, take-none (suc (length r)) (c ∷ r), b) refl

  to_switch :
      (r : List ℕ) (es : Elements)
      → read_name f (c ∷ (n ++ b'=' ∷ r)) es
        ≡ read_switch f true false (b'=' ∷ r) (add_block es (c ∷ n)) (c ∷ n)
  to_switch r es = rw (name-next r, name-token r) refl

append_value-shape :
    (c : ℕ) (n : List ℕ) (x : ℕ) (v rest : List ℕ) (allow : Bool)
    → append_value (c ∷ n) (store_value (x ∷ v) allow) ++ b'\r' ∷ rest
      ≡ c ∷ (n ++ b'=' ∷ (store_value (x ∷ v) allow ++ b'\r' ∷ rest))
append_value-shape c n x v rest allow =
    elim (Bool-cases (allow && (not (has_special (x ∷ v)) && not (has_slashes (x ∷ v))))) [
      | inl plain ↦ rw plain (append_assoc (c ∷ n) (b'=' ∷ x ∷ v) (b'\r' ∷ rest))
      | inr special ↦
          rw special (
            append_assoc (c ∷ n) (b'=' ∷ b'`' ∷ (double_quotes (x ∷ v) ++ b'`' ∷ []))
              (b'\r' ∷ rest))
    ]

-- A name of plain bytes, and a value that is not empty, as append_value writes them with the value that
-- store_value makes, whether it may be left unquoted or not: read_sts, on this text with an end of line
-- behind it, gives the name that value, whatever follows, whatever elements there are, and whatever an
-- inner block reads.
pub read_sts-store_value :
    (f : Load) (c : ℕ) (n : List ℕ) (x : ℕ) (v rest : List ℕ) (allow : Bool) (es : Elements)
    → All IsPlain (c ∷ n)
    → let text = append_value (c ∷ n) (store_value (x ∷ v) allow) ++ b'\r' ∷ rest in
      value_of (elements_of (read_sts f text es)) (c ∷ n) ≡ some (x ∷ v)
read_sts-store_value f c n x v rest allow es name =
    let stored = store_value (x ∷ v) allow in
    let r = stored ++ b'\r' ∷ rest in
    let whole : append_value (c ∷ n) stored ++ b'\r' ∷ rest ≡ c ∷ (n ++ b'=' ∷ r) =
      append_value-shape c n x v rest allow in
    ap (λ t. value_of (elements_of (read_sts f t es)) (c ∷ n)) whole
    ∙ ap (λ q. value_of (elements_of q) (c ∷ n))
        (to_name f c n name (n ++ b'=' ∷ r) es ∙ to_switch f c n name r es)
    ∙ value-keeps f c n x v allow rest (add_block es (c ∷ n)) (has-add_block c n es)
