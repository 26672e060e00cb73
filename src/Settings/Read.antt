-- ===== src/Settings/Read.antt =====
-- read_sts and load of source/imconee/sts.cpp.
use imconee.Common.{
  ℕ, zero, suc, ◌+◌, Bool, true, false, ◌&&◌, not, Option, none, some, List, [], ◌∷◌, ◌++◌,
  if◌then◌else◌, ◌==◌, leb, length, drop,
}
use imconee.Settings.Text.{
  starts_with, is_nil, is_space_or_tab, keep_from, token_start, token_end, text_between, trim,
  trim_view,
}
use imconee.Settings.Tree.{
  sts, Elements, elements, value, nil, add_comment, block_of, add_block, update,
}

-- SKIP_SEPARATORS(true)
unfoldable pub skip_separators : List ℕ → List ℕ
skip_separators [] = []
skip_separators (c ∷ r) = keep_from (is_space_or_tab c) (c ∷ r) (skip_separators r)

-- A value in backquotes: its bytes, and what lies behind the closing quote, if there is one. `part` are
-- the bytes since `start`.
pub record Quoted : Type 0 where
  pub text : List ℕ
  pub rest : Option (List ℕ)

abbrev pub quoted_by : Bool → List ℕ → List ℕ → Quoted → Quoted
quoted_by true v r later = record { text = v; rest = some r }
quoted_by false v r later = later

-- With `second` the text is at the second of two quotes.
unfoldable pub quoted : Bool → (v part s : List ℕ) → Quoted
quoted second v part [] = record { text = v; rest = none }
quoted true v part (c ∷ r) = quoted false v [] r
quoted false v part (c ∷ r) =
    let two = (c == b'`') && starts_with b'`' r in
    quoted_by ((c == b'`') && not (starts_with b'`' r)) (v ++ part) r
      (quoted two (if two then v ++ (part ++ c ∷ []) else v) (if two then [] else part ++ c ∷ []) r)

-- A comment of two bytes or more is kept, without the blanks around it.
abbrev pub keep_trimmed : (List ℕ → List ℕ) → Elements → List ℕ → Elements
keep_trimmed trim es c =
    if leb 2 (length c) && not (is_nil (trim c)) then add_comment es (trim c) else es

-- What read_sts leaves: the text to go on with, or the end of this block.
pub data Read : Type 0 where
  more : List ℕ → Elements → Read
  stop : Option (List ℕ) → Elements → Read

abbrev pub set_value : Elements → List ℕ → List ℕ → Elements
set_value es name v = update es name (sts v (elements (block_of es name)))

abbrev pub set_elements : Elements → List ℕ → Elements → Elements
set_elements es name inner = update es name (sts (value (block_of es name)) inner)

abbrev pub loaded : Elements → List ℕ → Option (List ℕ) × Elements → Read
loaded es name (none, inner) = stop none (set_elements es name inner)
loaded es name (some s, inner) = more s (set_elements es name inner)

module _ (load : List ℕ → Elements → Option (List ℕ) × Elements) where
  -- The inner block, of which the elements may be there already.
  abbrev pub read_inner : List ℕ → Elements → List ℕ → Read
  read_inner r es name = loaded es name (load r (elements (block_of es name)))

  -- Behind a value: an inner block, or the next element.
  abbrev pub read_open : Bool → List ℕ → Elements → List ℕ → Read
  read_open true s es name = read_inner (drop 1 s) es name
  read_open false s es name = more s es

  abbrev pub read_quoted_by : Option (List ℕ) → Elements → List ℕ → Read
  read_quoted_by none es name = stop (some []) es
  read_quoted_by (some r) es name =
      let s = skip_separators r in read_open (starts_with b'{' s) s es name

  abbrev pub read_quoted : List ℕ → Elements → List ℕ → Read
  read_quoted r es name =
      let q = quoted false [] [] r in read_quoted_by q.rest (set_value es name q.text) name

  abbrev pub read_unquoted_by : Option (List ℕ) → Elements → List ℕ → Read
  read_unquoted_by none es name = stop none es
  read_unquoted_by (some s) es name = read_open (starts_with b'{' s) s es name

  abbrev pub read_unquoted : List ℕ → Elements → List ℕ → Read
  read_unquoted s es name =
      let e = token_end b'}' s in
      read_unquoted_by e.next
        (keep_trimmed trim (set_value es name e.token) (text_between e.behind e.next)) name

  abbrev pub read_value : Bool → List ℕ → Elements → List ℕ → Read
  read_value true s es name = read_quoted (drop 1 s) es name
  read_value false s es name = read_unquoted s es name

  -- The switch on the byte behind the name.
  abbrev pub read_switch : Bool → Bool → List ℕ → Elements → List ℕ → Read
  read_switch true b s es name =
      let t = skip_separators (drop 1 s) in read_value (starts_with b'`' t) t es name
  read_switch false true s es name = read_inner (drop 1 s) es name
  read_switch false false s es name = more s es

  abbrev pub read_name_by : Option (List ℕ) → Elements → List ℕ → Read
  read_name_by none es name = stop none es
  read_name_by (some s) es name = read_switch (starts_with b'=' s) (starts_with b'{' s) s es name

  abbrev pub read_name : List ℕ → Elements → Read
  read_name s es = let e = token_end b'=' s in read_name_by e.next (add_block es e.token) e.token

  abbrev pub read_element : Bool → List ℕ → Elements → Read
  read_element true s es = stop (some (drop 1 s)) es
  read_element false s es = read_name s es

  abbrev pub read_by : Option (List ℕ) → List ℕ → Elements → Read
  read_by none start es = stop none es
  read_by (some s) start es =
      read_element (starts_with b'}' s) s (keep_trimmed trim_view es (text_between start (some s)))

  unfoldable pub read_sts : List ℕ → Elements → Read
  read_sts s es = read_by (token_start s) s es

-- The loop of load, on fuel.
abbrev pub go_on :
    (List ℕ → Elements → Option (List ℕ) × Elements) → Read → Option (List ℕ) × Elements
go_on load (more s es) = load s es
go_on load (stop s es) = (s, es)

unfoldable pub load : ℕ → List ℕ → Elements → Option (List ℕ) × Elements
unfolding read_sts
load zero s es = (none, es)
load (suc n) s es = go_on (load n) (read_sts (load n) s es)

-- The elements of a text; a round takes at least a byte.
unfoldable pub parse_settings : List ℕ → Elements
unfolding load
parse_settings s = (load (length s + 1) s nil).1
