-- ===== src/Settings/Tree.antt =====
-- The tree of source/imconee/sts.h: a value, and elements in their order. The map from names to elements
-- finds the first element of a name, and the comments under the empty name.
use imconee.Common.{
  ℕ, Bool, true, false, ◌&&◌, ◌||◌, Option, none, some, List, [], ◌∷◌, if◌then◌else◌, ◌==◌,
}
use imconee.Settings.Text.{is_nil}

-- The name of an element: comments share a name of their own, and a block may have none.
pub data Label : Type 0 where
  named : List ℕ → Label
  nameless comment : Label

mutual
  pub data Sts : Type 0 where
    sts : List ℕ → Elements → Sts

  pub data Elements : Type 0 where
    nil : Elements
    cons : Label → Sts → Elements → Elements

abbrev pub value : Sts → List ℕ
value (sts v es) = v

abbrev pub elements : Sts → Elements
elements (sts v es) = es

-- A new element.
abbrev pub empty : Sts
empty = sts [] nil

abbrev pub same_text : List ℕ → List ℕ → Bool
same_text [] [] = true
same_text [] (y ∷ ys) = false
same_text (x ∷ xs) [] = false
same_text (x ∷ xs) (y ∷ ys) = (x == y) && same_text xs ys

abbrev pub has_name : List ℕ → Label → Bool
has_name n (named m) = same_text n m
has_name n nameless = false
has_name n comment = is_nil n

unfoldable pub append_element : Elements → Label → Sts → Elements
append_element nil l s = cons l s nil
append_element (cons k t es) l s = cons k t (append_element es l s)

abbrev pub get_by : Bool → Sts → Option Sts → Option Sts
get_by true s later = some s
get_by false s later = later

-- sts_t::get of a name.
unfoldable pub get : Elements → List ℕ → Option Sts
get nil n = none
get (cons l s es) n = get_by (has_name n l) s (get es n)

abbrev pub put_by : Bool → Label → Sts → Sts → Elements → Elements → Elements
put_by true l s t es later = cons l t es
put_by false l s t es later = cons l s later

unfoldable pub has : Elements → List ℕ → Bool
has nil n = false
has (cons l s es) n = has_name n l || has es n

-- The element that `get` finds becomes `t`.
unfoldable pub put : Elements → List ℕ → Sts → Elements
put nil n t = nil
put (cons l s es) n t = put_by (has_name n l) l s t es (put es n t)

abbrev pub is_nameless : Label → Bool
is_nameless (named n) = false
is_nameless nameless = true
is_nameless comment = false

unfoldable pub has_nameless : Elements → Bool
has_nameless nil = false
has_nameless (cons l s es) = is_nameless l || has_nameless es

-- The last element without a name, and its replacement.
unfoldable pub get_nameless : Elements → Sts
unfolding has_nameless
get_nameless nil = empty
get_nameless (cons l s es) = if has_nameless es then get_nameless es else s

abbrev pub put_nameless_by : Bool → Bool → Label → Sts → Sts → Elements → Elements → Elements
put_nameless_by true b l s t es later = cons l s later
put_nameless_by false true l s t es later = cons l t es
put_nameless_by false false l s t es later = cons l s es

unfoldable pub put_nameless : Elements → Sts → Elements
unfolding has_nameless
put_nameless nil t = nil
put_nameless (cons l s es) t =
    put_nameless_by (has_nameless es) (is_nameless l) l s t es (put_nameless es t)

unfoldable pub add_comment : Elements → List ℕ → Elements
unfolding append_element
add_comment es c = append_element es comment (sts c nil)

-- add_block, with the empty name for a block without one.
unfoldable pub add_block : Elements → List ℕ → Elements
unfolding append_element has
add_block es [] = append_element es nameless empty
add_block es (c ∷ n) = if has es (c ∷ n) then es else append_element es (named (c ∷ n)) empty

abbrev pub or_empty : Option Sts → Sts
or_empty none = empty
or_empty (some s) = s

-- The element to which add_block returned a reference, and a change of it.
unfoldable pub block_of : Elements → List ℕ → Sts
unfolding get get_nameless
block_of es [] = get_nameless es
block_of es (c ∷ n) = or_empty (get es (c ∷ n))

unfoldable pub update : Elements → List ℕ → Sts → Elements
unfolding put put_nameless
update es [] t = put_nameless es t
update es (c ∷ n) t = put es (c ∷ n) t
