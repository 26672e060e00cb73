-- ===== src/Settings/Store.antt =====
-- store_value and append_value of source/imconee/sts.cpp.
use imconee.Common.{ℕ, Bool, false, ◌&&◌, ◌||◌, not, List, [], ◌∷◌, ◌++◌, if◌then◌else◌, ◌==◌}
use imconee.Settings.Text.{is_blank, opens, is_nil}

-- One of the bytes for which a value must be quoted.
abbrev pub is_special : ℕ → Bool
is_special c = is_blank c || ((c == b'`') || ((c == b'{') || (c == b'}')))

-- find_first_of
abbrev pub has_special : List ℕ → Bool
has_special [] = false
has_special (c ∷ r) = is_special c || has_special r

abbrev pub has_slashes : List ℕ → Bool
has_slashes [] = false
has_slashes (c ∷ r) = ((c == b'/') && opens r) || has_slashes r

-- str::replace_all of a quote by two.
abbrev pub double_quotes : List ℕ → List ℕ
double_quotes [] = []
double_quotes (c ∷ r) =
    let rest = double_quotes r in if c == b'`' then b'`' ∷ b'`' ∷ rest else c ∷ rest

abbrev pub store_value : List ℕ → Bool → List ℕ
store_value v allow_unquoted =
    if allow_unquoted && (not (has_special v) && not (has_slashes v))
    then v
    else b'`' ∷ (double_quotes v ++ b'`' ∷ [])

abbrev pub append_value : List ℕ → List ℕ → List ℕ
append_value s v = if is_nil v then s else s ++ b'=' ∷ v
