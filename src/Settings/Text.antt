-- ===== src/Settings/Text.antt =====
-- The tokens of the settings text of source/imconee/sts.cpp. A pointer into the text is what lies behind
-- it, and the null pointer is `none`.
use imconee.Common.{
  ℕ, suc, ◌-◌, Bool, true, false, ◌&&◌, ◌||◌, not, Option, none, some, List, [], ◌∷◌, if◌then◌else◌,
  ◌==◌, length, take, drop,
}

-- TOKEN_CHECK is its negation.
abbrev pub is_blank : ℕ → Bool
is_blank c = (c == b' ') || ((c == b'\t') || ((c == b'\r') || (c == b'\n')))

abbrev pub is_newline : ℕ → Bool
is_newline c = (c == b'\r') || (c == b'\n')

-- Behind a slash: the start of a comment of either kind.
abbrev pub opens : List ℕ → Bool
opens [] = false
opens (d ∷ r) = (d == b'*') || (d == b'/')

abbrev pub starts_with : ℕ → List ℕ → Bool
starts_with c [] = false
starts_with c (d ∷ r) = d == c

-- Where token_start is: between tokens, at the second byte of what opens a comment, in a comment, or
-- at the last byte of one.
pub data Mode : Type 0 where
  between open_block open_line block close_block line : Mode

abbrev pub next_mode : Mode → ℕ → List ℕ → Mode
next_mode between c r =
    if (c == b'/') && opens r
    then (if starts_with b'*' r then open_block else open_line)
    else between
next_mode open_block c r = block
next_mode open_line c r = line
next_mode block c r = if (c == b'*') && starts_with b'/' r then close_block else block
next_mode close_block c r = between
next_mode line c r = if is_newline c then between else line

abbrev pub is_nil : List ℕ → Bool
is_nil [] = true
is_nil (c ∷ r) = false

-- A comment that is not closed ends before the last byte of the text.
abbrev pub is_token : Mode → ℕ → List ℕ → Bool
is_token between c r = not (is_blank c) && not ((c == b'/') && opens r)
is_token block c r = is_nil r && not (is_blank c)
is_token _ c r = false

-- The text is at `c`; the rest has been scanned with the next mode.
abbrev pub found : Bool → List ℕ → Option (List ℕ) → Option (List ℕ)
found true s later = some s
found false s later = later

unfoldable pub scan : Mode → List ℕ → Option (List ℕ)
scan m [] = none
scan m (c ∷ r) = found (is_token m c r) (c ∷ r) (scan (next_mode m c r) r)

unfoldable pub token_start : List ℕ → Option (List ℕ)
unfolding scan
token_start = scan between

-- The test of the first loop of token_end.
abbrev pub ends : ℕ → ℕ → List ℕ → Bool
ends addc c r = is_newline c || ((c == b'{') || ((c == addc) || ((c == b'/') && opens r)))

abbrev pub cons_to : ℕ → List ℕ × List ℕ → List ℕ × List ℕ
cons_to c p = (c ∷ p.0, p.1)

abbrev pub split_by : Bool → ℕ → List ℕ → List ℕ × List ℕ → List ℕ × List ℕ
split_by true c r later = ([], c ∷ r)
split_by false c r later = cons_to c later

-- The bytes up to the end of the token, and the rest.
unfoldable pub split_end : ℕ → List ℕ → List ℕ × List ℕ
split_end addc [] = ([], [])
split_end addc (c ∷ r) = split_by (ends addc c r) c r (split_end addc r)

-- A space or a tab.
abbrev pub is_space_or_tab : ℕ → Bool
is_space_or_tab c = (c == b' ') || (c == b'\t')

abbrev pub push_unless : (ℕ → Bool) → ℕ → List ℕ → List ℕ
push_unless p c [] = if p c then [] else c ∷ []
push_unless p c (d ∷ r) = c ∷ d ∷ r

-- Without the bytes at the end that pass the test.
unfoldable pub drop_end : (ℕ → Bool) → List ℕ → List ℕ
drop_end p [] = []
drop_end p (c ∷ r) = push_unless p c (drop_end p r)

-- The loop goes back no further than to the first byte.
unfoldable pub trim_token : List ℕ → List ℕ
unfolding drop_end
trim_token [] = []
trim_token (c ∷ r) = c ∷ drop_end is_space_or_tab r

pub record TokenEnd : Type 0 where
  pub token : List ℕ
  pub behind : List ℕ
  pub next : Option (List ℕ)

unfoldable pub token_end : ℕ → List ℕ → TokenEnd
unfolding token_start split_end trim_token
token_end addc s =
    let p = split_end addc s in
    let t = trim_token p.0 in
    record { token = t; behind = drop (length t) s; next = token_start p.1 }

-- The text from one pointer to a later one; the null pointer is the end.
abbrev pub text_between : List ℕ → Option (List ℕ) → List ℕ
text_between s none = s
text_between s (some t) = take (length s - length t) s

-- str::rtrim, and str::ltrim of a string.
unfoldable pub rtrim : List ℕ → List ℕ
unfolding drop_end
rtrim = drop_end is_blank

abbrev pub keep_from : Bool → List ℕ → List ℕ → List ℕ
keep_from true s later = later
keep_from false s later = s

unfoldable pub ltrim : List ℕ → List ℕ
ltrim [] = []
ltrim (c ∷ r) = keep_from (is_blank c) (c ∷ r) (ltrim r)

-- The number of bytes that str::ltrim of a view finds to be blank.
abbrev pub count_by : Bool → ℕ → ℕ
count_by true n = suc n
count_by false n = 0

unfoldable pub count_blank : List ℕ → ℕ
count_blank [] = 0
count_blank (c ∷ r) = count_by (is_blank c) (count_blank r)

-- str::ltrim of a view goes one byte back.
unfoldable pub ltrim_view : List ℕ → List ℕ
unfolding count_blank
ltrim_view s = drop (count_blank s - 1) s

unfoldable pub trim : List ℕ → List ℕ
unfolding rtrim ltrim
trim s = ltrim (rtrim s)

unfoldable pub trim_view : List ℕ → List ℕ
unfolding rtrim ltrim_view
trim_view s = ltrim_view (rtrim s)
