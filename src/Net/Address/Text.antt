-- ===== src/Net/Address/Text.antt =====
-- ipap::parse and ipap::parse6 of source/imconee/netkit.cpp, ipap::to_string of netkit.h for an IPv4
-- address, and the tokenizer of str_helpers.h. Text is a list of character codes.
use imconee.Common.{
  ℕ, zero, suc, ◌+◌, ◌-◌, ◌*◌, ◌/◌, ◌%◌, Bool, true, false, ◌&&◌, Option, none, some, List, [], ◌∷◌,
  ◌++◌, ltb, leb, ◌==◌, if◌then◌else◌, length, replicate, take, copy_at, get_or,
}
use imconee.Net.Address.{Ipap, Family, is_v4_default, clear}

abbrev pub dot : ℕ
dot = 46

abbrev pub colon : ℕ
colon = 58

-- token::operator++ on a text that is not empty: the token and the rest.
unfoldable pub next_token : ℕ → List ℕ → List ℕ × List ℕ
next_token separator [] = ([], [])
next_token separator (c ∷ cs) =
    let (tkn, rest) = next_token separator cs in
    if c == separator then ([], cs) else (c ∷ tkn, rest)

-- All the tokens; each but the last takes its separator with it.
unfoldable pub tokens_loop : ℕ → ℕ → List ℕ → List (List ℕ)
tokens_loop zero separator s = []
tokens_loop (suc fuel) separator [] = []
tokens_loop (suc fuel) separator (c ∷ cs) =
    let (tkn, rest) = next_token separator (c ∷ cs) in tkn ∷ tokens_loop fuel separator rest

abbrev pub tokens : ℕ → List ℕ → List (List ℕ)
tokens separator s = tokens_loop (length s) separator s

-- The lambda hexdig.
unfoldable pub hexdig : ℕ → ℕ
hexdig c =
    if leb 48 c && leb c 57
    then c - 48
    else (if leb 97 c && leb c 102
        then c - 97 + 10
        else (if leb 65 c && leb c 70 then c - 65 + 10 else 255))

-- The variables of parse6; `left` and `rite` are the groups stored, as numbers.
pub record Parse6 : Type 0 where
  pub colon_seen : Bool
  pub fillright : Bool
  pub somedigits : ℕ
  pub left : List ℕ
  pub rite : List ℕ
  pub current : ℕ

-- The lambda pushdig: whether the address is full, and the variables.
unfoldable pub pushdig : Parse6 → Bool × Parse6
pushdig p =
    if p.fillright
    then (length p.left + (length p.rite + 1) == 7, record p { rite = p.rite ++ (p.current ∷ []) })
    else (length p.left + 1 == 8, record p { left = p.left ++ (p.current ∷ []) })

-- A round of the loop: an address that is none, the end of the loop, or the next round.
pub data Round6 : Type 0 where
  wrong6 : Round6
  break6 next6 : Parse6 → Round6

unfoldable pub at_colon : Parse6 → Round6
unfolding pushdig
at_colon p =
    let (full, q) = if ltb 0 p.somedigits then pushdig p else (false, p) in
    if full
    then break6 q
    else next6 (record q {
      fillright = if q.colon_seen then true else q.fillright;
      colon_seen = true;
      current = 0;
      somedigits = 0;
    })

unfoldable pub at_digit : ℕ → Parse6 → Round6
unfolding hexdig
at_digit c p =
    let hd = hexdig c in
    let q = record p { current = (p.current * 16 + hd) % 0x10000; somedigits = p.somedigits + 1 } in
    if hd == 255 then wrong6 else (if q.somedigits == 5 then wrong6 else next6 q)

unfoldable pub after_char : Round6 → (Parse6 → Option Parse6) → Option Parse6
after_char wrong6 go = none
after_char (break6 p) go = some p
after_char (next6 p) go = go p

unfoldable pub parse6_loop : List ℕ → Parse6 → Option Parse6
unfolding at_colon at_digit after_char
parse6_loop [] p = some p
parse6_loop (c ∷ cs) p =
    after_char (if c == colon then at_colon p else at_digit c p) (λ q. parse6_loop cs q)

-- The eight groups.
unfoldable pub groups : Parse6 → List ℕ
unfolding pushdig
groups p =
    let q = if ltb 0 p.somedigits then (pushdig p).1 else p in
    take 8 (q.left ++ (replicate (8 - length q.rite - length q.left) 0 ++ q.rite))

-- parse6: the groups, or none where ipap() is returned.
unfoldable pub parse6 : List ℕ → Option (List ℕ)
unfolding parse6_loop groups
parse6 s =
    elim (parse6_loop s (record {
      colon_seen = false;
      fillright = false;
      somedigits = 0;
      left = [];
      rite = [];
      current = 0;
    })) [ none ↦ none | some p ↦ some (groups p) ]

abbrev pub colons : List ℕ → ℕ
colons [] = 0
colons (c ∷ cs) = if c == colon then colons cs + 1 else colons cs

-- The groups in network order.
abbrev pub group_bytes : List ℕ → List ℕ
group_bytes [] = []
group_bytes (g ∷ gs) = g / 256 ∷ g % 256 ∷ group_bytes gs

-- ipap(), where a group is wrong.
abbrev pub address6 : Family → Option (List ℕ) → Ipap
address6 def none = clear def
address6 def (some gs) = record { v4 = false; address = group_bytes gs; port = 0 }

-- What follows std::stoi, which may throw.
unfoldable pub after_stoi : Option ℕ → (ℕ → Option (List ℕ)) → Option (List ℕ)
after_stoi none go = none
after_stoi (some v) go = go v

abbrev pub as_ipv4 : Option (List ℕ) → Option Ipap
as_ipv4 none = none
as_ipv4 (some octets) = some (record { v4 = true; address = octets; port = 0 })

-- `stoi` is (u8)std::stoi, or none where it throws; `digits` is std::to_string of a number.
module _ (stoi : List ℕ → Option ℕ) (digits : ℕ → List ℕ) where
  -- The loop over the tokens; a fifth one resets the address.
  unfoldable pub put_octets : List (List ℕ) → ℕ → List ℕ → Option (List ℕ)
  unfolding after_stoi
  put_octets [] i octets = some octets
  put_octets (t ∷ ts) i octets = after_stoi (stoi t) (λ v.
      let rest = put_octets ts (i + 1) (copy_at octets i (v ∷ [])) in
      if i == 4 then some (replicate 4 0) else rest)

  -- parse of a text with at most one colon, where an address is an IPv4 one by default.
  unfoldable pub parse4 : List ℕ → Option Ipap
  unfolding put_octets
  parse4 s = as_ipv4 (put_octets (tokens dot s) 0 (replicate 4 0))

  -- to_string of an IPv4 address.
  unfoldable pub to_string4 : Bool → Ipap → List ℕ
  to_string4 with_port a =
      let s =
        digits (get_or a.address 0 0)
        ++ (dot ∷ digits (get_or a.address 1 0)
            ++ (dot ∷ digits (get_or a.address 2 0) ++ (dot ∷ digits (get_or a.address 3 0)))) in
      if with_port then s ++ (colon ∷ digits a.port) else s

  -- parse; an IPv4 text is written through a null pointer where an address is an IPv6 one by default.
  unfoldable pub parse : Family → List ℕ → Option Ipap
  unfolding parse4 parse6
  parse def s =
      if leb 2 (colons s)
      then some (address6 def (parse6 s))
      else (if is_v4_default def then parse4 s else none)
