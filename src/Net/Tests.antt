-- ===== src/Net/Tests.antt =====
-- Addresses as source/imconee/netkit.cpp chooses and compares them, on concrete bytes.
use imconee.Common.{
  ◌+◌, ◌-◌, ◌*◌, ◌/◌, ◌%◌, ◌<◌, ap, none, length, ℕ, ◌≡◌, refl, true, false, Option, some, List, [],
  ◌∷◌, arith,
}
use imconee.Net.Address.{
  Family, only4, Ipap, AddressInfo, inet, inet6, dnsresolve, pick, choose, set4, copmpare,
}
use imconee.Net.Address.Text.{
  parse, to_string4, parse6, parse6_loop, groups, at_colon, at_digit, after_char, pushdig, hexdig,
}
use imconee.Net.Address.RoundTrip.{IsPlain, parse-to_string4}
use imconee.Net.Address.Choice.{IsAllowed, dnsresolve-IsAllowed}

abbrev both_families : Family → List ℕ → Option (List AddressInfo)
both_families def host = some (inet6 (1 ∷ []) ∷ inet (10 ∷ 0 ∷ 0 ∷ 1 ∷ []) ∷ [])

abbrev unset_address : Ipap
unset_address = record { v4 = false; address = []; port = 80 }

abbrev found : Ipap
found = record { v4 = true; address = 10 ∷ 0 ∷ 0 ∷ 1 ∷ []; port = 80 }

resolved : dnsresolve only4 both_families [] unset_address ≡ some found
unfolding dnsresolve pick choose set4
resolved = refl

dnsresolve-IsAllowed_example : IsAllowed only4 found.v4 × (found.port ≡ unset_address.port)
dnsresolve-IsAllowed_example =
    dnsresolve-IsAllowed only4 both_families [] unset_address found resolved

-- Numbers as three decimal digits.
abbrev digits : ℕ → List ℕ
digits n = (48 + n / 100) ∷ (48 + n / 10 % 10) ∷ (48 + n % 10) ∷ []

abbrev stoi : List ℕ → Option ℕ
stoi (a ∷ b ∷ c ∷ []) = some ((a - 48) * 100 + ((b - 48) * 10 + (c - 48)))
stoi s = none

stoi-digits : (n : ℕ) → n < 256 → stoi (digits n) ≡ some n
stoi-digits n lt = ap some (omega arith)

digits-IsPlain : (n : ℕ) → n < 256 → IsPlain (digits n) × (0 < length (digits n))
digits-IsPlain n lt = (
  (
    ((λ e. omega arith, λ e. omega arith)),
    (((λ e. omega arith, λ e. omega arith)), (((λ e. omega arith, λ e. omega arith)), tt)),
  ),
  omega arith,
)

parse-to_string4_example :
    parse stoi digits only4 (
      to_string4 stoi digits false
        (record { v4 = true; address = 10 ∷ 0 ∷ 255 ∷ 1 ∷ []; port = 80 }))
    ≡ some (record { v4 = true; address = 10 ∷ 0 ∷ 255 ∷ 1 ∷ []; port = 0 })
unfolding imconee.Net.Address.is_v4_default
parse-to_string4_example =
    parse-to_string4 stoi digits only4 10 0 255 1 80 stoi-digits digits-IsPlain refl (omega arith)
      (omega arith) (omega arith) (omega arith)

-- 1::2
parse6_test : parse6 (49 ∷ 58 ∷ 58 ∷ 50 ∷ []) ≡ some (1 ∷ 0 ∷ 0 ∷ 0 ∷ 0 ∷ 0 ∷ 0 ∷ 2 ∷ [])
unfolding parse6 parse6_loop groups at_colon at_digit after_char pushdig hexdig
parse6_test = refl

-- 1:2:3:4:5:6:7:8
parse6_eight_groups :
    parse6 (49 ∷ 58 ∷ 50 ∷ 58 ∷ 51 ∷ 58 ∷ 52 ∷ 58 ∷ 53 ∷ 58 ∷ 54 ∷ 58 ∷ 55 ∷ 58 ∷ 56 ∷ [])
    ≡ some (1 ∷ 2 ∷ 3 ∷ 4 ∷ 5 ∷ 6 ∷ 7 ∷ 7 ∷ [])
unfolding parse6 parse6_loop groups at_colon at_digit after_char pushdig hexdig
parse6_eight_groups = refl

-- 1:2:3::8
parse6_three_groups :
    parse6 (49 ∷ 58 ∷ 50 ∷ 58 ∷ 51 ∷ 58 ∷ 58 ∷ 56 ∷ []) ≡ some (1 ∷ 2 ∷ 0 ∷ 0 ∷ 0 ∷ 0 ∷ 3 ∷ 8 ∷ [])
unfolding parse6 parse6_loop groups at_colon at_digit after_char pushdig hexdig
parse6_three_groups = refl
