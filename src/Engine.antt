-- ===== src/Engine.antt =====
-- The start of the program: here the loader of source/imconee/loader.cpp, in Listener listener::build of
-- listener.cpp, and in Build the constructor of engine.cpp. An exception that nothing catches, and a use of the null pointer, are
-- `none`: they end the program.
pub mod Priority
pub mod Listener
pub mod Build
pub mod Acceptor
pub mod Presence
pub mod OneThread
pub mod Program
pub mod Counter
pub mod StopWaits
pub mod Start
mod Tests
use imconee.Common.{
  ℕ, zero, suc, ◌+◌, ◌-◌, ◌%◌, Bool, true, false, ◌&&◌, not, Option, none, some, List, [], ◌∷◌,
  ◌++◌, if◌then◌else◌, ◌==◌, ltb,
}
use imconee.Net.Address.{Family, prior4, prior6, only4, only6}
use imconee.Settings.Text.{is_nil, starts_with}
use imconee.Settings.Tree.{
  Label, named, nameless, comment, Sts, sts, Elements, nil, cons, value, elements, same_text, get,
}
use imconee.Settings.Read.{parse_settings}

-- signed_t
pub data ℤ : Type 0 where
  pos negsuc : ℕ → ℤ

-- The exit codes of cmdline.h.
abbrev pub exit_ok : ℕ
exit_ok = 0

abbrev pub exit_fail_noconfig : ℕ
exit_fail_noconfig = 1

abbrev pub exit_fail_nolisteners : ℕ
exit_fail_nolisteners = 2

abbrev pub exit_fail_nohandler : ℕ
exit_fail_nohandler = 3

abbrev pub exit_fail_port_undefined : ℕ
exit_fail_port_undefined = 10

abbrev pub exit_fail_type_undefined : ℕ
exit_fail_type_undefined = 11

abbrev pub exit_fail_ipv46_vals : ℕ
exit_fail_ipv46_vals = 14

-- Negative priorities are 0.
abbrev pub at_least_zero : ℤ → ℕ
at_least_zero (pos n) = n
at_least_zero (negsuc n) = 0

-- The family that two priorities stand for; equal ones are an error.
abbrev pub family_of : ℕ → ℕ → Option Family
family_of ipv4 ipv6 =
    if ipv4 == ipv6
    then none
    else if ipv4 == 0
    then some only6
    else if ipv6 == 0
    then some only4
    else if ltb ipv6 ipv4
    then some prior4
    else some prior6

pub record Loader : Type 0 where
  pub exit_code : ℕ
  pub listeners : Option Elements
  pub prox : Option Elements
  pub getip_def : Family

abbrev pub children : Option Sts → Option Elements
children none = none
children (some s) = some (elements s)

-- `number` is std::stod with the conversion to signed_t; it throws where it finds no number.
module _ (number : List ℕ → Option ℤ) where
  abbrev pub get_int_by : Option Sts → ℤ → Option ℤ
  get_int_by none def = some def
  get_int_by (some s) def = number (value s)

  abbrev pub get_int : Elements → List ℕ → ℤ → Option ℤ
  get_int es name def = get_int_by (get es name) def

  abbrev pub set_family : Option Family → Loader → Bool × Loader
  set_family none l = (false, record l { exit_code = exit_fail_ipv46_vals })
  set_family (some f) l = (true, record l { getip_def = f })

  abbrev pub read_family : Option ℤ → Option ℤ → Loader → Option (Bool × Loader)
  read_family none b l = none
  read_family (some a) none l = none
  read_family (some a) (some b) l =
      some (set_family (family_of (at_least_zero a) (at_least_zero b)) l)

  abbrev pub load_settings : Option Elements → Loader → Option (Bool × Loader)
  load_settings none l = some (true, l)
  load_settings (some es) l =
      read_family (get_int es (b'i' ∷ b'p' ∷ b'v' ∷ b'4' ∷ []) (pos 1))
        (get_int es (b'i' ∷ b'p' ∷ b'v' ∷ b'6' ∷ []) (pos 0)) l

  abbrev pub load_listeners : Option Elements → Elements → Loader → Option (Bool × Loader)
  load_listeners none cfg l = some (false, record l { exit_code = exit_fail_nolisteners })
  load_listeners (some es) cfg l =
      load_settings
        (children (get cfg (b's' ∷ b'e' ∷ b't' ∷ b't' ∷ b'i' ∷ b'n' ∷ b'g' ∷ b's' ∷ []))) l

  abbrev pub load_config : Elements → Loader → Option (Bool × Loader)
  load_config cfg l =
      let listeners =
        children (get cfg (b'l' ∷ b'i' ∷ b's' ∷ b't' ∷ b'e' ∷ b'n' ∷ b'e' ∷ b'r' ∷ b's' ∷ [])) in
      let prox = children (get cfg (b'p' ∷ b'r' ∷ b'o' ∷ b'x' ∷ b'y' ∷ [])) in
      load_listeners listeners cfg (record l { listeners = listeners; prox = prox })

  -- The file, if there is one.
  abbrev pub load_conf : Option (List ℕ) → Loader → Option (Bool × Loader)
  load_conf none l = some (false, record l { exit_code = exit_fail_noconfig })
  load_conf (some text) l = load_config (parse_settings text) l

-- What a loop over the elements of a block ends with: its result, and the state of its calls.
module _ {S : Type 0} (call : List ℕ → Sts → S → Option (Bool × S)) where
  abbrev pub iterate_on : Option (Bool × S) → (S → Option (Bool × S)) → Option (Bool × S)
  iterate_on none next = none
  iterate_on (some (false, s)) next = some (false, s)
  iterate_on (some (true, s)) next = next s

  -- Comments and names with an exclamation mark are skipped; an element without a name has no `name`.
  abbrev pub visit : Label → Sts → S → Option (Bool × S)
  visit comment b s = some (true, s)
  visit nameless b s = none
  visit (named n) b s = if starts_with b'!' n then some (true, s) else call n b s

  unfoldable pub iterate : Elements → S → Option (Bool × S)
  iterate nil s = some (true, s)
  iterate (cons l b es) s = iterate_on (visit l b s) (iterate es)

  abbrev pub iterate_if : Option Elements → S → Option (Bool × S)
  iterate_if none s = some (true, s)
  iterate_if (some es) s = iterate es s
