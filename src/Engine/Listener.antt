-- ===== src/Engine/Listener.antt =====
-- listener::build and the constructor of tcp_listener of source/imconee/listener.cpp.
use imconee.Common.{
  ℕ, ◌-◌, ◌%◌, Bool, false, Option, none, some, List, [], ◌∷◌, if◌then◌else◌, ◌==◌,
}
use imconee.Settings.Tree.{Sts, Elements, value, elements, same_text, get}
use imconee.Engine.{
  ℤ, pos, negsuc, exit_ok, exit_fail_nohandler, exit_fail_port_undefined, exit_fail_type_undefined,
  get_int,
}

-- netkit::ipap::parse of the setting with the port put in, and the state of a new listener; the handler
-- is missing when the settings are not complete.
pub record TcpListener (H B : Type 0) : Type 0 where
  pub name : List ℕ
  pub handler : Option H
  pub bind : Option B
  pub port : ℕ

-- (u16)port
abbrev pub to_u16 : ℤ → ℕ
to_u16 (pos n) = n % 65536
to_u16 (negsuc n) = 65535 - n % 65536

abbrev pub is_zero : ℤ → Bool
is_zero (pos n) = n == 0
is_zero (negsuc n) = false

abbrev pub get_string : Elements → List ℕ → List ℕ
get_string es name = elim (get es name) [ none ↦ [] | some s ↦ value s ]

-- `build_handler` is handler::build: the exit code of the loader goes in and comes out.
module _ {H B : Type 0} (number : List ℕ → Option ℤ) (build_handler : ℕ → Sts → Option H × ℕ)
    (parse_bind : List ℕ → B) where
  abbrev pub unprepared : List ℕ → TcpListener H B
  unprepared name = record { name = name; handler = none; bind = none; port = 0 }

  abbrev pub with_handler : List ℕ → Elements → ℤ → Option H × ℕ → TcpListener H B × ℕ
  with_handler name es port (none, code) = (unprepared name, code)
  with_handler name es port (some h, code) = (
    record {
      name = name;
      handler = some h;
      bind = some (parse_bind (get_string es (b'b' ∷ b'i' ∷ b'n' ∷ b'd' ∷ [])));
      port = to_u16 port;
    },
    code,
  )

  abbrev pub find_handler : ℕ → List ℕ → Elements → ℤ → Option Sts → TcpListener H B × ℕ
  find_handler code name es port none = (unprepared name, exit_fail_nohandler)
  find_handler code name es port (some hnd) = with_handler name es port (build_handler code hnd)

  abbrev pub tcp_listener_by : ℕ → List ℕ → Elements → Option ℤ → Option (TcpListener H B × ℕ)
  tcp_listener_by code name es none = none
  tcp_listener_by code name es (some port) = some (
      if is_zero port
      then (unprepared name, exit_fail_port_undefined)
      else find_handler code name es port
          (get es (b'h' ∷ b'a' ∷ b'n' ∷ b'd' ∷ b'l' ∷ b'e' ∷ b'r' ∷ [])))

  abbrev pub tcp_listener : ℕ → List ℕ → Elements → Option (TcpListener H B × ℕ)
  tcp_listener code name es =
      tcp_listener_by code name es (get_int number es (b'p' ∷ b'o' ∷ b'r' ∷ b't' ∷ []) (pos 0))

  -- A listener whose loader has an exit code is deleted.
  abbrev pub keep_listener : Option (TcpListener H B × ℕ) → Option (Option (TcpListener H B) × ℕ)
  keep_listener none = none
  keep_listener (some (l, code)) = some (if code == exit_ok then (some l, code) else (none, code))

  abbrev pub build_listener : ℕ → List ℕ → Sts → Option (Option (TcpListener H B) × ℕ)
  build_listener code name b =
      let t = get_string (elements b) (b't' ∷ b'y' ∷ b'p' ∷ b'e' ∷ []) in
      if same_text t (b't' ∷ b'c' ∷ b'p' ∷ [])
      then keep_listener (tcp_listener code name (elements b))
      else some (none, exit_fail_type_undefined)
