-- ===== src/Net/Endpoint.antt =====
-- netkit::endpoint of source/imconee/netkit.h and netkit.cpp. Its address and its type are mutable:
-- an operation that may resolve the name returns the endpoint after it.
use imconee.Common.{ℕ, ◌%◌, Bool, true, false, Option, none, some, List, [], if◌then◌else◌}
use imconee.Net.Address.{Family, prior4, prior6, only4, only6, Ipap, clear, copmpare, same_bytes}

pub data AddrType : Type 0 where
  at_error at_tcp_domain at_tcp_resolved : AddrType

pub record Endpoint : Type 0 where
  pub domain : List ℕ
  pub ip : Ipap
  pub type : AddrType

unfoldable pub unset : Family → Endpoint
unset def = record { domain = []; ip = clear def; type = at_error }

unfoldable pub set_ipap : Endpoint → Ipap → Endpoint
set_ipap e a = record e { ip = a; type = at_tcp_resolved }

unfoldable pub set_port : Endpoint → ℕ → Endpoint
set_port e p = record e { ip = record (e.ip) { port = p % 65536 } }

unfoldable pub set_domain : Endpoint → List ℕ → Endpoint
set_domain e dom = record e { domain = dom; type = at_tcp_domain }

-- operator==
unfoldable pub is_same : Endpoint → Endpoint → Bool
is_same a b = elim a.type [
  | at_tcp_domain ↦ elim b.type [
    | at_tcp_domain ↦ same_bytes a.domain b.domain
    | at_tcp_resolved ↦ copmpare a.ip b.ip
    | at_error ↦ false
  ]
  | at_tcp_resolved ↦ copmpare a.ip b.ip
  | at_error ↦ false
]

-- Whether get_ip may answer with the resolved address, of the family `v4`, without the flag GIP_ANY.
unfoldable pub is_wanted : Family → Bool → Bool
is_wanted prior4 v4 = v4
is_wanted only4 v4 = v4
is_wanted prior6 v4 = if v4 then false else true
is_wanted only6 v4 = if v4 then false else true

-- The resolver is dnsresolve; `any` says whether GIP_ANY is among the options.
module _ (def : Family) (resolve : List ℕ → Ipap → Option Ipap) where
  ask : Endpoint → Ipap × Endpoint
  ask e = elim (resolve e.domain e.ip) [
    | some a ↦ (a, record e { ip = a; type = at_tcp_resolved })
    | none ↦ (clear def, e)
  ]

  unfoldable pub get_ip : Bool → Family → Endpoint → Ipap × Endpoint
  unfolding ask
  get_ip any wanted e = elim e.type [
    | at_tcp_resolved ↦
        if any then (e.ip, e) else (if is_wanted wanted e.ip.v4 then (e.ip, e) else ask e)
    | at_error ↦ (clear def, e)
    | at_tcp_domain ↦ ask e
  ]
