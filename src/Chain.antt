-- ===== src/Chain.antt =====
-- How a handler reaches an endpoint: conn::connect of source/imconee/connect.cpp, and
-- handler::connect of handlers.cpp, which goes through a chain of proxies.
mod Tests
use imconee.Common.{
  ℕ, ◌≡◌, refl, Bool, true, false, ◌||◌, Option, none, some, List, [], ◌∷◌, ◌++◌, if◌then◌else◌,
}
use imconee.Net.Address.{Family, Ipap}
use imconee.Net.Endpoint.{Endpoint, AddrType, at_error, at_tcp_domain, at_tcp_resolved, get_ip}
use imconee.Net.Session.{Pipe, Session}

-- A proxy: its address, and its side of the handshake, which asks for an endpoint.
pub record Proxy : Type 0 where
  pub addr : Endpoint
  pub prepare : Endpoint → Session Unit

-- `reach` makes a connection to an address, or none.
module _ (def : Family) (resolve : List ℕ → Ipap → Option Ipap) (reach : Ipap → Option Pipe) where
  -- conn::connect, once the name is resolved.
  dial_resolved : Endpoint → Option Pipe
  dial_resolved e = elim e.type [
    | at_tcp_resolved ↦ reach e.ip
    | at_tcp_domain ↦ none
    | at_error ↦ none
  ]

  unfoldable pub dial : Endpoint → Option Pipe
  unfolding dial_resolved
  dial addr = elim addr.type [
    | at_tcp_domain ↦ dial_resolved (get_ip def resolve true def addr).1
    | at_tcp_resolved ↦ dial_resolved addr
    | at_error ↦ dial_resolved addr
  ]

  -- `pp = proxychain[i]->prepare(pp, na)`, unless `pp` is null.
  unfoldable pub hop : Proxy → Endpoint → Option Pipe → Option Pipe
  hop x na none = none
  hop x na (some p) = elim (x.prepare na p).0 [ none ↦ none | some u ↦ some (x.prepare na p).1 ]

  -- The loop over the chain: each proxy is asked for the next one, the last for the address.
  unfoldable pub chain_loop : List Proxy → Endpoint → Option Pipe → Option Pipe
  chain_loop [] addr pp = pp
  chain_loop (x ∷ []) addr pp = hop x addr pp
  chain_loop (x ∷ y ∷ ys) addr pp = chain_loop (y ∷ ys) addr (hop x y.addr pp)

  unfoldable pub connect : List Proxy → Endpoint → Bool → Option Pipe
  connect [] addr direct = dial addr
  connect (x ∷ xs) addr direct =
      let through = chain_loop (x ∷ xs) addr (dial x.addr) in if direct then dial addr else through

  chain_loop-append :
      (x last : Proxy) (xs : List Proxy) (addr : Endpoint) (pp : Option Pipe)
      → chain_loop ((x ∷ xs) ++ (last ∷ [])) addr pp
        ≡ hop last addr (chain_loop (x ∷ xs) last.addr pp)
  unfolding chain_loop
  chain_loop-append x last [] addr pp = refl
  chain_loop-append x last (y ∷ ys) addr pp = chain_loop-append y last ys addr (hop x y.addr pp)

  -- A chain with a proxy more at its end reaches an address exactly by reaching that proxy through the
  -- chain and asking it for the address.
  pub connect-append :
      (xs : List Proxy) (last : Proxy) (addr : Endpoint)
      → connect (xs ++ (last ∷ [])) addr false ≡ hop last addr (connect xs last.addr false)
  unfolding connect chain_loop
  connect-append [] last addr = refl
  connect-append (x ∷ xs) last addr = chain_loop-append x last xs addr (dial x.addr)
