-- ===== src/Shadow.antt =====
-- The requests of shadowsocks: proxy_shadowsocks::prepare of source/imconee/proxy_ss.cpp writes them
-- and handler_ss::worker of source/imconee/handler_ss.cpp reads them. The pipe is the one behind the
-- cipher, which is in Cipher.
pub mod Request
mod Tests
use imconee.Common.{
  ℕ, ◌+◌, Bool, true, false, ◌&&◌, Option, none, some, List, [], ◌∷◌, ◌++◌, ◌==◌, if◌then◌else◌,
  length, get_or,
}
use imconee.Net.Address.{Family, Ipap, build}
use imconee.Net.Endpoint.{Endpoint, unset, set_ipap, set_port, set_domain, get_ip}
use imconee.Net.Packet.{push8, push16, pushs, push, cut_to, port_of}
use imconee.Net.Session.{Session, ◌>>=◌, done, stop, require, recv, send}
use imconee.Socks.Server.{is_nil}
use imconee.Socks.Client.{is_error, not}

module _ (def : Family) (resolve : List ℕ → Ipap → Option Ipap) where
  unfoldable pub request : Endpoint → List ℕ
  request addr2 =
      let ip = (get_ip def resolve false def addr2).0 in
      if is_nil addr2.domain
      then cut_to 7 (push8 (if ip.v4 then 1 else 4) ++ push ip true)
      else cut_to (length addr2.domain + 4)
          (push8 3 ++ (pushs addr2.domain ++ push16 addr2.ip.port))

  -- There is no answer to wait for.
  unfoldable pub prepare : Endpoint → Session Unit
  prepare addr2 = require (not (is_error addr2.type) && not (addr2.ip.port == 0)) >>= λ u.
      send (request addr2) >>= λ ok. require ok

-- The switch over the type of the address. An IPv6 address is read, and the connection is dropped.
unfoldable pub read_target_ss : Family → List ℕ → Session Endpoint
read_target_ss def head =
    let first = get_or head 1 0 in
    if get_or head 0 0 == 1
    then recv 3 >>= (λ rest. done (set_ipap (unset def) (build def (first ∷ rest) 0)))
    else (if get_or head 0 0 == 3
        then recv first >>= (λ name. done (set_domain (unset def) name))
        else (if get_or head 0 0 == 4 then recv 15 >>= (λ rest. stop) else done (unset def)))

-- The endpoint that the worker connects to.
unfoldable pub worker_ss : Family → Session Endpoint
worker_ss def = do
  head ← recv 2
  ep ← read_target_ss def head
  bytes ← recv 2
  done (set_port ep (port_of (get_or bytes 0 0) (get_or bytes 1 0)))
