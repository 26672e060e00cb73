-- ===== src/Socks/Client.antt =====
-- proxy_socks4 and proxy_socks5 of source/imconee/proxy.cpp: the client's side of the handshake.
use imconee.Common.{
  ℕ, ◌+◌, Bool, true, false, ◌&&◌, ◌||◌, Option, List, [], ◌∷◌, ◌++◌, ltb, ◌==◌, if◌then◌else◌,
  length, take, get_or,
}
use imconee.Net.Order.{to_ne, store_u16}
use imconee.Net.Address.{Family, only4, Ipap, as_u32}
use imconee.Net.Endpoint.{AddrType, at_error, at_tcp_domain, at_tcp_resolved, Endpoint, get_ip}
use imconee.Net.Packet.{push8, push16, pushs, push, cut_to}
use imconee.Net.Session.{Session, ◌>>=◌, done, stop, require, recv, recv_over, recv_ready, send}
use imconee.Socks.Server.{split_auth, is_nil}

-- The constructor of proxy_socks4: a user id of at most 255 bytes.
unfoldable pub make_userid : List ℕ → List ℕ
make_userid userid = if ltb 255 (length userid) then take 255 userid else userid

-- The constructor of proxy_socks5: the packet with the login and the password, empty without one.
unfoldable pub make_authpacket : List ℕ → List ℕ
make_authpacket auth =
    let (user, pwd) = split_auth auth in
    let user' = if ltb 254 (length user) || ltb 254 (length pwd) then [] else user in
    if is_nil user' then [] else push8 1 ++ (pushs user' ++ pushs pwd)

unfoldable pub is_resolved : AddrType → Bool
is_resolved at_error = false
is_resolved at_tcp_domain = false
is_resolved at_tcp_resolved = true

unfoldable pub is_error : AddrType → Bool
is_error at_error = true
is_error at_tcp_domain = false
is_error at_tcp_resolved = false

unfoldable pub not : Bool → Bool
not true = false
not false = true

module _ (def : Family) (resolve : List ℕ → Ipap → Option Ipap) where
  -- connect_packet_socks4 with the user id and its zero.
  unfoldable pub packet4 : List ℕ → ℕ → Ipap → List ℕ
  packet4 userid port ip = 4 ∷ 1 ∷ (store_u16 (to_ne port) ++ (as_u32 ip ++ (userid ++ (0 ∷ []))))

  unfoldable pub prepare4 : List ℕ → Endpoint → Session Unit
  prepare4 userid addr2 =
      let e = (get_ip def resolve false only4 addr2).1 in
      require (is_resolved e.type && not (e.ip.port == 0)) >>= λ u.
      send (packet4 userid e.ip.port (get_ip def resolve false only4 e).0) >>= λ ok.
      require ok >>= λ u'.
      recv 8 >>= λ answ. require ((get_or answ 0 0 == 0) && (get_or answ 1 0 == 90))

  -- The request: an address where the endpoint has no name, and the name where it has one.
  unfoldable pub request5 : Endpoint → List ℕ
  request5 addr2 =
      let a = (get_ip def resolve false def addr2).0 in
      if is_nil addr2.domain
      then cut_to 10
          (push8 5 ++ (push8 1 ++ (push8 0 ++ (push8 (if a.v4 then 1 else 4) ++ push a true))))
      else cut_to (length addr2.domain + 7) (
          push8 5
          ++ (push8 1 ++ (push8 0 ++ (push8 3 ++ (pushs addr2.domain ++ push16 addr2.ip.port)))))

  -- The method offered, and the login where it is chosen.
  unfoldable pub authorize : List ℕ → Session Unit
  authorize authpacket =
      let method = if is_nil authpacket then 0 else 2 in
      send (5 ∷ 1 ∷ method ∷ []) >>= λ ok. require ok >>= λ u. recv 2 >>= λ packet.
      require ((get_or packet 0 0 == 5) && (get_or packet 1 0 == method)) >>= λ u'.
      if is_nil authpacket
      then done tt
      else send authpacket >>= λ ok'.
          require ok' >>= λ u''. recv 2 >>= λ reply. require (get_or reply 1 0 == 0)

  -- The rest of the answer behind its first four bytes, by the type of the address; `ready` bytes
  -- have arrived where a name is read.
  unfoldable pub read_bound : ℕ → ℕ → Session Unit
  read_bound ready kind =
      if kind == 1
      then recv 6 >>= (λ rest. done tt)
      else (if kind == 3
          then recv 1 >>= (λ len. recv_ready ready (get_or len 0 0 + 2) >>= λ rest.
              require (length rest == get_or len 0 0 + 2))
          else (if kind == 4 then recv 18 >>= (λ rest. done tt) else stop))

  -- The results of the two calls of recv are not checked: the bytes that were in the packet before
  -- decide where one fails.
  unfoldable pub read_reply : ℕ → List ℕ → Session Unit
  read_reply ready request = recv_over 2 request >>= λ packet.
      require ((get_or packet 0 0 == 5) && (get_or packet 1 0 == 0)) >>= λ u.
      recv_over 2 packet >>= λ next. read_bound ready (get_or next 1 0)

  unfoldable pub prepare5 : ℕ → List ℕ → Endpoint → Session Unit
  prepare5 ready authpacket addr2 =
      require (not (is_error addr2.type) && not (addr2.ip.port == 0)) >>= λ u.
      authorize authpacket >>= λ u'.
      send (request5 addr2) >>= λ ok. require ok >>= λ u''. read_reply ready (request5 addr2)
