-- ===== src/Socks/Agree.antt =====
-- The client of source/imconee/proxy.cpp and the server of source/imconee/handlers.cpp, on the same
-- bytes.
use imconee.Common.{
  ℕ, ◌+◌, ◌*◌, ◌/◌, ◌%◌, ◌<◌, ◌≤◌, ◌≡◌, refl, ap, ◌∙◌, Bool, false, Option, List, [], ◌∷◌, ◌++◌,
  ltb, ge→ltb, length, arith, take_all, append_assoc, length-append,
}
use imconee.Net.Address.{Family, Ipap, clear}
use imconee.Net.Endpoint.{Endpoint, at_tcp_domain, unset, set_port, set_domain}
use imconee.Net.Packet.{push8, push16, pushs, cut_to, port_of}
use imconee.Net.Session.{Pipe, pipe, done}
use imconee.Net.Session.Steps.{bind-join, recv-append}
use imconee.Socks.Server.{
  Server, make_server, split_auth, is_nil, read_request, handle_request, read_target, worker,
  answer5,
}
use imconee.Socks.Client.{make_authpacket, request5}
use imconee.Socks.Guard.{credentials}

-- The user part of an "auth" setting is not empty, and neither part is too long.
pub record IsAuth (auth : List ℕ) : Type 0 where
  pub user : 0 < length (split_auth auth).0
  pub user_in : length (split_auth auth).0 ≤ 254
  pub pass_in : length (split_auth auth).1 ≤ 254

pub not_nil : (xs : List ℕ) → 0 < length xs → is_nil xs ≡ false
unfolding is_nil
not_nil [] h = absurd (omega arith)
not_nil (x ∷ xs) h = refl

-- A client and a handler with the same "auth" setting agree: the packet of the client is the login and
-- the password of the handler, as long as the user part is not empty and neither part is too long.
pub make_authpacket-credentials :
    (auth userid st : List ℕ) (anon : Bool)
    → IsAuth auth
    → make_authpacket auth
      ≡ credentials (make_server userid auth anon st).login (make_server userid auth anon st).pass
unfolding make_authpacket make_server push8 pushs
make_authpacket-credentials auth userid st anon v =
    let u = (split_auth auth).0 in
    let w = (split_auth auth).1 in
    let a : ltb 254 (length u) ≡ false = ge→ltb 254 (length u) v.user_in in
    let b : ltb 254 (length w) ≡ false = ge→ltb 254 (length w) v.pass_in in
    let m : length u % 256 ≡ length u = omega (arith, v.user_in) in
    let k : length w % 256 ≡ length w = omega (arith, v.pass_in) in
    let n : is_nil u ≡ false = not_nil u v.user in rw (a, b, n, m, k) refl

-- An endpoint with a name that fits the length byte, and a port.
pub record IsNamed (addr2 : Endpoint) : Type 0 where
  pub named : 0 < length addr2.domain
  pub short : length addr2.domain < 256
  pub port_in : addr2.ip.port < 65536

-- The endpoint of that name and that port, as the server builds it.
abbrev pub named_target : Family → Endpoint → Endpoint
named_target def addr2 = record {
  domain = addr2.domain;
  ip = record (clear def) { port = addr2.ip.port };
  type = at_tcp_domain;
}

module _ (def : Family) (resolve : List ℕ → Ipap → Option Ipap) (connect : Endpoint → Bool)
    (s : Server) where
  request5-name :
      (addr2 : Endpoint)
      → IsNamed addr2
      → request5 def resolve addr2
        ≡ 5
          ∷ 1
          ∷ 0
          ∷ 3
          ∷ length addr2.domain
          ∷ (addr2.domain ++ (addr2.ip.port / 256 ∷ addr2.ip.port % 256 ∷ []))
  unfolding request5 cut_to push8 pushs push16
  request5-name addr2 v =
      let e : is_nil addr2.domain ≡ false = not_nil addr2.domain v.named in
      let m : length addr2.domain % 256 ≡ length addr2.domain = omega (arith, v.short) in
      let k : (addr2.ip.port / 256) % 256 ≡ addr2.ip.port / 256 = omega (arith, v.port_in) in
      rw (e, m, k)
        (take_all _ _ (
          omega
            (arith, length-append addr2.domain (addr2.ip.port / 256 ∷ addr2.ip.port % 256 ∷ []))))

  -- A request that the client writes for a name of 1 to 255 bytes and a port is read by the server up to
  -- its end, and what the server then does is its work for the endpoint of that name and that port.
  pub read_request-request5 :
      (addr2 : Endpoint) (rest out : List ℕ) (fs : List Bool)
      → IsNamed addr2
      → read_request def resolve connect s (pipe (request5 def resolve addr2 ++ rest) out fs)
        ≡ worker def resolve connect s
            (named_target def addr2)
            (answer5 def resolve connect s addr2.ip.port (named_target def addr2))
            (pipe rest out fs)
  unfolding read_request handle_request read_target done set_domain set_port unset port_of
  read_request-request5 addr2 rest out fs v =
      let name = addr2.domain in
      let high = addr2.ip.port / 256 in
      let low = addr2.ip.port % 256 in
      let behind = name ++ (high ∷ low ∷ rest) in
      let start : request5 def resolve addr2 ++ rest ≡ 5 ∷ 1 ∷ 0 ∷ 3 ∷ length name ∷ behind =
        ap (λ t. t ++ rest) (request5-name addr2 v)
        ∙ ap (λ t. 5 ∷ 1 ∷ 0 ∷ 3 ∷ length name ∷ t) (append_assoc name (high ∷ low ∷ []) rest) in
      let r1 =
        recv-append 5 (pipe (request5 def resolve addr2 ++ rest) out fs)
          (5 ∷ 1 ∷ 0 ∷ 3 ∷ length name ∷ []) behind start refl in
      let r2 = recv-append (length name) (pipe behind out fs) name (high ∷ low ∷ rest) refl refl in
      let r3 = recv-append 2 (pipe (high ∷ low ∷ rest) out fs) (high ∷ low ∷ []) rest refl refl in
      let port : high * 256 + low ≡ addr2.ip.port = omega arith in
      let word : addr2.ip.port % 65536 ≡ addr2.ip.port = omega (arith, v.port_in) in
      ap (λ (r : Option (List ℕ) × Pipe). handle_request def resolve connect s r.0 r.1) r1
      ∙ (bind-join _ _ _ (set_domain (unset def) name) _ (bind-join _ _ _ _ _ r2)
          ∙ bind-join _ _ _ _ _ r3
          ∙ rw (port, word) refl)
