-- ===== src/Shadow/Request.antt =====
-- The request that proxy_shadowsocks::prepare writes, read by handler_ss::worker.
use imconee.Common.{
  ℕ, ◌+◌, ◌*◌, ◌/◌, ◌%◌, ◌≡◌, refl, ap, ◌∙◌, Bool, false, Option, List, [], ◌∷◌, ◌++◌, length,
  arith, take_all, append_assoc, length-append,
}
use imconee.Net.Address.{Family, Ipap, clear}
use imconee.Net.Endpoint.{Endpoint, at_tcp_domain, unset, set_port, set_domain}
use imconee.Net.Packet.{push8, push16, pushs, cut_to, port_of}
use imconee.Net.Session.{pipe, done}
use imconee.Net.Session.Steps.{Gives, bind-join, recv-append}
use imconee.Socks.Server.{is_nil}
use imconee.Socks.Agree.{IsNamed, not_nil}
use imconee.Shadow.{request, read_target_ss, worker_ss}

module _ (def : Family) (resolve : List ℕ → Ipap → Option Ipap) where
  request-name :
      (addr2 : Endpoint)
      → IsNamed addr2
      → request def resolve addr2
        ≡ 3
          ∷ length addr2.domain
          ∷ (addr2.domain ++ (addr2.ip.port / 256 ∷ addr2.ip.port % 256 ∷ []))
  unfolding request cut_to push8 pushs push16
  request-name addr2 v =
      let e : is_nil addr2.domain ≡ false = not_nil addr2.domain v.named in
      let m : length addr2.domain % 256 ≡ length addr2.domain = omega (arith, v.short) in
      let k : (addr2.ip.port / 256) % 256 ≡ addr2.ip.port / 256 = omega (arith, v.port_in) in
      rw (e, m, k)
        (take_all _ _ (
          omega
            (arith, length-append addr2.domain (addr2.ip.port / 256 ∷ addr2.ip.port % 256 ∷ []))))

  -- A request for a name of 1 to 255 bytes and a port is read as an endpoint of that name and that
  -- port, and nothing behind it is read.
  pub worker_ss-request :
      (addr2 : Endpoint) (rest out : List ℕ) (fs : List Bool)
      → IsNamed addr2
      → Gives
          (worker_ss def)
          (pipe (request def resolve addr2 ++ rest) out fs)
          (record {
            domain = addr2.domain;
            ip = record (clear def) { port = addr2.ip.port };
            type = at_tcp_domain;
          })
          (pipe rest out fs)
  unfolding worker_ss read_target_ss done set_domain set_port unset port_of
  worker_ss-request addr2 rest out fs v =
      let name = addr2.domain in
      let high = addr2.ip.port / 256 in
      let low = addr2.ip.port % 256 in
      let behind = name ++ (high ∷ low ∷ rest) in
      let start : request def resolve addr2 ++ rest ≡ 3 ∷ length name ∷ behind =
        ap (λ t. t ++ rest) (request-name addr2 v)
        ∙ ap (λ t. 3 ∷ length name ∷ t) (append_assoc name (high ∷ low ∷ []) rest) in
      let r1 =
        recv-append 2 (pipe (request def resolve addr2 ++ rest) out fs) (3 ∷ length name ∷ [])
          behind start refl in
      let r2 = recv-append (length name) (pipe behind out fs) name (high ∷ low ∷ rest) refl refl in
      let r3 = recv-append 2 (pipe (high ∷ low ∷ rest) out fs) (high ∷ low ∷ []) rest refl refl in
      let port : (high * 256 + low) % 65536 ≡ addr2.ip.port = omega (arith, v.port_in) in
      bind-join _ _ _ _ _ r1
      ∙ bind-join _ _ _ (set_domain (unset def) name) _ (bind-join _ _ _ _ _ r2)
      ∙ bind-join _ _ _ _ _ r3
      ∙ rw port refl
