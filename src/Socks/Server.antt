-- ===== src/Socks/Server.antt =====
-- handler_socks of source/imconee/handlers.cpp: the server's side of the handshake.
use imconee.Common.{
  ℕ, zero, suc, ◌+◌, ◌/◌, ◌%◌, Bool, true, false, ◌&&◌, ◌||◌, Option, none, some, List, [], ◌∷◌,
  ◌++◌, ltb, ◌==◌, if◌then◌else◌, length, take, drop, get_or, slice, replicate,
}
use imconee.Net.Address.{Family, only4, Ipap, build, same_bytes, as_u32}
use imconee.Net.Endpoint.{Endpoint, unset, set_ipap, set_port, set_domain, get_ip}
use imconee.Net.Packet.{port_of}
use imconee.Net.Session.{Session, ◌>>=◌, done, stop, require, recv, send}

-- The settings of a handler.
pub record Server : Type 0 where
  pub userid : List ℕ
  pub login : List ℕ
  pub pass : List ℕ
  pub socks5_allow_anon : Bool
  pub allow_4 : Bool
  pub allow_5 : Bool

-- std::string::find: the position of `c`, or the length of the string.
unfoldable pub find : ℕ → List ℕ → ℕ
find c [] = 0
find c (x ∷ xs) = let rest = find c xs in if x == c then 0 else suc rest

unfoldable pub is_nil : List ℕ → Bool
is_nil [] = true
is_nil (x ∷ xs) = false

-- The part of a string before the first `:` and the part behind it.
unfoldable pub split_auth : List ℕ → List ℕ × List ℕ
split_auth auth = (take (find 58 auth) auth, drop (find 58 auth + 1) auth)

-- The constructor, from the settings "userid", "auth" and "anon" and the number of the protocol
-- that a listener of type "socks4" or "socks5" has.
unfoldable pub make_server : List ℕ → List ℕ → Bool → List ℕ → Server
make_server userid auth anon st =
    let (l, w) = split_auth auth in
    let long = ltb 254 (length l) || ltb 254 (length w) in
    let login = if long then [] else l in
    record {
      userid = userid;
      login = login;
      pass = if long then [] else w;
      socks5_allow_anon = is_nil login || anon;
      allow_4 = if same_bytes st (53 ∷ []) then false else true;
      allow_5 = if same_bytes st (52 ∷ []) then false else true;
    }

-- rslt, as far as worker uses it.
pub data Answer : Type 0 where
  granted host_unreachable : Answer

-- What a handshake has led to: the endpoint asked for, and whether the bridge to it was made.
pub record Handled : Type 0 where
  pub target : Endpoint
  pub is_bridged : Bool

-- Each step of the choice among the methods that the client offers.
unfoldable pub offer : Server → ℕ → ℕ → ℕ
offer s method rauth =
    if method == 0
    then (if s.socks5_allow_anon && ltb 0 rauth then 0 else rauth)
    else (if method == 2
        then (if (if is_nil s.login then false else true) && ltb 2 rauth then 2 else rauth)
        else rauth)

-- The loop over the methods, which ends when rauth is 0.
unfoldable pub select : Server → List ℕ → ℕ → ℕ
select s [] rauth = rauth
select s (method ∷ methods) rauth =
    let rest = select s methods (offer s method rauth) in if rauth == 0 then rauth else rest

-- `def` is getip_def, `resolve` is dnsresolve, and `connect` says whether handler::connect makes a
-- connection to an endpoint.
module _ (def : Family) (resolve : List ℕ → Ipap → Option Ipap) (connect : Endpoint → Bool)
    (s : Server) where
  -- worker: the answer is sent by the function that the handshake gives.
  unfoldable pub worker : Endpoint → (Answer → Session Bool) → Session Handled
  worker inf answ =
      if connect inf
      then answ granted >>= (λ ok. done (record { target = inf; is_bridged = true }))
      else answ host_unreachable >>= (λ ok. done (record { target = inf; is_bridged = false }))

  unfoldable pub answer4 : ℕ → Ipap → Answer → Session Bool
  answer4 port dst granted = send (0 ∷ 90 ∷ (port / 256) % 256 ∷ port % 256 ∷ as_u32 dst)
  answer4 port dst host_unreachable = send (0 ∷ 92 ∷ (port / 256) % 256 ∷ port % 256 ∷ as_u32 dst)

  -- The loop that reads the user id, up to its zero or beyond 255 bytes.
  unfoldable pub read_userid : ℕ → List ℕ → Session (List ℕ)
  read_userid zero uid = stop
  read_userid (suc fuel) uid = do
    b ← recv 1
    let c = get_or b 0 0
    if (c == 0) || ltb 255 (length uid) then done uid else read_userid fuel (uid ++ (c ∷ []))

  unfoldable pub handshake4 : Session Handled
  handshake4 = do
    ok ← require s.allow_4
    packet ← recv 7
    ok ← require (get_or packet 0 0 == 1)
    let port = port_of (get_or packet 1 0) (get_or packet 2 0)
    let dst = build def (slice 3 4 packet) port
    read_userid 257 [] >>= λ uid.
        if same_bytes uid s.userid
        then worker (set_ipap (unset def) dst) (answer4 port dst)
        else send (0 ∷ 93 ∷ replicate 6 0) >>= λ ok. stop

  -- The request for a login and a password, and its answer.
  unfoldable pub read_credentials : Session Unit
  read_credentials = do
    packet ← recv 2
    ok ← require (get_or packet 0 0 == 1)
    login ← recv (get_or packet 1 0 + 1)
    pass ← recv (get_or login (get_or packet 1 0) 0)
    if same_bytes (take (get_or packet 1 0) login) s.login && same_bytes pass s.pass
        then send (1 ∷ 0 ∷ []) >>= (λ ok. done tt)
        else send (1 ∷ 1 ∷ []) >>= (λ ok. stop)

  unfoldable pub fail_answer : ℕ → Session Handled
  fail_answer code = send (5 ∷ code ∷ 0 ∷ 1 ∷ replicate 6 0) >>= λ ok. stop

  -- The switch over the type of the address; `head` is the fixed part of the request. A type that is
  -- not known leaves the endpoint unset.
  unfoldable pub read_target : List ℕ → Session Endpoint
  read_target head =
      let kind = get_or head 3 0 in
      let first = get_or head 4 0 in
      if kind == 1
      then recv 3 >>= (λ rest. done (set_ipap (unset def) (build def (first ∷ rest) 0)))
      else (if kind == 3
          then recv first >>= (λ name. done (set_domain (unset def) name))
          else (if kind == 4
              then recv 15 >>= (λ rest. done (set_ipap (unset def) (build def (first ∷ rest) 0)))
              else done (unset def)))

  reply_code : Answer → ℕ
  reply_code granted = 0
  reply_code host_unreachable = 4

  unfoldable pub answer5 : ℕ → Endpoint → Answer → Session Bool
  unfolding reply_code
  answer5 port ep ec = send (
      5
      ∷ reply_code ec
      ∷ 0
      ∷ 1
      ∷ (as_u32 (get_ip def resolve false only4 ep).0 ++ ((port / 256) % 256 ∷ port % 256 ∷ [])))

  -- The request for a connection, once its fixed part is read or could not be read.
  unfoldable pub handle_request : Option (List ℕ) → Session Handled
  handle_request none = fail_answer 1
  handle_request (some head) =
      if get_or head 0 0 == 5
      then (if get_or head 1 0 == 1
          then (read_target head >>= λ ep. recv 2 >>= λ bytes.
              let port = port_of (get_or bytes 0 0) (get_or bytes 1 0) in
              worker (set_port ep port) (answer5 port (set_port ep port)))
          else fail_answer 7)
      else fail_answer 1

  -- The request for a connection, behind the choice of the method.
  unfoldable pub read_request : Session Handled
  read_request p = handle_request (recv 5 p).0 (recv 5 p).1

  unfoldable pub handshake5 : Session Handled
  handshake5 = do
    ok ← require s.allow_5
    count ← recv 1
    methods ← recv (get_or count 0 0)
    let rauth = select s methods 255
    send (5 ∷ rauth ∷ []) >>= λ ok. require (ok && (if rauth == 255 then false else true)) >>= λ u.
        if rauth == 2 then read_credentials >>= (λ u'. read_request) else read_request

  unfoldable pub handshake : Session Handled
  handshake = do
    version ← recv 1
    if get_or version 0 0 == 4
        then handshake4
        else (if get_or version 0 0 == 5 then handshake5 else stop)
