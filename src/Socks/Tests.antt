-- ===== src/Socks/Tests.antt =====
-- A handler with the login "u" and the password "p", and a client that sends them:
-- source/imconee/handlers.cpp on concrete bytes.
use imconee.Common.{◌+◌, arith, ◌++◌, ℕ, ◌≡◌, refl, Bool, true, false, Option, none, List, [], ◌∷◌}
use imconee.Net.Address.{prior4, Ipap, clear, is_v4_default, same_bytes, as_u32}
use imconee.Net.Endpoint.{Endpoint, at_tcp_domain, unset, set_port, set_domain, get_ip}
use imconee.Net.Session.{Pipe, pipe, ◌>>=◌, require, recv, send, done}
use imconee.Net.Packet.{port_of}
use imconee.Net.Session.Steps.{Gives}
use imconee.Socks.Server.{
  Server, Handled, handshake5, select, offer, is_nil, read_credentials, read_request,
  handle_request, read_target, worker, answer5, make_server, split_auth, find, read_userid,
}
use imconee.Socks.Client.{make_authpacket, request5}
use imconee.Socks.Agree.{
  IsAuth, make_authpacket-credentials, IsNamed, named_target, read_request-request5,
}
use imconee.Socks.UserId.{read_userid-enough}
use imconee.Socks.Guard.{credentials, Authorized, handshake5-Authorized}

abbrev no_names : List ℕ → Ipap → Option Ipap
no_names host addr = none

abbrev anywhere : Endpoint → Bool
anywhere e = true

abbrev server : Server
server = record {
  userid = [];
  login = 117 ∷ [];
  pass = 112 ∷ [];
  socks5_allow_anon = false;
  allow_4 = true;
  allow_5 = true;
}

-- Both methods are offered; then come the login and the password, and a request for "ab" at port 80.
abbrev client : Pipe
client = pipe (2 ∷ 0 ∷ 2 ∷ 1 ∷ 1 ∷ 117 ∷ 1 ∷ 112 ∷ 5 ∷ 1 ∷ 0 ∷ 3 ∷ 2 ∷ 97 ∷ 98 ∷ 0 ∷ 80 ∷ []) [] []

abbrev handled : Handled
handled = record {
  target = record {
    domain = 97 ∷ 98 ∷ [];
    ip = record (clear prior4) { port = 80 };
    type = at_tcp_domain;
  };
  is_bridged = true;
}

abbrev answered : Pipe
answered = pipe [] (5 ∷ 2 ∷ 1 ∷ 0 ∷ 5 ∷ 0 ∷ 0 ∷ 1 ∷ 0 ∷ 0 ∷ 0 ∷ 0 ∷ 0 ∷ 80 ∷ []) []

handshake5_test : Gives (handshake5 prior4 no_names anywhere server) client handled answered
unfolding handshake5 ◌>>=◌ require recv send select offer is_nil read_credentials same_bytes done
    read_request handle_request read_target worker answer5 set_port as_u32 set_domain clear
    is_v4_default port_of get_ip unset
handshake5_test = refl

handshake5-Authorized_example : Authorized server client.inbox
handshake5-Authorized_example =
    handshake5-Authorized server prior4 no_names anywhere client answered handled handshake5_test

-- The setting "u:p".
abbrev auth : List ℕ
auth = 117 ∷ 58 ∷ 112 ∷ []

auth-IsAuth : IsAuth auth
unfolding split_auth find
auth-IsAuth = record { user = omega arith; user_in = omega arith; pass_in = omega arith }

make_authpacket-credentials_example :
    make_authpacket auth
    ≡ credentials (make_server [] auth false []).login (make_server [] auth false []).pass
make_authpacket-credentials_example = make_authpacket-credentials auth [] [] false auth-IsAuth

abbrev target : Endpoint
target = record {
  domain = 97 ∷ 98 ∷ [];
  ip = record { v4 = true; address = 0 ∷ 0 ∷ 0 ∷ 0 ∷ []; port = 80 };
  type = at_tcp_domain;
}

target-IsNamed : IsNamed target
target-IsNamed = record { named = omega arith; short = omega arith; port_in = omega arith }

read_request-request5_example :
    read_request prior4 no_names anywhere server
      (pipe (request5 prior4 no_names target ++ []) [] [])
    ≡ worker prior4 no_names anywhere server
        (named_target prior4 target)
        (answer5 prior4 no_names anywhere server target.ip.port (named_target prior4 target))
        (pipe [] [] [])
read_request-request5_example =
    read_request-request5 prior4 no_names anywhere server target [] [] [] target-IsNamed

read_userid-enough_example :
    read_userid prior4 no_names anywhere server (257 + 3) [] client
    ≡ read_userid prior4 no_names anywhere server 257 [] client
read_userid-enough_example = read_userid-enough prior4 no_names anywhere server 3 client
