-- ===== src/Shadow/Tests.antt =====
-- A request for the name "ab" and port 443: source/imconee/proxy_ss.cpp and handler_ss.cpp on concrete
-- bytes.
use imconee.Common.{ℕ, Option, none, List, [], ◌∷◌, ◌++◌, arith, true}
use imconee.Net.Address.{prior4, Ipap, clear}
use imconee.Net.Endpoint.{Endpoint, at_tcp_domain}
use imconee.Net.Session.{pipe}
use imconee.Net.Session.Steps.{Gives}
use imconee.Shadow.{request, worker_ss}
use imconee.Socks.Agree.{IsNamed}
use imconee.Shadow.Request.{worker_ss-request}

abbrev no_names : List ℕ → Ipap → Option Ipap
no_names host addr = none

abbrev target : Endpoint
target = record {
  domain = 97 ∷ 98 ∷ [];
  ip = record { v4 = true; address = 0 ∷ 0 ∷ 0 ∷ 0 ∷ []; port = 443 };
  type = at_tcp_domain;
}

target-IsNamed : IsNamed target
target-IsNamed = record { named = omega arith; short = omega arith; port_in = omega arith }

worker_ss-request_example :
    Gives
      (worker_ss prior4)
      (pipe (request prior4 no_names target ++ (1 ∷ 2 ∷ [])) [] [])
      (record {
        domain = target.domain;
        ip = record (clear prior4) { port = target.ip.port };
        type = at_tcp_domain;
      })
      (pipe (1 ∷ 2 ∷ []) [] [])
worker_ss-request_example =
    worker_ss-request prior4 no_names target (1 ∷ 2 ∷ []) [] [] target-IsNamed
