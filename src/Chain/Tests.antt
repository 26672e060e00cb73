-- ===== src/Chain/Tests.antt =====
-- A chain of two proxies that accept everything: source/imconee/handlers.cpp at concrete endpoints.
use imconee.Common.{ℕ, ◌≡◌, true, false, Option, none, some, List, [], ◌∷◌, ◌++◌}
use imconee.Net.Address.{prior4, Ipap}
use imconee.Net.Endpoint.{Endpoint, at_tcp_resolved}
use imconee.Net.Session.{Pipe, pipe, done, send, ◌>>=◌}
use imconee.Chain.{Proxy, hop, connect, connect-append}

abbrev no_names : List ℕ → Ipap → Option Ipap
no_names host addr = none

abbrev anyone : Ipap → Option Pipe
anyone a = some (pipe [] [] [])

abbrev host : ℕ → Endpoint
host n = record {
  domain = [];
  ip = record { v4 = true; address = 10 ∷ 0 ∷ 0 ∷ n ∷ []; port = 1080 };
  type = at_tcp_resolved;
}

abbrev relay : ℕ → Proxy
relay n = record { addr = host n; prepare = λ e. send e.ip.address >>= λ ok. done tt }

connect-append_example :
    connect prior4 no_names anyone ((relay 1 ∷ []) ++ (relay 2 ∷ [])) (host 9) false
    ≡ hop prior4 no_names anyone
        (relay 2)
        (host 9)
        (connect prior4 no_names anyone (relay 1 ∷ []) (host 2) false)
connect-append_example = connect-append prior4 no_names anyone (relay 1 ∷ []) (relay 2) (host 9)
