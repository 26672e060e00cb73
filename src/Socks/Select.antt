-- ===== src/Socks/Select.antt =====
-- The choice of the method by handler_socks::handshake5 of source/imconee/handlers.cpp.
use imconee.Common.{
  ℕ, ◌≡◌, refl, Bool, true, false, ◌&&◌, ◌||◌, List, [], ◌∷◌, ◌==◌, if◌then◌else◌, arith,
}
use imconee.Socks.Server.{Server, offer, select, is_nil}

-- Whether a method is among those offered.
unfoldable pub is_offered : ℕ → List ℕ → Bool
is_offered m [] = false
is_offered m (x ∷ xs) = (x == m) || is_offered m xs

-- What the handler may choose: nothing if anonymous access is allowed and offered, else the password
-- if there is a login and it is offered.
unfoldable pub chosen : Server → List ℕ → ℕ → ℕ
chosen s methods otherwise =
    if s.socks5_allow_anon && is_offered 0 methods
    then 0
    else (if (if is_nil s.login then false else true) && is_offered 2 methods then 2 else otherwise)

module _ (s : Server) where
  select-zero : (methods : List ℕ) → select s methods 0 ≡ 0
  unfolding select
  select-zero [] = refl
  select-zero (m ∷ ms) = refl

  select-two : (methods : List ℕ) → select s methods 2 ≡ chosen s methods 2
  unfolding select chosen offer is_offered
  select-two [] = ground arith
  select-two (m ∷ ms) = ground (arith, select-two ms, select-zero ms)

  -- The method chosen among those that a client offers is 0 if anonymous access is allowed and
  -- offered, else 2 if there is a login and 2 is offered, else 255, whatever the order of the offers.
  pub select-chosen : (methods : List ℕ) → select s methods 255 ≡ chosen s methods 255
  unfolding select chosen offer is_offered
  select-chosen [] = ground arith
  select-chosen (m ∷ ms) = ground (arith, select-chosen ms, select-two ms, select-zero ms)
