-- ===== src/Socks/UserId.antt =====
-- The loop of handler_socks::handshake4 of source/imconee/handlers.cpp that reads the user id.
use imconee.Common.{
  ℕ, zero, suc, ◌+◌, ◌≤◌, ◌≡◌, refl, ap, ◌∙◌, inl, inr, Bool, true, false, ◌||◌, Option, none, some,
  List, [], ◌∷◌, ◌++◌, ltb, lt→ltb, ◌==◌, length, get_or, arith, length-append, Bool-cases,
}
use imconee.Net.Address.{Family, Ipap}
use imconee.Net.Endpoint.{Endpoint}
use imconee.Net.Session.{Pipe, Session, ◌>>=◌, recv}
use imconee.Socks.Server.{Server, read_userid}

bind-same :
    {A B : Type 0} (m : Session A) (f g : A → Session B) (p : Pipe)
    → ((a : A) (q : Pipe) → f a q ≡ g a q)
    → (m >>= f) p ≡ (m >>= g) p
unfolding ◌>>=◌
bind-same {A} {B} m f g p h = at (m p)
  where
    at :
        (r : Option A × Pipe)
        → ◌≡◌ {A = Option B × Pipe}
            (elim r.0 [ none ↦ (none, r.1) | some a ↦ f a r.1 ])
            (elim r.0 [ none ↦ (none, r.1) | some a ↦ g a r.1 ])
    at (none, q) = refl
    at (some a, q) = h a q

or_right : (a b : Bool) → b ≡ true → (a || b) ≡ true
or_right a b e = ground arith

or_false : (a b : Bool) → (a || b) ≡ false → b ≡ false
or_false a b e = ground arith

module _ (def : Family) (resolve : List ℕ → Ipap → Option Ipap) (connect : Endpoint → Bool)
    (s : Server) where
  more_rounds :
      (fuel m : ℕ) (uid : List ℕ) (p : Pipe)
      → length uid + fuel ≡ 256
      → fuel ≤ m
      → read_userid def resolve connect s (suc m) uid p
        ≡ read_userid def resolve connect s (suc fuel) uid p
  unfolding read_userid
  more_rounds zero m uid p e h = bind-same (recv 1) _ _ p (λ b q.
      let full =
        or_right (get_or b 0 0 == 0) (ltb 255 (length uid))
          (lt→ltb 255 (length uid) (omega (arith, e))) in
      rw full refl)
  more_rounds (suc fuel) zero uid p e h = absurd (omega arith)
  more_rounds (suc fuel) (suc m) uid p e h = bind-same (recv 1) _ _ p (λ b q.
      elim (Bool-cases ((get_or b 0 0 == 0) || ltb 255 (length uid))) [
        | inl end ↦ rw end refl
        | inr on ↦ rw on (
            more_rounds fuel m (uid ++ (get_or b 0 0 ∷ [])) q
              (omega (arith, e, length-append uid (get_or b 0 0 ∷ []))) (omega (arith, h)))
      ])

  -- The user id is read in at most 257 rounds: with more of them the loop gives the same.
  pub read_userid-enough :
      (k : ℕ) (p : Pipe)
      → read_userid def resolve connect s (257 + k) [] p
        ≡ read_userid def resolve connect s 257 [] p
  read_userid-enough k p =
      ap (λ (n : ℕ). read_userid def resolve connect s n [] p) {x = 257 + k} {y = suc (256 + k)}
        (omega arith)
      ∙ more_rounds 256 (256 + k) [] p (omega arith) (omega arith)
