-- ===== src/Net/Address/Choice.antt =====
-- Which addresses netkit::dnsresolve of source/imconee/netkit.cpp may choose, and which
-- netkit::ipap::copmpare of netkit.h takes for the same.
use mathlib.Core.Option.{some-injective}
use imconee.Common.{
  ℕ, ◌≡◌, refl, sym, ap, ◌∙◌, ◌↔◌, Bool, true, false, Option, none, some, List, [], ◌∷◌, arith,
}
use imconee.Net.Address.{
  Family, prior4, prior6, only4, only6, Ipap, AddressInfo, pick, set4, set6, choose, dnsresolve,
  copmpare, same_bytes,
}

-- The families that a setting allows.
abbrev pub IsAllowed : Family → Bool → Type 0
IsAllowed only4 v4 = v4 ≡ true
IsAllowed only6 v4 = v4 ≡ false
IsAllowed prior4 v4 = Unit
IsAllowed prior6 v4 = Unit

choose-IsAllowed :
    (def : Family) (addr a : Ipap) (found : Option (List ℕ) × Option (List ℕ))
    → choose def addr found ≡ some a
    → IsAllowed def a.v4 × (a.port ≡ addr.port)
unfolding choose set4 set6
choose-IsAllowed only6 addr a (some x, none) e = let bot : ⊥ = cc in absurd bot
choose-IsAllowed prior4 addr a (some x, none) e =
    (tt, ap (λ t. t.port) (sym (some-injective _ _ e)))
choose-IsAllowed prior6 addr a (some x, none) e =
    (tt, ap (λ t. t.port) (sym (some-injective _ _ e)))
choose-IsAllowed only4 addr a (some x, none) e =
    (ap (λ t. t.v4) (sym (some-injective _ _ e)), ap (λ t. t.port) (sym (some-injective _ _ e)))
choose-IsAllowed only4 addr a (none, some y) e = let bot : ⊥ = cc in absurd bot
choose-IsAllowed prior4 addr a (none, some y) e =
    (tt, ap (λ t. t.port) (sym (some-injective _ _ e)))
choose-IsAllowed prior6 addr a (none, some y) e =
    (tt, ap (λ t. t.port) (sym (some-injective _ _ e)))
choose-IsAllowed only6 addr a (none, some y) e =
    (ap (λ t. t.v4) (sym (some-injective _ _ e)), ap (λ t. t.port) (sym (some-injective _ _ e)))
choose-IsAllowed prior4 addr a (some x, some y) e =
    (tt, ap (λ t. t.port) (sym (some-injective _ _ e)))
choose-IsAllowed only4 addr a (some x, some y) e =
    (ap (λ t. t.v4) (sym (some-injective _ _ e)), ap (λ t. t.port) (sym (some-injective _ _ e)))
choose-IsAllowed prior6 addr a (some x, some y) e =
    (tt, ap (λ t. t.port) (sym (some-injective _ _ e)))
choose-IsAllowed only6 addr a (some x, some y) e =
    (ap (λ t. t.v4) (sym (some-injective _ _ e)), ap (λ t. t.port) (sym (some-injective _ _ e)))
choose-IsAllowed prior4 addr a (none, none) e = let bot : ⊥ = cc in absurd bot
choose-IsAllowed prior6 addr a (none, none) e = let bot : ⊥ = cc in absurd bot
choose-IsAllowed only4 addr a (none, none) e = let bot : ⊥ = cc in absurd bot
choose-IsAllowed only6 addr a (none, none) e = let bot : ⊥ = cc in absurd bot

-- A name is never resolved to an address of a family that the setting excludes, whatever the system
-- answers, and the port stays as it was.
pub dnsresolve-IsAllowed :
    (def : Family) (lookup : Family → List ℕ → Option (List AddressInfo)) (host : List ℕ)
    (addr a : Ipap)
    → dnsresolve def lookup host addr ≡ some a
    → IsAllowed def a.v4 × (a.port ≡ addr.port)
unfolding dnsresolve
dnsresolve-IsAllowed def lookup host addr a e = by_answer (lookup def host) e
  where
    by_answer :
        (o : Option (List AddressInfo))
        → (elim o [ none ↦ none | some infos ↦ choose def addr (pick infos none none) ]) ≡ some a
        → IsAllowed def a.v4 × (a.port ≡ addr.port)
    by_answer none k = let bot : ⊥ = cc in absurd bot
    by_answer (some infos) k = choose-IsAllowed def addr a (pick infos none none) k

bytes-eq : (xs ys : List ℕ) → same_bytes xs ys ≡ true → xs ≡ ys
unfolding same_bytes
bytes-eq [] [] e = refl
bytes-eq [] (y ∷ ys) e = let bot : ⊥ = cc in absurd bot
bytes-eq (x ∷ xs) [] e = let bot : ⊥ = cc in absurd bot
bytes-eq (x ∷ xs) (y ∷ ys) e =
    let h : (x ≡ y) × (same_bytes xs ys ≡ true) = ground arith in
    ap (λ t. x ∷ t) (bytes-eq xs ys h.1) ∙ ap (λ t. t ∷ ys) h.0

bytes_refl : (xs : List ℕ) → same_bytes xs xs ≡ true
unfolding same_bytes
bytes_refl [] = refl
bytes_refl (x ∷ xs) = ground (arith, bytes_refl xs)

same_at :
    (v w : Bool) (x y : List ℕ) (p q : ℕ)
    → let a : Ipap = record { v4 = v; address = x; port = p } in
      let b : Ipap = record { v4 = w; address = y; port = q } in copmpare a b ≡ true → a ≡ b
unfolding copmpare
same_at true true x y p q e =
    let h : (p ≡ q) × (same_bytes x y ≡ true) = ground arith in rw (h.0, bytes-eq x y h.1) refl
same_at true false x y p q e = let bot : ⊥ = cc in absurd bot
same_at false true x y p q e = let bot : ⊥ = cc in absurd bot
same_at false false x y p q e =
    let h : (p ≡ q) × (same_bytes x y ≡ true) = ground arith in rw (h.0, bytes-eq x y h.1) refl

copmpare_refl :
    (v : Bool) (x : List ℕ) (p : ℕ)
    → let a : Ipap = record { v4 = v; address = x; port = p } in copmpare a a ≡ true
unfolding copmpare
copmpare_refl true x p = ground (arith, bytes_refl x)
copmpare_refl false x p = ground (arith, bytes_refl x)

-- Two addresses compare equal exactly when they are of one family and have the same bytes and port.
pub copmpare_iff : (a b : Ipap) → (copmpare a b ≡ true) ↔ (a ≡ b)
copmpare_iff a b = (
  same_at a.v4 b.v4 a.address b.address a.port b.port,
  λ e. rw (← e) (copmpare_refl a.v4 a.address a.port),
)
