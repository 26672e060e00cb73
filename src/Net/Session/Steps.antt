-- ===== src/Net/Session/Steps.antt =====
-- What the steps of a session have done where they did not stop.
use mathlib.Core.Option.{some-injective}
use imconee.Common.{
  ℕ, ◌≡◌, refl, sym, ap, ◌∙◌, inl, inr, Bool, true, false, Option, none, some, List, [], ◌∷◌, ◌++◌,
  leb, leb→le, le→leb, if◌then◌else◌, length, take, drop, length-take, take-append-drop, arith,
  Bool-cases, take_all, drop-append_ge, take-append_le, length-append,
}
use imconee.Net.Address.{same_bytes}
use imconee.Net.Session.{Pipe, Session, ◌>>=◌, stop, require, recv, send, is_failing, later}

-- The result of a step.
abbrev pub Gives : {A : Type 0} → Session A → Pipe → A → Pipe → Type 0
Gives m p a q = m p ≡ (some a, q)

-- A step and what comes after it.
pub record Split {A B : Type 0} (m : Session A) (f : A → Session B) (p : Pipe) (b : B) (q : Pipe)
    : Type 0 where
  pub mid : A
  pub at : Pipe
  pub head : Gives m p mid at
  pub tail : Gives (f mid) at b q

module _ {A B : Type 0} (m : Session A) (f : A → Session B) (p : Pipe) where
  pub bind-Split : (b : B) (q : Pipe) → Gives (m >>= f) p b q → Split m f p b q
  unfolding ◌>>=◌
  bind-Split b q e = split_at (m p) refl e
    where
      split_at :
          (r : Option A × Pipe)
          → m p ≡ r
          → ◌≡◌ {A = Option B × Pipe}
              (elim r.0 [ none ↦ (none, r.1) | some a ↦ f a r.1 ])
              (some b, q)
          → Split m f p b q
      split_at (none, p') h k = absurd (none-some (ap (λ t. t.0) k))
        where
          none-some : ◌≡◌ {A = Option B} none (some b) → ⊥
          none-some z = cc
      split_at (some a, p') h k = record { mid = a; at = p'; head = h; tail = k }

  pub bind-join : (a : A) (q : Pipe) → Gives m p a q → (m >>= f) p ≡ f a q
  unfolding ◌>>=◌
  bind-join a q e =
      ap (λ (r : Option A × Pipe). elim r.0 [ none ↦ (none, r.1) | some x ↦ f x r.1 ]) e

pub recv-front :
    (n : ℕ) (p : Pipe) (bytes : List ℕ) (q : Pipe)
    → Gives (recv n) p bytes q
    → (p.inbox ≡ bytes ++ q.inbox) × (length bytes ≡ n)
unfolding recv
recv-front n p bytes q e = elim (Bool-cases (leb n (length p.inbox))) [
  | inl fits ↦
      let k : ◌≡◌ {A = Option (List ℕ) × Pipe}
          (some (take n p.inbox), record p { inbox = drop n p.inbox }) (some bytes, q) =
        rw (← e) (rw fits refl) in
      let out : take n p.inbox ≡ bytes = some-injective _ _ (ap (λ t. t.0) k) in
      let left : drop n p.inbox ≡ q.inbox = ap (λ t. t.1.inbox) k in
      (
        rw (← out, ← left) (sym (take-append-drop n p.inbox)),
        rw (← out) (omega (arith, length-take n p.inbox, leb→le n (length p.inbox) fits)),
      )
  | inr short ↦
      let k : ◌≡◌ {A = Option (List ℕ) × Pipe} (none, p) (some bytes, q) =
        rw (← e) (rw short refl) in
      absurd (none-some bytes (ap (λ t. t.0) k))
]
  where
    none-some : (b : List ℕ) → ◌≡◌ {A = Option (List ℕ)} none (some b) → ⊥
    none-some b z = cc

-- Reading from the front of what the peer sends.
pub recv-append :
    (n : ℕ) (p : Pipe) (bytes rest : List ℕ)
    → p.inbox ≡ bytes ++ rest
    → length bytes ≡ n
    → Gives (recv n) p bytes (record p { inbox = rest })
unfolding recv
recv-append n p bytes rest e k =
    let fits = le→leb n (length p.inbox) (rw e (omega (arith, length-append bytes rest, k))) in
    let out : take n p.inbox ≡ bytes =
      rw (e, ← k)
        (take-append_le (length bytes) bytes rest (omega arith)
          ∙ take_all (length bytes) bytes (omega arith)) in
    let left : drop n p.inbox ≡ rest =
      rw (e, ← k)
        (drop-append_ge (length bytes) bytes rest (omega arith)
          ∙ ap (λ k. drop k rest) {y = 0} (omega arith)) in
    rw (fits, out, left) refl

pub require-holds :
    (ok : Bool) (p : Pipe) (u : Unit) (q : Pipe) → Gives (require ok) p u q → (ok ≡ true) × (p ≡ q)
unfolding require
require-holds true p u q e = (refl, ap (λ t. t.1) e)
require-holds false p u q e = absurd (none-some (ap (λ t. t.0) e))
  where
    none-some : ◌≡◌ {A = Option Unit} none (some u) → ⊥
    none-some z = cc

pub send-keeps :
    (bytes : List ℕ) (p : Pipe) (ok : Bool) (q : Pipe)
    → Gives (send bytes) p ok q
    → p.inbox ≡ q.inbox
unfolding send
send-keeps bytes p ok q e = elim (Bool-cases (is_failing p.failures)) [
  | inl bad ↦
      ap (λ (t : Option Bool × Pipe). t.1.inbox)
        {x = (some false, record p { failures = later p.failures })} {y = (some ok, q)}
        (rw (← e) (rw bad refl))
  | inr good ↦
      ap (λ (t : Option Bool × Pipe). t.1.inbox)
        {x = (some true, record p { outbox = p.outbox ++ bytes; failures = later p.failures })}
        {y = (some ok, q)} (rw (← e) (rw good refl))
]

pub stop-nothing : {A : Type 0} (p : Pipe) (a : A) (q : Pipe) → Gives stop p a q → ⊥
unfolding stop
stop-nothing {A} p a q e = none-some (ap (λ t. t.0) e)
  where
    none-some : ◌≡◌ {A = Option A} none (some a) → ⊥
    none-some z = cc

pub same_bytes-eq : (xs ys : List ℕ) → same_bytes xs ys ≡ true → xs ≡ ys
unfolding same_bytes
same_bytes-eq [] [] e = refl
same_bytes-eq [] (y ∷ ys) e = let bot : ⊥ = cc in absurd bot
same_bytes-eq (x ∷ xs) [] e = let bot : ⊥ = cc in absurd bot
same_bytes-eq (x ∷ xs) (y ∷ ys) e =
    let h : (x ≡ y) × (same_bytes xs ys ≡ true) = ground arith in
    ap (λ t. x ∷ t) (same_bytes-eq xs ys h.1) ∙ ap (λ t. t ∷ ys) h.0

pub same_bytes_refl : (xs : List ℕ) → same_bytes xs xs ≡ true
unfolding same_bytes
same_bytes_refl [] = refl
same_bytes_refl (x ∷ xs) = ground (arith, same_bytes_refl xs)

module _ {A : Type 0} (x y : Session A) (p : Pipe) (a : A) (q : Pipe) where
  pub then-branch : (b : Bool) → b ≡ true → Gives (if b then x else y) p a q → Gives x p a q
  then-branch true e g = g
  then-branch false e g = let bot : ⊥ = cc in absurd bot

  pub else-branch : (b : Bool) → b ≡ false → Gives (if b then x else y) p a q → Gives y p a q
  else-branch true e g = let bot : ⊥ = cc in absurd bot
  else-branch false e g = g
