-- ===== src/Socks/Guard.antt =====
-- Who gets through handler_socks::handshake5 of source/imconee/handlers.cpp.
use imconee.Common.{
  ℕ, zero, suc, ◌+◌, ◌≡◌, refl, sym, ap, ◌∙◌, ◌⊎◌, inl, inr, Bool, true, false, ◌&&◌, Option, List,
  [], ◌∷◌, ◌++◌, ◌==◌, ==_iff, if◌then◌else◌, arith, Bool-cases, length, take, get_or, append_assoc,
  length-take,
}
use imconee.Net.Address.{Family, Ipap, same_bytes}
use imconee.Net.Endpoint.{Endpoint}
use imconee.Net.Session.{Pipe}
use imconee.Net.Session.Steps.{
  Gives, bind-Split, recv-front, require-holds, send-keeps, stop-nothing, then-branch, else-branch,
  same_bytes-eq,
}
use imconee.Socks.Server.{Server, select, read_credentials, handshake5, Handled}
use imconee.Socks.Select.{is_offered, chosen, select-chosen}

-- The bytes of a login and a password, as RFC 1929 orders them.
abbrev pub credentials : List ℕ → List ℕ → List ℕ
credentials login pass = 1 ∷ length login ∷ (login ++ (length pass ∷ pass))

-- What the bytes of an authorized client begin with: the methods that it offers, among them one that
-- lets it in.
pub record Authorized (s : Server) (bytes : List ℕ) : Type 0 where
  pub methods : List ℕ
  pub rest : List ℕ
  pub shape : bytes ≡ length methods ∷ (methods ++ rest)
  pub entitled :
      ((s.socks5_allow_anon ≡ true) × (is_offered 0 methods ≡ true))
      ⊎ ((is_offered 2 methods ≡ true)
          × (tail : List ℕ) × (rest ≡ credentials s.login s.pass ++ tail))

-- A list of known length.
one_byte : (xs : List ℕ) → length xs ≡ 1 → xs ≡ get_or xs 0 0 ∷ []
one_byte [] e = absurd (omega arith)
one_byte (x ∷ []) e = refl
one_byte (x ∷ y ∷ xs) e = absurd (omega arith)

two_bytes : (xs : List ℕ) → length xs ≡ 2 → xs ≡ get_or xs 0 0 ∷ get_or xs 1 0 ∷ []
two_bytes [] e = absurd (omega arith)
two_bytes (x ∷ []) e = absurd (omega arith)
two_bytes (x ∷ y ∷ []) e = refl
two_bytes (x ∷ y ∷ z ∷ xs) e = absurd (omega arith)

last_byte : (n : ℕ) (xs : List ℕ) → length xs ≡ n + 1 → xs ≡ take n xs ++ (get_or xs n 0 ∷ [])
last_byte n [] e = absurd (omega arith)
last_byte zero (x ∷ []) e = refl
last_byte zero (x ∷ y ∷ xs) e = absurd (omega arith)
last_byte (suc n) (x ∷ xs) e = ap (λ t. x ∷ t) (last_byte n xs (omega (arith, e)))

-- The parts of the credentials put together.
joined :
    (inbox packet chunk login pass t1 t2 t3 : List ℕ) (k : ℕ)
    → packet ≡ 1 ∷ length login ∷ []
    → chunk ≡ login ++ (length pass ∷ [])
    → inbox ≡ packet ++ t1
    → t1 ≡ chunk ++ t2
    → t2 ≡ pass ++ t3
    → inbox ≡ credentials login pass ++ t3
joined inbox packet chunk login pass t1 t2 t3 k e1 e2 i1 i2 i3 =
    i1
    ∙ rw (e1, i2, e2, i3)
        (ap (λ t. 1 ∷ length login ∷ t)
          (append_assoc login (length pass ∷ []) (pass ++ t3)
            ∙ sym (append_assoc login (length pass ∷ pass) t3)))

both : (a b : Bool) → (a && b) ≡ true → (a ≡ true) × (b ≡ true)
both a b e = ground arith

-- The bytes behind the choice of the password, where the handshake goes on.
read_credentials-shape :
    (s : Server) (def : Family) (resolve : List ℕ → Ipap → Option Ipap) (connect : Endpoint → Bool)
    (p q : Pipe) (u : Unit)
    → Gives (read_credentials def resolve connect s) p u q
    → (tail : List ℕ) × (p.inbox ≡ credentials s.login s.pass ++ tail)
unfolding read_credentials
read_credentials-shape s def resolve connect p q u e =
    let b1 = bind-Split _ _ p u q e in
    let packet = b1.mid in
    let f1 = recv-front 2 p packet b1.at b1.head in
    let b2 = bind-Split _ _ b1.at u q b1.tail in
    let ok = require-holds _ b1.at b2.mid b2.at b2.head in
    let b3 = bind-Split _ _ b2.at u q b2.tail in
    let login = b3.mid in
    let f3 = recv-front _ b2.at login b3.at b3.head in
    let b4 = bind-Split _ _ b3.at u q b3.tail in
    let pass = b4.mid in
    let f4 = recv-front _ b3.at pass b4.at b4.head in
    let n = get_or packet 1 0 in
    elim (Bool-cases (same_bytes (take n login) s.login && same_bytes pass s.pass)) [
      | inl good ↦
          let g = both _ _ good in
          let l = same_bytes-eq (take n login) s.login g.0 in
          let w = same_bytes-eq pass s.pass g.1 in
          let n_is : n ≡ length s.login = omega (arith, length-take n login, f3.1, ap length l) in
          let one = (==_iff (get_or packet 0 0) 1).0 ok.0 in
          let head : packet ≡ 1 ∷ length s.login ∷ [] =
            two_bytes packet f1.1 ∙ ap (λ t. t ∷ n ∷ []) one ∙ ap (λ t. 1 ∷ t ∷ []) n_is in
          let chunk : login ≡ s.login ++ (length s.pass ∷ []) =
            last_byte n login f3.1
            ∙ ap (λ t. t ++ (get_or login n 0 ∷ [])) l
            ∙ ap (λ t. s.login ++ (t ∷ [])) (sym f4.1 ∙ ap length w) in
          (
            b4.at.inbox,
            joined p.inbox packet login s.login s.pass b1.at.inbox b3.at.inbox b4.at.inbox n head
                chunk f1.0 (ap (λ t. t.inbox) ok.1 ∙ f3.0) (f4.0 ∙ ap (λ t. t ++ b4.at.inbox) w),
          )
      | inr bad ↦
          let t = else-branch _ _ b4.at u q _ bad b4.tail in
          let b5 = bind-Split _ _ b4.at u q t in absurd (stop-nothing b5.at u q b5.tail)
    ]

-- The three results of the choice.
chosen-cases :
    (s : Server) (ms : List ℕ)
    → ((chosen s ms 255 ≡ 0) × (s.socks5_allow_anon ≡ true) × (is_offered 0 ms ≡ true))
      ⊎ (((chosen s ms 255 ≡ 2) × (is_offered 2 ms ≡ true)) ⊎ (chosen s ms 255 ≡ 255))
unfolding chosen
chosen-cases s ms = ground arith

-- A client of SOCKS5 whose request reaches the worker has offered to go on without authentication,
-- and the handler allows that, or it has offered the password and has sent the login and the password
-- of the handler.
pub handshake5-Authorized :
    (s : Server) (def : Family) (resolve : List ℕ → Ipap → Option Ipap) (connect : Endpoint → Bool)
    (p q : Pipe) (r : Handled)
    → Gives (handshake5 def resolve connect s) p r q
    → Authorized s p.inbox
unfolding handshake5
handshake5-Authorized s def resolve connect p q r e =
    let b0 = bind-Split _ _ p r q e in
    let allowed = require-holds _ p b0.mid b0.at b0.head in
    let b1 = bind-Split _ _ b0.at r q b0.tail in
    let f1 = recv-front 1 b0.at b1.mid b1.at b1.head in
    let b2 = bind-Split _ _ b1.at r q b1.tail in
    let methods = b2.mid in
    let f2 = recv-front _ b1.at methods b2.at b2.head in
    let rauth = select s methods 255 in
    let b3 = bind-Split _ _ b2.at r q b2.tail in
    let b4 = bind-Split _ _ b3.at r q b3.tail in
    let ok = require-holds _ b3.at b4.mid b4.at b4.head in
    let count : length methods ≡ get_or b1.mid 0 0 = f2.1 in
    let shape : p.inbox ≡ length methods ∷ (methods ++ b2.at.inbox) =
      ap (λ t. t.inbox) allowed.1
      ∙ f1.0
      ∙ ap (λ t. t ++ b1.at.inbox) (one_byte b1.mid f1.1)
      ∙ ap (λ t. t ∷ b1.at.inbox) (sym count)
      ∙ ap (λ t. length methods ∷ t) f2.0 in
    let kept : b2.at.inbox ≡ b4.at.inbox =
      send-keeps _ b2.at b3.mid b3.at b3.head ∙ ap (λ t. t.inbox) ok.1 in
    let choice = select-chosen s methods in
    elim (chosen-cases s methods) [
      | inl anon ↦ record {
        methods = methods;
        rest = b2.at.inbox;
        shape = shape;
        entitled = inl (anon.1, anon.2);
      }
      | inr (inl password) ↦
          let two : (rauth == 2) ≡ true = (==_iff rauth 2).1 (choice ∙ password.0) in
          let t = then-branch _ _ b4.at r q _ two b4.tail in
          let b5 = bind-Split _ _ b4.at r q t in
          let c = read_credentials-shape s def resolve connect b4.at b5.at b5.mid b5.head in
          record {
            methods = methods;
            rest = b2.at.inbox;
            shape = shape;
            entitled = inr (password.1, c.0, kept ∙ c.1);
          }
      | inr (inr none_fits) ↦
          let none_is : (rauth == 255) ≡ true = (==_iff rauth 255).1 (choice ∙ none_fits) in
          let no : (if rauth == 255 then false else true) ≡ true = (both _ _ ok.0).1 in
          let bot : ⊥ =
            (let z : (if rauth == 255 then false else true) ≡ false = rw none_is refl in cc) in
          absurd bot
    ]
