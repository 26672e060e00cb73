-- ===== src/Net/Session.antt =====
-- What a handshake uses of a netkit::pipe: `recv` of an exact number of bytes, as tcp_pipe::recv of
-- source/imconee/netkit.cpp does for a negative size, and `send`. A handshake is a function of the
-- pipe that stops early with `none`.
pub mod Steps
use imconee.Common.{
  ℕ, ◌+◌, ◌≡◌, refl, sym, ap, ◌∙◌, Bool, true, false, Option, none, some, List, [], ◌∷◌, ◌++◌, min,
  leb, if◌then◌else◌, length, take, drop, length-take, take-append-drop, arith, Bool-cases, inl,
  inr, leb→le, take-append_ge, take_all, drop-append_ge,
}

-- The bytes that the peer sends before it closes, those sent to it, and for each further call of
-- send whether it fails; none fails behind the list.
pub record Pipe : Type 0 where
  pub inbox : List ℕ
  pub outbox : List ℕ
  pub failures : List Bool

abbrev pub Session : Type 0 → Type 0
Session A = Pipe → Option A × Pipe

infixl 5 ◌>>=◌
unfoldable pub ◌>>=◌ : {A B : Type 0} → Session A → (A → Session B) → Session B
(m >>= f) p = elim (m p).0 [ none ↦ (none, (m p).1) | some a ↦ f a (m p).1 ]

unfoldable pub done : {A : Type 0} → A → Session A
done a p = (some a, p)

-- An early return.
unfoldable pub stop : {A : Type 0} → Session A
stop p = (none, p)

-- `if (!ok) return;`
unfoldable pub require : Bool → Session Unit
require ok p = if ok then (some tt, p) else (none, p)

-- recv(data, -n): the bytes, or a result other than n.
unfoldable pub recv : ℕ → Session (List ℕ)
recv n p =
    if leb n (length p.inbox)
    then (some (take n p.inbox), record p { inbox = drop n p.inbox })
    else (none, p)

abbrev pub is_failing : List Bool → Bool
is_failing [] = false
is_failing (f ∷ fs) = f

abbrev pub later : List Bool → List Bool
later [] = []
later (f ∷ fs) = fs

-- send: true but for SEND_FAIL.
unfoldable pub send : List ℕ → Session Bool
send bytes p =
    if is_failing p.failures
    then (some false, record p { failures = later p.failures })
    else (some true, record p { outbox = p.outbox ++ bytes; failures = later p.failures })

-- recv(data, -n) with no check of the result: where it fails, `data` keeps what was in it.
unfoldable pub recv_over : ℕ → List ℕ → Session (List ℕ)
recv_over n old p = if leb n (length p.inbox) then recv n p else (some old, p)

-- recv(data, n): what has arrived, up to n bytes; `ready` bytes have.
unfoldable pub recv_ready : ℕ → ℕ → Session (List ℕ)
recv_ready ready n p =
    (some (take (min n ready) p.inbox), record p { inbox = drop (min n ready) p.inbox })

-- A pipe by its parts.
abbrev pub pipe : List ℕ → List ℕ → List Bool → Pipe
pipe inbox outbox failures = record { inbox = inbox; outbox = outbox; failures = failures }
