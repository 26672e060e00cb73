-- ===== src/Net/Address.antt =====
-- netkit::ipap of source/imconee/netkit.h, and the choice of an address in netkit::dnsresolve.
pub mod Choice
pub mod Text
pub mod RoundTrip
use imconee.Common.{
  ℕ, Bool, true, false, ◌&&◌, Option, none, some, List, [], ◌∷◌, ◌++◌, ◌==◌, if◌then◌else◌, length,
  replicate,
}

-- getip_options without the two flags; netkit::getip_def is one of them.
pub data Family : Type 0 where
  prior4 prior6 only4 only6 : Family

-- `address` holds the bytes of the member of the union that `v4` says is in use: 4 or 16.
pub record Ipap : Type 0 where
  pub v4 : Bool
  pub address : List ℕ
  pub port : ℕ

unfoldable pub is_v4_default : Family → Bool
is_v4_default prior4 = true
is_v4_default prior6 = false
is_v4_default only4 = true
is_v4_default only6 = false

-- ipap(): all zeros, of the family that comes first.
unfoldable pub clear : Family → Ipap
clear def =
    if is_v4_default def
    then record { v4 = true; address = replicate 4 0; port = 0 }
    else record { v4 = false; address = replicate 16 0; port = 0 }

-- An IPv4 packet is put over the first bytes of the union, and `v4` stays what ipap() made it.
unfoldable pub build : Family → List ℕ → ℕ → Ipap
build def packet port =
    if length packet == 4
    then (if is_v4_default def
        then record { v4 = true; address = packet; port = port }
        else record { v4 = false; address = packet ++ replicate 12 0; port = port })
    else (if length packet == 16
        then record { v4 = false; address = packet; port = port }
        else record (clear def) { port = port })

-- localhost(v4)
unfoldable pub localhost : Bool → Ipap
localhost true = record { v4 = true; address = 127 ∷ 0 ∷ 0 ∷ 1 ∷ []; port = 0 }
localhost false = record { v4 = false; address = replicate 15 0 ++ (1 ∷ []); port = 0 }

unfoldable pub same_bytes : List ℕ → List ℕ → Bool
same_bytes [] [] = true
same_bytes [] (y ∷ ys) = false
same_bytes (x ∷ xs) [] = false
same_bytes (x ∷ xs) (y ∷ ys) = (x == y) && same_bytes xs ys

unfoldable pub is_wildcard : Ipap → Bool
is_wildcard a = same_bytes a.address (replicate (length a.address) 0)

-- copmpare_a: the addresses without the ports.
unfoldable pub copmpare_a : Ipap → Ipap → Bool
copmpare_a a b =
    if a.v4
    then (if b.v4 then same_bytes a.address b.address else false)
    else (if b.v4 then false else same_bytes a.address b.address)

unfoldable pub copmpare : Ipap → Ipap → Bool
copmpare a b =
    if a.v4
    then (if b.v4 then (a.port == b.port) && same_bytes a.address b.address else false)
    else (if b.v4 then false else (a.port == b.port) && same_bytes a.address b.address)

-- The four bytes of operator u32 in memory.
unfoldable pub as_u32 : Ipap → List ℕ
as_u32 a = if a.v4 then a.address else replicate 4 0

-- What getaddrinfo returns, entry by entry.
pub data AddressInfo : Type 0 where
  inet inet6 : List ℕ → AddressInfo
  other : AddressInfo

-- The loop over the entries: the last of each family stays.
unfoldable pub pick :
    List AddressInfo → Option (List ℕ) → Option (List ℕ) → Option (List ℕ) × Option (List ℕ)
pick [] a4 a6 = (a4, a6)
pick (inet a ∷ es) a4 a6 = pick es (some a) a6
pick (inet6 a ∷ es) a4 a6 = pick es a4 (some a)
pick (other ∷ es) a4 a6 = pick es a4 a6

-- addr.set(a4, false) and addr.set(a6, false)
unfoldable pub set4 : Ipap → List ℕ → Ipap
set4 addr a = record addr { v4 = true; address = a }

unfoldable pub set6 : Ipap → List ℕ → Ipap
set6 addr a = record addr { v4 = false; address = a }

unfoldable pub choose : Family → Ipap → Option (List ℕ) × Option (List ℕ) → Option Ipap
unfolding set4 set6
choose only6 addr (some a, none) = none
choose prior4 addr (some a, none) = some (set4 addr a)
choose prior6 addr (some a, none) = some (set4 addr a)
choose only4 addr (some a, none) = some (set4 addr a)
choose only4 addr (none, some b) = none
choose prior4 addr (none, some b) = some (set6 addr b)
choose prior6 addr (none, some b) = some (set6 addr b)
choose only6 addr (none, some b) = some (set6 addr b)
choose prior4 addr (some a, some b) = some (set4 addr a)
choose only4 addr (some a, some b) = some (set4 addr a)
choose prior6 addr (some a, some b) = some (set6 addr b)
choose only6 addr (some a, some b) = some (set6 addr b)
choose def addr (none, none) = none

-- `lookup` is getaddrinfo: `none` where it fails. The result is `addr` after the call, or `none` for
-- false, which leaves `addr` as it is.
unfoldable pub dnsresolve :
    Family → (Family → List ℕ → Option (List AddressInfo)) → List ℕ → Ipap → Option Ipap
unfolding choose
dnsresolve def lookup host addr = elim (lookup def host) [
  | none ↦ none
  | some infos ↦ choose def addr (pick infos none none)
]
