-- ===== src/Net/Order.antt =====
-- Byte order: cvt, to_ne and to_he of source/imconee/netkit.h, on a little-endian host.
use imconee.Common.{ℕ, ◌+◌, ◌*◌, ◌/◌, ◌%◌, ◌<◌, ◌≡◌, List, [], ◌∷◌, arith, get_or}

-- Swaps the two bytes of a u16.
unfoldable pub to_ne : ℕ → ℕ
to_ne v = (v % 256) * 256 + (v / 256) % 256

unfoldable pub to_he : ℕ → ℕ
to_he v = (v % 256) * 256 + (v / 256) % 256

-- The bytes of a u16 in the memory of the host, and the u16 at the front of some bytes.
unfoldable pub store_u16 : ℕ → List ℕ
store_u16 v = v % 256 ∷ (v / 256) % 256 ∷ []

unfoldable pub load_u16 : List ℕ → ℕ
load_u16 bytes = get_or bytes 0 0 + 256 * get_or bytes 1 0

-- Taking a u16 to the network and back gives it again.
pub to_he-to_ne : (v : ℕ) → v < 65536 → to_he (to_ne v) ≡ v
unfolding to_he to_ne
to_he-to_ne v h = omega arith

-- The bytes that to_ne leaves in memory are the big-endian ones, and are read back by to_he.
pub to_ne_bytes :
    (v : ℕ)
    → v < 65536
    → (store_u16 (to_ne v) ≡ v / 256 ∷ v % 256 ∷ []) × (to_he (load_u16 (store_u16 (to_ne v))) ≡ v)
unfolding to_he to_ne store_u16 load_u16
to_ne_bytes v h = (ground arith, ground arith)
