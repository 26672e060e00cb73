-- ===== src/Net/Packet.antt =====
-- netkit::pgen of source/imconee/netkit.h: a packet is written from its start. `pgen` keeps no check
-- of its size: what is sent are the first `sz` bytes of the array, whatever was written.
use imconee.Common.{ℕ, ◌+◌, ◌*◌, ◌/◌, ◌%◌, Bool, List, [], ◌∷◌, ◌++◌, if◌then◌else◌, length, take}
use imconee.Net.Address.{Ipap}

unfoldable pub push8 : ℕ → List ℕ
push8 b = b % 256 ∷ []

unfoldable pub push16 : ℕ → List ℕ
push16 b = (b / 256) % 256 ∷ b % 256 ∷ []

unfoldable pub pushs : List ℕ → List ℕ
pushs s = length s % 256 ∷ s

unfoldable pub push : Ipap → Bool → List ℕ
push ip push_port = ip.address ++ (if push_port then push16 ip.port else [])

-- send(packet, pg.sz) of what was written to `packet`, which is at least as much.
unfoldable pub cut_to : ℕ → List ℕ → List ℕ
cut_to sz written = take sz written

-- The u16 in network order at the front of a packet.
unfoldable pub port_of : ℕ → ℕ → ℕ
port_of high low = high * 256 + low
