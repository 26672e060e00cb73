-- ===== src/Cipher/SkipBuf.antt =====
-- ss::core::skip_buf: the bytes of a buffer behind the `skip` that are used up.
use imconee.Common.{
  ℕ, ◌+◌, ◌-◌, ◌*◌, ◌≤◌, ◌≡◌, Bool, ◌&&◌, List, [], ◌++◌, arith, ltb, if◌then◌else◌, length, drop,
  drop-append_le, length-drop, length-append, drop-drop,
}

-- `cap` is the capacity of the buffer under it.
pub record SkipBuf : Type 0 where
  pub bytes : List ℕ
  pub skip : ℕ
  pub cap : ℕ

-- data() and size()
abbrev pub view : SkipBuf → List ℕ
view b = drop b.skip b.bytes

abbrev pub size : SkipBuf → ℕ
size b = length b.bytes - b.skip

unfoldable pub clear : SkipBuf → SkipBuf
clear b = record b { bytes = []; skip = 0 }

unfoldable pub erase : SkipBuf → ℕ → SkipBuf
erase b n = record b { skip = b.skip + n }

-- The buffer moves its bytes to the front before it would grow, once much is used up.
must_compact : SkipBuf → List ℕ → Bool
must_compact b d = ltb (500 * 1024) b.skip && ltb b.cap (length b.bytes + length d)

-- operator+=; `grow cap n` is the capacity after the buffer below has taken its length to `n`.
unfoldable pub add : (ℕ → ℕ → ℕ) → SkipBuf → List ℕ → SkipBuf
unfolding must_compact
add grow b d =
    if must_compact b d
    then record { bytes = view b ++ d; skip = 0; cap = grow b.cap (size b + length d) }
    else record {
      bytes = b.bytes ++ d;
      skip = b.skip;
      cap = grow b.cap (length b.bytes + length d);
    }

abbrev pub IsSkip : SkipBuf → Type 0
IsSkip b = b.skip ≤ length b.bytes

-- Adding bytes puts them behind those in view, whether the buffer is compacted or not.
pub add_refines :
    (grow : ℕ → ℕ → ℕ) (b : SkipBuf) (d : List ℕ)
    → IsSkip b
    → (view (add grow b d) ≡ view b ++ d) × IsSkip (add grow b d)
unfolding add
add_refines grow b d h = ground (arith, drop-append_le b.skip b.bytes d, length-append b.bytes d)

pub erase_refines :
    (b : SkipBuf) (n : ℕ)
    → IsSkip b
    → n ≤ size b
    → (view (erase b n) ≡ drop n (view b)) × IsSkip (erase b n)
unfolding erase
erase_refines b n h k = ground (arith, drop-drop n b.skip b.bytes)

pub length-view : (b : SkipBuf) → length (view b) ≡ size b
length-view b = length-drop b.skip b.bytes
