-- ===== src/Arena/Memory.antt =====
-- Reading an int where one was written, and elsewhere.
use imconee.Common.{ℕ, ◌+◌, ◌<◌, ◌≤◌, ◌≡◌, ◌⊎◌, arith}
use imconee.Arena.{Mem, load_int, store_int}

pub load_int-store_int : (mem : Mem) (p v : ℕ) → v < 4294967296 → load_int (store_int mem p v) p ≡ v
load_int-store_int mem p v h = ground arith

pub store_int_outside :
    (mem : Mem) (p v x : ℕ) → (x < p) ⊎ (p + 4 ≤ x) → store_int mem p v x ≡ mem x
store_int_outside mem p v x h = ground arith

-- An int is its four bytes.
pub load_int_same :
    (mem new : Mem) (p : ℕ)
    → ((x : ℕ) → p ≤ x → x < p + 4 → new x ≡ mem x)
    → load_int new p ≡ load_int mem p
load_int_same mem new p same =
    let e0 = same p (omega arith) (omega arith) in
    let e1 = same (p + 1) (omega arith) (omega arith) in
    let e2 = same (p + 2) (omega arith) (omega arith) in
    let e3 = same (p + 3) (omega arith) (omega arith) in omega arith
