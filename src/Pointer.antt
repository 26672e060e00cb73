-- ===== src/Pointer.antt =====
-- ptr::shared_ptr and ptr::shared_object of source/imconee/tools.h: objects that count the pointers to
-- them. An address that is 0 is the null pointer, and the pointers are numbered.
pub mod Holders
pub mod Counts
pub mod Owned
mod Tests
use imconee.Common.{ℕ, ◌+◌, ◌-◌, ◌<◌, ◌≡◌, ◌≢◌, Bool, true, false, ◌==◌, if◌then◌else◌}

-- What has become of an object: it is not made yet, it is made and no pointer has had it, it has an
-- owner, or it was killed.
pub data Status : Type 0 where
  unmade fresh owned killed : Status

-- `object` of each pointer, and `ref` of each object.
pub record Store : Type 0 where
  pub object : ℕ → ℕ
  pub ref : ℕ → ℕ
  pub status : ℕ → Status

abbrev pub set_object : Store → ℕ → ℕ → Store
set_object s v p = record s { object = λ w. if w == v then p else s.object w }

-- An object that was killed stays killed, whoever counts a pointer to it.
abbrev pub with_owner : Status → Status
with_owner fresh = owned
with_owner owned = owned
with_owner unmade = unmade
with_owner killed = killed

-- shared_object_t::add_ref
abbrev pub add_ref : Store → ℕ → Store
add_ref s p = record s {
  ref = λ o. if o == p then s.ref o + 1 else s.ref o;
  status = λ o. if o == p then with_owner (s.status o) else s.status o;
}

-- shared_object_t::dec_ref, with intref::operator().
abbrev pub dec_ref : Store → ℕ → Store
dec_ref s p = record s {
  ref = λ o. if o == p then s.ref o - 1 else s.ref o;
  status = λ o. if o == p then (if s.ref o - 1 == 0 then killed else s.status o) else s.status o;
}

-- The calls behind `if (p)`.
abbrev pub add_ref_if : Store → ℕ → Store
add_ref_if s p = if p == 0 then s else add_ref s p

abbrev pub dec_ref_if : Store → ℕ → Store
dec_ref_if s p = if p == 0 then s else dec_ref s p

-- shared_ptr::unconnect
abbrev pub unconnect : Store → ℕ → Store
unconnect s v = dec_ref_if s (s.object v)

-- shared_ptr::connect
abbrev pub connect_to : Store → ℕ → ℕ → Store
connect_to s v p = add_ref_if (set_object s v p) p

-- shared_ptr(T*), shared_ptr(const shared_ptr&) and shared_ptr(shared_ptr&&)
abbrev pub construct : Store → ℕ → ℕ → Store
construct s v p = connect_to s v p

abbrev pub construct_copy : Store → ℕ → ℕ → Store
construct_copy s v w = connect_to s v (s.object w)

abbrev pub construct_move : Store → ℕ → ℕ → Store
construct_move s v w = set_object (set_object s v (s.object w)) w 0

-- operator=(T*), operator=(const shared_ptr&) and operator=(shared_ptr&&)
abbrev pub assign_object : Store → ℕ → ℕ → Store
assign_object s v p = set_object (unconnect (add_ref_if s p) v) v p

abbrev pub assign_copy : Store → ℕ → ℕ → Store
assign_copy s v w = assign_object s v (s.object w)

abbrev pub assign_move : Store → ℕ → ℕ → Store
assign_move s v w = let r = unconnect s v in set_object (set_object r v (r.object w)) w 0

-- ~shared_ptr: the pointer is gone, and its number is free.
abbrev pub destroy : Store → ℕ → Store
destroy s v = set_object (unconnect s v) v 0

-- shared_object_t(), with the `value = 0` of intref.
abbrev pub make : Store → ℕ → Store
make s o = record s {
  ref = λ x. if x == o then 0 else s.ref x;
  status = λ x. if x == o then fresh else s.status x;
}

abbrev pub is_usable : Status → Bool
is_usable fresh = true
is_usable owned = true
is_usable unmade = false
is_usable killed = false

-- A plain pointer that the program gives to a shared_ptr is null or of an object that is there.
abbrev pub Usable : Store → ℕ → Type 0
Usable s p = p ≢ 0 → is_usable (s.status p) ≡ true

-- The program, with pointers below `n`; a pointer is constructed under a free number.
pub data Reach (n : ℕ) : Store → Type 0 where
  start : Reach n (record { object = λ v. 0; ref = λ o. 0; status = λ o. unmade })
  made : {s : Store} → Reach n s → (o : ℕ) → s.status o ≡ unmade → Reach n (make s o)
  constructed :
      {s : Store}
      → Reach n s
      → (v p : ℕ) → v < n
      → s.object v ≡ 0
      → Usable s p
      → Reach n (construct s v p)
  copied :
      {s : Store}
      → Reach n s
      → (v w : ℕ) → v < n
      → w < n
      → s.object v ≡ 0
      → Reach n (construct_copy s v w)
  moved :
      {s : Store}
      → Reach n s
      → (v w : ℕ) → v < n
      → w < n
      → v ≢ w
      → s.object v ≡ 0
      → Reach n (construct_move s v w)
  object_assigned :
      {s : Store} → Reach n s → (v p : ℕ) → v < n → Usable s p → Reach n (assign_object s v p)
  copy_assigned : {s : Store} → Reach n s → (v w : ℕ) → v < n → w < n → Reach n (assign_copy s v w)
  -- `v` and `w` may be the same pointer.
  move_assigned : {s : Store} → Reach n s → (v w : ℕ) → v < n → w < n → Reach n (assign_move s v w)
  destroyed : {s : Store} → Reach n s → (v : ℕ) → v < n → Reach n (destroy s v)
