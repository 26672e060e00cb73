-- ===== src/Pointer/Owned.antt =====
-- The pointers of source/imconee/tools.h own their objects.
use imconee.Common.{
  ℕ, zero, suc, ◌+◌, ◌-◌, ◌<◌, ◌≡◌, ◌≢◌, ◌↔◌, inl, inr, refl, true, false, sym, ◌∙◌, ◌==◌, ltb,
  Bool-cases, arith,
}
use imconee.Pointer.{
  unmade, Usable, Store, set_object, add_ref_if, dec_ref_if, unconnect, connect_to, construct_move,
  assign_object, assign_move, destroy, make, Reach, start, made, constructed, copied, moved,
  object_assigned, copy_assigned, move_assigned, destroyed,
}
use imconee.Pointer.Holders.{
  one_if, holders, update, holders-update, holds-holders, holders-positive,
}
use imconee.Pointer.Counts.{
  is_owned, owned-usable, Counts, Counts-same, Counts-add_ref_if, Counts-dec_ref_if,
}

add_ref_if-object : (s : Store) (p : ℕ) → (add_ref_if s p).object ≡ s.object
add_ref_if-object s p = elim (Bool-cases (p == 0)) [ inl e ↦ rw e refl | inr e ↦ rw e refl ]

dec_ref_if-object : (s : Store) (p : ℕ) → (dec_ref_if s p).object ≡ s.object
dec_ref_if-object s p = elim (Bool-cases (p == 0)) [ inl e ↦ rw e refl | inr e ↦ rw e refl ]

update-update : (f : ℕ → ℕ) (v w : ℕ) → update f v (f w) w ≡ f w
update-update f v w = elim (Bool-cases (w == v)) [
  | inl same ↦ rw same refl
  | inr other ↦ rw other refl
]

-- The count that a pointer gives back is one of those that the object has.
given_back :
    (h o a p : ℕ)
    → (o ≡ a → 0 < h)
    → h + one_if (o == p) - one_if (o == a) + one_if (a == o) ≡ h + one_if (p == o)
given_back h o a p has = elim (Bool-cases (o == a)) [
  | inl same ↦ let pos = has (ground arith) in ground arith
  | inr other ↦ ground arith
]

held_count : (n : ℕ) (f : ℕ → ℕ) (v o : ℕ) → v < n → o ≡ f v → 0 < holders n f o
held_count n f v o lt e = rw e (holds-holders n f v lt)

module _ (n : ℕ) where
  abbrev Inv : Store → Type 0
  Inv s = Counts s (holders n s.object)

  -- A state whose counts are off by one pointer that is set next.
  set_object-Inv :
      (s : Store) (v p : ℕ) (f : ℕ → ℕ)
      → v < n
      → Counts s f
      → ((o : ℕ) → o ≢ 0 → f o + one_if (s.object v == o) ≡ holders n s.object o + one_if (p == o))
      → Inv (set_object s v p)
  set_object-Inv s v p f lt c off =
      Counts-same (set_object s v p) f (holders n (update s.object v p))
        (record { refs = c.refs; owners = c.owners })
        (λ o ne. omega (arith, off o ne, holders-update n s.object v p o lt))

  -- The object that a pointer has is there.
  held-Usable : (s : Store) (w : ℕ) → Inv s → w < n → Usable s (s.object w)
  held-Usable s w inv lt = λ ne.
      let owner = inv.owners (s.object w) ne in
      let pos = holds-holders n s.object w lt in
      let test : ltb 0 (holders n s.object (s.object w)) ≡ true = ground arith in
      owned-usable (s.status (s.object w)) (owner ∙ test)

  connect_to-Inv :
      (s : Store) (v p : ℕ) → Inv s → v < n → s.object v ≡ 0 → Usable s p → Inv (connect_to s v p)
  connect_to-Inv s v p inv lt free usable =
      let moved_counts : Counts (set_object s v p) (holders n s.object) = record {
        refs = inv.refs;
        owners = inv.owners;
      } in
      let added = Counts-add_ref_if (set_object s v p) (holders n s.object) p moved_counts usable in
      let same = add_ref_if-object (set_object s v p) p in
      Counts-same (connect_to s v p) (λ o. holders n s.object o + one_if (o == p))
        (holders n (connect_to s v p).object) added
        (λ o ne. rw same (ground (arith, holders-update n s.object v p o lt)))

  assign_object-Inv : (s : Store) (v p : ℕ) → Inv s → v < n → Usable s p → Inv (assign_object s v p)
  assign_object-Inv s v p inv lt usable =
      let r = add_ref_if s p in
      let same = add_ref_if-object s p in
      let added = Counts-add_ref_if s (holders n s.object) p inv usable in
      let same_then : (unconnect r v).object ≡ s.object = dec_ref_if-object r (r.object v) ∙ same in
      let held : r.object v ≢ 0 → 0 < holders n s.object (r.object v) + one_if (r.object v == p) =
        λ ne. rw same (omega (arith, holds-holders n s.object v lt)) in
      let taken =
        Counts-dec_ref_if r (λ o. holders n s.object o + one_if (o == p)) (r.object v) added held in
      set_object-Inv (unconnect r v) v p
        (λ o. (holders n s.object o + one_if (o == p)) - one_if (o == r.object v)) lt taken
        (λ o ne. rw same_then (
          rw same
            (given_back (holders n s.object o) o (s.object v) p (held_count n s.object v o lt))))

  unconnect-Counts :
      (s : Store) (v : ℕ)
      → Inv s
      → v < n
      → Counts (unconnect s v) (λ o. holders n s.object o - one_if (o == s.object v))
  unconnect-Counts s v inv lt =
      Counts-dec_ref_if s (holders n s.object) (s.object v) inv
        (λ ne. holds-holders n s.object v lt)

  unconnect-off :
      (s : Store) (v o : ℕ)
      → v < n
      → o ≢ 0
      → holders n s.object o - one_if (o == s.object v) + one_if (s.object v == o)
        ≡ holders n s.object o
  unconnect-off s v o lt ne =
      ground
        (arith, given_back (holders n s.object o) o (s.object v) 0 (held_count n s.object v o lt))

  destroy-Inv : (s : Store) (v : ℕ) → Inv s → v < n → Inv (destroy s v)
  destroy-Inv s v inv lt =
      let same = dec_ref_if-object s (s.object v) in
      set_object-Inv (unconnect s v) v 0 (λ o. holders n s.object o - one_if (o == s.object v)) lt
        (unconnect-Counts s v inv lt) (λ o ne. rw same (ground (arith, unconnect-off s v o lt ne)))

  -- The pointer `v`, which counts for nothing, takes what `w` has.
  take-Inv :
      (r : Store) (v w : ℕ) (f : ℕ → ℕ)
      → v < n
      → w < n
      → Counts r f
      → ((o : ℕ) → o ≢ 0 → f o + one_if (r.object v == o) ≡ holders n r.object o)
      → Inv (set_object (set_object r v (r.object w)) w 0)
  take-Inv r v w f lt ltw c off =
      Counts-same (set_object (set_object r v (r.object w)) w 0) f
        (holders n (update (update r.object v (r.object w)) w 0))
        (record { refs = c.refs; owners = c.owners })
        (λ o ne.
          let first = holders-update n r.object v (r.object w) o lt in
          let second = holders-update n (update r.object v (r.object w)) w 0 o ltw in
          let second : holders n (update (update r.object v (r.object w)) w 0) o
                + one_if (r.object w == o)
              ≡ holders n (update r.object v (r.object w)) o + one_if (0 == o) =
            rw (update-update r.object v w) at second in
          let null : one_if (0 == o) ≡ 0 = ground arith in omega (arith, off o ne))

  construct_move-Inv :
      (s : Store) (v w : ℕ) → Inv s → v < n → w < n → s.object v ≡ 0 → Inv (construct_move s v w)
  construct_move-Inv s v w inv lt ltw free =
      take-Inv s v w (holders n s.object) lt ltw inv (λ o ne. rw free (ground arith))

  assign_move-Inv : (s : Store) (v w : ℕ) → Inv s → v < n → w < n → Inv (assign_move s v w)
  assign_move-Inv s v w inv lt ltw =
      let same = dec_ref_if-object s (s.object v) in
      take-Inv (unconnect s v) v w (λ o. holders n s.object o - one_if (o == s.object v)) lt ltw
        (unconnect-Counts s v inv lt) (λ o ne. rw same (unconnect-off s v o lt ne))

  unmade_owner :
      (s : Store) (o x : ℕ)
      → Inv s
      → s.status o ≡ unmade
      → o ≡ x
      → x ≢ 0
      → false ≡ ltb 0 (holders n s.object x)
  unmade_owner s o x inv new e ne =
      let new_x : s.status x ≡ unmade = rw e at new in
      let was = inv.owners x ne in
      let was : is_owned unmade ≡ ltb 0 (holders n s.object x) = rw new_x at was in was

  make-Inv : (s : Store) (o : ℕ) → Inv s → s.status o ≡ unmade → Inv (make s o)
  make-Inv s o inv new = record {
    refs = λ x ne. elim (Bool-cases (x == o)) [
      | inl same ↦
          let e : o ≡ x = ground arith in
          let unowned = unmade_owner s o x inv new e ne in rw same (ground (arith, unowned))
      | inr other ↦ rw other (inv.refs x ne)
    ];
    owners = λ x ne. elim (Bool-cases (x == o)) [
      | inl same ↦ let e : o ≡ x = ground arith in rw same (unmade_owner s o x inv new e ne)
      | inr other ↦ rw other (inv.owners x ne)
    ];
  }

  holders-nulls : (m : ℕ) (o : ℕ) → o ≢ 0 → holders m (λ v. 0) o ≡ 0
  holders-nulls zero o ne = refl
  holders-nulls (suc m) o ne = ground (arith, holders-nulls m o ne)

  Reach-Inv : (s : Store) → Reach n s → Inv s
  Reach-Inv s start = record {
    refs = λ o ne. sym (holders-nulls n o ne);
    owners = λ o ne. rw (holders-nulls n o ne) refl;
  }
  Reach-Inv s (made {s = old} r o new) = make-Inv old o (Reach-Inv old r) new
  Reach-Inv s (constructed {s = old} r v p lt free usable) =
      connect_to-Inv old v p (Reach-Inv old r) lt free usable
  Reach-Inv s (copied {s = old} r v w lt ltw free) =
      let inv = Reach-Inv old r in
      connect_to-Inv old v (old.object w) inv lt free (held-Usable old w inv ltw)
  Reach-Inv s (moved {s = old} r v w lt ltw ne free) =
      construct_move-Inv old v w (Reach-Inv old r) lt ltw free
  Reach-Inv s (object_assigned {s = old} r v p lt usable) =
      assign_object-Inv old v p (Reach-Inv old r) lt usable
  Reach-Inv s (copy_assigned {s = old} r v w lt ltw) =
      let inv = Reach-Inv old r in
      assign_object-Inv old v (old.object w) inv lt (held-Usable old w inv ltw)
  Reach-Inv s (move_assigned {s = old} r v w lt ltw) =
      assign_move-Inv old v w (Reach-Inv old r) lt ltw
  Reach-Inv s (destroyed {s = old} r v lt) = destroy-Inv old v (Reach-Inv old r) lt

ltb-positive : (k : ℕ) → ltb 0 k ≡ true → 0 < k
ltb-positive k e = ground arith

-- In every state that a program with pointers below `n` comes to, an object's count is the number of
-- the pointers to it, and the object is owned, that is, it had a pointer and was not killed since,
-- exactly when some pointer has it: no pointer is left to an object that was killed, and none that
-- lost its last pointer is left alive.
pub pointers_own :
    (n : ℕ) (s : Store) (o : ℕ)
    → Reach n s
    → o ≢ 0
    → (s.ref o ≡ holders n s.object o)
      × (is_owned (s.status o) ≡ true ↔ ((v : ℕ) × ((v < n) × (s.object v ≡ o))))
pointers_own n s o r ne =
    let inv = Reach-Inv n s r in
    let owner = inv.owners o ne in
    (
      inv.refs o ne,
      (
        (λ is.
            holders-positive n s.object o (ltb-positive (holders n s.object o) (sym owner ∙ is))),
        (λ (v, (lt, has)).
            let pos : 0 < holders n s.object o = held_count n s.object v o lt (sym has) in
            rw owner (ground arith)),
      ),
    )
