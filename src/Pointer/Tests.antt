-- ===== src/Pointer/Tests.antt =====
-- Runs of the pointers of source/imconee/tools.h.
use imconee.Common.{ℕ, ◌<◌, ◌≡◌, ◌↔◌, refl, true, arith}
use imconee.Pointer.{
  object_assigned, unmade, owned, killed, Store, construct, construct_copy, destroy, make,
  assign_object, assign_move, Reach, start, made, constructed, copied, destroyed,
}
use imconee.Pointer.Holders.{holders}
use imconee.Pointer.Counts.{is_owned}
use imconee.Pointer.Owned.{pointers_own}

abbrev empty_store : Store
empty_store = record { object = λ v. 0; ref = λ o. 0; status = λ o. unmade }

-- Object 5 is given to pointer 0, pointer 1 copies it, and pointer 0 goes.
abbrev shared_store : Store
shared_store = destroy (construct_copy (construct (make empty_store 5) 0 5) 1 0) 0

shared_store-Reach : Reach 2 shared_store
shared_store-Reach =
    destroyed
      (copied (constructed (made start 5 refl) 0 5 (omega arith) refl (λ ne. refl)) 1 0
        (omega arith) (omega arith) refl)
      0 (omega arith)

one_left : shared_store.ref 5 ≡ 1
one_left = refl

self_assigned : (assign_object shared_store 1 5).status 5 ≡ owned
self_assigned = refl

moved_to_itself : (assign_move shared_store 1 1).status 5 ≡ killed
moved_to_itself = refl

-- Pointer 1 is given the object that it has.
abbrev same_store : Store
same_store = assign_object shared_store 1 5

same_store-Reach : Reach 2 same_store
same_store-Reach = object_assigned shared_store-Reach 1 5 (omega arith) (λ ne. refl)

pointers_own_example :
    (same_store.ref 5 ≡ holders 2 same_store.object 5)
    × (is_owned (same_store.status 5) ≡ true ↔ ((v : ℕ) × ((v < 2) × (same_store.object v ≡ 5))))
pointers_own_example = pointers_own 2 same_store 5 same_store-Reach (omega arith)
