-- ===== src/Engine/Priority.antt =====
-- What source/imconee/loader.cpp makes of the priorities of the two address families.
use imconee.Common.{
  ℕ, ◌<◌, ◌≡◌, ◌≢◌, ◌↔◌, ◌⊎◌, ap, ◌∙◌, inl, inr, Bool, true, false, Option, none, some, List, [],
  ◌∷◌, ◌==◌, ltb, Bool-cases, arith,
}
use imconee.Net.Address.{Family, prior4, prior6, only4, only6}
use imconee.Settings.Tree.{Elements}
use imconee.Engine.{
  ℤ, pos, exit_fail_ipv46_vals, at_least_zero, family_of, Loader, get_int, set_family, read_family,
  load_settings,
}

abbrev uses4 : Family → Bool
uses4 only6 = false
uses4 _ = true

abbrev uses6 : Family → Bool
uses6 only4 = false
uses6 _ = true

abbrev first4 : Family → Bool
first4 prior4 = true
first4 only4 = true
first4 _ = false

-- The family setting follows two priorities: 0 excludes a family, and the higher one comes first.
pub record Follows (f : Family) (ipv4 ipv6 : ℕ) : Type 0 where
  pub excludes4 : (uses4 f ≡ true) ↔ (0 < ipv4)
  pub excludes6 : (uses6 f ≡ true) ↔ (0 < ipv6)
  pub order : (first4 f ≡ true) ↔ (ipv6 < ipv4)

family_of-Follows : (a b : ℕ) → a ≢ b → (f : Family) × (family_of a b ≡ some f) × Follows f a b
family_of-Follows a b ne = elim (Bool-cases (a == 0)) [
  | inl none4 ↦ (
    only6,
    ground arith,
    record { excludes4 = ground arith; excludes6 = ground arith; order = ground arith },
  )
  | inr some4 ↦ elim (Bool-cases (b == 0)) [
    | inl none6 ↦ (
      only4,
      ground arith,
      record { excludes4 = ground arith; excludes6 = ground arith; order = ground arith },
    )
    | inr some6 ↦ elim (Bool-cases (ltb b a)) [
      | inl lower ↦ (
        prior4,
        ground arith,
        record { excludes4 = ground arith; excludes6 = ground arith; order = ground arith },
      )
      | inr higher ↦ (
        prior6,
        ground arith,
        record { excludes4 = ground arith; excludes6 = ground arith; order = ground arith },
      )
    ]
  ]
]

-- With numbers as the two settings, equal priorities, where negative ones count as 0, stop the loader
-- with the exit code for them; otherwise the family setting follows the priorities.
pub load_settings-family :
    (number : List ℕ → Option ℤ) (es : Elements) (x y : ℤ) (l : Loader)
    → get_int number es (b'i' ∷ b'p' ∷ b'v' ∷ b'4' ∷ []) (pos 1) ≡ some x
    → get_int number es (b'i' ∷ b'p' ∷ b'v' ∷ b'6' ∷ []) (pos 0) ≡ some y
    → ((at_least_zero x ≡ at_least_zero y)
        × (load_settings number (some es) l
            ≡ some (false, record l { exit_code = exit_fail_ipv46_vals })))
      ⊎ ((at_least_zero x ≢ at_least_zero y)
          × ((f : Family) × (load_settings number (some es) l
                ≡ some (true, record l { getip_def = f }))
              × Follows f (at_least_zero x) (at_least_zero y)))
load_settings-family number es x y l e4 e6 =
    let a = at_least_zero x in
    let b = at_least_zero y in
    let read : load_settings number (some es) l ≡ some (set_family number (family_of a b) l) =
      ap (λ o. read_family number o (get_int number es (b'i' ∷ b'p' ∷ b'v' ∷ b'6' ∷ []) (pos 0)) l)
        e4
      ∙ ap (λ o. read_family number (some x) o l) e6 in
    elim (Bool-cases (a == b)) [
      | inl same ↦
          let e : family_of a b ≡ none = ground arith in
          inl (ground arith, read ∙ ap (λ o. some (set_family number o l)) e)
      | inr differ ↦
          let ne : a ≢ b = ground arith in
          let (f, e, follows) = family_of-Follows a b ne in
          inr (ne, (f, read ∙ ap (λ o. some (set_family number o l)) e, follows))
    ]
