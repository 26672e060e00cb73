-- ===== src/Pointer/Counts.antt =====
-- What the calls of source/imconee/tools.h do to the counts of the objects.
use imconee.Common.{
  refl, ℕ, ◌+◌, ◌-◌, ◌<◌, ◌≡◌, ◌≢◌, inl, inr, sym, ap, ◌∙◌, Bool, true, false, ◌==◌, ltb,
  Bool-cases, arith,
}
use imconee.Pointer.{
  with_owner, is_usable, Usable, unmade, fresh, Status, unmade, fresh, owned, killed, Store,
  add_ref_if, dec_ref_if,
}
use imconee.Pointer.Holders.{one_if}

abbrev pub is_owned : Status → Bool
is_owned owned = true
is_owned unmade = false
is_owned fresh = false
is_owned killed = false

-- Each object counts `f` pointers, and has an owner exactly when there is one.
pub record Counts (s : Store) (f : ℕ → ℕ) : Type 0 where
  pub refs : (o : ℕ) → o ≢ 0 → s.ref o ≡ f o
  pub owners : (o : ℕ) → o ≢ 0 → is_owned (s.status o) ≡ ltb 0 (f o)

pub owned-usable : (g : Status) → is_owned g ≡ true → is_usable g ≡ true
owned-usable owned e = refl
owned-usable unmade e = let bot : ⊥ = cc in absurd bot
owned-usable fresh e = refl
owned-usable killed e = let bot : ⊥ = cc in absurd bot

pub Counts-same :
    (s : Store) (f g : ℕ → ℕ) → Counts s f → ((o : ℕ) → o ≢ 0 → g o ≡ f o) → Counts s g
Counts-same s f g c e = record {
  refs = λ o ne. c.refs o ne ∙ sym (e o ne);
  owners = λ o ne. c.owners o ne ∙ ap (λ k. ltb 0 k) (sym (e o ne));
}

with_owner-usable : (g : Status) → is_usable g ≡ true → is_owned (with_owner g) ≡ true
with_owner-usable fresh u = refl
with_owner-usable owned u = refl
with_owner-usable unmade u = let bot : ⊥ = cc in absurd bot
with_owner-usable killed u = let bot : ⊥ = cc in absurd bot

pub Counts-add_ref_if :
    (s : Store) (f : ℕ → ℕ) (p : ℕ)
    → Counts s f
    → Usable s p
    → Counts (add_ref_if s p) (λ o. f o + one_if (o == p))
Counts-add_ref_if s f p c usable = elim (Bool-cases (p == 0)) [
  | inl null ↦ rw null (Counts-same s f (λ o. f o + one_if (o == p)) c (λ o ne. ground arith))
  | inr some_p ↦ rw some_p (record {
    refs = λ o ne. let r = c.refs o ne in ground arith;
    owners = λ o ne. elim (Bool-cases (o == p)) [
      | inl same ↦
          let e : p ≡ o = ground arith in
          let ok : is_usable (s.status p) ≡ true = usable (ground arith) in
          let owner = with_owner-usable (s.status o) (rw e at ok) in
          let some_pointer : ltb 0 (f o + 1) ≡ true = ground arith in
          rw (same, owner) (sym some_pointer)
      | inr other ↦ rw other (let w = c.owners o ne in ground arith)
    ];
  })
]

pub Counts-dec_ref_if :
    (s : Store) (f : ℕ → ℕ) (p : ℕ)
    → Counts s f
    → (p ≢ 0 → 0 < f p)
    → Counts (dec_ref_if s p) (λ o. f o - one_if (o == p))
Counts-dec_ref_if s f p c held = elim (Bool-cases (p == 0)) [
  | inl null ↦ rw null (Counts-same s f (λ o. f o - one_if (o == p)) c (λ o ne. ground arith))
  | inr some_p ↦
      let pos = held (ground arith) in
      rw some_p (record {
        refs = λ o ne. let r = c.refs o ne in ground arith;
        owners = λ o ne.
            let r = c.refs o ne in
            let w = c.owners o ne in
            elim (Bool-cases (o == p)) [
              | inl same ↦
                  let e : o ≡ p = ground arith in
                  let pos_o : 0 < f o = rw e pos in
                  elim (Bool-cases (s.ref o - 1 == 0)) [
                    | inl last ↦ rw (same, last) (ground arith)
                    | inr others ↦ rw (same, others) (ground arith)
                  ]
              | inr other ↦ rw other (ground arith)
            ];
      })
]
