-- ===== src/Settings/Values.antt =====
-- What the elements of source/imconee/sts.h say of a name.
use imconee.Common.{
  ℕ, ◌≡◌, refl, ap, ◌∙◌, inl, inr, true, Option, none, some, List, [], ◌∷◌, ==_refl, Bool-cases,
  arith,
}
use mathlib.Core.Option
use imconee.Settings.Tree.{
  Label, named, comment, Sts, sts, Elements, nil, cons, value, empty, same_text, has_name,
  append_element, get, has, put, add_comment, add_block, or_empty, block_of, update,
}
use imconee.Settings.Read.{set_value, set_elements}

abbrev pub value_of : Elements → List ℕ → Option (List ℕ)
value_of es n = Option.map value (get es n)

same_text_refl : (n : List ℕ) → same_text n n ≡ true
same_text_refl [] = refl
same_text_refl (c ∷ n) = rw (==_refl c) (same_text_refl n)

module _ (c : ℕ) (n : List ℕ) where
  value_of-append :
      (es : Elements) (l : Label) (s : Sts) (v : List ℕ)
      → value_of es (c ∷ n) ≡ some v
      → value_of (append_element es l s) (c ∷ n) ≡ some v
  unfolding get append_element
  value_of-append nil l s v e = let bot : ⊥ = cc in absurd bot
  value_of-append (cons k t es) l s v e = elim (Bool-cases (has_name (c ∷ n) k)) [
    | inl h ↦ rw h (rw h at e)
    | inr h ↦ rw h (value_of-append es l s v (rw h at e))
  ]

  pub value_of-comment :
      (es : Elements) (text v : List ℕ)
      → value_of es (c ∷ n) ≡ some v
      → value_of (add_comment es text) (c ∷ n) ≡ some v
  unfolding add_comment
  value_of-comment es text v e = value_of-append es comment (sts text nil) v e

  has-append : (es : Elements) (s : Sts) → has (append_element es (named (c ∷ n)) s) (c ∷ n) ≡ true
  unfolding has append_element
  has-append nil s = rw (==_refl c, same_text_refl n) refl
  has-append (cons k t es) s = rw (has-append es s) (ground arith)

  pub has-add_block : (es : Elements) → has (add_block es (c ∷ n)) (c ∷ n) ≡ true
  unfolding add_block
  has-add_block es = elim (Bool-cases (has es (c ∷ n))) [
    | inl h ↦ rw h h
    | inr h ↦ rw h (has-append es empty)
  ]

  value_of-put :
      (es : Elements) (t : Sts)
      → has es (c ∷ n) ≡ true
      → value_of (put es (c ∷ n) t) (c ∷ n) ≡ some (value t)
  unfolding has get put
  value_of-put nil t h = let bot : ⊥ = cc in absurd bot
  value_of-put (cons l s es) t h = elim (Bool-cases (has_name (c ∷ n) l)) [
    | inl e ↦ rw e (rw e refl)
    | inr e ↦ rw e (rw e (value_of-put es t (rw e at h)))
  ]

  pub value_of-set_value :
      (es : Elements) (v : List ℕ)
      → has es (c ∷ n) ≡ true
      → value_of (set_value es (c ∷ n) v) (c ∷ n) ≡ some v
  unfolding update
  value_of-set_value es v h = value_of-put es _ h

  value_of-has : (es : Elements) (v : List ℕ) → value_of es (c ∷ n) ≡ some v → has es (c ∷ n) ≡ true
  unfolding get has
  value_of-has nil v e = let bot : ⊥ = cc in absurd bot
  value_of-has (cons l s es) v e = elim (Bool-cases (has_name (c ∷ n) l)) [
    | inl h ↦ rw h refl
    | inr h ↦ rw h (value_of-has es v (rw h at e))
  ]

  value-block_of :
      (o : Option Sts) (v : List ℕ) → Option.map value o ≡ some v → value (or_empty o) ≡ v
  value-block_of none v e = let bot : ⊥ = cc in absurd bot
  value-block_of (some s) v e = cc

  -- Reading an inner block leaves the value.
  pub value_of-set_elements :
      (es inner : Elements) (v : List ℕ)
      → value_of es (c ∷ n) ≡ some v
      → value_of (set_elements es (c ∷ n) inner) (c ∷ n) ≡ some v
  unfolding update block_of
  value_of-set_elements es inner v e =
      value_of-put es _ (value_of-has es v e) ∙ ap some (value-block_of (get es (c ∷ n)) v e)
