-- ===== src/Settings/Stored.antt =====
-- What the tokenizer of source/imconee/sts.cpp makes of a stored value.
use mathlib.Core.List.{append-nil, append_assoc}
use imconee.Common.{
  ℕ, ◌≡◌, refl, sym, ap, ◌∙◌, inl, inr, false, some, List, [], ◌∷◌, ◌++◌, ◌==◌, Bool-cases, arith,
}
use imconee.Settings.Text.{
  starts_with, ends, split_end, drop_end, trim_token, token_end, is_space_or_tab,
}
use imconee.Settings.Read.{quoted}
use imconee.Settings.Store.{has_special, has_slashes, double_quotes}

pub quoted-double_quotes :
    (v w part rest : List ℕ)
    → starts_with b'`' rest ≡ false
    → quoted false w part (double_quotes v ++ b'`' ∷ rest)
      ≡ record { text = w ++ (part ++ v); rest = some rest }
unfolding quoted
quoted-double_quotes [] w part rest last = rw (last, append-nil part) refl
quoted-double_quotes (c ∷ v) w part rest last = elim (Bool-cases (c == b'`')) [
  | inl quote ↦
      let e : c ≡ b'`' = ground arith in
      rw (quote, quoted-double_quotes v (w ++ (part ++ b'`' ∷ [])) [] rest last)
        (ap (λ t. record { text = t; rest = some rest })
          (append_assoc w (part ++ b'`' ∷ []) v
            ∙ ap (λ t. w ++ t) (append_assoc part (b'`' ∷ []) v)
            ∙ ap (λ d. w ++ (part ++ d ∷ v)) (sym e)))
  | inr plain ↦ rw plain (
      rw (plain, quoted-double_quotes v w (part ++ c ∷ []) rest last)
        (ap (λ t. record { text = w ++ t; rest = some rest }) (append_assoc part (c ∷ []) v)))
]

-- No byte of the text ends a token that goes up to a closing brace.
module _ (r : List ℕ) where
  split_end-value :
      (v : List ℕ)
      → has_special v ≡ false
      → has_slashes v ≡ false
      → split_end b'}' (v ++ b'\r' ∷ r) ≡ (v, b'\r' ∷ r)
  unfolding split_end
  split_end-value [] h k = refl
  split_end-value (c ∷ []) h k = let e : ends b'}' c (b'\r' ∷ r) ≡ false = ground arith in rw e refl
  split_end-value (c ∷ d ∷ v) h k =
      let e : ends b'}' c (d ∷ (v ++ b'\r' ∷ r)) ≡ false = ground arith in
      rw (e, split_end-value (d ∷ v) (ground arith) (ground arith)) refl

pub drop_end-value : (v : List ℕ) → has_special v ≡ false → drop_end is_space_or_tab v ≡ v
unfolding drop_end
drop_end-value [] h = refl
drop_end-value (c ∷ []) h = let e : is_space_or_tab c ≡ false = ground arith in rw e refl
drop_end-value (c ∷ d ∷ v) h = rw (drop_end-value (d ∷ v) (ground arith)) refl

pub token-value :
    (v r : List ℕ)
    → has_special v ≡ false
    → has_slashes v ≡ false
    → (token_end b'}' (v ++ b'\r' ∷ r)).token ≡ v
unfolding token_end trim_token
token-value [] r h k = ap trim_token (ap (λ p. p.0) (split_end-value r [] h k))
token-value (c ∷ v) r h k =
    ap (λ p. trim_token p.0) (split_end-value r (c ∷ v) h k)
    ∙ ap (λ t. c ∷ t) (drop_end-value v (ground arith))
