-- ===== src/Settings/Trim.antt =====
-- The two versions of str::ltrim of source/imconee/str_helpers.h.
use imconee.Common.{
  ℕ, suc, ◌-◌, ◌≡◌, refl, sym, ap, ◌∙◌, true, false, List, [], ◌∷◌, ◌++◌, length, drop, All, arith,
}
use imconee.Settings.Text.{is_blank, count_blank, ltrim, ltrim_view}

module _ (d : ℕ) (t : List ℕ) (full : is_blank d ≡ false) where
  ltrim-drops : (bs : List ℕ) → All (λ b. is_blank b ≡ true) bs → ltrim (bs ++ d ∷ t) ≡ d ∷ t
  unfolding ltrim
  ltrim-drops [] h = rw full refl
  ltrim-drops (b ∷ bs) (h, hs) = rw h (ltrim-drops bs hs)

  count_blank-length :
      (bs : List ℕ) → All (λ b. is_blank b ≡ true) bs → count_blank (bs ++ d ∷ t) ≡ length bs
  unfolding count_blank
  count_blank-length [] h = rw full refl
  count_blank-length (b ∷ bs) (h, hs) = rw h (ap suc (count_blank-length bs hs))

  drop-last :
      (bs : List ℕ) (b : ℕ)
      → All (λ c. is_blank c ≡ true) (b ∷ bs)
      → (y : ℕ) × (is_blank y ≡ true) × (drop (length bs) (b ∷ (bs ++ d ∷ t)) ≡ y ∷ d ∷ t)
  drop-last [] b (h, hs) = (b, h, refl)
  drop-last (c ∷ bs) b (h, hs) = drop-last bs c hs

-- Of a text with blanks in front of its first other byte, ltrim of a string drops the blanks, and ltrim
-- of a view drops all of them but one.
pub ltrim_view-ltrim :
    (b : ℕ) (bs : List ℕ) (d : ℕ) (t : List ℕ)
    → All (λ c. is_blank c ≡ true) (b ∷ bs)
    → is_blank d ≡ false
    → (ltrim (b ∷ (bs ++ d ∷ t)) ≡ d ∷ t)
      × ((y : ℕ) × (is_blank y ≡ true)
          × (ltrim_view (b ∷ (bs ++ d ∷ t)) ≡ y ∷ ltrim (b ∷ (bs ++ d ∷ t))))
unfolding ltrim_view
ltrim_view-ltrim b bs d t h full =
    let whole = ltrim-drops d t full (b ∷ bs) h in
    let (y, blank, e) = drop-last d t full bs b h in
    let kept =
      ap (λ k. drop (k - 1) (b ∷ (bs ++ d ∷ t))) (count_blank-length d t full (b ∷ bs) h)
      ∙ ap (λ k. drop k (b ∷ (bs ++ d ∷ t))) {x = suc (length bs) - 1} (omega arith)
      ∙ e
      ∙ ap (λ u. y ∷ u) (sym whole) in
    (whole, (y, blank, kept))
