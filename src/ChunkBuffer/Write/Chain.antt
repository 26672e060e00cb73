-- ===== src/ChunkBuffer/Write/Chain.antt =====
-- Writing to the last chunk of a chain, and linking a new one behind it.
use imconee.Common.{
  length-copy_at, ℕ, zero, suc, ◌+◌, ◌≤◌, ◌≡◌, refl, sym, ap, ◌∙◌, List, [], ◌∷◌, ◌++◌, arith,
  length, take, copy_at, All, slice-append, slice-copy_at_self, slice-copy_at_before, append_assoc,
  append-nil, take_all,
}
use imconee.ChunkBuffer.{store_at, link_after}
use imconee.ChunkBuffer.Bounds.{stored}

take-copy_at :
    (c : List ℕ) (o : ℕ) (bs : List ℕ)
    → o + length bs ≤ length c
    → take (o + length bs) (copy_at c o bs) ≡ take o c ++ bs
take-copy_at c o bs h = ground (
  arith,
  slice-append 0 o (length bs) (copy_at c o bs),
  slice-copy_at_self c o bs,
  slice-copy_at_before c o bs 0 o,
)

module _ (size : ℕ) where
  pub stored-store_at :
      (cs : List (List ℕ)) (l o : ℕ) (bs : List ℕ)
      → All (λ c. length c ≡ size) cs
      → l + 1 ≡ length cs
      → o + length bs ≤ size
      → stored (store_at cs l o bs) l (o + length bs) ≡ stored cs l o ++ bs
  unfolding store_at
  stored-store_at [] l o bs a e h = absurd (omega arith)
  stored-store_at (c ∷ cs) zero o bs a e h = take-copy_at c o bs (omega arith)
  stored-store_at (c ∷ cs) (suc l) o bs a e h =
      ap (λ t. c ++ t) (stored-store_at cs l o bs a.1 (omega arith) h)
      ∙ sym (append_assoc c (stored cs l o) bs)

  pub store_at-arrays :
      (cs : List (List ℕ)) (l o : ℕ) (bs : List ℕ)
      → All (λ c. length c ≡ size) cs
      → o + length bs ≤ size
      → All (λ c. length c ≡ size) (store_at cs l o bs)
  unfolding store_at
  store_at-arrays [] l o bs a h = tt
  store_at-arrays (c ∷ cs) zero o bs a h = (length-copy_at c o bs (omega arith) ∙ a.0, a.1)
  store_at-arrays (c ∷ cs) (suc l) o bs a h = (a.0, store_at-arrays cs l o bs a.1 h)

  pub length-store_at :
      (cs : List (List ℕ)) (l o : ℕ) (bs : List ℕ) → length (store_at cs l o bs) ≡ length cs
  unfolding store_at
  length-store_at [] l o bs = refl
  length-store_at (c ∷ cs) zero o bs = refl
  length-store_at (c ∷ cs) (suc l) o bs = ap suc (length-store_at cs l o bs)

  pub stored-link_after :
      (cs : List (List ℕ)) (l : ℕ) (n : List ℕ)
      → All (λ c. length c ≡ size) cs
      → l + 1 ≡ length cs
      → stored (link_after cs l n) (l + 1) 0 ≡ stored cs l size
  unfolding link_after
  stored-link_after [] l n a e = absurd (omega arith)
  stored-link_after (c ∷ cs) zero n a e = append-nil c ∙ sym (take_all size c (omega arith))
  stored-link_after (c ∷ cs) (suc l) n a e =
      let step : suc l + 1 ≡ suc (l + 1) = omega arith in
      rw step (ap (λ t. c ++ t) (stored-link_after cs l n a.1 (omega arith)))

  pub link_after-arrays :
      (cs : List (List ℕ)) (l : ℕ) (n : List ℕ)
      → All (λ c. length c ≡ size) cs
      → length n ≡ size
      → All (λ c. length c ≡ size) (link_after cs l n)
  unfolding link_after
  link_after-arrays [] l n a e = tt
  link_after-arrays (c ∷ cs) zero n a e = (a.0, (e, tt))
  link_after-arrays (c ∷ cs) (suc l) n a e = (a.0, link_after-arrays cs l n a.1 e)

  pub length-link_after :
      (cs : List (List ℕ)) (l : ℕ) (n : List ℕ)
      → l + 1 ≡ length cs
      → length (link_after cs l n) ≡ length cs + 1
  unfolding link_after
  length-link_after [] l n e = absurd (omega arith)
  length-link_after (c ∷ cs) zero n e = omega arith
  length-link_after (c ∷ cs) (suc l) n e = omega (arith, length-link_after cs l n (omega arith))
