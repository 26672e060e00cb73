-- ===== src/ChunkBuffer/Assign.antt =====
-- chunk_buffer::assign puts its data in place of the bytes held, unless it leaves `last` behind.
use imconee.Common.{
  ℕ, zero, suc, ◌+◌, ◌-◌, ◌≤◌, ◌<◌, ◌≡◌, refl, sym, ap, ◌∙◌, ◌⊎◌, inl, inr, List, [], ◌∷◌, min,
  arith, length, take, drop, copy_at, All, length-replicate, length-take, length-drop,
  slice-copy_at_self, take-append-drop, take_all, Bool-cases, ltb, ltb→lt, ltb→ge, ge→ltb,
  length-copy_at,
}
use imconee.ChunkBuffer.{ChunkBuffer, assign_loop, assign, head_chunk, next_chunks}
use imconee.ChunkBuffer.Bounds.{stored, contents, IsValid}

abbrev Arrays : ℕ → List (List ℕ) → Type 0
Arrays size cs = All (λ c. length c ≡ size) cs

module _ (size : ℕ) where
  length-head_chunk : (cs : List (List ℕ)) → Arrays size cs → length (head_chunk size cs) ≡ size
  length-head_chunk [] a = length-replicate size 0
  length-head_chunk (c ∷ cs) a = a.0

  next_chunks-Arrays : (cs : List (List ℕ)) → Arrays size cs → Arrays size (next_chunks size cs)
  next_chunks-Arrays [] a = tt
  next_chunks-Arrays (c ∷ cs) a = a.1

  whole_chunk :
      (cs : List (List ℕ)) (part : List ℕ)
      → Arrays size cs
      → length part ≡ size
      → copy_at (head_chunk size cs) 0 part ≡ part
  whole_chunk cs part a e =
      sym (
        take_all (length part) _ (
          omega (
            arith,
            length-copy_at (head_chunk size cs) 0 part (omega (arith, e, length-head_chunk cs a)),
            length-head_chunk cs a,
            e,
          )))
      ∙ slice-copy_at_self (head_chunk size cs) 0 part (omega (arith, e, length-head_chunk cs a))

  at_ch : {last n : ℕ} → (last ≡ 0) ⊎ (size < n) → n ≤ size → last ≡ 0
  at_ch o h = ground arith

  -- What a chain holds after the loop.
  record Filled (bytes : List ℕ) (cs : List (List ℕ)) (l ls : ℕ) : Type 0 where
    arrays : Arrays size cs
    last_in : l + 1 ≡ length cs
    last_fits : ls ≤ size
    held : stored cs l ls ≡ bytes

  assign_loop-Filled :
      (fuel : ℕ) (cs : List (List ℕ)) (last : ℕ) (bytes : List ℕ)
      → 0 < size
      → Arrays size cs
      → 0 < length bytes
      → length bytes ≤ fuel
      → (last ≡ 0) ⊎ (size < length bytes)
      → let (cs', l, ls) = assign_loop size fuel cs last bytes in Filled bytes cs' l ls
  unfolding assign_loop
  assign_loop-Filled zero cs last bytes pos a ne f o = absurd (omega arith)
  assign_loop-Filled (suc fuel) cs last bytes pos a ne f o =
      let cpy = min size (length bytes) in
      let part = take cpy bytes in
      let n : length part ≡ cpy = omega (arith, length-take cpy bytes) in
      let len =
        length-copy_at (head_chunk size cs) 0 part (omega (arith, n, length-head_chunk cs a))
        ∙ length-head_chunk cs a in
      let self =
        slice-copy_at_self (head_chunk size cs) 0 part (omega (arith, n, length-head_chunk cs a)) in
      elim (Bool-cases (ltb 0 (length bytes - cpy))) [
        | inl more ↦
            let go : 0 < length bytes - cpy = ltb→lt _ _ more in
            let ih =
              assign_loop-Filled fuel (next_chunks size cs) 0 (drop cpy bytes) pos
                (next_chunks-Arrays cs a) (omega (arith, go, length-drop cpy bytes))
                (omega (arith, go, length-drop cpy bytes)) (inl refl) in
            rw more (record {
              arrays = (len, ih.arrays);
              last_in = omega (arith, ih.last_in);
              last_fits = ih.last_fits;
              held = ground (
                arith,
                whole_chunk cs part a (omega (arith, n, go)),
                ih.held,
                take-append-drop cpy bytes,
              );
            })
        | inr done ↦
            let small : length bytes ≤ size = omega (arith, ltb→ge _ _ done) in
            rw (done, at_ch o small)
              (record {
                arrays = (len, tt);
                last_in = refl;
                last_fits = omega arith;
                held =
                    ap (λ k. take k (copy_at (head_chunk size cs) 0 part)) (sym n)
                    ∙ self
                    ∙ take_all cpy bytes (omega arith);
              })
      ]

  only_chunk : (l : ℕ) {n m : ℕ} → l + 1 ≡ n → (n ≤ 1) ⊎ (size < m) → (l ≡ 0) ⊎ (size < m)
  only_chunk l e (inl h) = inl (omega arith)
  only_chunk l e (inr h) = inr h

  assign-Filled :
      (cs : List (List ℕ)) (l fs ls : ℕ) (bytes : List ℕ)
      → let b : ChunkBuffer = record { chunks = cs; last = l; first_skip = fs; last_size = ls } in
        0 < size
        → IsValid size b
        → 0 < length bytes
        → (length cs ≤ 1) ⊎ (size < length bytes)
        → let b' = assign size b bytes in
          Filled bytes b'.chunks b'.last b'.last_size × (b'.first_skip ≡ 0)
  unfolding assign
  assign-Filled cs l fs ls [] pos v ne o = absurd (omega arith)
  assign-Filled [] l fs ls (x ∷ xs) pos v ne o = (
    assign_loop-Filled (length (x ∷ xs)) [] 0 (x ∷ xs) pos tt ne (omega arith) (inl refl),
    elim v.unread [ inl e ↦ e | inr u ↦ absurd (u.0 refl) ],
  )
  assign-Filled (c ∷ cs) l fs ls (x ∷ xs) pos v ne o = (
    assign_loop-Filled (length (x ∷ xs)) (c ∷ cs) l (x ∷ xs) pos v.chain.arrays ne (omega arith)
        (only_chunk l (v.chain.last_in (λ e. cc)) o),
    refl,
  )

-- Assigning puts the data in place of what is held: where the buffer has one chunk at most, or the
-- data takes more than one.
pub assign_refines :
    (size : ℕ) {b : ChunkBuffer} (bytes : List ℕ)
    → 0 < size
    → IsValid size b
    → (length b.chunks ≤ 1) ⊎ (size < length bytes)
    → (contents (assign size b bytes) ≡ bytes) × IsValid size (assign size b bytes)
unfolding assign
assign_refines size {b} [] pos v o = (
  refl,
  record {
    chain = record { arrays = tt; last_in = λ ne. absurd (ne refl); last_fits = omega arith };
    unread = inl refl;
  },
)
assign_refines size {b} (x ∷ xs) pos v o =
    let f =
      assign-Filled size b.chunks b.last b.first_skip b.last_size (x ∷ xs) pos v (omega arith) o in
    (
      rw f.1 f.0.held,
      record {
        chain = record {
          arrays = f.0.arrays;
          last_in = λ _. f.0.last_in;
          last_fits = f.0.last_fits;
        };
        unread = inl f.1;
      },
    )

assign_dangles_at :
    (size : ℕ) (cs : List (List ℕ)) (l fs ls : ℕ) (bytes : List ℕ)
    → l + 1 ≡ length cs
    → 1 < length cs
    → 0 < length bytes
    → length bytes ≤ size
    → let b : ChunkBuffer = record { chunks = cs; last = l; first_skip = fs; last_size = ls } in
      length (assign size b bytes).chunks ≤ (assign size b bytes).last
unfolding assign assign_loop
assign_dangles_at size cs l fs ls [] e more ne small = absurd (omega arith)
assign_dangles_at size [] l fs ls (x ∷ xs) e more ne small = absurd (omega arith)
assign_dangles_at size (c ∷ cs) l fs ls (x ∷ xs) e more ne small =
    rw (ge→ltb 0 (length (x ∷ xs) - min size (length (x ∷ xs))) (omega arith)) (omega arith)

-- Otherwise `last` points to no chunk of the chain: the chunk was deleted.
pub assign_dangles :
    (size : ℕ) {b : ChunkBuffer} (bytes : List ℕ)
    → IsValid size b
    → 1 < length b.chunks
    → 0 < length bytes
    → length bytes ≤ size
    → length (assign size b bytes).chunks ≤ (assign size b bytes).last
assign_dangles size {b} bytes v more ne small =
    assign_dangles_at size b.chunks b.last b.first_skip b.last_size bytes
      (v.chain.last_in (λ e. absurd (omega (arith, ap length e)))) more ne small
