-- ===== src/CryptoPipe/Receive.antt =====
-- crypto_pipe::recv of source/imconee/cipher_ss.cpp, over whatever pieces the pipe below delivers.
use mathlib.Core.Path.{subst}
use imconee.Common.{
  ℕ, ◌≤◌, ◌<◌, ◌≡◌, refl, sym, ap, ◌∙◌, inl, inr, List, [], ◌∷◌, ◌++◌, min, leb, leb→le, leb→gt,
  Bool-cases, length, take, drop, length-drop, take-append-drop, take_all, drop_all, take-append_le,
  drop-append_le, append_assoc, append-nil, All, arith,
}
use imconee.Cipher.Mode.{AeadPair}
use imconee.Cipher.Filter.{flatten}
use imconee.Cipher.Frames.{IsPayload, nonce_behind}
use imconee.Cipher.Decipher.{Decryptor, Outcome, returned}
use imconee.Cipher.Stream.Feed.{
  Waiting, decipher-Fed, later_payloads, flatten-append, Waiting-drained,
}
use imconee.CryptoPipe.{
  Incoming, Received, received, Progress, absorb, after_round, recv_loop, hand_out, recv_exactly,
  recv_at_most, recv_once, hand_up_to, temp_size,
}

-- Each further call of recv has something, and they are enough for all the bytes.
abbrev pub Delivers : Incoming → Type 0
Delivers i = All (λ r. 0 < r) i.ready × (length i.bytes ≤ length i.ready)

module _ (c : AeadPair) where
  -- `plain` is what the peer has sent and was not handed out: the plain bytes kept, then those of the
  -- chunks that are not whole yet.
  pub record InStep (p : Progress) (plain : List ℕ) : Type 0 where
    pub nonce : List ℕ
    pub left : List (List ℕ)
    pub fit : All IsPayload left
    pub waiting : Waiting c p.decryptor p.incoming.bytes nonce left
    pub whole : p.plain ++ flatten left ≡ plain

  abbrev with_rest : Decryptor → List ℕ → Incoming → Progress
  with_rest d plain rest = record { decryptor = d; plain = plain; incoming = rest }

  -- A round gives a progress that is in step again.
  record Round (rest : Incoming) (plain : List ℕ) (r : Outcome × Decryptor × List ℕ) : Type 0 where
    count : ℕ
    next : Decryptor
    kept : List ℕ
    result : r ≡ (returned count, next, kept)
    in_step : InStep (with_rest next kept rest) plain

  absorb-Round :
      (grow : ℕ → ℕ → ℕ) (x : List ℕ) (d : Decryptor) (buffered : List ℕ) (rest : Incoming)
      (plain : List ℕ)
      → InStep (with_rest d buffered (record rest { bytes = x ++ rest.bytes })) plain
      → Round rest plain (absorb c.dec grow x d buffered)
  unfolding absorb
  absorb-Round grow [] d buffered rest plain s = record {
    count = 0;
    next = d;
    kept = buffered;
    result = refl;
    in_step = record {
      nonce = s.nonce;
      left = s.left;
      fit = s.fit;
      waiting = s.waiting;
      whole = s.whole;
    };
  }
  absorb-Round grow (x ∷ xs) d buffered rest plain s =
      let f = decipher-Fed c grow d buffered (x ∷ xs) rest.bytes s.nonce s.left s.fit s.waiting in
      record {
        count = length (flatten f.done);
        next = f.next;
        kept = buffered ++ flatten f.done;
        result = f.result;
        in_step = record {
          nonce = nonce_behind s.nonce f.done;
          left = f.left;
          fit = later_payloads f.done f.left s.left f.whole s.fit;
          waiting = f.waiting;
          whole =
              append_assoc buffered (flatten f.done) (flatten f.left)
              ∙ ap (λ t. buffered ++ t) (sym (flatten-append f.done f.left) ∙ ap flatten f.whole)
              ∙ s.whole;
        };
      }

  -- Where the pipe below has nothing more, all that is to come is kept already.
  drained :
      (d : Decryptor) (kept plain ready : List ℕ)
      → InStep (with_rest d kept (record { bytes = []; ready = ready })) plain
      → kept ≡ plain
  drained d kept plain ready s = go s.left s.waiting s.whole
    where
      go :
          (left : List (List ℕ))
          → Waiting c d [] s.nonce left
          → kept ++ flatten left ≡ plain
          → kept ≡ plain
      go [] w e = sym (append-nil kept) ∙ e
      go (p ∷ ps) w e = absurd (Waiting-drained c d s.nonce p ps w)

  InStep-split :
      (sz r : ℕ) (rs bytes : List ℕ) (d : Decryptor) (kept plain : List ℕ)
      → InStep (with_rest d kept (record { bytes = bytes; ready = r ∷ rs })) plain
      → InStep
          (with_rest d kept (record { bytes = take sz bytes ++ drop sz bytes; ready = rs }))
          plain
  InStep-split sz r rs bytes d kept plain s = record {
    nonce = s.nonce;
    left = s.left;
    fit = s.fit;
    waiting = subst (λ t. Waiting c d t s.nonce s.left) (sym (take-append-drop sz bytes)) s.waiting;
    whole = s.whole;
  }

  -- The result of recv: the first of the bytes to come, and the rest is still to come.
  pub record Gave (n : ℕ) (plain : List ℕ) (r : Received × Progress) : Type 0 where
    pub next : Progress
    pub result : r ≡ (received (take n plain), next)
    pub in_step : InStep next (drop n plain)
    pub delivers : Delivers next.incoming

  hand_out-Gave :
      (n : ℕ) (p : Progress) (plain : List ℕ)
      → n ≤ length p.plain
      → InStep p plain
      → Delivers p.incoming
      → Gave n plain (hand_out n p)
  hand_out-Gave n p plain h s d = record {
    next = (hand_out n p).1;
    result =
        ap (λ t. (received t, (hand_out n p).1))
          (sym (take-append_le n p.plain (flatten s.left) h) ∙ ap (take n) s.whole);
    in_step = record {
      nonce = s.nonce;
      left = s.left;
      fit = s.fit;
      waiting = s.waiting;
      whole = sym (drop-append_le n p.plain (flatten s.left) h) ∙ ap (drop n) s.whole;
    };
    delivers = d;
  }

  recv_loop-Gave :
      (grow : ℕ → ℕ → ℕ) (n : ℕ) (ready bytes : List ℕ) (d : Decryptor) (kept plain : List ℕ)
      → length kept < n
      → n ≤ length plain
      → InStep (with_rest d kept (record { bytes = bytes; ready = ready })) plain
      → Delivers (record { bytes = bytes; ready = ready })
      → Gave n plain (recv_loop c.dec grow n ready bytes d kept)
  unfolding recv_loop after_round
  recv_loop-Gave grow n [] [] d kept plain less enough s del =
      absurd (omega (arith, ap length (drained d kept plain [] s)))
  recv_loop-Gave grow n [] (b ∷ bs) d kept plain less enough s del = absurd (omega (arith, del.1))
  recv_loop-Gave grow n (r ∷ rs) bytes d kept plain less enough s del =
      let sz = min temp_size r in
      let rest : Incoming = record { bytes = drop sz bytes; ready = rs } in
      let round =
        absorb-Round grow (take sz bytes) d kept rest plain
          (InStep-split sz r rs bytes d kept plain s) in
      let kept' = round.kept in
      let del' : Delivers rest = (del.0.1, omega (arith, length-drop sz bytes, del.1, del.0.0)) in
      rw round.result (elim (Bool-cases (leb n (length kept'))) [
        | inl fits ↦ rw fits (
            hand_out-Gave n (with_rest round.next kept' rest) plain (leb→le n (length kept') fits)
              round.in_step del')
        | inr short ↦ rw short (
            recv_loop-Gave grow n rs (drop sz bytes) round.next kept' plain
              (leb→gt n (length kept') short) enough round.in_step del')
      ])

  -- recv of an exact size.
  pub recv_exactly-Gave :
      (grow : ℕ → ℕ → ℕ) (n : ℕ) (kept : List ℕ) (d : Decryptor) (incoming : Incoming)
      (plain : List ℕ)
      → 0 < n
      → n ≤ length plain
      → InStep (with_rest d kept incoming) plain
      → Delivers incoming
      → Gave n plain (recv_exactly c.dec grow n kept d incoming)
  unfolding recv_exactly
  recv_exactly-Gave grow n [] d incoming plain h enough s del =
      recv_loop-Gave grow n incoming.ready incoming.bytes d [] plain h enough s del
  recv_exactly-Gave grow n (x ∷ xs) d incoming plain h enough s del =
      elim (Bool-cases (leb n (length (x ∷ xs)))) [
        | inl fits ↦ rw fits (
            hand_out-Gave n (with_rest d (x ∷ xs) incoming) plain (leb→le n (length (x ∷ xs)) fits)
              s del)
        | inr short ↦ rw short (
            recv_loop-Gave grow n incoming.ready incoming.bytes d (x ∷ xs) plain
              (leb→gt n (length (x ∷ xs)) short) enough s del)
      ]

  hand_up_to-Gave :
      (n : ℕ) (p : Progress) (plain : List ℕ)
      → InStep p plain
      → Delivers p.incoming
      → (k : ℕ) × (k ≤ n) × Gave k plain (hand_up_to n p)
  unfolding hand_up_to
  hand_up_to-Gave n p plain s del = elim (Bool-cases (leb (length p.plain) n)) [
    | inl all ↦ rw all (
      length p.plain,
      leb→le (length p.plain) n all,
      subst
          (λ (t : List ℕ × List ℕ).
            Gave (length p.plain) plain (received t.0, record p { plain = t.1 }))
          (ap (λ t. (t, drop (length p.plain) p.plain))
              (take_all (length p.plain) p.plain (omega arith))
            ∙ ap (λ t. (p.plain, t)) (drop_all (length p.plain) p.plain (omega arith)))
          (hand_out-Gave (length p.plain) p plain (omega arith) s del),
    )
    | inr more ↦ rw more (
      n,
      omega arith,
      hand_out-Gave n p plain (omega (arith, leb→gt (length p.plain) n more)) s del,
    )
  ]

  recv_once-Gave :
      (grow : ℕ → ℕ → ℕ) (n : ℕ) (ready bytes : List ℕ) (d : Decryptor) (plain : List ℕ)
      → 0 < length plain
      → InStep (with_rest d [] (record { bytes = bytes; ready = ready })) plain
      → Delivers (record { bytes = bytes; ready = ready })
      → (k : ℕ) × (k ≤ n) × Gave k plain (recv_once c.dec grow n ready bytes d)
  unfolding recv_once after_round
  recv_once-Gave grow n [] [] d plain h s del =
      absurd (omega (arith, ap length (drained d [] plain [] s)))
  recv_once-Gave grow n [] (b ∷ bs) d plain h s del = absurd (omega (arith, del.1))
  recv_once-Gave grow n (r ∷ rs) bytes d plain h s del =
      let sz = min temp_size r in
      let rest : Incoming = record { bytes = drop sz bytes; ready = rs } in
      let round =
        absorb-Round grow (take sz bytes) d [] rest plain
          (InStep-split sz r rs bytes d [] plain s) in
      let del' : Delivers rest = (del.0.1, omega (arith, length-drop sz bytes, del.1, del.0.0)) in
      rw round.result
        (hand_up_to-Gave n (with_rest round.next round.kept rest) plain round.in_step del')

  -- recv of what there is.
  pub recv_at_most-Gave :
      (grow : ℕ → ℕ → ℕ) (n : ℕ) (kept : List ℕ) (d : Decryptor) (incoming : Incoming)
      (plain : List ℕ)
      → 0 < length plain
      → InStep (with_rest d kept incoming) plain
      → Delivers incoming
      → (k : ℕ) × (k ≤ n) × Gave k plain (recv_at_most c.dec grow n kept d incoming)
  unfolding recv_at_most recv_once after_round
  recv_at_most-Gave grow n (x ∷ xs) d incoming plain h s del =
      hand_up_to-Gave n (with_rest d (x ∷ xs) incoming) plain s del
  recv_at_most-Gave grow n [] d incoming plain h s del =
      recv_once-Gave grow n incoming.ready incoming.bytes d plain h s del
