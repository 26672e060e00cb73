-- ===== src/Cipher/Filter.antt =====
-- ss::keyed_filter, ss::cipher_enc::process and ss::cipher_dec::process: a message goes through the
-- cipher block by block, and each piece of output is sent on at once.
use mathlib.Core.Option
use mathlib.Core.Option.{some-injective}
use mathlib.Core.Path.{subst}
use imconee.Common.{
  ℕ, zero, suc, ◌+◌, ◌≤◌, ◌<◌, ◌≡◌, refl, sym, ap, ◌∙◌, inl, inr, Bool, true, false, Option, none,
  some, List, [], ◌∷◌, ◌++◌, append_assoc, append-nil, arith, leb, leb→le, gt→leb, if◌then◌else◌,
  Bool-cases, length, take, drop, length-take, length-drop, take-append-drop,
}
use imconee.Cipher.Mode.{CipherMode, crypt}

abbrev pub flatten : List (List ℕ) → List ℕ
flatten [] = []
flatten (x ∷ xs) = x ++ flatten xs

-- What a pass of the filter sends on, piece by piece, and whether `finish` threw.
pub record Passed : Type 0 where
  pub sends : List (List ℕ)
  pub thrown : Bool

module _ (m : CipherMode) where
  -- keyed_filter::write: the pieces sent, the state of the cipher and the rest kept in `buf`.
  unfoldable pub write : ℕ → m.State → List ℕ → List (List ℕ) × m.State × List ℕ
  write zero s input = ([], s, input)
  write (suc fuel) s input =
      let (out, s') = m.update s (take m.ideal_granularity input) in
      let (sends, s'', buf) = write fuel s' (drop m.ideal_granularity input) in
      if leb (m.ideal_granularity + m.minimum_final_size) (length input)
      then (out ∷ sends, s'', buf)
      else ([], s, input)

  -- keyed_filter::end_msg after `sends`. The nonce is incremented by the caller, if nothing threw.
  unfoldable pub end_msg : List (List ℕ) → Option (List ℕ) → Passed
  end_msg sends none = record { sends = sends; thrown = true }
  end_msg sends (some out) = record { sends = sends ++ (out ∷ []); thrown = false }

  -- start_msg, write and end_msg of one message.
  unfoldable pub process : List ℕ → List ℕ → Passed
  unfolding write end_msg
  process iv input =
      let (sends, s, buf) = write (length input) (m.start iv) input in
      end_msg sends (m.finish s buf)

  flatten-append_one :
      (xs : List (List ℕ)) (y : List ℕ) → flatten (xs ++ (y ∷ [])) ≡ flatten xs ++ y
  flatten-append_one [] y = append-nil y
  flatten-append_one (x ∷ xs) y =
      ap (λ t. x ++ t) (flatten-append_one xs y) ∙ sym (append_assoc x (flatten xs) y)

  map-map :
      (a b : List ℕ) (o : Option (List ℕ))
      → Option.map (λ out. a ++ out) (Option.map (λ out. b ++ out) o)
        ≡ Option.map (λ out. (a ++ b) ++ out) o
  map-map a b none = refl
  map-map a b (some c) = ap some (sym (append_assoc a b c))

  map-nil : (o : Option (List ℕ)) → Option.map (λ out. [] ++ out) o ≡ o
  map-nil none = refl
  map-nil (some c) = refl

  -- Block by block comes to the same as the whole message at once.
  write-finish :
      (fuel : ℕ) (s : m.State) (input : List ℕ)
      → length input ≤ fuel
      → let (sends, s', buf) = write fuel s input in
        m.finish s input ≡ Option.map (λ out. flatten sends ++ out) (m.finish s' buf)
  unfolding write
  write-finish zero s input h = sym (map-nil (m.finish s input))
  write-finish (suc fuel) s input h =
      let g = m.ideal_granularity in
      let first = take g input in
      let rest = drop g input in
      let (out, s') = m.update s first in
      elim (Bool-cases (leb (g + m.minimum_final_size) (length input))) [
        | inl more ↦
            let fits = leb→le (g + m.minimum_final_size) (length input) more in
            let ih =
              write-finish fuel s' rest (omega (arith, length-drop g input, m.granularity_lt)) in
            let step =
              m.update-finish s first rest (omega (arith, length-take g input))
                (omega (arith, length-drop g input)) in
            rw more (
              ap (m.finish s) (sym (take-append-drop g input))
              ∙ step
              ∙ ap (Option.map (λ t. out ++ t)) ih
              ∙ map-map out _ _)
        | inr last ↦ rw last (sym (map-nil (m.finish s input)))
      ]

  -- What one message gives, through the filter: the output of the cipher, in pieces.
  record Passes (r : Passed) (o : Option (List ℕ)) : Type 0 where
    pub some_out : (out : List ℕ) → o ≡ some out → (flatten r.sends ≡ out) × (r.thrown ≡ false)
    pub none_out : o ≡ none → r.thrown ≡ true

  end_msg-Passes :
      (sends : List (List ℕ)) (o : Option (List ℕ))
      → Passes (end_msg sends o) (Option.map (λ out. flatten sends ++ out) o)
  unfolding end_msg
  end_msg-Passes sends none = record { some_out = λ out e. cc; none_out = λ e. refl }
  end_msg-Passes sends (some x) = record {
    some_out = λ out e. (flatten-append_one sends x ∙ some-injective _ _ e, refl);
    none_out = λ e. cc;
  }

  process-Passes : (iv input : List ℕ) → Passes (process iv input) (crypt m iv input)
  unfolding process
  process-Passes iv input =
      subst (Passes (process iv input))
        (sym (write-finish (length input) (m.start iv) input (omega arith)))
        (end_msg-Passes (write (length input) (m.start iv) input).0 _)

  -- Where the cipher makes `out` of the whole message, the filter sends on `out`, piece by piece, and
  -- does not throw.
  pub process_refines :
      (iv input out : List ℕ)
      → crypt m iv input ≡ some out
      → (flatten (process iv input).sends ≡ out) × ((process iv input).thrown ≡ false)
  process_refines iv input out e = (process-Passes iv input).some_out out e

  -- The filter throws where the cipher throws on the whole message.
  pub process_throws :
      (iv input : List ℕ) → crypt m iv input ≡ none → (process iv input).thrown ≡ true
  process_throws iv input e = (process-Passes iv input).none_out e

  -- A message shorter than a block and the final size is sent on in one piece.
  pub process_short :
      (iv input out : List ℕ)
      → length input < m.ideal_granularity + m.minimum_final_size
      → crypt m iv input ≡ some out
      → process iv input ≡ record { sends = out ∷ []; thrown = false }
  unfolding process
  process_short iv input out h e =
      write_short (length input) (m.start iv) input h ∙ ap (end_msg []) e
    where
      write_short :
          (fuel : ℕ) (s : m.State) (bytes : List ℕ)
          → length bytes < m.ideal_granularity + m.minimum_final_size
          → let (sends, s', buf) = write fuel s bytes in
            end_msg sends (m.finish s' buf) ≡ end_msg [] (m.finish s bytes)
      write_short zero s bytes k = refl
      write_short (suc fuel) s bytes k =
          rw (gt→leb (m.ideal_granularity + m.minimum_final_size) (length bytes) k) refl
