-- ===== src/Settings/Tokens.antt =====
-- The tokenizer of source/imconee/sts.cpp goes forward.
use imconee.Common.{
  ℕ, suc, ◌≤◌, ◌<◌, ◌≡◌, refl, inl, inr, Bool, true, false, ◌&&◌, Option, none, some, List, [], ◌∷◌,
  ◌==◌, length, Bool-cases, arith,
}
use imconee.Settings.Text.{
  is_blank, opens, starts_with, Mode, between, open_block, open_line, block, close_block, line,
  next_mode, is_token, found, scan, token_start, ends, split_end, token_end,
}

-- A text that is no longer than so many bytes, or the null pointer.
abbrev pub Within : ℕ → Option (List ℕ) → Type 0
Within n none = Unit
Within n (some s) = length s ≤ n

pub Within-mono : (n k : ℕ) (o : Option (List ℕ)) → n ≤ k → Within n o → Within k o
Within-mono n k none le h = tt
Within-mono n k (some s) le h = omega arith

-- The text is at a token.
abbrev pub AtToken : Option (List ℕ) → Type 0
AtToken none = Unit
AtToken (some []) = ⊥
AtToken (some (c ∷ r)) = (is_blank c ≡ false) × (((c == b'/') && opens r) ≡ false)

found-Within :
    (b : Bool) (c : ℕ) (r : List ℕ) (o : Option (List ℕ))
    → Within (length r) o
    → Within (suc (length r)) (found b (c ∷ r) o)
found-Within true c r o h = omega arith
found-Within false c r o h = Within-mono (length r) (suc (length r)) o (omega arith) h

scan-Within : (m : Mode) (s : List ℕ) → Within (length s) (scan m s)
unfolding scan
scan-Within m [] = tt
scan-Within m (c ∷ r) =
    found-Within (is_token m c r) c r (scan (next_mode m c r) r) (scan-Within (next_mode m c r) r)

pub token_start-Within : (s : List ℕ) → Within (length s) (token_start s)
unfolding token_start
token_start-Within s = scan-Within between s

is_token_lem :
    (m : Mode) (c : ℕ) (r : List ℕ)
    → is_token m c r ≡ true
    → (is_blank c ≡ false) × (((c == b'/') && opens r) ≡ false)
is_token_lem between c r h = ground arith
is_token_lem open_block c r h = let bot : ⊥ = cc in absurd bot
is_token_lem open_line c r h = let bot : ⊥ = cc in absurd bot
is_token_lem block c [] h = ground arith
is_token_lem block c (d ∷ r) h = let bot : ⊥ = cc in absurd bot
is_token_lem close_block c r h = let bot : ⊥ = cc in absurd bot
is_token_lem line c r h = let bot : ⊥ = cc in absurd bot

found-AtToken :
    (b : Bool) (c : ℕ) (r : List ℕ) (o : Option (List ℕ))
    → (b ≡ true → (is_blank c ≡ false) × (((c == b'/') && opens r) ≡ false))
    → AtToken o
    → AtToken (found b (c ∷ r) o)
found-AtToken true c r o h k = h refl
found-AtToken false c r o h k = k

scan-AtToken : (m : Mode) (s : List ℕ) → AtToken (scan m s)
unfolding scan
scan-AtToken m [] = tt
scan-AtToken m (c ∷ r) =
    found-AtToken (is_token m c r) c r (scan (next_mode m c r) r) (is_token_lem m c r)
      (scan-AtToken (next_mode m c r) r)

pub token_start-AtToken : (s : List ℕ) → AtToken (token_start s)
unfolding token_start
token_start-AtToken s = scan-AtToken between s

pub split_end-le : (a : ℕ) (s : List ℕ) → length (split_end a s).1 ≤ length s
unfolding split_end
split_end-le a [] = omega arith
split_end-le a (c ∷ r) = elim (Bool-cases (ends a c r)) [
  | inl e ↦ rw e (omega arith)
  | inr e ↦ rw e (omega (arith, split_end-le a r))
]

-- Behind the token the text is no longer than it was.
pub next-Within : (a : ℕ) (s : List ℕ) → Within (length s) (token_end a s).next
unfolding token_end
next-Within a s =
    Within-mono (length (split_end a s).1) (length s) (token_start (split_end a s).1)
      (split_end-le a s) (token_start-Within (split_end a s).1)

-- From a token on, the text gets shorter, or it is at one of the two bytes that end a name at once.
abbrev pub Progress : List ℕ → Option (List ℕ) → Type 0
Progress s none = Unit
Progress s (some t) =
    (starts_with b'=' t ≡ false) → (starts_with b'{' t ≡ false) → length t < length s

shorter-Progress :
    (c : ℕ) (r : List ℕ) (o : Option (List ℕ)) → Within (length r) o → Progress (c ∷ r) o
shorter-Progress c r none h = tt
shorter-Progress c r (some t) h = λ e e'. omega arith

pub name-Progress :
    (c : ℕ) (r : List ℕ)
    → (is_blank c ≡ false) × (((c == b'/') && opens r) ≡ false)
    → Progress (c ∷ r) (token_end b'=' (c ∷ r)).next
unfolding token_end token_start split_end scan
name-Progress c r (full, still) = elim (Bool-cases (ends b'=' c r)) [
  | inl e ↦
      let token : is_token between c r ≡ true = ground arith in
      rw (e, token) (λ no_value no_block. ground arith)
  | inr e ↦ rw e (
      shorter-Progress c r (scan between (split_end b'=' r).1) (
        Within-mono (length (split_end b'=' r).1) (length r) (scan between (split_end b'=' r).1)
          (split_end-le b'=' r) (token_start-Within (split_end b'=' r).1)))
]
