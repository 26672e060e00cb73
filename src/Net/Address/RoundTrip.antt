-- ===== src/Net/Address/RoundTrip.antt =====
-- An IPv4 address written by ipap::to_string of source/imconee/netkit.h is read by ipap::parse of
-- netkit.cpp.
use imconee.Common.{
  ℕ, zero, suc, ◌<◌, ◌≡◌, ◌≢◌, refl, sym, ap, ◌∙◌, true, false, Option, some, List, [], ◌∷◌, ◌++◌,
  ◌==◌, length, length-append, append-nil, ◌-◌, All, arith,
}
use imconee.Net.Address.{Family, is_v4_default}
use imconee.Net.Address.Text.{
  after_stoi, dot, colon, next_token, tokens_loop, tokens, put_octets, parse4, to_string4, colons,
  parse,
}

-- A text without a dot and a colon.
abbrev pub IsPlain : List ℕ → Type 0
IsPlain s = All (λ c. (c ≢ dot) × (c ≢ colon)) s

next_token-dot : (xs rest : List ℕ) → IsPlain xs → next_token dot (xs ++ (dot ∷ rest)) ≡ (xs, rest)
unfolding next_token
next_token-dot [] rest p = refl
next_token-dot (x ∷ xs) rest p =
    let ne : (x == dot) ≡ false = ground (arith, p.0.0) in rw (ne, next_token-dot xs rest p.1)

next_token-end : (xs : List ℕ) → IsPlain xs → next_token dot xs ≡ (xs, [])
unfolding next_token
next_token-end [] p = refl
next_token-end (x ∷ xs) p =
    let ne : (x == dot) ≡ false = ground (arith, p.0.0) in rw (ne, next_token-end xs p.1)

tokens_loop-dot :
    (fuel : ℕ) (xs rest : List ℕ)
    → 0 < length xs
    → IsPlain xs
    → tokens_loop (suc fuel) dot (xs ++ (dot ∷ rest)) ≡ xs ∷ tokens_loop fuel dot rest
unfolding tokens_loop
tokens_loop-dot fuel [] rest h p = absurd (omega arith)
tokens_loop-dot fuel (x ∷ xs) rest h p = rw (next_token-dot (x ∷ xs) rest p)

tokens_loop-nil : (fuel : ℕ) → tokens_loop fuel dot [] ≡ []
unfolding tokens_loop
tokens_loop-nil zero = refl
tokens_loop-nil (suc fuel) = refl

tokens_loop-end :
    (fuel : ℕ) (xs : List ℕ)
    → 0 < length xs
    → 0 < fuel
    → IsPlain xs
    → tokens_loop fuel dot xs ≡ xs ∷ []
unfolding tokens_loop
tokens_loop-end zero xs h k p = absurd (omega arith)
tokens_loop-end (suc fuel) [] h k p = absurd (omega arith)
tokens_loop-end (suc fuel) (x ∷ xs) h k p =
    rw (next_token-end (x ∷ xs) p) (ap (λ t. (x ∷ xs) ∷ t) (tokens_loop-nil fuel))

tokens-four :
    (a b c d : List ℕ)
    → IsPlain a
    → IsPlain b
    → IsPlain c
    → IsPlain d
    → 0 < length a
    → 0 < length b
    → 0 < length c
    → 0 < length d
    → tokens dot (a ++ (dot ∷ b ++ (dot ∷ c ++ (dot ∷ d)))) ≡ a ∷ b ∷ c ∷ d ∷ []
tokens-four a b c d pa pb pc pd la lb lc ld =
    let s3 = c ++ (dot ∷ d) in
    let s2 = b ++ (dot ∷ s3) in
    let s1 = a ++ (dot ∷ s2) in
    let e1 = length-append a (dot ∷ s2) in
    let e2 = length-append b (dot ∷ s3) in
    let e3 = length-append c (dot ∷ d) in
    let f = length s1 - 4 in
    ap (λ n. tokens_loop n dot s1) {y = suc (suc (suc (suc f)))} (omega arith)
    ∙ tokens_loop-dot (suc (suc (suc f))) a s2 la pa
    ∙ ap (λ t. a ∷ t) (tokens_loop-dot (suc (suc f)) b s3 lb pb)
    ∙ ap (λ t. a ∷ b ∷ t) (tokens_loop-dot (suc f) c d lc pc)
    ∙ ap (λ t. a ∷ b ∷ c ∷ t) (tokens_loop-end (suc f) d ld (omega arith) pd)

colons-append : (xs ys : List ℕ) → IsPlain xs → colons (xs ++ ys) ≡ colons ys
colons-append [] ys p = refl
colons-append (x ∷ xs) ys p =
    let ne : (x == colon) ≡ false = ground (arith, p.0.1) in rw ne (colons-append xs ys p.1)

colons-nil : (xs : List ℕ) → IsPlain xs → colons xs ≡ 0
colons-nil xs p = ap colons (sym (append-nil xs)) ∙ colons-append xs [] p

parse4-four :
    (stoi : List ℕ → Option ℕ) (digits : ℕ → List ℕ) (s a b c d : List ℕ) (w x y z : ℕ)
    → tokens dot s ≡ a ∷ b ∷ c ∷ d ∷ []
    → stoi a ≡ some w
    → stoi b ≡ some x
    → stoi c ≡ some y
    → stoi d ≡ some z
    → parse4 stoi digits s ≡ some (record { v4 = true; address = w ∷ x ∷ y ∷ z ∷ []; port = 0 })
unfolding parse4 put_octets after_stoi
parse4-four stoi digits s a b c d w x y z toks ea eb ec ed = rw (toks, ea, eb, ec, ed)

-- Where an address is an IPv4 one by default, and the library writes a number below 256 as a text that
-- is not empty, has no dot and no colon, and is read back as that number: parse reads back what
-- to_string writes of an IPv4 address without its port.
pub parse-to_string4 :
    (stoi : List ℕ → Option ℕ) (digits : ℕ → List ℕ) (def : Family) (w x y z port : ℕ)
    → ((n : ℕ) → n < 256 → stoi (digits n) ≡ some n)
    → ((n : ℕ) → n < 256 → IsPlain (digits n) × (0 < length (digits n)))
    → is_v4_default def ≡ true
    → w < 256
    → x < 256
    → y < 256
    → z < 256
    → parse stoi digits def (
        to_string4 stoi digits false
          (record { v4 = true; address = w ∷ x ∷ y ∷ z ∷ []; port = port }))
      ≡ some (record { v4 = true; address = w ∷ x ∷ y ∷ z ∷ []; port = 0 })
unfolding parse to_string4
parse-to_string4 stoi digits def w x y z port read plain v4 hw hx hy hz =
    let (pw, lw) = plain w hw in
    let (px, lx) = plain x hx in
    let (py, ly) = plain y hy in
    let (pz, lz) = plain z hz in
    let none_colon : colons (digits w ++ (dot ∷ digits x ++ (dot ∷ digits y ++ (dot ∷ digits z))))
        ≡ 0 =
      colons-append (digits w) _ pw
      ∙ colons-append (digits x) _ px
      ∙ colons-append (digits y) _ py
      ∙ colons-nil (digits z) pz in
    let toks = tokens-four (digits w) (digits x) (digits y) (digits z) pw px py pz lw lx ly lz in
    rw (none_colon, v4)
      (parse4-four stoi digits _ _ _ _ _ w x y z toks (read w hw) (read x hx) (read y hy)
        (read z hz))
