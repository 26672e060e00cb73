-- ===== src/Cipher/Sample.antt =====
-- A cipher that adds a tag of zeros, which shows that what source/imconee/cipher_ss.cpp needs of a
-- cipher can be had.
use mathlib.Core.Option
use imconee.Common.{
  ℕ, ◌≡◌, refl, ap, ◌∙◌, Option, none, some, List, ◌++◌, take, length, arith, ◌-◌, ◌≤◌, ltb,
  if◌then◌else◌, replicate, length-append, take-append_ge, append_assoc, append-nil, ge→ltb,
}
use imconee.Cipher.Mode.{CipherMode, AeadPair}

abbrev pub tag : List ℕ
tag = replicate 16 0

abbrev pub tagging : CipherMode
tagging = record {
  State = Unit;
  start = λ iv. tt;
  update = λ s a. (a, s);
  finish = λ s a. some (a ++ tag);
  ideal_granularity = 64;
  minimum_final_size = 0;
  granularity_lt = omega arith;
  update-finish = λ s a b e h. ap some (append_assoc a b tag);
}

abbrev pub untag : List ℕ → Option (List ℕ)
untag a = if ltb (length a) 16 then none else some (take (length a - 16) a)

pub untag-append :
    (a b : List ℕ) → 16 ≤ length b → untag (a ++ b) ≡ Option.map (λ out. a ++ out) (untag b)
untag-append a b h =
    rw (ge→ltb (length b) 16 h, ge→ltb (length (a ++ b)) 16 (omega (arith, length-append a b)))
      (ap some (
        take-append_ge (length (a ++ b) - 16) a b (omega (arith, length-append a b))
        ∙ ap (λ k. a ++ take k b) (omega (arith, length-append a b))))

abbrev pub untagging : CipherMode
untagging = record {
  State = Unit;
  start = λ iv. tt;
  update = λ s a. (a, s);
  finish = λ s a. untag a;
  ideal_granularity = 64;
  minimum_final_size = 16;
  granularity_lt = omega arith;
  update-finish = λ s a b e h. untag-append a b h;
}

pub untag-tag : (bytes : List ℕ) → untag (bytes ++ tag) ≡ some bytes
untag-tag bytes = untag-append bytes tag (omega arith) ∙ ap some (append-nil bytes)

abbrev pub pair : AeadPair
pair = record {
  enc = tagging;
  dec = untagging;
  seal = λ iv bytes. bytes ++ tag;
  enc-seal = λ iv bytes. refl;
  length-seal = λ iv bytes. length-append bytes tag;
  dec-seal = λ iv bytes. untag-tag bytes;
  enc_final = refl;
  dec_final = refl;
}
