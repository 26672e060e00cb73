-- ===== src/Engine/Start.antt =====
-- What the constructor of source/imconee/engine.cpp makes of a proxy or a listener that fails.
use imconee.Common.{
  ℕ, ◌≡◌, ◌≢◌, refl, ap, ◌∙◌, true, false, Option, none, some, List, [], ◌∷◌, ◌++◌, append_assoc,
  append-nil, ◌==◌, arith,
}
use imconee.Settings.Text.{starts_with}
use imconee.Settings.Tree.{named, comment, Sts, Elements, nil, cons}
use imconee.Engine.{exit_ok, Loader, iterate, iterate_on, iterate_if, visit}
use imconee.Engine.Build.{add, failed, open_all, build_listeners, after_proxies}

-- The elements in front of others.
abbrev pub before : Elements → Elements → Elements
before nil rest = rest
before (cons l s es) rest = cons l s (before es rest)

module _ {X : Type 0} (build : ℕ → List ℕ → Sts → Option (Option X × ℕ)) where
  -- Elements that are all built, but for comments and those that are skipped.
  pub data Builds : Elements → List X → Type 0 where
    done : Builds nil []
    a_comment :
        {b : Sts} {es : Elements} {xs : List X} → Builds es xs → Builds (cons comment b es) xs
    skipped :
        {n : List ℕ} {b : Sts} {es : Elements} {xs : List X}
        → starts_with b'!' n ≡ true
        → Builds es xs
        → Builds (cons (named n) b es) xs
    one :
        {c : ℕ} {n : List ℕ} {b : Sts} {x : X} {es : Elements} {xs : List X}
        → (c == b'!') ≡ false
        → build exit_ok (c ∷ n) b ≡ some (some x, exit_ok)
        → Builds es xs
        → Builds (cons (named (c ∷ n)) b es) (x ∷ xs)

  -- An element that cannot be built ends the loop, with what was built before it.
  iterate_fails :
      {es : Elements} {xs : List X}
      → Builds es xs
      → (c : ℕ) (n : List ℕ) (bad : Sts) (rest : Elements) (code : ℕ) (ys : List X)
      → (c == b'!') ≡ false
      → build exit_ok (c ∷ n) bad ≡ some (none, code)
      → iterate (add build) (before es (cons (named (c ∷ n)) bad rest)) (exit_ok, ys)
        ≡ some (false, (code, ys ++ xs))
  unfolding iterate
  iterate_fails done c n bad rest code ys plain e = rw (plain, e, append-nil ys) refl
  iterate_fails (a_comment bs) c n bad rest code ys plain e =
      iterate_fails bs c n bad rest code ys plain e
  iterate_fails (skipped mark bs) c n bad rest code ys plain e =
      rw mark (iterate_fails bs c n bad rest code ys plain e)
  iterate_fails (one {x = x} {xs = xs} kept made bs) c n bad rest code ys plain e =
      rw (kept, made)
        (iterate_fails bs c n bad rest code (ys ++ x ∷ []) plain e
          ∙ ap (λ t. some (false, (code, t))) (append_assoc ys (x ∷ []) xs))

-- A proxy that cannot be built stops the engine with the exit code of the loader. A listener that cannot
-- be built behind one that was built does not: the engine goes on with the listeners in front of it and
-- no exit code, and those behind it are not built.
pub failing_element :
    {P L : Type 0} (number : List ℕ → Option imconee.Engine.ℤ)
    (build_p : ℕ → List ℕ → Sts → Option (Option P × ℕ))
    (build_l : ℕ → List ℕ → Sts → Option (Option L × ℕ)) {es fs : Elements} {ps : List P} {x : L}
    {ls : List L} (c : ℕ) (n : List ℕ) (bad : Sts) (rest : Elements) (code : ℕ) (l : Loader)
    → Builds build_p es ps
    → Builds build_l fs (x ∷ ls)
    → (c == b'!') ≡ false
    → code ≢ exit_ok
    → build_p exit_ok (c ∷ n) bad ≡ some (none, code)
    → build_l exit_ok (c ∷ n) bad ≡ some (none, code)
    → (after_proxies number build_p build_l l (
          iterate_if (add build_p) (some (before es (cons (named (c ∷ n)) bad rest))) (exit_ok, []))
        ≡ some (failed number build_p build_l code ps))
      × (build_listeners number build_p build_l
            (some (before fs (cons (named (c ∷ n)) bad rest)))
            exit_ok
            ps
          ≡ some (record {
            exit_code = exit_ok;
            exit = false;
            prox = ps;
            listners = x ∷ ls;
            opened = x ∷ ls;
          }))
failing_element number build_p build_l {ps = ps} c n bad rest code l bp bl plain ne ep el =
    let t : (code == exit_ok) ≡ false = ground arith in
    let stopped : after_proxies number build_p build_l l (some (false, (code, ps)))
        ≡ some (failed number build_p build_l code ps) =
      rw t refl in
    (
      ap (after_proxies number build_p build_l l)
            (iterate_fails build_p bp c n bad rest code [] plain ep)
          ∙ stopped,
      ap (open_all number build_p build_l ps)
          (iterate_fails build_l bl c n bad rest code [] plain el),
    )
