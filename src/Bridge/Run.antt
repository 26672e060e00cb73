-- ===== src/Bridge/Run.antt =====
-- All the calls of handler::bridged::process of source/imconee/handlers.cpp for one bridge.
use mathlib.Core.Path.{subst}
use imconee.Common.{
  ℕ, ◌≡◌, ◌⊎◌, inl, inr, refl, sym, ◌∙◌, List, [], ◌∷◌, ◌++◌, append-nil, Bool-cases, arith,
}
use imconee.Bridge.{
  Masks, End, ProcessResult, slot_dead, slot_processes, slot_skipped, Work, process, unless_dead,
  read1, read2, write1, write2, process_open, Turn, after_turn, run, have_closed, overlaps,
}
use imconee.Bridge.Relay.{
  Short, Carried, Carried-same, Carried-swap, Carries, relay-Carries, push_unsent-Carries,
}

Carries-trans :
    {rv rv' : ProcessResult} {a b a' b' a'' b'' : End}
    → Carries rv a b a' b'
    → Carries rv' a' b' a'' b''
    → Carries rv' a b a'' b''
Carries-trans c d = record {
  carried = d.carried;
  stream1 = d.stream1 ∙ c.stream1;
  stream2 = d.stream2 ∙ c.stream2;
}

-- A part of process behind another.
unless_dead-Carries :
    (rv : ProcessResult) (w : Work) (a b : End) (f : Work → Work)
    → w.rv ≡ rv
    → Carries w.rv a b w.pipe1 w.pipe2
    → (w.pipe1.received ≡ w.pipe2.sent
        → w.pipe2.received ≡ w.pipe1.sent
        → Carries (f w).rv w.pipe1 w.pipe2 (f w).pipe1 (f w).pipe2)
    → let x = unless_dead rv w f in Carries x.rv a b x.pipe1 x.pipe2
unless_dead-Carries slot_dead w a b f e c g = c
unless_dead-Carries slot_processes w a b f e c g =
    let (h, k) = subst (λ r. Carried r w.pipe1 w.pipe2) e c.carried in Carries-trans c (g h k)
unless_dead-Carries slot_skipped w a b f e c g =
    let (h, k) = subst (λ r. Carried r w.pipe1 w.pipe2) e c.carried in Carries-trans c (g h k)

Carries-swap : (rv : ProcessResult) (a b a' b' : End) → Carries rv a b a' b' → Carries rv b a b' a'
Carries-swap rv a b a' b' c = record {
  carried = Carried-swap rv a' b' c.carried;
  stream1 = c.stream2;
  stream2 = c.stream1;
}

process_open-Carries :
    (m1 m2 : List ℕ) (w : Work)
    → w.pipe1.received ≡ w.pipe2.sent
    → w.pipe2.received ≡ w.pipe1.sent
    → let x = process_open m1 m2 w in Carries x.rv w.pipe1 w.pipe2 x.pipe1 x.pipe2
unfolding process_open
process_open-Carries m1 m2 w e f =
    let w1 = read1 m1 m2 w in
    let c1 = relay-Carries w.rv m1 m2 w.masks w.pipe1 w.pipe2 e f in
    let w2 = unless_dead w1.rv w1 (read2 m1 m2) in
    let c2 =
      unless_dead-Carries w1.rv w1 w.pipe1 w.pipe2 (read2 m1 m2) refl c1 (λ h k.
        Carries-swap _ _ _ _ _ (relay-Carries w1.rv m2 m1 w1.masks w1.pipe2 w1.pipe1 k h)) in
    let w3 = unless_dead w2.rv w2 (write1 m1 m2) in
    let c3 =
      unless_dead-Carries w2.rv w2 w.pipe1 w.pipe2 (write1 m1 m2) refl c2
        (λ h k. push_unsent-Carries w2.rv m1 w2.masks w2.pipe1 w2.pipe2 h k) in
    unless_dead-Carries w3.rv w3 w.pipe1 w.pipe2 (write2 m1 m2) refl c3
      (λ h k. Carries-swap _ _ _ _ _ (push_unsent-Carries w3.rv m2 w3.masks w3.pipe2 w3.pipe1 k h))

process-Carries :
    (m1 m2 : List ℕ) (k : Masks) (a b : End)
    → a.received ≡ b.sent
    → b.received ≡ a.sent
    → let w = process m1 m2 k a b in Carries w.rv a b w.pipe1 w.pipe2
unfolding process
process-Carries m1 m2 k a b e f =
    let start : Work = record {
      rv = slot_skipped;
      masks = (have_closed (m1 ++ m2) k).1;
      pipe1 = a;
      pipe2 = b;
    } in
    let c = process_open-Carries m1 m2 start e f in
    elim (Bool-cases (overlaps (m1 ++ m2) k.closem)) [
      | inl closed ↦
          rw closed
            (record { carried = Carried-same slot_dead a b e f; stream1 = refl; stream2 = refl })
      | inr going ↦ rw going c
    ]

after_turn-Carries :
    (rv : ProcessResult) (w : Work) (a b : End) (go : End → End → Work)
    → w.rv ≡ rv
    → Carries w.rv a b w.pipe1 w.pipe2
    → (w.pipe1.received ≡ w.pipe2.sent
        → w.pipe2.received ≡ w.pipe1.sent
        → let x = go w.pipe1 w.pipe2 in Carries x.rv w.pipe1 w.pipe2 x.pipe1 x.pipe2)
    → let x = after_turn rv w go in Carries x.rv a b x.pipe1 x.pipe2
unfolding after_turn
after_turn-Carries slot_dead w a b go e c g = c
after_turn-Carries slot_processes w a b go e c g =
    let (h, k) = subst (λ r. Carried r w.pipe1 w.pipe2) e c.carried in Carries-trans c (g h k)
after_turn-Carries slot_skipped w a b go e c g =
    let (h, k) = subst (λ r. Carried r w.pipe1 w.pipe2) e c.carried in Carries-trans c (g h k)

run-Carries :
    (ts : List Turn) (a b : End)
    → a.received ≡ b.sent
    → b.received ≡ a.sent
    → let w = run ts a b in Carries w.rv a b w.pipe1 w.pipe2
unfolding run
run-Carries [] a b e f = record { carried = (e, f); stream1 = refl; stream2 = refl }
run-Carries (t ∷ ts) a b e f =
    let w = process t.mask1 t.mask2 t.masks a b in
    after_turn-Carries w.rv w a b (λ x y. run ts x y) refl
      (process-Carries t.mask1 t.mask2 t.masks a b e f) (λ h k. run-Carries ts w.pipe1 w.pipe2 h k)

Carried-Short :
    (rv : ProcessResult) (a b : End)
    → Carried rv a b
    → (s : Short a b) × (t : Short b a) × ((rv ≡ slot_dead) ⊎ ((s.lost ≡ []) × (t.lost ≡ [])))
Carried-Short slot_dead a b c = (c.0, c.1, inl refl)
Carried-Short slot_processes a b c = (
  record { lost = []; carried = c.0 ∙ sym (append-nil b.sent); few = omega arith },
  record { lost = []; carried = c.1 ∙ sym (append-nil a.sent); few = omega arith },
  inr (refl, refl),
)
Carried-Short slot_skipped a b c = (
  record { lost = []; carried = c.0 ∙ sym (append-nil b.sent); few = omega arith },
  record { lost = []; carried = c.1 ∙ sym (append-nil a.sent); few = omega arith },
  inr (refl, refl),
)

-- From two pipes that have given and taken the same, over any calls of process and whatever the pipes
-- do: what each pipe has taken is the first part of what the other has given, which is the first part
-- of what the other receives; all of it while the bridge is not dead, and all but at most 65536 bytes
-- when it is.
pub run_carries :
    (ts : List Turn) (a b : End)
    → a.received ≡ b.sent
    → b.received ≡ a.sent
    → let w = run ts a b in
      (s : Short w.pipe1 w.pipe2) × (t : Short w.pipe2 w.pipe1) × ((w.rv ≡ slot_dead)
        ⊎ ((s.lost ≡ []) × (t.lost ≡ [])))
      × (w.pipe1.received ++ w.pipe1.inbox ≡ a.received ++ a.inbox)
      × (w.pipe2.received ++ w.pipe2.inbox ≡ b.received ++ b.inbox)
run_carries ts a b e f =
    let c = run-Carries ts a b e f in
    let (s, t, live) = Carried-Short _ _ _ c.carried in (s, t, live, c.stream1, c.stream2)
