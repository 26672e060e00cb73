-- ===== src/Bridge/Relay.antt =====
-- The bytes that handler::bridged::process of source/imconee/handlers.cpp carries between the two
-- pipes of a bridge.
use imconee.Common.{
  ℕ, ◌≤◌, ◌≡◌, inl, inr, refl, sym, ap, ◌∙◌, Bool, Option, none, some, List, [], ◌∷◌, ◌++◌, min,
  length, take, drop, if◌then◌else◌, append-nil, append_assoc, take-append-drop, length-take,
  Bool-cases, arith,
}
use imconee.TcpPipe.{SendResult, send_ok, send_fail, send_bufferfull}
use imconee.Bridge.{
  Masks, End, recv, recv_by, send, send_by, after_send, after_recv, full_by, is_bufferfull,
  ProcessResult, slot_dead, slot_processes, slot_skipped, relay, push_unsent, push_result,
  bridge_buffer_size, have_read, overlaps,
}

-- All that a pipe receives, in the end.
abbrev pub stream : End → List ℕ
stream e = e.received ++ e.inbox

-- Bytes that one pipe has given and the other has not taken.
pub record Short (a b : End) : Type 0 where
  pub lost : List ℕ
  pub carried : a.received ≡ b.sent ++ lost
  pub few : length lost ≤ bridge_buffer_size

-- Nothing is between the pipes, unless the bridge is dead.
abbrev pub Carried : ProcessResult → End → End → Type 0
Carried slot_dead a b = Short a b × Short b a
Carried slot_processes a b = (a.received ≡ b.sent) × (b.received ≡ a.sent)
Carried slot_skipped a b = (a.received ≡ b.sent) × (b.received ≡ a.sent)

pub Short-same : (a b : End) → a.received ≡ b.sent → Short a b
Short-same a b e = record { lost = []; carried = e ∙ sym (append-nil b.sent); few = omega arith }

pub Carried-same :
    (rv : ProcessResult) (a b : End) → a.received ≡ b.sent → b.received ≡ a.sent → Carried rv a b
Carried-same slot_dead a b e f = (Short-same a b e, Short-same b a f)
Carried-same slot_processes a b e f = (e, f)
Carried-same slot_skipped a b e f = (e, f)

pub Carried-swap : (rv : ProcessResult) (a b : End) → Carried rv a b → Carried rv b a
Carried-swap slot_dead a b c = (c.1, c.0)
Carried-swap slot_processes a b c = (c.1, c.0)
Carried-swap slot_skipped a b c = (c.1, c.0)

-- The state behind a direction, with the streams of both pipes as they were.
pub record Carries (rv : ProcessResult) (a b a' b' : End) : Type 0 where
  pub carried : Carried rv a' b'
  pub stream1 : stream a' ≡ stream a
  pub stream2 : stream b' ≡ stream b

abbrev got : Option (List ℕ) → List ℕ
got none = []
got (some x) = x

-- What recv has given.
record Gives (n : ℕ) (a : End) (r : Option (List ℕ) × End) : Type 0 where
  received : r.1.received ≡ a.received ++ got r.0
  sent : r.1.sent ≡ a.sent
  stays : stream r.1 ≡ stream a
  bound : length (got r.0) ≤ n

recv_by-Gives : (ready : List (Option ℕ)) (n : ℕ) (a : End) → Gives n a (recv_by ready n a)
unfolding recv_by
recv_by-Gives [] n a = record {
  received = sym (append-nil a.received);
  sent = refl;
  stays = refl;
  bound = omega arith;
}
recv_by-Gives (none ∷ rs) n a = record {
  received = sym (append-nil a.received);
  sent = refl;
  stays = refl;
  bound = omega arith;
}
recv_by-Gives (some k ∷ rs) n a = record {
  received = refl;
  sent = refl;
  stays =
      append_assoc a.received (take (min n k) a.inbox) (drop (min n k) a.inbox)
      ∙ ap (λ t. a.received ++ t) (take-append-drop (min n k) a.inbox);
  bound = omega (arith, length-take (min n k) a.inbox);
}

after_send-Carries :
    (m : List ℕ) (k : Masks) (a b a' : End) (bytes : List ℕ) (answers : List SendResult)
    → a'.received ≡ b.sent ++ bytes
    → b.received ≡ a'.sent
    → stream a' ≡ stream a
    → length bytes ≤ bridge_buffer_size
    → let r = after_send m k a' (send_by answers bytes b) in Carries r.rv a b r.source r.target
unfolding after_send send_by
after_send-Carries m k a b a' bytes [] e f st h = record {
  carried = (record { lost = bytes; carried = e; few = h }, Short-same b a' f);
  stream1 = st;
  stream2 = refl;
}
after_send-Carries m k a b a' bytes (send_fail ∷ rs) e f st h = record {
  carried =
      (record { lost = bytes; carried = e; few = h }, Short-same (record b { answers = rs }) a' f);
  stream1 = st;
  stream2 = refl;
}
after_send-Carries m k a b a' bytes (send_ok ∷ rs) e f st h = record {
  carried = (e, f);
  stream1 = st;
  stream2 = refl;
}
after_send-Carries m k a b a' bytes (send_bufferfull ∷ rs) e f st h = record {
  carried = (e, f);
  stream1 = st;
  stream2 = refl;
}

after_recv-Carries :
    (m : List ℕ) (k : Masks) (n : ℕ) (a b : End) (r : Option (List ℕ) × End)
    → a.received ≡ b.sent
    → b.received ≡ a.sent
    → n ≤ bridge_buffer_size
    → Gives n a r
    → let p = after_recv m k b r in Carries p.rv a b p.source p.target
unfolding after_recv send
after_recv-Carries m k n a b (none, a') e f h g =
    let same : a'.received ≡ b.sent = g.received ∙ append-nil a.received ∙ e in
    record {
      carried = (Short-same a' b same, Short-same b a' (f ∙ sym g.sent));
      stream1 = g.stays;
      stream2 = refl;
    }
after_recv-Carries m k n a b (some [], a') e f h g = record {
  carried = (g.received ∙ append-nil a.received ∙ e, f ∙ sym g.sent);
  stream1 = g.stays;
  stream2 = refl;
}
after_recv-Carries m k n a b (some (x ∷ xs), a') e f h g =
    after_send-Carries m k a b a' (x ∷ xs) b.answers (g.received ∙ ap (λ t. t ++ (x ∷ xs)) e)
      (f ∙ sym g.sent) g.stays (omega (arith, g.bound))

-- The question whether the buffer is full changes no bytes.
record Same (b b' : End) : Type 0 where
  received : b'.received ≡ b.received
  sent : b'.sent ≡ b.sent
  inbox : b'.inbox ≡ b.inbox

full_by-Same : (full : List Bool) (b : End) → Same b (full_by full b).1
unfolding full_by
full_by-Same [] b = record { received = refl; sent = refl; inbox = refl }
full_by-Same (x ∷ xs) b = record { received = refl; sent = refl; inbox = refl }

pub relay-Carries :
    (rv : ProcessResult) (m1 m2 : List ℕ) (k : Masks) (a b : End)
    → a.received ≡ b.sent
    → b.received ≡ a.sent
    → let p = relay rv m1 m2 k a b in Carries p.rv a b p.source p.target
unfolding relay recv is_bufferfull
relay-Carries rv m1 m2 k a b e f =
    let b' = (full_by b.full b).1 in
    let same = full_by-Same b.full b in
    let n = if (full_by b.full b).0 then 1 else bridge_buffer_size in
    let small : n ≤ bridge_buffer_size = ground arith in
    let p =
      after_recv-Carries m2 (have_read m1 k).1 n a b' (recv_by a.ready n a) (e ∙ sym same.sent)
        (same.received ∙ f) small (recv_by-Gives a.ready n a) in
    elim (Bool-cases (overlaps m1 k.readm)) [
      | inl ready ↦ rw ready (record {
        carried = p.carried;
        stream1 = p.stream1;
        stream2 = p.stream2 ∙ (λ i. same.received i ++ same.inbox i);
      })
      | inr idle ↦
          rw idle (record { carried = Carried-same rv a b e f; stream1 = refl; stream2 = refl })
    ]

send_by-nothing :
    (answers : List SendResult) (a b : End)
    → a.received ≡ b.sent
    → b.received ≡ a.sent
    → let r = send_by answers [] a in Carries (push_result r.0) a b r.1 b
unfolding send_by
send_by-nothing [] a b e f = record {
  carried = Carried-same slot_dead a b e f;
  stream1 = refl;
  stream2 = refl;
}
send_by-nothing (send_fail ∷ rs) a b e f = record {
  carried = Carried-same slot_dead (record a { answers = rs }) b e f;
  stream1 = refl;
  stream2 = refl;
}
send_by-nothing (send_ok ∷ rs) a b e f = record {
  carried = (e, f ∙ sym (append-nil a.sent));
  stream1 = refl;
  stream2 = refl;
}
send_by-nothing (send_bufferfull ∷ rs) a b e f = record {
  carried = (e, f ∙ sym (append-nil a.sent));
  stream1 = refl;
  stream2 = refl;
}

pub push_unsent-Carries :
    (rv : ProcessResult) (m : List ℕ) (k : Masks) (a b : End)
    → a.received ≡ b.sent
    → b.received ≡ a.sent
    → let r = push_unsent rv m k a in Carries r.0 a b r.2 b
unfolding push_unsent send
push_unsent-Carries rv m k a b e f = elim (Bool-cases (overlaps m k.writem)) [
  | inl ready ↦ rw ready (send_by-nothing a.answers a b e f)
  | inr idle ↦
      rw idle (record { carried = Carried-same rv a b e f; stream1 = refl; stream2 = refl })
]
