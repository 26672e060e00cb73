-- ===== src/Bridge/Waiter/Found.antt =====
-- What pipe_waiter::wait of source/imconee/netkit.cpp finds for each pipe.
use imconee.Common.{
  ◌⊎◌, ◌<◌, ◌≤◌, ℕ, ◌+◌, ◌-◌, ◌≡◌, refl, sym, ap, ◌∙◌, inl, inr, Bool, true, false, Option, none,
  some, List, [], ◌∷◌, ◌||◌, ◌&&◌, ltb, ◌==◌, if◌then◌else◌, length, Bool-cases, arith,
}
use imconee.Bridge.{Masks, has}
use imconee.TcpPipe.Order.{empty-nil}
use imconee.Bridge.Waiter.{
  all_below, Waitable, Waiter, Revents, Outside, no_masks, no_pipes, add_bit, make_ready, has_bytes,
  is_failure, has_space, check_loop, checkall, poll_loop, at_place, asks_pollout, after_polling,
  wait,
}

add_bit-has : (c : Bool) (k i : ℕ) (m : List ℕ) → has (add_bit c k m) i ≡ ((k == i) && c) || has m i
add_bit-has true k i m = ground arith
add_bit-has false k i m = ground arith

-- What holds of the pipe at the place `i`, where the first one is at `k`.
abbrev from_place : List ℕ → ℕ → ℕ → (ℕ → Bool) → Bool
from_place xs k i f = if ltb i k then false else at_place xs (i - k) f

from_place-step :
    (x : ℕ) (xs : List ℕ) (k i : ℕ) (f : ℕ → Bool)
    → from_place (x ∷ xs) k i f ≡ ((k == i) && f x) || from_place xs (k + 1) i f
from_place-step x xs k i f = elim (Bool-cases (k == i)) [
  | inl here ↦ let e : k ≡ i = ground arith in rw e (ground arith)
  | inr elsewhere ↦ elim (Bool-cases (ltb i k)) [
    | inl before ↦ ground arith
    | inr behind ↦
        let next : i - k - 1 ≡ i - (k + 1) = omega arith in
        let not_first : (i - k == 0) ≡ false = ground arith in
        let first : ltb i (k + 1) ≡ false = ground arith in
        rw (behind, not_first, first, elsewhere, next) refl
  ]
]

-- A round that adds a bit for what holds of its pipe.
add_bit-visit :
    (c : Bool) (x : ℕ) (xs : List ℕ) (k i : ℕ) (f : ℕ → Bool) (m : List ℕ)
    → (k ≡ i → f x ≡ c)
    → has (add_bit c k m) i || from_place xs (k + 1) i f ≡ has m i || from_place (x ∷ xs) k i f
add_bit-visit c x xs k i f m e = elim (Bool-cases (k == i)) [
  | inl here ↦
      let holds = e (ground arith) in
      ground (arith, add_bit-has c k i m, from_place-step x xs k i f)
  | inr elsewhere ↦ ground (arith, add_bit-has c k i m, from_place-step x xs k i f)
]

at_place-beyond : (xs : List ℕ) (i : ℕ) (f : ℕ → Bool) → length xs ≤ i → at_place xs i f ≡ false
at_place-beyond [] i f le = refl
at_place-beyond (x ∷ xs) i f le =
    let later : (i == 0) ≡ false = ground arith in
    rw later (at_place-beyond xs (i - 1) f (omega arith))

has-beyond : (n i : ℕ) (m : List ℕ) → all_below n m ≡ true → n ≤ i → has m i ≡ false
has-beyond n i [] below le = refl
has-beyond n i (x ∷ xs) below le =
    let rest : all_below n xs ≡ true = ground arith in ground (arith, has-beyond n i xs rest le)

make_ready-bufferfull :
    (c : Bool) (ws : ℕ → Waitable) (x y : ℕ) → (make_ready c ws x y).bufferfull ≡ (ws y).bufferfull
make_ready-bufferfull true ws x y = elim (Bool-cases (y == x)) [
  | inl e ↦ rw e refl
  | inr e ↦ rw e refl
]
make_ready-bufferfull false ws x y = refl

-- A round that adds one of two bits, the second for a pipe whose buffer is full.
visit_full :
    (full c d : Bool) (k i : ℕ) (m : List ℕ)
    → has (if full then add_bit d k (add_bit c k m) else add_bit c k m) i
      ≡ has (add_bit (c || (full && d)) k m) i
visit_full true c d k i m = ground arith
visit_full false c d k i m = ground arith

visit_write :
    (full d : Bool) (k i : ℕ) (m : List ℕ)
    → has (if full then add_bit d k m else m) i ≡ has (add_bit (full && d) k m) i
visit_write true d k i m = refl
visit_write false d k i m = refl

-- The bits of the place `i`, for reading, closing and writing.
abbrev pub found_at : Masks → ℕ → Bool × Bool × Bool
found_at m i = (has m.readm i, has m.closem i, has m.writem i)

module _ (buffer : ℕ) (sys : Outside) where
  abbrev pub says_read : ℕ → Bool
  says_read x = has_bytes (sys.fionread x)

  abbrev pub says_closed : (ℕ → Bool) → ℕ → Bool
  says_closed full x = is_failure (sys.fionread x) || (full x && is_failure (sys.outq x))

  abbrev pub says_write : (ℕ → Bool) → ℕ → Bool
  says_write full x = full x && has_space buffer (sys.outq x)

  record Checked (xs : List ℕ) (k i : ℕ) (full : ℕ → Bool) (m n : Masks) : Type 0 where
    pub read : has n.readm i ≡ has m.readm i || from_place xs k i says_read
    pub close : has n.closem i ≡ has m.closem i || from_place xs k i (says_closed full)
    pub write : has n.writem i ≡ has m.writem i || from_place xs k i (says_write full)

  check_loop-Checked :
      (xs : List ℕ) (k i : ℕ) (m : Masks) (ws : ℕ → Waitable) (full : ℕ → Bool)
      → ((y : ℕ) → (ws y).bufferfull ≡ full y)
      → Checked xs k i full m (check_loop buffer sys k xs m ws).0
  check_loop-Checked [] k i m ws full h = record {
    read = ground arith;
    close = ground arith;
    write = ground arith;
  }
  check_loop-Checked (x ∷ xs) k i m ws full h =
      let e1 = is_failure (sys.fionread x) in
      let e2 = is_failure (sys.outq x) in
      let sp = has_space buffer (sys.outq x) in
      let f = (ws x).bufferfull in
      let m' : Masks = record {
        readm = add_bit (has_bytes (sys.fionread x)) k m.readm;
        closem = if f then add_bit e2 k (add_bit e1 k m.closem) else add_bit e1 k m.closem;
        writem = if f then add_bit sp k m.writem else m.writem;
      } in
      let ih =
        check_loop-Checked xs (k + 1) i m' (make_ready (has_bytes (sys.fionread x)) ws x) full
          (λ y. make_ready-bufferfull (has_bytes (sys.fionread x)) ws x y ∙ h y) in
      let same = sym (h x) in
      record {
        read =
            ih.read
            ∙ add_bit-visit (has_bytes (sys.fionread x)) x xs k i says_read m.readm (λ e. refl);
        close =
            ih.close
            ∙ ap (λ b. b || from_place xs (k + 1) i (says_closed full))
                (visit_full f e1 e2 k i m.closem)
            ∙ add_bit-visit (e1 || (f && e2)) x xs k i (says_closed full) m.closem
                (λ e. rw same refl);
        write =
            ih.write
            ∙ ap (λ b. b || from_place xs (k + 1) i (says_write full))
                (visit_write f sp k i m.writem)
            ∙ add_bit-visit (f && sp) x xs k i (says_write full) m.writem (λ e. rw same refl);
      }

  record Polled (rev : ℕ → Revents) (xs : List ℕ) (k i : ℕ) (m n : Masks) : Type 0 where
    pub read : has n.readm i ≡ has m.readm i || from_place xs k i (λ x. (rev i).pollin)
    pub close : has n.closem i ≡ has m.closem i || from_place xs k i (λ x. (rev i).hangup)
    pub write : has n.writem i ≡ has m.writem i || from_place xs k i (λ x. (rev i).pollout)

  poll_loop-Polled :
      (rev : ℕ → Revents) (xs : List ℕ) (k i : ℕ) (m : Masks) (ws : ℕ → Waitable)
      → Polled rev xs k i m (poll_loop rev k xs m ws).0
  poll_loop-Polled rev [] k i m ws = record {
    read = ground arith;
    close = ground arith;
    write = ground arith;
  }
  poll_loop-Polled rev (x ∷ xs) k i m ws =
      let m' : Masks = record {
        readm = add_bit (rev k).pollin k m.readm;
        closem = add_bit (rev k).hangup k m.closem;
        writem = add_bit (rev k).pollout k m.writem;
      } in
      let ih = poll_loop-Polled rev xs (k + 1) i m' (make_ready (rev k).pollin ws x) in
      record {
        read =
            ih.read
            ∙ add_bit-visit (rev k).pollin x xs k i (λ y. (rev i).pollin) m.readm (λ e. rw e refl);
        close =
            ih.close
            ∙ add_bit-visit (rev k).hangup x xs k i (λ y. (rev i).hangup) m.closem (λ e. rw e refl);
        write =
            ih.write
            ∙ add_bit-visit (rev k).pollout x xs k i (λ y. (rev i).pollout) m.writem
                (λ e. rw e refl);
      }

  three :
      {a a' b b' c c' : Bool}
      → a ≡ a'
      → b ≡ b'
      → c ≡ c'
      → ◌≡◌ {A = Bool × Bool × Bool} (a, b, c) (a', b', c')
  three e f g = rw (e, f, g) refl

  -- What ioctl says of the pipe at the place `i`, with the mark that it had when it was registered.
  abbrev pub by_ioctl : (ℕ → Waitable) → Waiter → ℕ → Bool × Bool × Bool
  by_ioctl ws w i = (
    has w.readymask i || at_place w.pipes i says_read,
    at_place w.pipes i (says_closed (λ x. (ws x).bufferfull)),
    at_place w.pipes i (says_write (λ x. (ws x).bufferfull)),
  )

  abbrev pub by_poll :
      (ℕ → Waitable) → Waiter → Option (ℕ → Bool → Revents) → ℕ → Bool × Bool × Bool
  by_poll ws w none i = by_ioctl ws w i
  by_poll ws w (some rev) i =
      let r = rev i (asks_pollout ws w.pipes i) in
      (
        at_place w.pipes i (λ x. r.pollin),
        at_place w.pipes i (λ x. r.hangup),
        at_place w.pipes i (λ x. r.pollout),
      )

  from_first : (xs : List ℕ) (i : ℕ) (f : ℕ → Bool) → from_place xs 0 i f ≡ at_place xs i f
  from_first xs i f = ground arith

  checkall-finds :
      (ws : ℕ → Waitable) (w : Waiter) (i : ℕ)
      → (found_at (checkall buffer sys ws w).0 i ≡ by_ioctl ws w i)
        × ((checkall buffer sys ws w).2 ≡ no_pipes)
  checkall-finds ws w i =
      let c =
        check_loop-Checked w.pipes 0 i (record no_masks { readm = w.readymask }) ws
          (λ x. (ws x).bufferfull) (λ y. refl) in
      (
        three (c.read ∙ ap (λ b. has w.readymask i || b) (from_first w.pipes i says_read))
            (c.close ∙ from_first w.pipes i (says_closed (λ x. (ws x).bufferfull)))
            (c.write ∙ from_first w.pipes i (says_write (λ x. (ws x).bufferfull))),
        refl,
      )

  after_polling-finds :
      (p : Option (ℕ → Bool → Revents)) (ws : ℕ → Waitable) (w : Waiter) (i : ℕ)
      → (found_at (after_polling buffer sys p ws w).0 i ≡ by_poll ws w p i)
        × ((after_polling buffer sys p ws w).2 ≡ no_pipes)
  after_polling-finds none ws w i = checkall-finds ws w i
  after_polling-finds (some rev) ws w i =
      let c = poll_loop-Polled (λ j. rev j (asks_pollout ws w.pipes j)) w.pipes 0 i no_masks ws in
      let r = rev i (asks_pollout ws w.pipes i) in
      (
        three (c.read ∙ from_first w.pipes i (λ x. r.pollin))
            (c.close ∙ from_first w.pipes i (λ x. r.hangup))
            (c.write ∙ from_first w.pipes i (λ x. r.pollout)),
        refl,
      )

  by_poll-nobody :
      (ws : ℕ → Waitable) (w : Waiter) (p : Option (ℕ → Bool → Revents)) (i : ℕ)
      → w.readymask ≡ []
      → w.pipes ≡ []
      → by_poll ws w p i ≡ (false, false, false)
  by_poll-nobody ws w none i e f = rw (e, f) refl
  by_poll-nobody ws w (some rev) i e f = rw f refl

  -- What pipe_waiter::wait says of the place `i`: where a pipe was marked ready or poll fails, by ioctl,
  -- else by poll.
  abbrev pub by_wait : (ℕ → Waitable) → Waiter → ℕ → Bool × Bool × Bool
  by_wait ws w i = if length w.readymask == 0 then by_poll ws w sys.polled i else by_ioctl ws w i

  -- A waiter as such, whatever its bits.
  wait-finds :
      (ws : ℕ → Waitable) (w : Waiter) (i : ℕ)
      → (found_at (wait buffer sys ws w).0 i ≡ by_wait ws w i)
        × ((wait buffer sys ws w).2 ≡ no_pipes)
  wait-finds ws w i = elim (Bool-cases (length w.readymask == 0)) [
    | inl quiet ↦ elim (Bool-cases (length w.pipes == 0)) [
      | inl nobody ↦
          let none_found =
            by_poll-nobody ws w sys.polled i (empty-nil w.readymask quiet)
              (empty-nil w.pipes nobody) in
          rw (quiet, nobody) (sym none_found, refl)
      | inr somebody ↦ rw (quiet, somebody) (after_polling-finds sys.polled ws w i)
    ]
    | inr marked ↦ rw marked (checkall-finds ws w i)
  ]

  by_ioctl-beyond :
      (ws : ℕ → Waitable) (w : Waiter) (i : ℕ)
      → all_below (length w.pipes) w.readymask ≡ true
      → length w.pipes ≤ i
      → by_ioctl ws w i ≡ (false, false, false)
  by_ioctl-beyond ws w i below le =
      three
        (rw (has-beyond (length w.pipes) i w.readymask below le)
          (at_place-beyond w.pipes i says_read le))
        (at_place-beyond w.pipes i (says_closed (λ x. (ws x).bufferfull)) le)
        (at_place-beyond w.pipes i (says_write (λ x. (ws x).bufferfull)) le)

  by_poll-beyond :
      (ws : ℕ → Waitable) (w : Waiter) (p : Option (ℕ → Bool → Revents)) (i : ℕ)
      → all_below (length w.pipes) w.readymask ≡ true
      → length w.pipes ≤ i
      → by_poll ws w p i ≡ (false, false, false)
  by_poll-beyond ws w none i below le = by_ioctl-beyond ws w i below le
  by_poll-beyond ws w (some rev) i below le =
      let r = rev i (asks_pollout ws w.pipes i) in
      three (at_place-beyond w.pipes i (λ x. r.pollin) le)
        (at_place-beyond w.pipes i (λ x. r.hangup) le)
        (at_place-beyond w.pipes i (λ x. r.pollout) le)

  by_wait-nobody :
      (ws : ℕ → Waitable) (w : Waiter) (i : ℕ)
      → all_below (length w.pipes) w.readymask ≡ true
      → length w.pipes ≤ i
      → by_wait ws w i ≡ (false, false, false)
  by_wait-nobody ws w i below le = elim (Bool-cases (length w.readymask == 0)) [
    | inl quiet ↦ rw quiet (by_poll-beyond ws w sys.polled i below le)
    | inr marked ↦ rw marked (by_ioctl-beyond ws w i below le)
  ]

  -- With a waiter whose bits are all of registered pipes: for every place, the bits that
  -- pipe_waiter::wait returns for reading, closing and writing are what the system says of the pipe
  -- registered there, by ioctl, and the marks of the pipes, if a pipe was marked ready or poll fails,
  -- else by poll. No bit is set where no pipe is, and the waiter is empty afterwards.
  pub wait_finds :
      (ws : ℕ → Waitable) (w : Waiter) (i : ℕ)
      → all_below (length w.pipes) w.readymask ≡ true
      → (found_at (wait buffer sys ws w).0 i ≡ by_wait ws w i)
        × ((i < length w.pipes) ⊎ (found_at (wait buffer sys ws w).0 i ≡ (false, false, false)))
        × ((wait buffer sys ws w).2 ≡ no_pipes)
  wait_finds ws w i below =
      let (e, gone) = wait-finds ws w i in
      elim (Bool-cases (ltb i (length w.pipes))) [
        | inl there ↦ (e, inl (ground arith), gone)
        | inr beyond ↦ (e, inr (e ∙ by_wait-nobody ws w i below (ground arith)), gone)
      ]
