-- ===== src/TcpPipe/Order.antt =====
-- The order of the bytes that tcp_pipe::send passes on.
use imconee.Common.{
  ℕ, ◌≡◌, ◌≢◌, ◌≤◌, ◌<◌, refl, sym, ap, ◌∙◌, ◌⊎◌, inl, inr, true, false, List, [], ◌∷◌, ◌++◌, ltb,
  ◌==◌, if◌then◌else◌, length, take, drop, append_assoc, take-append-drop, Bool-cases, arith,
  append-nil, take_all, take-append_le, length-append, ltb→ge, ==_iff,
}
use imconee.ChunkBuffer.{ChunkBuffer, append, skip, get_1st_chunk, is_empty}
use imconee.ChunkBuffer.Bounds.{contents, IsValid}
use imconee.ChunkBuffer.Write.{append_refines}
use imconee.ChunkBuffer.Read.{skip-Skipped, get_1st_chunk-prefix}
use imconee.ChunkBuffer.Query.{is_empty_refines}
use imconee.TcpPipe.{
  TcpPipe, Taken, would_block, broken, took, SendResult, send_ok, send_fail, send, flush, keep,
  direct,
}

-- All the bytes that have been given to the pipe, in order.
abbrev pub stream : TcpPipe → List ℕ
stream p = p.taken ++ contents p.outbuf

-- The socket takes no more than it is offered.
abbrev pub IsSocket : (List ℕ → Taken) → Type 0
IsSocket os = (bytes : List ℕ) (n : ℕ) → os bytes ≡ took n → n ≤ length bytes

pub empty-nil : (xs : List ℕ) → (length xs == 0) ≡ true → xs ≡ []
empty-nil [] e = refl
empty-nil (x ∷ xs) e =
    let z : length (x ∷ xs) ≡ 0 = (==_iff (length (x ∷ xs)) 0).0 e in absurd (omega (arith, z))

nothing : (xs : List ℕ) → ltb 0 (length xs) ≡ false → xs ≡ []
nothing [] e = refl
nothing (x ∷ xs) e = absurd (omega (arith, ltb→ge 0 (length (x ∷ xs)) e))

module _ (size : ℕ) (pos : 0 < size) where
  -- What a call leaves of the bytes, unless it fails.
  record Ordered (p : TcpPipe) (bytes : List ℕ) (r : SendResult × TcpPipe) : Type 0 where
    order : r.0 ≢ send_fail → stream r.1 ≡ stream p ++ bytes
    valid : IsValid size r.1.outbuf
    drained : r.0 ≡ send_ok → contents r.1.outbuf ≡ []

  is_empty-nil : (b : ChunkBuffer) → IsValid size b → is_empty b ≡ true → contents b ≡ []
  is_empty-nil b v e = empty-nil (contents b) (sym (is_empty_refines size v pos) ∙ e)

  keep-Ordered :
      (p : TcpPipe) (bytes : List ℕ) (n : ℕ)
      → IsValid size p.outbuf
      → contents p.outbuf ≡ []
      → n ≤ length bytes
      → Ordered p bytes (keep size p bytes n)
  unfolding keep
  keep-Ordered p bytes n v e h =
      let a = append_refines size {b = p.outbuf} (drop n bytes) pos v in
      let start : stream p ++ bytes ≡ p.taken ++ bytes =
        ap (λ t. (p.taken ++ t) ++ bytes) e ∙ ap (λ t. t ++ bytes) (append-nil p.taken) in
      elim (Bool-cases (ltb n (length bytes))) [
        | inl part ↦ rw part (record {
          order = λ ok.
              ap (λ t. (p.taken ++ take n bytes) ++ t) (a.0 ∙ ap (λ t. t ++ drop n bytes) e)
              ∙ append_assoc p.taken (take n bytes) (drop n bytes)
              ∙ ap (λ t. p.taken ++ t) (take-append-drop n bytes)
              ∙ sym start;
          valid = a.1;
          drained = λ z. (let bot : ⊥ = cc in absurd bot);
        })
        | inr whole ↦ rw whole (record {
          order = λ ok.
              ap (λ t. (p.taken ++ take n bytes) ++ t) e
              ∙ append-nil (p.taken ++ take n bytes)
              ∙ ap (λ t. p.taken ++ t) (take_all n bytes (ltb→ge n (length bytes) whole))
              ∙ sym start;
          valid = v;
          drained = λ z. e;
        })
      ]

  direct-Ordered :
      (p : TcpPipe) (bytes : List ℕ) (t : Taken)
      → IsValid size p.outbuf
      → contents p.outbuf ≡ []
      → ((n : ℕ) → t ≡ took n → n ≤ length bytes)
      → Ordered p bytes (direct size p bytes t)
  unfolding direct
  direct-Ordered p bytes would_block v e h = keep-Ordered p bytes 0 v e (omega arith)
  direct-Ordered p bytes broken v e h = record {
    order = λ ok. absurd (ok refl);
    valid = v;
    drained = λ z. e;
  }
  direct-Ordered p bytes (took n) v e h = keep-Ordered p bytes n v e (h n refl)

  -- `q` is `p` with the bytes appended.
  flush-Ordered :
      (p q : TcpPipe) (bytes : List ℕ) (t : Taken)
      → IsValid size q.outbuf
      → stream q ≡ stream p ++ bytes
      → ((n : ℕ) → t ≡ took n → n ≤ length (get_1st_chunk size q.outbuf))
      → Ordered p bytes (flush size q t)
  unfolding flush
  flush-Ordered p q bytes would_block v e h = record {
    order = λ ok. e;
    valid = v;
    drained = λ z. (let bot : ⊥ = cc in absurd bot);
  }
  flush-Ordered p q bytes broken v e h = record {
    order = λ ok. e;
    valid = v;
    drained = λ z. (let bot : ⊥ = cc in absurd bot);
  }
  flush-Ordered p q bytes (took n) v e h =
      let b = q.outbuf in
      let first = get_1st_chunk size b in
      let pre = get_1st_chunk-prefix size b.chunks b.last b.first_skip b.last_size v in
      let front : take n first ≡ take n (contents b) =
        sym (ap (take n) pre.1 ∙ take-append_le n first pre.0 (h n refl)) in
      let s =
        skip-Skipped size b n v
          (omega (arith, ap length pre.1, length-append first pre.0, h n refl)) in
      let order : (q.taken ++ take n first) ++ contents (skip size b n) ≡ stream p ++ bytes =
        ap (λ t. (q.taken ++ t) ++ contents (skip size b n)) front
        ∙ ap (λ t. (q.taken ++ take n (contents b)) ++ t) s.0
        ∙ append_assoc q.taken (take n (contents b)) (drop n (contents b))
        ∙ ap (λ t. q.taken ++ t) (take-append-drop n (contents b))
        ∙ e in
      elim (Bool-cases (is_empty (skip size b n))) [
        | inl all ↦ rw all (record {
          order = λ ok. order;
          valid = s.1;
          drained = λ z. is_empty-nil (skip size b n) s.1 all;
        })
        | inr some_left ↦ rw some_left (record {
          order = λ ok. order;
          valid = s.1;
          drained = λ z. (let bot : ⊥ = cc in absurd bot);
        })
      ]

  send-Ordered :
      (p : TcpPipe) (bytes : List ℕ) (os : List ℕ → Taken)
      → IsValid size p.outbuf
      → IsSocket os
      → Ordered p bytes (send size p bytes os)
  unfolding send
  send-Ordered p bytes os v k = elim (Bool-cases (is_empty p.outbuf)) [
    | inl none_held ↦
        let e = is_empty-nil p.outbuf v none_held in
        elim (Bool-cases (length bytes == 0)) [
          | inl no_data ↦
              rw (none_held, no_data)
                (record {
                  order = λ ok.
                      sym (append-nil (stream p))
                      ∙ ap (λ t. stream p ++ t) (sym (empty-nil bytes no_data));
                  valid = v;
                  drained = λ z. e;
                })
          | inr some_data ↦
              rw (none_held, some_data) (direct-Ordered p bytes (os bytes) v e (k bytes))
        ]
    | inr held ↦ rw held (queued-Ordered (Bool-cases (ltb 0 (length bytes))))
  ]
    where
      queued : TcpPipe
      queued = if ltb 0 (length bytes) then record p { outbuf = append size p.outbuf bytes } else p

      queued-Ordered :
          (ltb 0 (length bytes) ≡ true) ⊎ (ltb 0 (length bytes) ≡ false)
          → Ordered p bytes (flush size queued (os (get_1st_chunk size queued.outbuf)))
      queued-Ordered (inl some_data) =
          let q = record p { outbuf = append size p.outbuf bytes } in
          let a = append_refines size {b = p.outbuf} bytes pos v in
          rw some_data (
            flush-Ordered p q bytes (os (get_1st_chunk size q.outbuf)) a.1
              (ap (λ t. p.taken ++ t) a.0 ∙ sym (append_assoc p.taken (contents p.outbuf) bytes))
              (k (get_1st_chunk size q.outbuf)))
      queued-Ordered (inr no_data) = rw no_data (
          flush-Ordered p p bytes (os (get_1st_chunk size p.outbuf)) v
            (sym (append-nil (stream p)) ∙ ap (λ t. stream p ++ t) (sym (nothing bytes no_data)))
            (k (get_1st_chunk size p.outbuf)))

  -- A call of send that does not fail puts its bytes behind all those given to the pipe before, whatever
  -- the socket takes of them, and leaves the buffer valid.
  pub send_order :
      (p : TcpPipe) (bytes : List ℕ) (os : List ℕ → Taken)
      → IsValid size p.outbuf
      → IsSocket os
      → (send size p bytes os).0 ≢ send_fail
      → (stream (send size p bytes os).1 ≡ stream p ++ bytes)
        × IsValid size (send size p bytes os).1.outbuf
  send_order p bytes os v k ok = let r = send-Ordered p bytes os v k in (r.order ok, r.valid)

  -- Where a call of send says that all is sent, the socket has taken all the bytes given to the pipe.
  pub send_drained :
      (p : TcpPipe) (bytes : List ℕ) (os : List ℕ → Taken)
      → IsValid size p.outbuf
      → IsSocket os
      → (send size p bytes os).0 ≡ send_ok
      → (send size p bytes os).1.taken ≡ stream p ++ bytes
  send_drained p bytes os v k ok =
      let r = send-Ordered p bytes os v k in
      sym (append-nil (send size p bytes os).1.taken)
      ∙ ap (λ t. (send size p bytes os).1.taken ++ t) (sym (r.drained ok))
      ∙ r.order (λ z. (let bot : ⊥ = cc in absurd bot))
