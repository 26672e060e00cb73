-- ===== src/CryptoPipe/RoundTrip.antt =====
-- Two ends of a connection that are both crypto_pipe of source/imconee/cipher_ss.cpp.
use mathlib.Core.Option
use mathlib.Core.Option.{some-injective}
use imconee.Common.{
  ℕ, zero, suc, ◌+◌, ◌≤◌, ◌<◌, ◌≡◌, inl, refl, sym, ap, ◌∙◌, true, Option, none, some, List, [],
  ◌∷◌, ◌++◌, leb, le→leb, length, take, drop, length-drop, length-append, take-nil, take_all,
  take-append_le, drop-append_ge, append-nil, All, arith,
}
use imconee.Cipher.Nonce.{fresh_nonce}
use imconee.Cipher.Mode.{AeadPair}
use imconee.Cipher.Filter.{flatten}
use imconee.Cipher.Frames.{frames}
use imconee.Cipher.Decipher.{Decryptor}
use imconee.Cipher.Stream.Feed.{new_decryptor, start-Waiting}
use imconee.CryptoPipe.{
  CryptoPipe, Incoming, Received, received, failed, raised, Wanted, exactly, at_most, crypto_pipe,
  recv, recv_deciphered, recv_wanted,
}
use imconee.CryptoPipe.Receive.{Delivers, InStep, Gave, recv_exactly-Gave, recv_at_most-Gave}
use imconee.CryptoPipe.Sending.{send_all, messages-Streamed}

-- The size of a call, and what it reads at least.
abbrev pub room : Wanted → ℕ
room (exactly n) = n
room (at_most n) = n

abbrev pub least : Wanted → ℕ
least (exactly n) = n
least (at_most n) = 0

abbrev pub sum_of : (Wanted → ℕ) → List Wanted → ℕ
sum_of f [] = 0
sum_of f (w ∷ ws) = f w + sum_of f ws

take_plus : (a b : ℕ) (xs : List ℕ) → take a xs ++ take b (drop a xs) ≡ take (a + b) xs
take_plus zero b xs = ap (λ n. take n xs) (omega arith)
take_plus (suc a) b [] = take-nil b ∙ sym (take-nil (suc a + b))
take_plus (suc a) b (x ∷ xs) =
    ap (λ t. x ∷ t) (take_plus a b xs) ∙ ap (λ n. take n (x ∷ xs)) {x = suc (a + b)} (omega arith)

module _ (derive : List ℕ → List ℕ → List ℕ) (aead : List ℕ → AeadPair) (grow : ℕ → ℕ → ℕ)
    (key_size nonce_size : ℕ) (master_key : List ℕ) where
  more_received :
      Received × CryptoPipe × Incoming → (CryptoPipe → Incoming → Option (List ℕ)) → Option (List ℕ)
  more_received (received x, p, i) go = Option.map (λ r. x ++ r) (go p i)
  more_received (failed, p, i) go = none
  more_received (raised, p, i) go = none

  -- One recv after the other: all that is received.
  unfoldable pub recv_all : List Wanted → CryptoPipe → Incoming → Option (List ℕ)
  unfolding more_received
  recv_all [] p i = some []
  recv_all (w ∷ ws) p i =
      more_received (recv derive aead grow key_size nonce_size master_key w p i)
        (λ q j. recv_all ws q j)

  -- A run of recv that reads at most what is to come, from a state in step with the peer.
  record Read (ws : List Wanted) (plain : List ℕ) (o : Option (List ℕ)) : Type 0 where
    count : ℕ
    at_least : sum_of least ws ≤ count
    no_more : count ≤ sum_of room ws
    result : o ≡ some (take count plain)

  recv_open :
      (w : Wanted) (p : CryptoPipe) (i : Incoming) (key : List ℕ) (d : Decryptor)
      → p.decryptor ≡ some (key, d)
      → p.is_open ≡ true
      → recv derive aead grow key_size nonce_size master_key w p i
        ≡ recv_deciphered derive aead grow key_size nonce_size master_key w p key d i
  unfolding recv
  recv_open w p i key d e opened = simp (opened, e)

  Read-more :
      (w : Wanted) (ws : List Wanted) (p : CryptoPipe) (i : Incoming) (key : List ℕ) (d : Decryptor)
      (k : ℕ) (plain : List ℕ)
      → least w ≤ k
      → k ≤ room w
      → p.is_open ≡ true
      → (g : Gave (aead key) k plain (
          recv_wanted derive aead grow key_size nonce_size master_key
            (aead key).dec
            w
            p.decrypted_data
            d
            i))
      → Read ws (drop k plain) (
          recv_all ws
            (record p { decryptor = some (key, g.next.decryptor); decrypted_data = g.next.plain })
            g.next.incoming)
      → Read (w ∷ ws) plain (recv_all (w ∷ ws) (record p { decryptor = some (key, d) }) i)
  unfolding recv_all recv recv_deciphered
  Read-more w ws p i key d k plain lo hi opened g ih = record {
    count = k + ih.count;
    at_least = omega (arith, ih.at_least);
    no_more = omega (arith, ih.no_more);
    result =
        ap (λ r. more_received r (λ q j. recv_all ws q j))
          (recv_open w (record p { decryptor = some (key, d) }) i key d refl opened)
        ∙ rw g.result (
            ap (Option.map (λ r. take k plain ++ r)) ih.result
            ∙ ap some (take_plus k ih.count plain));
  }

  recv_all-Read :
      (ws : List Wanted) (p : CryptoPipe) (i : Incoming) (key : List ℕ) (d : Decryptor)
      (plain : List ℕ)
      → All (λ w. 0 < room w) ws
      → sum_of room ws ≤ length plain
      → p.is_open ≡ true
      → InStep (aead key) (record { decryptor = d; plain = p.decrypted_data; incoming = i }) plain
      → Delivers i
      → Read ws plain (recv_all ws (record p { decryptor = some (key, d) }) i)
  unfolding recv_all recv_wanted
  recv_all-Read [] p i key d plain a enough opened s del = record {
    count = 0;
    at_least = omega arith;
    no_more = omega arith;
    result = refl;
  }
  recv_all-Read (exactly n ∷ ws) p i key d plain a enough opened s del =
      let g =
        recv_exactly-Gave (aead key) grow n p.decrypted_data d i plain a.0 (omega arith) s del in
      Read-more (exactly n) ws p i key d n plain (omega arith) (omega arith) opened g (
        recv_all-Read ws (record p { decrypted_data = g.next.plain }) g.next.incoming key
          g.next.decryptor (drop n plain) a.1 (omega (arith, length-drop n plain)) opened g.in_step
          g.delivers)
  recv_all-Read (at_most n ∷ ws) p i key d plain a enough opened s del =
      let (k, le, g) =
        recv_at_most-Gave (aead key) grow n p.decrypted_data d i plain (omega arith) s del in
      Read-more (at_most n) ws p i key d k plain (omega arith) le opened g (
        recv_all-Read ws (record p { decrypted_data = g.next.plain }) g.next.incoming key
          g.next.decryptor (drop k plain) a.1 (omega (arith, length-drop k plain)) opened g.in_step
          g.delivers)

  -- The first recv takes the salt off.
  recv_first :
      (w : Wanted) (p : CryptoPipe) (salt bytes ready : List ℕ)
      → length salt ≡ key_size
      → p.decryptor ≡ none
      → p.is_open ≡ true
      → recv derive aead grow key_size nonce_size master_key w p
          (record { bytes = salt ++ bytes; ready = ready })
        ≡ recv_deciphered derive aead grow key_size nonce_size master_key w p
            (derive master_key salt)
            (new_decryptor (fresh_nonce nonce_size) 0)
            (record { bytes = bytes; ready = ready })
  unfolding recv
  recv_first w p salt bytes ready e none_yet opened =
      let fits : leb key_size (length (salt ++ bytes)) ≡ true =
        le→leb _ _ (omega (arith, length-append salt bytes)) in
      let front : take key_size (salt ++ bytes) ≡ salt =
        take-append_le key_size salt bytes (omega arith) ∙ take_all key_size salt (omega arith) in
      let behind : drop key_size (salt ++ bytes) ≡ bytes =
        drop-append_ge key_size salt bytes (omega arith)
        ∙ ap (λ n. drop n bytes) {y = 0} (omega arith) in
      simp (opened, none_yet, fits, front, behind)

  -- Two crypto_pipes with the same master key: what one sends, in any number of calls none of which is
  -- for no bytes, the other receives. If the calls of recv, each with a size other than 0, ask for no
  -- more bytes in all than were sent, and each call of recv of the pipe below gives something and
  -- there are enough of them, then every call succeeds, and the bytes received are the first of
  -- those sent, as many at least as the calls for an exact size ask for, and as many at most as all
  -- the calls ask for.
  pub recv_all-send_all :
      (salt own_salt : List ℕ) (ms : List (List ℕ)) (ws : List Wanted) (ready wire : List ℕ)
      (last : CryptoPipe)
      → length salt ≡ key_size
      → All (λ m. 0 < length m) ms
      → send_all derive aead grow key_size nonce_size master_key
          (crypto_pipe derive aead grow key_size nonce_size master_key salt)
          ms
        ≡ some (wire, last)
      → All (λ w. 0 < room w) ws
      → sum_of room ws ≤ length (flatten ms)
      → All (λ r. 0 < r) ready
      → length wire ≤ length ready
      → (k : ℕ) × (sum_of least ws ≤ k)
        × (k ≤ sum_of room ws)
        × (recv_all ws
              (crypto_pipe derive aead grow key_size nonce_size master_key own_salt)
              (record { bytes = wire; ready = ready })
            ≡ some (take k (flatten ms)))
  unfolding crypto_pipe recv_all recv_deciphered
  recv_all-send_all salt own_salt ms [] ready wire last size a sent b fits c del =
      (0, omega arith, omega arith, refl)
  recv_all-send_all salt own_salt [] (w ∷ ws) ready wire last size a sent b fits c del =
      absurd (omega (arith, b.0))
  recv_all-send_all salt own_salt (m ∷ ms) (w ∷ ws) ready wire last size a sent b fits c del =
      let st =
        messages-Streamed derive aead grow key_size nonce_size master_key (m ∷ ms)
          (crypto_pipe derive aead grow key_size nonce_size master_key salt) a refl in
      let same = some-injective _ _ (sym sent ∙ st.result) in
      let key = derive master_key salt in
      let stream = frames (aead key) (fresh_nonce nonce_size) st.payloads in
      let layout : wire ≡ salt ++ stream =
        ap (λ r. r.0) same
        ∙ sym (append-nil st.wire)
        ∙ ap (λ t. st.wire ++ t) (sym (st.flushed (inl (omega arith))))
        ∙ st.stream in
      let rest : Incoming = record { bytes = stream; ready = ready } in
      let own = crypto_pipe derive aead grow key_size nonce_size master_key own_salt in
      let d = new_decryptor (fresh_nonce nonce_size) 0 in
      let in_step : InStep (aead key) (record { decryptor = d; plain = []; incoming = rest })
          (flatten (m ∷ ms)) =
        record {
          nonce = fresh_nonce nonce_size;
          left = st.payloads;
          fit = st.fit;
          waiting = start-Waiting (aead key) stream (fresh_nonce nonce_size) st.payloads 0 refl;
          whole = st.whole;
        } in
      let read : Read (w ∷ ws) (flatten (m ∷ ms))
          (recv_all (w ∷ ws) (record own { decryptor = some (key, d) }) rest) =
        recv_all-Read (w ∷ ws) own rest key d (flatten (m ∷ ms)) b fits refl in_step
          (c, omega (arith, ap length layout, length-append salt stream)) in
      (
        read.count,
        read.at_least,
        read.no_more,
        ap (λ t. recv_all (w ∷ ws) own (record { bytes = t; ready = ready })) layout
            ∙ ap (λ r. more_received r (λ q j. recv_all ws q j))
                (recv_first w own salt stream ready size refl refl
                  ∙ sym
                      (recv_open w (record own { decryptor = some (key, d) }) rest key d refl refl))
            ∙ read.result,
      )
