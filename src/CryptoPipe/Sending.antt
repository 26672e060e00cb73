-- ===== src/CryptoPipe/Sending.antt =====
-- What a crypto_pipe of source/imconee/cipher_ss.cpp sends, call by call, is one stream of chunks
-- behind its salt.
use mathlib.Core.Option
use mathlib.Core.Option.{some-injective}
use imconee.Common.{
  ℕ, ◌<◌, ◌≡◌, ◌⊎◌, inl, inr, refl, sym, ap, ◌∙◌, true, Option, none, some, List, [], ◌∷◌, ◌++◌,
  length, append_assoc, append-nil, All, arith,
}
use imconee.Cipher.Mode.{AeadPair}
use imconee.Cipher.Filter.{flatten}
use imconee.Cipher.Frames.{IsPayload, frames, frames-append, nonce_behind}
use imconee.Cipher.Encipher.Chunks.{encipher_refines}
use imconee.Cipher.Stream.Feed.{flatten-append}
use imconee.CryptoPipe.{CryptoPipe, Sent, given, asked, refused, broken, crypto_pipe, send}

module _ (derive : List ℕ → List ℕ → List ℕ) (aead : List ℕ → AeadPair) (grow : ℕ → ℕ → ℕ)
    (key_size nonce_size : ℕ) (master_key : List ℕ) where
  more_sent :
      Sent × CryptoPipe → (CryptoPipe → Option (List ℕ × CryptoPipe)) → Option (List ℕ × CryptoPipe)
  more_sent (given out, p) go = Option.map (λ r. (out ++ r.0, r.1)) (go p)
  more_sent (asked, p) go = none
  more_sent (refused, p) go = none
  more_sent (broken, p) go = none

  -- One send after the other: all that is given to the pipe below.
  unfoldable pub send_all : CryptoPipe → List (List ℕ) → Option (List ℕ × CryptoPipe)
  unfolding more_sent
  send_all p [] = some ([], p)
  send_all p (m ∷ ms) =
      more_sent (send derive aead grow key_size nonce_size master_key p (some m))
        (λ q. send_all q ms)

  All-append :
      (ps qs : List (List ℕ)) → All IsPayload ps → All IsPayload qs → All IsPayload (ps ++ qs)
  All-append [] qs a b = b
  All-append (x ∷ xs) qs a b = (a.0, All-append xs qs a.1 b)

  -- The stream behind the salt.
  pub record Streamed (p : CryptoPipe) (ms : List (List ℕ)) : Type 0 where
    pub payloads : List (List ℕ)
    pub wire : List ℕ
    pub last : CryptoPipe
    pub fit : All IsPayload payloads
    pub whole : flatten payloads ≡ flatten ms
    pub result : send_all p ms ≡ some (wire, last)
    pub flushed : (0 < length ms) ⊎ (p.encrypted_data ≡ []) → last.encrypted_data ≡ []
    pub stream : wire ++ last.encrypted_data ≡ p.encrypted_data ++ frames (aead p.key) p.iv payloads

  pub messages-Streamed :
      (ms : List (List ℕ)) (p : CryptoPipe)
      → All (λ m. 0 < length m) ms
      → p.is_open ≡ true
      → Streamed p ms
  unfolding send_all send
  messages-Streamed [] p a opened = record {
    payloads = [];
    wire = [];
    last = p;
    fit = tt;
    whole = refl;
    result = refl;
    flushed = λ h. elim h [ inl bad ↦ absurd (omega arith) | inr e ↦ e ];
    stream = sym (append-nil p.encrypted_data);
  }
  messages-Streamed (m ∷ ms) p a opened =
      let (ps, coded, parts, fit) = encipher_refines (aead p.key) p.iv m a.0 in
      let q = record p { iv = nonce_behind p.iv ps; encrypted_data = [] } in
      let ih = messages-Streamed ms q a.1 opened in
      record {
        payloads = ps ++ ih.payloads;
        wire = (p.encrypted_data ++ frames (aead p.key) p.iv ps) ++ ih.wire;
        last = ih.last;
        fit = All-append ps ih.payloads fit ih.fit;
        whole =
            flatten-append ps ih.payloads
            ∙ ap (λ t. t ++ flatten ih.payloads) parts
            ∙ ap (λ t. m ++ t) ih.whole;
        result = rw (opened, coded, ih.result);
        flushed = λ h. ih.flushed (inr refl);
        stream =
            append_assoc (p.encrypted_data ++ frames (aead p.key) p.iv ps) ih.wire
              ih.last.encrypted_data
            ∙ ap (λ t. (p.encrypted_data ++ frames (aead p.key) p.iv ps) ++ t) ih.stream
            ∙ append_assoc p.encrypted_data (frames (aead p.key) p.iv ps) _
            ∙ ap (λ t. p.encrypted_data ++ t)
                (sym (frames-append (aead p.key) p.iv ps ih.payloads));
      }

  -- Calls of send on a new pipe, none of which is for no bytes: none fails.
  pub send_all_succeeds :
      (salt : List ℕ) (ms : List (List ℕ))
      → All (λ m. 0 < length m) ms
      → (wire : List ℕ) × (last : CryptoPipe) × (send_all
            (crypto_pipe derive aead grow key_size nonce_size master_key salt)
            ms
          ≡ some (wire, last))
  unfolding crypto_pipe
  send_all_succeeds salt ms a =
      let st =
        messages-Streamed ms (crypto_pipe derive aead grow key_size nonce_size master_key salt) a
          refl in
      (st.wire, st.last, st.result)
