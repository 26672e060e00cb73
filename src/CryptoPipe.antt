-- ===== src/CryptoPipe.antt =====
-- ss::core::crypto_pipe of source/imconee/cipher_ss.h and cipher_ss.cpp: a pipe that enciphers what it
-- sends over another pipe and deciphers what it receives from it. What keeps its calls apart from
-- close is Busy; here one call runs at a time. The buffer of plain bytes is the list of its contents.
pub mod Busy
pub mod Receive
pub mod Sending
pub mod RoundTrip
mod Tests
use imconee.Common.{
  ℕ, ◌-◌, Bool, true, false, Option, none, some, List, [], ◌∷◌, ◌++◌, min, leb, if◌then◌else◌,
  length, take, drop,
}
use imconee.Cipher.Nonce.{fresh_nonce}
use imconee.Cipher.Mode.{CipherMode, AeadPair}
use imconee.Cipher.Encipher.{Coded, encipher}
use imconee.Cipher.Decipher.{Decryptor, Outcome, returned, corrupted, thrown, decipher}
use imconee.Cipher.Stream.Feed.{new_decryptor}

-- What the pipe below still delivers, and for each further call of recv how many of the bytes have
-- arrived by then. It is closed behind the last of them.
pub record Incoming : Type 0 where
  pub bytes : List ℕ
  pub ready : List ℕ

-- The key and the nonce of the encryptor, the bytes that go out with the next send, the key and the
-- state of the decryptor, once it has one, and the plain bytes that were not asked for.
pub record CryptoPipe : Type 0 where
  pub is_open : Bool
  pub key : List ℕ
  pub iv : List ℕ
  pub encrypted_data : List ℕ
  pub decryptor : Option (List ℕ × Decryptor)
  pub decrypted_data : List ℕ

-- The result of recv: the bytes written to `data`, a negative number, or an exception.
pub data Received : Type 0 where
  received : List ℕ → Received
  failed raised : Received

-- What a call of send leads to: these bytes are given to the send of the pipe below, that pipe is
-- asked whether it may send, SEND_FAIL, or an exception.
pub data Sent : Type 0 where
  given : List ℕ → Sent
  asked refused broken : Sent

-- The variables of recv that its loop changes.
pub record Progress : Type 0 where
  pub decryptor : Decryptor
  pub plain : List ℕ
  pub incoming : Incoming

-- The size of `temp`.
abbrev pub temp_size : ℕ
temp_size = 65536

-- decrypted_data.peek(data, n)
abbrev pub hand_out : ℕ → Progress → Received × Progress
hand_out n p = (received (take n p.plain), record p { plain = drop n p.plain })

-- `enough_for`: all the plain bytes, or as many as there is room for.
unfoldable pub hand_up_to : ℕ → Progress → Received × Progress
hand_up_to n p =
    if leb (length p.plain) n then (received p.plain, record p { plain = [] }) else hand_out n p

module _ (dec : CipherMode) (grow : ℕ → ℕ → ℕ) where
  -- `if (sz > 0)`: the bytes that have arrived are deciphered.
  unfoldable pub absorb : List ℕ → Decryptor → List ℕ → Outcome × Decryptor × List ℕ
  absorb [] d plain = (returned 0, d, plain)
  absorb (x ∷ xs) d plain = decipher dec grow d plain (x ∷ xs)

  -- What follows decipher in a round: `go` is the rest of the function.
  unfoldable pub after_round :
      Incoming
      → Outcome × Decryptor × List ℕ
      → (Progress → Received × Progress)
      → Received × Progress
  after_round rest (returned k, d, plain) go =
      go (record { decryptor = d; plain = plain; incoming = rest })
  after_round rest (corrupted, d, plain) go =
      (failed, record { decryptor = d; plain = plain; incoming = rest })
  after_round rest (thrown, d, plain) go =
      (raised, record { decryptor = d; plain = plain; incoming = rest })

  -- The rounds of the loop that call recv, for a size of -n.
  unfoldable pub recv_loop : ℕ → List ℕ → List ℕ → Decryptor → List ℕ → Received × Progress
  unfolding absorb after_round
  recv_loop n [] bytes d plain = (
    failed,
    record { decryptor = d; plain = plain; incoming = record { bytes = bytes; ready = [] } },
  )
  recv_loop n (r ∷ rs) bytes d plain =
      let sz = min temp_size r in
      let rest : Incoming = record { bytes = drop sz bytes; ready = rs } in
      after_round rest (absorb (take sz bytes) d plain) (λ p.
        let again = recv_loop n rs (drop sz bytes) p.decryptor p.plain in
        if leb n (length p.plain) then hand_out n p else again)

  -- recv(data, -n) from the loop on; the first round does not call recv if there are plain bytes.
  unfoldable pub recv_exactly : ℕ → List ℕ → Decryptor → Incoming → Received × Progress
  unfolding recv_loop
  recv_exactly n [] d incoming = recv_loop n incoming.ready incoming.bytes d []
  recv_exactly n (x ∷ xs) d incoming =
      if leb n (length (x ∷ xs))
      then hand_out n (record { decryptor = d; plain = x ∷ xs; incoming = incoming })
      else recv_loop n incoming.ready incoming.bytes d (x ∷ xs)

  -- The one round that calls recv, for a size of n.
  unfoldable pub recv_once : ℕ → List ℕ → List ℕ → Decryptor → Received × Progress
  unfolding absorb after_round hand_up_to
  recv_once n [] bytes d = (
    failed,
    record { decryptor = d; plain = []; incoming = record { bytes = bytes; ready = [] } },
  )
  recv_once n (r ∷ rs) bytes d =
      let sz = min temp_size r in
      after_round (record { bytes = drop sz bytes; ready = rs }) (absorb (take sz bytes) d [])
        (hand_up_to n)

  -- recv(data, n) from the loop on.
  unfoldable pub recv_at_most : ℕ → List ℕ → Decryptor → Incoming → Received × Progress
  unfolding recv_once hand_up_to
  recv_at_most n [] d incoming = recv_once n incoming.ready incoming.bytes d
  recv_at_most n (x ∷ xs) d incoming =
      hand_up_to n (record { decryptor = d; plain = x ∷ xs; incoming = incoming })

-- The size given to recv: -n, or n.
pub data Wanted : Type 0 where
  exactly at_most : ℕ → Wanted

-- `derive` is deriveAeadSubkey, `aead` the cipher of a key; the salt is as long as the key.
module _ (derive : List ℕ → List ℕ → List ℕ) (aead : List ℕ → AeadPair) (grow : ℕ → ℕ → ℕ)
    (key_size nonce_size : ℕ) (master_key : List ℕ) where
  -- The constructor, with the random bytes it gets.
  unfoldable pub crypto_pipe : List ℕ → CryptoPipe
  crypto_pipe salt = record {
    is_open = true;
    key = derive master_key salt;
    iv = fresh_nonce nonce_size;
    encrypted_data = salt;
    decryptor = none;
    decrypted_data = [];
  }

  -- send; no bytes stand for a null pointer. The salt goes out with the first bytes. After an
  -- exception the pipe is not used again, and what encipher has done by then is left out.
  unfoldable pub send : CryptoPipe → Option (List ℕ) → Sent × CryptoPipe
  send p none = (if p.is_open then asked else refused, p)
  send p (some plain) =
      if p.is_open
      then elim (encipher (aead p.key).enc p.iv plain) [
        | none ↦ (broken, p)
        | some c ↦ (given (p.encrypted_data ++ c.out), record p { iv = c.iv; encrypted_data = [] })
      ]
      else (refused, p)

  unfoldable pub recv_wanted :
      CipherMode → Wanted → List ℕ → Decryptor → Incoming → Received × Progress
  unfolding recv_exactly recv_at_most
  recv_wanted dec (exactly n) plain d incoming = recv_exactly dec grow n plain d incoming
  recv_wanted dec (at_most n) plain d incoming = recv_at_most dec grow n plain d incoming

  -- The rest of recv, with the decryptor that there is then.
  unfoldable pub recv_deciphered :
      Wanted → CryptoPipe → List ℕ → Decryptor → Incoming → Received × CryptoPipe × Incoming
  unfolding recv_wanted
  recv_deciphered w p key d incoming =
      let r = recv_wanted (aead key).dec w p.decrypted_data d incoming in
      (
        r.0,
        record p { decryptor = some (key, r.1.decryptor); decrypted_data = r.1.plain },
        r.1.incoming,
      )

  -- recv; the first call reads the salt of the other side.
  unfoldable pub recv : Wanted → CryptoPipe → Incoming → Received × CryptoPipe × Incoming
  unfolding recv_deciphered
  recv w p incoming =
      if p.is_open
      then elim p.decryptor [
        | some (key, d) ↦ recv_deciphered w p key d incoming
        | none ↦
            if leb key_size (length incoming.bytes)
            then recv_deciphered w p (derive master_key (take key_size incoming.bytes))
                (new_decryptor (fresh_nonce nonce_size) 0)
                (record incoming { bytes = drop key_size incoming.bytes })
            else (failed, p, incoming)
      ]
      else (failed, p, incoming)
