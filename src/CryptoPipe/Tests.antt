-- ===== src/CryptoPipe/Tests.antt =====
-- A connection of two crypto_pipes of source/imconee/cipher_ss.cpp, on concrete bytes.
use imconee.Common.{
  ℕ, zero, suc, All, ◌<◌, ◌≡◌, ◌≤◌, refl, some, true, false, List, [], ◌∷◌, ◌++◌, take, length,
  arith, replicate,
}
use imconee.Cipher.Sample.{pair}
use imconee.Cipher.Filter.{write, end_msg, process, flatten}
use imconee.Cipher.Encipher.{encipher, encipher_loop, encode_chunk, encode}
use imconee.Cipher.Nonce.{nonce_increment, increment_from, fresh_nonce}
use imconee.Net.Order.{to_ne, store_u16}
use imconee.CryptoPipe.{CryptoPipe, Wanted, exactly, at_most, crypto_pipe, send}
use imconee.CryptoPipe.Busy.{
  Busy, fresh, enter_call, leave_call, close, Events, none_more, one_more, enters, leaves, closes,
  close_while_busy,
}
use imconee.CryptoPipe.Sending.{send_all}
use imconee.CryptoPipe.RoundTrip.{recv_all, recv_all-send_all, sum_of, room, least}

abbrev derive : List ℕ → List ℕ → List ℕ
derive master_key salt = master_key ++ salt

abbrev grow : ℕ → ℕ → ℕ
grow old need = need

abbrev master : List ℕ
master = 7 ∷ []

abbrev salt : List ℕ
salt = 1 ∷ 2 ∷ []

abbrev messages : List (List ℕ)
messages = (104 ∷ 105 ∷ []) ∷ (33 ∷ []) ∷ []

abbrev sender : CryptoPipe
sender = crypto_pipe derive (λ key. pair) grow 2 12 master salt

sent :
    (wire : List ℕ) × (last : CryptoPipe) × (send_all derive
        (λ key. pair)
        grow
        2
        12
        master
        sender
        messages
      ≡ some (wire, last))
    × (length wire ≡ 73)
unfolding send_all send crypto_pipe encipher encipher_loop encode_chunk encode process write end_msg
    nonce_increment increment_from to_ne store_u16 fresh_nonce
sent = (_, _, refl, refl)

-- One byte, and up to two more, of three sent; the bytes arrive one by one.
abbrev wanted : List Wanted
wanted = exactly 1 ∷ at_most 2 ∷ []

abbrev one_by_one : List ℕ
one_by_one = replicate 80 1

replicate_positive : (n : ℕ) → All (λ r. 0 < r) (replicate n 1)
replicate_positive zero = tt
replicate_positive (suc n) = (omega arith, replicate_positive n)

recv_all-send_all_example :
    (k : ℕ) × (sum_of least wanted ≤ k)
    × (k ≤ sum_of room wanted)
    × (recv_all derive
          (λ key. pair)
          grow
          2
          12
          master
          wanted
          (crypto_pipe derive (λ key. pair) grow 2 12 master (9 ∷ 9 ∷ []))
          (record { bytes = sent.0; ready = one_by_one })
        ≡ some (take k (flatten messages)))
recv_all-send_all_example =
    recv_all-send_all derive (λ key. pair) grow 2 12 master salt (9 ∷ 9 ∷ []) messages wanted
      one_by_one sent.0 sent.1 refl (omega arith, (omega arith, tt)) sent.2
      (omega arith, (omega arith, tt)) (omega arith) (replicate_positive 80) (omega (arith, sent.3))

-- A call is in progress, close comes, the call ends, and close comes again.
abbrev one_call : Busy
one_call = enter_call fresh

after_close : Events (close one_call) (close (leave_call (close one_call)))
after_close = one_more (one_more none_more (leaves (omega arith))) closes

close_while_busy_example : (close (leave_call (close one_call))).is_open ≡ true
close_while_busy_example =
    close_while_busy (one_more none_more (enters refl)) refl (omega arith) after_close

-- Without a call, it closes at once.
closed_test : (close (leave_call one_call)).is_open ≡ false
closed_test = refl
