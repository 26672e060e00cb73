-- ===== src/TcpPipe/Tests.antt =====
-- A pipe that holds two bytes, and a socket that takes at most three: tcp_pipe of
-- source/imconee/netkit.cpp on concrete bytes.
use imconee.Common.{ℕ, ◌≡◌, ◌≢◌, refl, sym, ◌∙◌, List, [], ◌∷◌, ◌++◌, length, min, arith, inl, true}
use imconee.ChunkBuffer.{
  append, append_loop, append_round, with_first, is_empty, get_1st_chunk, skip, skip_loop, store_at,
}
use imconee.ChunkBuffer.Bounds.{IsValid}
use imconee.TcpPipe.{TcpPipe, Taken, took, SendResult, send_ok, send_fail, send}
use imconee.TcpPipe.Order.{stream, IsSocket, send_order}

abbrev waiting : TcpPipe
waiting = record {
  taken = 1 ∷ 2 ∷ [];
  outbuf = record {
    chunks = (3 ∷ 4 ∷ 0 ∷ 0 ∷ 0 ∷ []) ∷ [];
    last = 0;
    first_skip = 0;
    last_size = 2;
  };
  bufferfull = true;
}

waiting-IsValid : IsValid 5 waiting.outbuf
waiting-IsValid = record {
  chain = record { arrays = (refl, tt); last_in = λ ne. refl; last_fits = omega arith };
  unread = inl refl;
}

abbrev socket : List ℕ → Taken
socket bytes = took (min 3 (length bytes))

took-injective : (n k : ℕ) → took n ≡ took k → n ≡ k
took-injective n k e = cc

socket-IsSocket : IsSocket socket
socket-IsSocket bytes n e = omega (arith, took-injective (min 3 (length bytes)) n e)

abbrev news : List ℕ
news = 5 ∷ []

accepted : (send 5 waiting news socket).0 ≡ send_ok
unfolding send append append_loop append_round with_first is_empty get_1st_chunk skip skip_loop
    store_at
accepted = refl

passes : (send 5 waiting news socket).0 ≢ send_fail
passes z = let k : ◌≡◌ {A = SendResult} send_ok send_fail = sym accepted ∙ z in cc

send_order_example :
    (stream (send 5 waiting news socket).1 ≡ stream waiting ++ news)
    × IsValid 5 (send 5 waiting news socket).1.outbuf
send_order_example =
    send_order 5 (omega arith) waiting news socket waiting-IsValid socket-IsSocket passes
