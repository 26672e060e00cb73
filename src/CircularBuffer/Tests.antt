-- ===== src/CircularBuffer/Tests.antt =====
-- Concrete buffers, as circular_buffer of source/imconee/tools.h holds them.
use imconee.Common.{ℕ, ◌≡◌, refl, List, [], ◌∷◌, take, drop, length, arith, ◌≤◌}
use imconee.CircularBuffer.{CircularBuffer, get_1st_free, receive, peek, get_free_size}
use imconee.CircularBuffer.Bounds.{IsValid, peek-IsValid, receive-IsValid}
use imconee.CircularBuffer.Refine.{contents, circular_peek_refines}

-- Five of eight bytes held, over the end of the array.
abbrev wrapped : CircularBuffer
wrapped = record { mem = 14 ∷ 15 ∷ 0 ∷ 0 ∷ 0 ∷ 11 ∷ 12 ∷ 13 ∷ []; start = 5; end = 2 }

wrapped-IsValid : IsValid 8 wrapped
wrapped-IsValid = record { room = omega arith; end_in = omega arith; start_in = omega arith }

abbrev news : List ℕ
news = 16 ∷ 17 ∷ []

news_fit : length news ≤ (get_1st_free 8 wrapped).1
unfolding get_1st_free
news_fit = omega arith

circular_peek_refines_example :
    ((peek 8 wrapped 4).0 ≡ take 4 (contents 8 wrapped))
    × (contents 8 (peek 8 wrapped 4).1 ≡ drop 4 (contents 8 wrapped))
circular_peek_refines_example = circular_peek_refines 8 wrapped-IsValid 4

peek-IsValid_example : IsValid 8 (peek 8 wrapped 4).1
peek-IsValid_example = peek-IsValid 8 wrapped-IsValid 4

receive-IsValid_example : IsValid 8 (receive 8 wrapped news)
receive-IsValid_example = receive-IsValid 8 wrapped-IsValid news news_fit

-- All but the byte in front of the start is held.
abbrev brim : CircularBuffer
brim = record wrapped { start = 5; end = 4 }

brim-IsValid : IsValid 8 brim
brim-IsValid = record { room = omega arith; end_in = omega arith; start_in = omega arith }

no_room : get_free_size 8 brim ≡ 0
unfolding get_free_size
no_room = omega arith

peek_test : (peek 8 wrapped 4).0 ≡ 11 ∷ 12 ∷ 13 ∷ 14 ∷ []
unfolding peek
peek_test = refl
