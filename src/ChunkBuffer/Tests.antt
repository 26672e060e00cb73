-- ===== src/ChunkBuffer/Tests.antt =====
-- Concrete chains of chunks of four bytes, as chunk_buffer of source/imconee/tools.h holds them.
use imconee.Common.{ℕ, ◌≡◌, refl, List, [], ◌∷◌, ◌++◌, take, drop, length, arith, ◌≤◌, inr}
use imconee.ChunkBuffer.{ChunkBuffer, append, peek, skip, assign}
use imconee.ChunkBuffer.Bounds.{contents, IsValid}
use imconee.ChunkBuffer.Write.{append_refines}
use imconee.ChunkBuffer.Read.{peek_refines, skip-Skipped}
use imconee.ChunkBuffer.Assign.{assign_dangles}

-- Two chunks, the first read up to its third byte, the second filled up to its second.
abbrev two : ChunkBuffer
two = record {
  chunks = (1 ∷ 2 ∷ 3 ∷ 4 ∷ []) ∷ (5 ∷ 6 ∷ 0 ∷ 0 ∷ []) ∷ [];
  last = 1;
  first_skip = 2;
  last_size = 2;
}

two-IsValid : IsValid 4 two
two-IsValid = record {
  chain = record { arrays = (refl, (refl, tt)); last_in = λ ne. refl; last_fits = omega arith };
  unread = inr ((λ e. cc), omega arith);
}

abbrev news : List ℕ
news = 7 ∷ 8 ∷ 9 ∷ []

append_refines_example :
    (contents (append 4 two news) ≡ contents two ++ news) × IsValid 4 (append 4 two news)
append_refines_example = append_refines 4 {b = two} news (omega arith) two-IsValid

peek_refines_example :
    ((peek 4 two 3).0 ≡ take 3 (contents two))
    × (contents (peek 4 two 3).1 ≡ drop 3 (contents two))
    × IsValid 4 (peek 4 two 3).1
peek_refines_example = peek_refines 4 {b = two} 3 two-IsValid

skip-Skipped_example :
    (contents (skip 4 two 3) ≡ drop 3 (contents two))
    × IsValid 4 (skip 4 two 3)
    × (length (skip 4 two 3).chunks ≤ length two.chunks)
skip-Skipped_example = skip-Skipped 4 two 3 two-IsValid (omega arith)

assign_dangles_example : length (assign 4 two news).chunks ≤ (assign 4 two news).last
assign_dangles_example =
    assign_dangles 4 {b = two} news two-IsValid (omega arith) (omega arith) (omega arith)
