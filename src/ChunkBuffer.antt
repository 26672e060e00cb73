-- ===== src/ChunkBuffer.antt =====
-- tools::chunk_buffer of source/imconee/tools.h: the send buffer of a TCP pipe and the buffer of
-- decrypted bytes. The chain of chunks from `first` is a list of arrays; the pointer `last` is the
-- position of its chunk in the chain (any number where `first` is null).
pub mod Bounds
pub mod Write
pub mod Read
pub mod Assign
pub mod Query
mod Tests
use imconee.Common.{
  ℕ, zero, suc, ◌+◌, ◌-◌, min, Bool, true, false, ◌&&◌, List, [], ◌∷◌, ◌++◌, ltb, leb, ◌==◌,
  if◌then◌else◌, length, take, drop, slice, replicate, copy_at,
}

pub record ChunkBuffer : Type 0 where
  pub chunks : List (List ℕ)
  pub last : ℕ
  pub first_skip : ℕ
  pub last_size : ℕ

abbrev pub empty : ChunkBuffer
empty = record { chunks = []; last = 0; first_skip = 0; last_size = 0 }

-- memcpy(last->data + offset, bytes)
unfoldable pub store_at : List (List ℕ) → ℕ → ℕ → List ℕ → List (List ℕ)
store_at [] last offset bytes = []
store_at (c ∷ cs) zero offset bytes = copy_at c offset bytes ∷ cs
store_at (c ∷ cs) (suc last) offset bytes = c ∷ store_at cs last offset bytes

-- last->next.reset(next)
unfoldable pub link_after : List (List ℕ) → ℕ → List ℕ → List (List ℕ)
link_after [] last next = []
link_after (c ∷ cs) zero next = c ∷ next ∷ []
link_after (c ∷ cs) (suc last) next = c ∷ link_after cs last next

unfoldable pub is_empty : ChunkBuffer → Bool
is_empty b = elim b.chunks [ [] ↦ true | c ∷ cs ↦ b.last == 0 && b.last_size == 0 ]

-- The position of `last` in the chain without its first chunk.
abbrev pub before : ℕ → ℕ
before zero = zero
before (suc last) = last

module _ (size : ℕ) where
  -- `new chunk()` sets the array to zeros.
  abbrev pub new_chunk : List ℕ
  new_chunk = replicate size 0

  -- One round of the loop of append, over the rest `bytes` of the data.
  unfoldable pub append_round : ChunkBuffer → List ℕ → ChunkBuffer
  append_round b bytes =
      let cpy = min (size - b.last_size) (length bytes) in
      let stored = store_at b.chunks b.last b.last_size (take cpy bytes) in
      if b.last_size + cpy == size
      then record b {
        chunks = link_after stored b.last new_chunk;
        last = b.last + 1;
        last_size = 0;
      }
      else record b { chunks = stored; last_size = b.last_size + cpy }

  unfoldable pub append_loop : ℕ → ChunkBuffer → List ℕ → ChunkBuffer
  append_loop zero b bytes = b
  append_loop (suc fuel) b [] = b
  append_loop (suc fuel) b (x ∷ xs) =
      append_loop fuel (append_round b (x ∷ xs))
        (drop (min (size - b.last_size) (length (x ∷ xs))) (x ∷ xs))

  -- `if (!first) { ... }`
  unfoldable pub with_first : ChunkBuffer → ChunkBuffer
  with_first b = elim b.chunks [
    | [] ↦ record b { chunks = new_chunk ∷ []; last = 0; last_size = 0 }
    | c ∷ cs ↦ b
  ]

  -- Every round but the first takes a byte at least.
  unfoldable pub append : ChunkBuffer → List ℕ → ChunkBuffer
  append b bytes = append_loop (length bytes + 1) (with_first b) bytes

  -- `ch == last ? last_size : SIZE` of the first chunk of a chain.
  abbrev pub used : ℕ → ℕ → ℕ
  used zero last_size = last_size
  used (suc last) last_size = size

  abbrev pub first_size : ChunkBuffer → ℕ
  first_size b = used b.last b.last_size

  unfoldable pub get_1st_chunk : ChunkBuffer → List ℕ
  get_1st_chunk b = elim b.chunks [
    | [] ↦ []
    | c ∷ cs ↦ slice b.first_skip (first_size b - b.first_skip) c
  ]

  -- The loop of skip over chain, `last`, `last_size` and `first_skip`.
  unfoldable pub skip_loop : List (List ℕ) → ℕ → ℕ → ℕ → ChunkBuffer
  skip_loop [] last last_size first_skip = record {
    chunks = [];
    last = 0;
    first_skip = first_skip;
    last_size = last_size;
  }
  skip_loop (c ∷ cs) last last_size first_skip =
      let fsz = used last last_size in
      let next = skip_loop cs (before last) last_size (first_skip - fsz) in
      if ltb first_skip fsz
      then record { chunks = c ∷ cs; last = last; first_skip = first_skip; last_size = last_size }
      else next

  -- On an empty chain the source dereferences a null pointer; every caller has a chunk.
  unfoldable pub skip : ChunkBuffer → ℕ → ChunkBuffer
  skip b sv = skip_loop b.chunks b.last b.last_size (b.first_skip + sv)

  -- peek(out, sv): the bytes put to `out`, and the buffer. Each round drops a chunk or is the last.
  unfoldable pub peek_loop : ℕ → ChunkBuffer → ℕ → List ℕ × ChunkBuffer
  peek_loop zero b sv = ([], b)
  peek_loop (suc fuel) b sv =
      let cpy = min sv (length (get_1st_chunk b)) in
      let (out, b') = peek_loop fuel (skip b cpy) (sv - cpy) in
      elim b.chunks [
        | [] ↦ ([], b)
        | c ∷ cs ↦ if ltb 0 sv then (take cpy (get_1st_chunk b) ++ out, b') else ([], b)
      ]

  unfoldable pub peek : ChunkBuffer → ℕ → List ℕ × ChunkBuffer
  peek b sv = peek_loop (length b.chunks) b sv

  -- peek(out): the whole buffer.
  unfoldable pub peek_all_loop : List (List ℕ) → ℕ → ℕ → ℕ → List ℕ
  peek_all_loop [] last last_size first_skip = []
  peek_all_loop (c ∷ cs) last last_size first_skip =
      slice first_skip ((used last last_size) - first_skip) c
      ++ peek_all_loop cs (before last) last_size 0

  unfoldable pub peek_all : ChunkBuffer → List ℕ × ChunkBuffer
  peek_all b = elim b.chunks [
    | [] ↦ ([], b)
    | c ∷ cs ↦ (
      peek_all_loop b.chunks b.last b.last_size b.first_skip,
      record b { chunks = []; last = 0; first_skip = 0 },
    )
  ]

  -- The loop of enough. `csz` starts at -first_skip: here `first_skip` is added to both sides.
  unfoldable pub enough_loop : List (List ℕ) → ℕ → ℕ → ℕ → ℕ → Bool
  enough_loop [] last last_size csz sz = leb sz csz
  enough_loop (c ∷ cs) last last_size csz sz =
      let csz' = csz + (used last last_size) in
      let rest = enough_loop cs (before last) last_size csz' sz in
      if leb sz csz' then true else rest

  unfoldable pub enough : ChunkBuffer → ℕ → Bool
  enough b sz = enough_loop b.chunks b.last b.last_size 0 (sz + b.first_skip)

  unfoldable pub enough_for_loop : List (List ℕ) → ℕ → ℕ → ℕ → ℕ → Bool
  enough_for_loop [] last last_size csz sz = leb csz sz
  enough_for_loop (c ∷ cs) last last_size csz sz =
      let csz' = csz + (used last last_size) in
      let rest = enough_for_loop cs (before last) last_size csz' sz in
      if ltb sz csz' then false else rest

  unfoldable pub enough_for : ChunkBuffer → ℕ → Bool
  enough_for b sz = enough_for_loop b.chunks b.last b.last_size 0 (sz + b.first_skip)

  -- `new chunk()` where the chain ends.
  abbrev pub head_chunk : List (List ℕ) → List ℕ
  head_chunk [] = new_chunk
  head_chunk (c ∷ cs) = c

  abbrev pub next_chunks : List (List ℕ) → List (List ℕ)
  next_chunks [] = []
  next_chunks (c ∷ cs) = cs

  -- The loop of assign from the chunk `ch`: the chain from `ch` on, `last` as a position in it, and
  -- last_size. A round that goes on sets `last` to the next chunk; the last round leaves it.
  unfoldable pub assign_loop : ℕ → List (List ℕ) → ℕ → List ℕ → List (List ℕ) × ℕ × ℕ
  assign_loop zero cs last bytes = (cs, last, 0)
  assign_loop (suc fuel) cs last bytes =
      let cpy = min size (length bytes) in
      let filled = copy_at (head_chunk cs) 0 (take cpy bytes) in
      let (more, last', last_size') = assign_loop fuel (next_chunks cs) 0 (drop cpy bytes) in
      if ltb 0 (length bytes - cpy)
      then (filled ∷ more, suc last', last_size')
      else (filled ∷ [], last, cpy)

  -- Every round takes a byte at least.
  unfoldable pub assign : ChunkBuffer → List ℕ → ChunkBuffer
  assign b [] = empty
  assign b (x ∷ xs) =
      let bytes = x ∷ xs in
      let (cs, l, ls) =
        assign_loop (length bytes) b.chunks (elim b.chunks [ [] ↦ 0 | c ∷ r ↦ b.last ]) bytes in
      record {
        chunks = cs;
        last = l;
        first_skip = elim b.chunks [ [] ↦ b.first_skip | c ∷ r ↦ 0 ];
        last_size = ls;
      }
