-- ===== src/Lock/Word.antt =====
-- What is added to the 64 bits of the lock of source/imconee/spinlock.h, and what becomes of the fields.
use imconee.Common.{ℕ, ◌+◌, ◌-◌, ◌/◌, ◌%◌, ◌^◌, ◌<◌, ◌≡◌, refl, arith}
use imconee.Lock.{LockWord, read_val, write_val, pack, unpack, add64}

-- The fields fit into their 16, 8 and 40 bits.
pub record IsPacked (w : LockWord) : Type 0 where
  pub readers_in : w.readers < 0x10000
  pub writes_in : w.writes < 0x100
  pub thread_in : w.thread < 0x10000000000

same_fields :
    (w : LockWord) (r n t : ℕ)
    → w.readers ≡ r
    → w.writes ≡ n
    → w.thread ≡ t
    → w ≡ record { readers = r; writes = n; thread = t }
same_fields w r n t e f g = ground arith

-- Of a word whose fields fit: LOCK_READ_VAL counts the readers and wraps around at 65536 of them;
-- LOCK_WRITE_VAL counts the depth of the write lock, and at 256 makes it 0 and adds a reader; the two
-- subtractions undo that, and the one of LOCK_WRITE_VAL takes away a reader where the depth is 0.
pub word_adds :
    (w : LockWord)
    → IsPacked w
    → (add64 w read_val ≡ record w { readers = (w.readers + 1) % 0x10000 })
      × (add64 w write_val ≡ record w {
        readers = (w.readers + (w.writes + 1) / 0x100) % 0x10000;
        writes = (w.writes + 1) % 0x100;
      })
      × (add64 w 0xFFFF000000000000 ≡ record w { readers = (w.readers + 0xFFFF) % 0x10000 })
      × (add64 w (2 ^ 64 - write_val) ≡ record w {
        readers = (w.readers + 0xFFFF + (w.writes + 0xFF) / 0x100) % 0x10000;
        writes = (w.writes + 0xFF) % 0x100;
      })
unfolding add64 pack unpack
word_adds w p =
    let a = p.readers_in in
    let b = p.writes_in in
    let c = p.thread_in in
    (
      same_fields (add64 w read_val) ((w.readers + 1) % 0x10000) w.writes w.thread (omega arith)
          (omega arith) (omega arith),
      same_fields (add64 w write_val) ((w.readers + (w.writes + 1) / 0x100) % 0x10000)
          ((w.writes + 1) % 0x100) w.thread (omega arith) (omega arith) (omega arith),
      same_fields (add64 w 0xFFFF000000000000) ((w.readers + 0xFFFF) % 0x10000) w.writes w.thread
          (omega arith) (omega arith) (omega arith),
      same_fields (add64 w (2 ^ 64 - write_val))
          ((w.readers + 0xFFFF + (w.writes + 0xFF) / 0x100) % 0x10000) ((w.writes + 0xFF) % 0x100)
          w.thread (omega arith) (omega arith) (omega arith),
    )

module _ (w : LockWord) (p : IsPacked w) where
  pub add_reader : w.readers + 1 < 0x10000 → add64 w read_val ≡ record w { readers = w.readers + 1 }
  add_reader lt =
      let fits : (w.readers + 1) % 0x10000 ≡ w.readers + 1 = omega arith in
      rw (word_adds w p).0 (rw fits refl)

  pub add_writer : w.writes + 1 < 0x100 → add64 w write_val ≡ record w { writes = w.writes + 1 }
  add_writer lt =
      let a = p.readers_in in
      let fits : (w.writes + 1) % 0x100 ≡ w.writes + 1 = omega arith in
      let kept : (w.readers + (w.writes + 1) / 0x100) % 0x10000 ≡ w.readers = omega arith in
      rw (word_adds w p).1 (rw (kept, fits) refl)

  pub drop_reader :
      0 < w.readers → add64 w 0xFFFF000000000000 ≡ record w { readers = w.readers - 1 }
  drop_reader lt =
      let a = p.readers_in in
      let fits : (w.readers + 0xFFFF) % 0x10000 ≡ w.readers - 1 = omega arith in
      rw (word_adds w p).2 (rw fits refl)

  pub drop_writer : 0 < w.writes → add64 w (2 ^ 64 - write_val) ≡ record w { writes = w.writes - 1 }
  drop_writer lt =
      let a = p.readers_in in
      let b = p.writes_in in
      let fits : (w.writes + 0xFF) % 0x100 ≡ w.writes - 1 = omega arith in
      let kept : (w.readers + 0xFFFF + (w.writes + 0xFF) / 0x100) % 0x10000 ≡ w.readers =
        omega arith in
      rw (word_adds w p).3 (rw (kept, fits) refl)
