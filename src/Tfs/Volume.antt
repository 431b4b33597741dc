-- ===== src/Tfs/Volume.antt =====
-- The allocation block of fs/tfs.c, with tfs_getfree.
pub mod Words
pub mod Allocate
use aar.Base.{ℕ, zero, suc, ◌+◌, ◌-◌, ◌*◌, ◌%◌, ◌^◌, Outcome, in_range, ltb, leb}
use aar.Base.Int.{ℤ, pos}
use aar.Bitmap.{bitmap_get, bitmap_set, bitmap_findnset}
use aar.Tfs.{Tfs, tfs_allocation_block, tfs_block_size, to_int, word, put_words}
use aar.Tfs.Exec.{Exec, ◌>>=◌, ◌>>◌, pure, gets, modify, lift, run, read_bat}

-- The bits of the allocation block.
abbrev pub bat_bits : ℕ
bat_bits = 4096

abbrev pub set_bat : (ℕ → ℕ) → Tfs → Tfs
set_bat w s = record s { buffer_bat = put_words s.buffer_bat w }

-- `bitmap_findnset(tfs->buffer_bat, tfs->totalblocks)`; tfs_init bounds totalblocks by the bits of
-- the buffer.
unfoldable pub find_block : Exec ℤ
find_block = do
  s ← gets (λ s. s)
  lift (in_range (leb s.totalblocks bat_bits))
  r ← lift (bitmap_findnset (word s.buffer_bat) (to_int s.totalblocks))
  modify (set_bat r.1)
  pure r.0

-- `bitmap_set(tfs->buffer_bat, b, 0)`
unfoldable pub free_block : ℕ → Exec (Unit {0})
free_block b = do
  s ← gets (λ s. s)
  w ← lift (bitmap_set (word s.buffer_bat) (to_int b) (pos 0))
  lift (in_range (ltb b bat_bits))
  modify (set_bat w)

-- The loop of tfs_getfree, with `n` rounds left from the bit `i` on.
pub count_allocated : ℕ → ℕ → ℕ → (ℕ → ℕ) → Exec ℕ
count_allocated zero i allocated bitmap = pure allocated
count_allocated (suc n) i allocated bitmap = do
  lift (in_range (ltb i bat_bits))
  b ← lift (bitmap_get bitmap (to_int i))
  count_allocated n (i + 1) (allocated + b) bitmap

unfoldable pub tfs_getfree : Tfs → Outcome (ℤ × Tfs)
tfs_getfree = run do
  read_bat tfs_allocation_block
  s ← gets (λ s. s)
  allocated ← count_allocated s.totalblocks 0 0 (word s.buffer_bat)
  pure (to_int ((s.totalblocks + 2 ^ 32 - allocated) % 2 ^ 32 * tfs_block_size % 2 ^ 32))
