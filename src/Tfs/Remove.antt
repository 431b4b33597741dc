-- ===== src/Tfs/Remove.antt =====
-- tfs_remove of fs/tfs.c.
use aar.Base.{
  ℕ, zero, suc, ◌+◌, ◌*◌, false, Option, none, some, Outcome, in_range, update, ◌==◌, if◌then◌else◌,
}
use aar.Base.Int.{ℤ}
use aar.Tfs.{
  Tfs, tfs_allocation_block, tfs_directory_block, tfs_blocks_max, tfs_max_files, vfs_ok,
  vfs_not_found, put_word, block, entry_inode,
}
use aar.Tfs.Exec.{
  Exec, ◌>>=◌, ◌>>◌, pure, gets, modify, lift, run, read_md, read_bat, read_inode, write_md,
  write_bat,
}
use aar.Tfs.Directory.{find_entry}
use aar.Tfs.Volume.{free_block}

-- The loop that frees the blocks, with `n` entries of the table left from `i` on. The test reads
-- `block[i]` before it compares `i` with the size of the table.
pub free_blocks : ℕ → ℕ → Exec (Unit {0})
free_blocks zero i = lift (in_range false)
free_blocks (suc n) i = do
  inode ← gets (λ s. s.buffer_inode)
  if block inode i == 0 then pure tt else do free_block (block inode i); free_blocks n (i + 1)

-- `inode = 0; name[0] = 0;`
abbrev pub clear_entry : ℕ → Tfs → Tfs
clear_entry index s = record s {
  buffer_md = update (put_word s.buffer_md (5 * index) 0) (20 * index + 4) 0;
}

pub remove_at : Option ℕ → Exec ℤ
remove_at none = pure vfs_not_found
remove_at (some index) = do
  read_bat tfs_allocation_block
  md ← gets (λ s. s.buffer_md)
  read_inode (entry_inode md index)
  free_block (entry_inode md index)
  free_blocks tfs_blocks_max 0
  modify (clear_entry index)
  write_bat tfs_allocation_block
  write_md tfs_directory_block
  pure vfs_ok

pub tfs_remove : ℕ → (ℕ → ℕ) → Tfs → Outcome (ℤ × Tfs)
tfs_remove fuel filename = run do
  read_md tfs_directory_block
  index ← find_entry fuel tfs_max_files 0 filename
  remove_at index
