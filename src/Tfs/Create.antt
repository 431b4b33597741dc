-- ===== src/Tfs/Create.antt =====
-- tfs_create of fs/tfs.c.
pub mod Exists
pub mod Blocks
pub mod Allocates
pub mod Stores
pub mod Entry
pub mod Found
pub mod Made
pub mod Creates
pub mod Whole
use aar.Base.{
  ℕ, zero, suc, ◌+◌, ◌-◌, ◌*◌, ◌/◌, Option, none, some, Outcome, ltb, ◌==◌, if◌then◌else◌,
}
use aar.Base.Int.{ℤ, pos, negsuc, ◌+ℤ◌, ◌-ℤ◌}
use aar.Libc.{memoryset}
use aar.Tfs.{
  Tfs, tfs_allocation_block, tfs_directory_block, tfs_block_size, tfs_blocks_max, tfs_max_files,
  vfs_ok, vfs_error, to_uint32, put_word, block, entry_inode, entry_name, copy_name,
}
use aar.Tfs.Exec.{
  Exec, ◌>>=◌, ◌>>◌, pure, gets, modify, lift, return_if, run, read_md, read_bat, write_md,
  write_bat, write_inode,
}
use aar.Tfs.Directory.{same_name}
use aar.Tfs.Volume.{find_block}

-- `(size + TFS_BLOCK_SIZE - 1)/TFS_BLOCK_SIZE`, as a uint32_t; the division rounds towards 0.
abbrev pub blocks_of : ℤ → ℕ
blocks_of (pos n) = n / tfs_block_size
blocks_of (negsuc n) = to_uint32 (pos 0 -ℤ pos ((n + 1) / tfs_block_size))

abbrev pub num_blocks : ℤ → ℕ
num_blocks size = blocks_of (size +ℤ pos (tfs_block_size - 1))

-- The loop over the directory, with `n` rounds left from the entry `i` on. The value is the last free
-- entry.
pub free_entry : ℕ → ℕ → ℕ → Option ℕ → (ℕ → ℕ) → Exec (Option ℕ)
free_entry fuel zero i index filename = pure index
free_entry fuel (suc n) i index filename = do
  md ← gets (λ s. s.buffer_md)
  same ← lift (same_name fuel (entry_name md i) filename)
  return_if same vfs_error
  free_entry fuel n (i + 1) (if entry_inode md i == 0 then some i else index) filename

abbrev pub set_inode_word : ℕ → ℕ → Tfs → Tfs
set_inode_word i x s = record s { buffer_inode = put_word s.buffer_inode i x }

-- The loop that finds the blocks of the file, with `n` rounds left from `block[i]` on.
pub take_blocks : ℕ → ℕ → Exec (Unit {0})
take_blocks zero i = pure tt
take_blocks (suc n) i = do
  p ← find_block
  modify (set_inode_word (i + 1) (to_uint32 p))
  return_if (to_uint32 p == 0xffffffff) vfs_error
  take_blocks n (i + 1)

-- `buffer_inode->block[i++] = 0`, `n` times.
pub clear_blocks : ℕ → ℕ → Tfs → Tfs
clear_blocks zero i s = s
clear_blocks (suc n) i s = clear_blocks n (i + 1) (set_inode_word (i + 1) 0 s)

-- The loop that writes zeros, with `n` rounds left from `block[i]` on.
pub zero_blocks : ℕ → ℕ → Exec (Unit {0})
zero_blocks zero i = pure tt
zero_blocks (suc n) i = do
  inode ← gets (λ s. s.buffer_inode)
  write_bat (block inode i)
  zero_blocks n (i + 1)

-- The name is in the entry; the inode and the blocks are found in the allocation block.
pub allocate : ℤ → ℕ → Exec (Unit {0})
allocate size index = do
  p ← find_block
  modify (λ s. record s { buffer_md = put_word s.buffer_md (5 * index) (to_uint32 p) })
  return_if (to_uint32 p == 0xffffffff) vfs_error
  modify (set_inode_word 0 (to_uint32 size))
  take_blocks (num_blocks size) 0
  modify (clear_blocks (tfs_blocks_max - num_blocks size) (num_blocks size))

-- The system blocks, the inode and the blocks of the file are written.
pub store : ℤ → ℕ → Exec ℤ
store size index = do
  write_bat tfs_allocation_block
  write_md tfs_directory_block
  md ← gets (λ s. s.buffer_md)
  write_inode (entry_inode md index)
  modify (λ s. record s { buffer_bat = memoryset 0 0 (pos tfs_block_size) s.buffer_bat })
  zero_blocks (num_blocks size) 0
  pure vfs_ok

pub create_at : (ℕ → ℕ) → ℤ → Option ℕ → Exec ℤ
create_at filename size none = pure vfs_error
create_at filename size (some index) = do
  modify (λ s. record s { buffer_md = copy_name (20 * index + 4) 0 s.buffer_md filename })
  read_bat tfs_allocation_block
  allocate size index
  store size index

pub tfs_create : ℕ → (ℕ → ℕ) → ℤ → Tfs → Outcome (ℤ × Tfs)
tfs_create fuel filename size = run do
  return_if (ltb tfs_blocks_max (num_blocks size)) vfs_error
  read_md tfs_directory_block
  index ← free_entry fuel tfs_max_files 0 none filename
  create_at filename size index
