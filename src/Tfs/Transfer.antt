-- ===== src/Tfs/Transfer.antt =====
-- tfs_read and tfs_write of fs/tfs.c. The lengths are not negative, as vfs_read and vfs_write assert.
pub mod Copy
pub mod File
pub mod Reads
pub mod Writes
pub mod Update
pub mod RoundTrip
use Prim.Native.Nat.{min}
use aar.Base.{
  ℕ, zero, suc, ◌+◌, ◌-◌, ◌*◌, ◌/◌, ◌%◌, Bool, true, false, ◌||◌, Outcome, in_range, ltb, ◌==◌,
  if◌then◌else◌,
}
use aar.Base.Int.{ℤ, pos, pos_part, is_neg, ltb_ℤ}
use aar.Tfs.{Tfs, tfs_block_size, tfs_blocks_max, vfs_error, to_int, filesize, block, copy_between}
use aar.Tfs.Exec.{
  Exec, ◌>>=◌, ◌>>◌, pure, gets, modify, lift, return_if, run, read_bat, read_inode, write_bat,
}

-- `fileid < 2 || fileid > (int)tfs->totalblocks`
abbrev pub bad_fileid : ℤ → Tfs → Bool
bad_fileid fileid s = ltb_ℤ fileid (pos 2) || ltb_ℤ (to_int s.totalblocks) fileid

-- `offset < 0 || offset > (int)from_big_endian32(tfs->buffer_inode->filesize)`
abbrev pub bad_offset : ℤ → Tfs → Bool
bad_offset offset s = is_neg offset || ltb_ℤ (to_int (filesize s.buffer_inode)) offset

-- The checks that both functions begin with. The value is how many of the bytes there are in the
-- file.
pub bytes_at : ℤ → ℕ → ℤ → Exec ℕ
bytes_at fileid size offset = do
  s ← gets (λ s. s)
  return_if (bad_fileid fileid s) vfs_error
  read_inode (pos_part fileid)
  s' ← gets (λ s. s)
  return_if (bad_offset offset s') vfs_error
  pure (min size (pos_part (to_int (filesize s'.buffer_inode)) - pos_part offset))

-- `tfs->buffer_inode->block[b]`
unfoldable pub block_number : ℕ → Exec ℕ
block_number b = do lift (in_range (ltb b tfs_blocks_max)); gets (λ s. block s.buffer_inode b)

-- memcopy of `n` bytes from `s` in the block to the place `t` of the caller's buffer.
abbrev pub take_bytes : ℕ → ℕ → ℕ → Tfs → Tfs
take_bytes n t s v = record v { buffer = copy_between (pos n) t s v.buffer v.buffer_bat }

abbrev pub put_bytes : ℕ → ℕ → ℕ → Tfs → Tfs
put_bytes n t s v = record v { buffer_bat = copy_between (pos n) t s v.buffer_bat v.buffer }

-- The loop of tfs_read, with `k` blocks left of which the first is `b1`; `read` of the `n` bytes are
-- read.
pub read_rest : ℕ → ℕ → ℕ → ℕ → ℕ → Exec ℤ
read_rest zero b1 b2 n read = pure (pos read)
read_rest (suc k) b1 b2 n read = do
  b ← block_number b1
  read_bat b
  let now = if b1 == b2 then n - read else tfs_block_size
  modify (take_bytes now read 0)
  read_rest k (b1 + 1) b2 n (read + now)

pub read_bytes : ℕ → ℕ → Exec ℤ
read_bytes offset n = do
  let b1 = offset / tfs_block_size
  let b2 = (offset + n - 1) / tfs_block_size
  b ← block_number b1
  read_bat b
  let read = min (tfs_block_size - offset % tfs_block_size) n
  modify (take_bytes read 0 (offset % tfs_block_size))
  read_rest (b2 - b1) (b1 + 1) b2 n read

-- `buffer` of the state is the buffer that the bytes are read into.
pub tfs_read : ℤ → ℕ → ℤ → Tfs → Outcome (ℤ × Tfs)
tfs_read fileid bufsize offset = run do
  n ← bytes_at fileid bufsize offset
  return_if (n == 0) (pos 0)
  read_bytes (pos_part offset) n

-- A block that is written in part is read before.
abbrev pub read_if : Bool → ℕ → Exec (Unit {0})
read_if test b = if test then read_bat b else pure tt

-- `now` bytes from the place `from` of the caller's buffer are written to the block, behind its first
-- `to` bytes.
unfoldable pub write_part : ℕ → ℕ → ℕ → ℕ → Exec (Unit {0})
write_part b now to from = do
  read_if (ltb now tfs_block_size) b
  modify (put_bytes now to from)
  write_bat b

-- The loop of tfs_write.
pub write_rest : ℕ → ℕ → ℕ → ℕ → ℕ → Exec ℤ
write_rest zero b1 b2 n written = pure (pos written)
write_rest (suc k) b1 b2 n written = do
  b ← block_number b1
  let now = if b1 == b2 then n - written else tfs_block_size
  write_part b now 0 written
  write_rest k (b1 + 1) b2 n (written + now)

pub write_bytes : ℕ → ℕ → Exec ℤ
write_bytes offset n = do
  let b1 = offset / tfs_block_size
  let b2 = (offset + n - 1) / tfs_block_size
  b ← block_number b1
  let written = min (tfs_block_size - offset % tfs_block_size) n
  write_part b written (offset % tfs_block_size) 0
  write_rest (b2 - b1) (b1 + 1) b2 n written

-- `buffer` of the state is the buffer that the bytes are written from.
pub tfs_write : ℤ → ℕ → ℤ → Tfs → Outcome (ℤ × Tfs)
tfs_write fileid datasize offset = run do
  n ← bytes_at fileid datasize offset
  return_if (n == 0) (pos 0)
  write_bytes (pos_part offset) n
