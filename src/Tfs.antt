-- ===== src/Tfs.antt =====
-- fs/tfs.c: the trivial filesystem, its volume in a tfs_t, and the requests to its device. Every
-- operation holds the lock of the volume from its start to its end, so it is one atomic step and the
-- lock is no part of the state.
pub mod Exec
pub mod Directory
pub mod Init
pub mod Volume
pub mod Create
pub mod Remove
pub mod Transfer
pub mod Tests
use aar.Base.{
  ℕ, ◌+◌, ◌-◌, ◌*◌, ◌/◌, ◌%◌, ◌^◌, Bool, true, false, Outcome, done, update, ltb, ◌==◌,
  if◌then◌else◌,
}
use aar.Base.Int.{ℤ, pos, negsuc, pos_part}
use aar.Libc.{byte, memcopy, stringcopy}

-- The limits of fs/tfs_constants.h.
abbrev pub tfs_block_size : ℕ
tfs_block_size = 512

abbrev pub tfs_magic : ℕ
tfs_magic = 3745

abbrev pub tfs_allocation_block : ℕ
tfs_allocation_block = 1

abbrev pub tfs_directory_block : ℕ
tfs_directory_block = 2

abbrev pub tfs_filename_max : ℕ
tfs_filename_max = 16

abbrev pub tfs_blocks_max : ℕ
tfs_blocks_max = 127

abbrev pub tfs_max_files : ℕ
tfs_max_files = 25

-- tfs_t, with the device and the buffer of the caller. Buffers are bytes from their start on; what
-- stands behind their 512 bytes is the rest of the page. `disk` is the content of the blocks of the
-- device, and `fails n b` tells whether its request `n` fails if it is for the block `b`.
pub record Tfs : Type 0 where
  pub startblock : ℕ
  pub totalblocks : ℕ
  pub disk : ℕ → ℕ → ℕ
  pub fails : ℕ → ℕ → Bool
  pub requests : ℕ
  pub buffer_inode : ℕ → ℕ
  pub buffer_bat : ℕ → ℕ
  pub buffer_md : ℕ → ℕ
  pub buffer : ℕ → ℕ

-- The codes of fs/vfs.h.
abbrev pub vfs_ok : ℤ
vfs_ok = pos 0

abbrev pub vfs_error : ℤ
vfs_error = negsuc 1

abbrev pub vfs_not_found : ℤ
vfs_not_found = negsuc 4

-- The conversions between uint32_t and int.
abbrev pub to_int : ℕ → ℤ
to_int n = if ltb n 0x80000000 then pos n else negsuc (0xffffffff - n)

abbrev pub to_uint32 : ℤ → ℕ
to_uint32 (pos n) = n % 2 ^ 32
to_uint32 (negsuc n) = 0xffffffff - n % 2 ^ 32

-- A byte as a char, which is signed.
abbrev pub to_char : ℕ → ℤ
to_char b = if ltb b 128 then pos b else negsuc (255 - b)

-- Words of a buffer; the machine is big-endian, where from_big_endian32 is the identity.
pub word : (ℕ → ℕ) → ℕ → ℕ
word b i = b (4 * i) * 16777216 + b (4 * i + 1) * 65536 + b (4 * i + 2) * 256 + b (4 * i + 3)

abbrev pub put_word : (ℕ → ℕ) → ℕ → ℕ → ℕ → ℕ
put_word b i x j = if j / 4 == i then byte x (3 - j % 4) else b j

-- A buffer of 512 bytes filled with words.
abbrev pub put_words : (ℕ → ℕ) → (ℕ → ℕ) → ℕ → ℕ
put_words b w j = if ltb j tfs_block_size then byte (w (j / 4)) (3 - j % 4) else b j

-- tfs_inode_t is the file size and then the block numbers.
abbrev pub filesize : (ℕ → ℕ) → ℕ
filesize inode = word inode 0

abbrev pub block : (ℕ → ℕ) → ℕ → ℕ
block inode i = word inode (i + 1)

-- tfs_direntry_t is an inode number and a name of 16 bytes.
abbrev pub entry_inode : (ℕ → ℕ) → ℕ → ℕ
entry_inode md i = word md (5 * i)

abbrev pub entry_name : (ℕ → ℕ) → ℕ → ℕ → ℕ
entry_name md i j = md (20 * i + 4 + j)

abbrev pub characters : (ℕ → ℕ) → ℕ → ℤ
characters s j = to_char (s j)

-- Two arrays that do not overlap, as one memory.
abbrev pub beside : (ℕ → ℕ) → (ℕ → ℕ) → ℕ → ℕ
beside target source x = if ltb x 0x100000000 then target x else source (x - 0x100000000)

-- memcopy of `n` bytes from `s` in the one to `t` in the other.
pub copy_between : ℤ → ℕ → ℕ → (ℕ → ℕ) → (ℕ → ℕ) → ℕ → ℕ
copy_between n t s target source = λ x.
    if ltb x 0x100000000 then memcopy n t (0x100000000 + s) (beside target source) x else target x

-- stringcopy of a name from `s` in the one to `t` in the other.
pub copy_name : ℕ → ℕ → (ℕ → ℕ) → (ℕ → ℕ) → ℕ → ℕ
copy_name t s target source = λ x.
    if ltb x 0x100000000
    then (stringcopy t (0x100000000 + s) (pos tfs_filename_max) (beside target source)).1 x
    else target x
