-- ===== src/Tfs/Tests.antt =====
-- A volume in which the theorems on fs/tfs.c are tried: the file "ab" has the inode block 3 and 600
-- bytes in the blocks 4 and 5, and
-- the allocation block marks the blocks up to 5.
use aar.Base.{
  ℕ, zero, suc, ◌+◌, ◌<◌, ◌≡◌, refl, ◌==◌, false, some, arith, update, if◌then◌else◌, Returns,
}
use aar.Base.Int.{ℤ, pos}
use aar.Libc.{stringcmp}
use aar.Libc.Compare.{Length, Tells, stringcmp-Tells}
use aar.Tfs.{Tfs, put_word, word, characters, vfs_error, tfs_directory_block}
use aar.Tfs.Exec.{fill, sector}
use aar.Tfs.Directory.{tfs_open}
use aar.Tfs.Directory.Lookup.{Named, Opens, tfs_open-Opens}
use aar.Tfs.Create.{tfs_create}
use aar.Tfs.Create.Creates.{Creates, Reserved}
use aar.Tfs.Create.Whole.{tfs_create-Creates}
use aar.Bitmap.{get_bit}
use aar.Tfs.Create.Exists.{tfs_create-exists}
use aar.Tfs.Transfer.{tfs_read, tfs_write}
use aar.Tfs.Transfer.File.{NoFailures, IsFile, data_sector, content}
use aar.Tfs.Transfer.Reads.{Read, tfs_read-Read}
use aar.Tfs.Transfer.Update.{Updated, tfs_write-Updated}
use aar.Tfs.Transfer.RoundTrip.{ReadsBack, tfs_read-tfs_write}

abbrev pub zeros : ℕ → ℕ
zeros j = 0

abbrev pub some_inode : ℕ → ℕ
some_inode = put_word (put_word (put_word zeros 0 600) 1 4) 2 5

abbrev pub some_name : ℕ → ℕ
some_name j = if j == 0 then 97 else if j == 1 then 98 else 0

abbrev pub some_directory : ℕ → ℕ
some_directory = update (update (put_word zeros 0 3) 4 97) 5 98

abbrev pub some_disk : ℕ → ℕ → ℕ
some_disk b j =
    if b == 1
    then put_word zeros 0 63 j
    else if b == 2
    then some_directory j
    else if b == 3
    then some_inode j
    else if b == 4
    then 1
    else 2

abbrev pub some_volume : Tfs
some_volume = record {
  startblock = 0;
  totalblocks = 8;
  disk = some_disk;
  fails = λ n b. false;
  requests = 0;
  buffer_inode = zeros;
  buffer_bat = zeros;
  buffer_md = zeros;
  buffer = λ j. j;
}

some_name-Length : Length (characters some_name) 2
some_name-Length = record { goes_on = λ i h. ground arith; stops = refl }

pub some_volume-NoFailures : NoFailures some_volume
some_volume-NoFailures n b = refl

blocks_at : (b : ℕ) → b < 2 → data_sector some_volume some_inode b ≡ b + 4
unfolding word
blocks_at zero h = refl
blocks_at (suc zero) h = refl
blocks_at (suc (suc b)) h = absurd (omega arith)

pub some_volume-IsFile : IsFile some_volume 3 600
unfolding word
some_volume-IsFile = record {
  valid = refl;
  sized = refl;
  fits = omega arith;
  apart = λ b b' h k d e. d (omega (arith, blocks_at b h, blocks_at b' k, e));
  beside_inode = λ b h e. absurd (omega (arith, blocks_at b h, e));
}

named : Named (fill (some_volume.disk (sector some_volume tfs_directory_block)) zeros) some_name 2 0
named zero h = refl
named (suc zero) h = refl
named (suc (suc zero)) h = refl
named (suc (suc (suc i))) h = absurd (omega arith)

stringcmp-Tells_example :
    (r : ℤ) × (stringcmp 3 (characters zeros) (characters some_name) ≡ some r)
    × Tells r (characters zeros) (characters some_name) 2
stringcmp-Tells_example =
    stringcmp-Tells 3 2 (characters zeros) (characters some_name) (omega arith) some_name-Length

tfs_open-Opens_example : Returns (tfs_open 16 some_name some_volume) (Opens some_volume some_name 2)
tfs_open-Opens_example = tfs_open-Opens 16 2 some_name some_volume (omega arith) some_name-Length

tfs_create-exists_example :
    Returns
      (tfs_create 16 some_name (pos 100) some_volume)
      (λ r. (r.0 ≡ vfs_error) × (r.1.disk ≡ some_volume.disk))
tfs_create-exists_example =
    tfs_create-exists 16 2 0 some_name (pos 100) some_volume (omega arith) some_name-Length
      (omega arith) named

tfs_read-Read_example :
    Returns (tfs_read (pos 3) 1000 (pos 500) some_volume) (λ r.
      (r.0 ≡ pos 100) × Read 100 (content some_volume 3) some_volume.buffer 500 some_volume r.1)
tfs_read-Read_example =
    tfs_read-Read 3 1000 500 600 some_volume some_volume-NoFailures some_volume-IsFile (omega arith)

tfs_write-Updated_example :
    Returns
      (tfs_write (pos 3) 30 (pos 500) some_volume)
      (λ r. (r.0 ≡ pos 30) × Updated 3 600 500 30 some_volume r.1)
tfs_write-Updated_example =
    tfs_write-Updated 3 30 500 600 some_volume some_volume-NoFailures some_volume-IsFile
      (omega arith)

tfs_read-tfs_write_example : Returns (tfs_write (pos 3) 30 (pos 500) some_volume) (λ r.
    (r.0 ≡ pos 30)
    × Returns
        (tfs_read (pos 3) 30 (pos 500) (record r.1 { buffer = zeros }))
        (ReadsBack 30 some_volume.buffer))
tfs_read-tfs_write_example =
    tfs_read-tfs_write 3 30 500 600 some_volume zeros some_volume-NoFailures some_volume-IsFile
      (omega arith)

-- "c", which is not in the directory.
abbrev new_name : ℕ → ℕ
new_name j = if j == 0 then 99 else 0

new_name-Length : Length (characters new_name) 1
new_name-Length = record { goes_on = λ i h. ground arith; stops = refl }

some_volume-Reserved : Reserved some_volume
unfolding word get_bit
some_volume-Reserved zero h = refl
some_volume-Reserved (suc zero) h = refl
some_volume-Reserved (suc (suc zero)) h = refl
some_volume-Reserved (suc (suc (suc q))) h = absurd (omega arith)

tfs_create-Creates_example :
    Returns (tfs_create 16 new_name (pos 1000) some_volume) (Creates some_volume new_name 1 1000)
tfs_create-Creates_example =
    tfs_create-Creates 16 1 1000 new_name some_volume (omega arith) (omega arith) new_name-Length
      some_volume-NoFailures (omega arith) (omega arith) some_volume-Reserved
