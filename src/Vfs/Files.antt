-- ===== src/Vfs/Files.antt =====
-- The operations of fs/vfs.c on files.
use aar.Base.{
  ℕ, zero, suc, ◌+◌, false, not, Option, none, some, Outcome, done, ◌>>=◌, ◌>>◌, assert, update,
  ltb, ◌==◌, if◌then◌else◌,
}
use aar.Base.Int.{ℤ, pos, negsuc, pos_part, ◌+ℤ◌, is_neg, is_pos}
use aar.Vfs.{
  Filesystem, OpenFile, Vfs, Op, max_open_files, vfs_ok, vfs_error, vfs_no_such_fs, vfs_limit,
  starting, ending, calling,
}
use aar.Vfs.Names.{vfs_parse_pathname, vfs_get_filesystem}

-- The first entry that is free, of `n` entries from `i` on.
pub free_file : ℕ → ℕ → (ℕ → OpenFile) → Option ℕ
free_file zero i table = none
free_file (suc n) i table =
    let rest = free_file n (i + 1) table in if (table i).filesystem == 0 then some i else rest

module _ {S : Type 0} where
  abbrev pub set_file : ℕ → OpenFile → Vfs S → Vfs S
  set_file file entry v = record v { files = update v.files file entry }

  -- `openfile_table.files[file].filesystem = fs;`
  abbrev pub set_file_system : ℕ → ℕ → Vfs S → Vfs S
  set_file_system file fs v = set_file file (record (v.files file) { filesystem = fs }) v

  -- fs->open has returned.
  unfoldable pub opened : ℕ → ℤ → Op S
  opened file fileid v =
      if is_neg fileid
      then ending fileid (set_file_system file 0 v)
      else ending (pos file)
          (set_file file (record (v.files file) { fileid = fileid; seek_position = pos 0 }) v)

  unfoldable pub open_on : (ℕ → Filesystem S) → ℕ → (ℕ → ℕ) → ℕ → Op S
  open_on drivers file filename fs v =
      if fs == 0
      then ending vfs_no_such_fs v
      else calling ((drivers fs).open_file filename) (opened file) (set_file_system file fs v)

  unfoldable pub open_at : (ℕ → Filesystem S) → ℕ → (ℕ → ℕ) → (ℕ → ℕ) → Option ℕ → Op S
  open_at drivers fuel volumename filename none v = ending vfs_limit v
  open_at drivers fuel volumename filename (some file) v = do
    fs ← vfs_get_filesystem fuel volumename v.filesystems
    open_on drivers file filename fs v

  -- What follows vfs_parse_pathname; `stack` is what stands in the two buffers for the names.
  abbrev pub parsing : (ℕ → ℕ) → (ℕ → ℕ) → ((ℕ → ℕ) → (ℕ → ℕ) → Op S) → Op S
  parsing stack pathname rest v = elim (vfs_parse_pathname pathname stack stack) [
    | none ↦ ending vfs_error v
    | some (volumename, filename) ↦ rest volumename filename v
  ]

  unfoldable pub vfs_open : (ℕ → Filesystem S) → ℕ → (ℕ → ℕ) → (ℕ → ℕ) → Op S
  vfs_open drivers fuel stack pathname = starting (
      parsing stack pathname (λ volumename filename v.
        open_at drivers fuel volumename filename (free_file max_open_files 0 v.files) v))

  -- The index of the entry.
  unfoldable pub vfs_verify_open : ℤ → Vfs S → Outcome ℕ
  vfs_verify_open (negsuc n) v = assert false >> done 0
  vfs_verify_open (pos file) v = do
    assert (ltb file max_open_files)
    assert (not ((v.files file).filesystem == 0))
    done file

  abbrev pub entry_driver : (ℕ → Filesystem S) → ℕ → Vfs S → Filesystem S
  entry_driver drivers file v = drivers (v.files file).filesystem

  unfoldable pub vfs_close : (ℕ → Filesystem S) → ℤ → Op S
  vfs_close drivers file = starting λ v. do
    f ← vfs_verify_open file v
    calling ((entry_driver drivers f v).close (v.files f).fileid)
        (λ ret v. ending ret (set_file_system f 0 v)) v

  abbrev pub set_seek : ℕ → ℤ → Vfs S → Vfs S
  set_seek file p v = set_file file (record (v.files file) { seek_position = p }) v

  unfoldable pub vfs_seek : ℤ → ℤ → Op S
  vfs_seek file seek_position = starting λ v. do
    assert (not (is_neg seek_position))
    f ← vfs_verify_open file v
    ending vfs_ok (set_seek f seek_position v)

  -- `openfile->seek_position += ret`, if `ret` is positive.
  abbrev pub moved_by : ℕ → ℤ → Op S
  moved_by file ret v =
      if is_pos ret
      then ending ret (set_seek file ((v.files file).seek_position +ℤ ret) v)
      else ending ret v

  -- The buffer is in the state of the filesystems, and its address is not NULL.
  unfoldable pub vfs_read : (ℕ → Filesystem S) → ℤ → ℤ → Op S
  vfs_read drivers file bufsize = starting λ v. do
    f ← vfs_verify_open file v
    assert (not (is_neg bufsize))
    calling
        ((entry_driver drivers f v).read (v.files f).fileid (pos_part bufsize)
          (v.files f).seek_position)
        (moved_by f) v

  unfoldable pub vfs_write : (ℕ → Filesystem S) → ℤ → ℤ → Op S
  vfs_write drivers file datasize = starting λ v. do
    f ← vfs_verify_open file v
    assert (not (is_neg datasize))
    calling
        ((entry_driver drivers f v).write (v.files f).fileid (pos_part datasize)
          (v.files f).seek_position)
        (moved_by f) v

  -- `call` of the filesystem that is mounted under the name.
  unfoldable pub on_filesystem :
      (ℕ → Filesystem S) → ℕ → (ℕ → ℕ) → (Filesystem S → S → Outcome (ℤ × S)) → Op S
  on_filesystem drivers fuel volumename call v = do
    fs ← vfs_get_filesystem fuel volumename v.filesystems
    if fs == 0 then ending vfs_no_such_fs v else calling (call (drivers fs)) ending v

  unfoldable pub vfs_create : (ℕ → Filesystem S) → ℕ → (ℕ → ℕ) → (ℕ → ℕ) → ℤ → Op S
  vfs_create drivers fuel stack pathname size v = do
    assert (not (is_neg size))
    starting
        (parsing stack pathname (λ volumename filename.
          on_filesystem drivers fuel volumename (λ d. d.create filename size)))
        v

  unfoldable pub vfs_remove : (ℕ → Filesystem S) → ℕ → (ℕ → ℕ) → (ℕ → ℕ) → Op S
  vfs_remove drivers fuel stack pathname = starting (
      parsing stack pathname
        (λ volumename filename. on_filesystem drivers fuel volumename (λ d. d.remove filename)))

  unfoldable pub vfs_getfree : (ℕ → Filesystem S) → ℕ → (ℕ → ℕ) → Op S
  vfs_getfree drivers fuel filesystem =
      starting (on_filesystem drivers fuel filesystem (λ d. d.getfree))
