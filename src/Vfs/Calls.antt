-- ===== src/Vfs/Calls.antt =====
-- vfs_filecount and vfs_file of fs/vfs.c, and the operations that a running system serves as one
-- function.
use aar.Base.{ℕ, zero, suc, ◌+◌, Option, none, some, ◌>>◌, in_range, ltb, ◌==◌, if◌then◌else◌}
use aar.Base.Int.{ℤ, pos, ◌-ℤ◌, eq_ℤ}
use aar.Vfs.{Filesystem, Entry, Op, max_filesystems, vfs_ok, vfs_error, starting, ending}
use aar.Vfs.Mounts.{vfs_mount, vfs_mount_fs, vfs_unmount}
use aar.Vfs.Files.{
  parsing, on_filesystem, vfs_open, vfs_close, vfs_seek, vfs_read, vfs_write, vfs_create,
  vfs_remove, vfs_getfree,
}

-- `for (ret = 0; …; ret++) if (filesystem == NULL) break;`, with `n` rounds left.
pub count_mounted : ℕ → ℕ → (ℕ → Entry) → ℕ
count_mounted zero ret table = ret
count_mounted (suc n) ret table =
    let rest = count_mounted n (ret + 1) table in if (table ret).filesystem == 0 then ret else rest

-- The loop of vfs_file, with `n` rounds left: where it ends, and what is left of `idx`.
pub seek_mounted : ℕ → ℕ → ℤ → (ℕ → Entry) → ℕ × ℤ
seek_mounted zero ret idx table = (ret, idx)
seek_mounted (suc n) ret idx table =
    let next = if (table ret).filesystem == 0 then idx else idx -ℤ pos 1 in
    let rest = seek_mounted n (ret + 1) next table in if eq_ℤ idx (pos 0) then (ret, idx) else rest

module _ {S : Type 0} where
  -- `none` for the path name is NULL.
  unfoldable pub vfs_filecount : (ℕ → Filesystem S) → ℕ → (ℕ → ℕ) → Option (ℕ → ℕ) → Op S
  vfs_filecount drivers fuel stack none =
      starting (λ v. ending (pos (count_mounted max_filesystems 0 v.filesystems)) v)
  vfs_filecount drivers fuel stack (some pathname) = starting (
      parsing stack pathname
        (λ volumename dirname. on_filesystem drivers fuel volumename (λ d. d.filecount dirname)))

  unfoldable pub name_at : ((ℕ → ℕ) → S → S) → ℕ × ℤ → Op S
  name_at put_name (ret, idx) v =
      if eq_ℤ idx (pos 0)
      then in_range (ltb ret max_filesystems)
        >> ending vfs_ok (record v { world = put_name (v.filesystems ret).mountpoint v.world })
      else ending vfs_error v

  -- `put_name` copies a name into the caller's buffer.
  unfoldable pub vfs_file :
      (ℕ → Filesystem S) → ((ℕ → ℕ) → S → S) → ℕ → (ℕ → ℕ) → Option (ℕ → ℕ) → ℤ → Op S
  vfs_file drivers put_name fuel stack none idx =
      starting (λ v. name_at put_name (seek_mounted max_filesystems 0 idx v.filesystems) v)
  vfs_file drivers put_name fuel stack (some pathname) idx = starting (
      parsing stack pathname
        (λ volumename dirname. on_filesystem drivers fuel volumename (λ d. d.file dirname idx)))

-- A call of fs/vfs.h with its arguments, other than vfs_init, vfs_deinit and vfs_mount_all. That of
-- vfs_mount_fs has what filesystems_try_all finds, the filesystem, or 0, and its volume name.
pub data Call : Type 0 where
  mounts : ℕ → (ℕ → ℕ) → Call
  mounts_fs : ℕ → (ℕ → ℕ) → Option (ℕ → ℕ) → Call
  unmounts : (ℕ → ℕ) → Call
  opens : (ℕ → ℕ) → Call
  closes : ℤ → Call
  seeks : ℤ → ℤ → Call
  reads : ℤ → ℤ → Call
  writes : ℤ → ℤ → Call
  creates : (ℕ → ℕ) → ℤ → Call
  removes : (ℕ → ℕ) → Call
  asks_free : (ℕ → ℕ) → Call
  counts : Option (ℕ → ℕ) → Call
  lists : Option (ℕ → ℕ) → ℤ → Call

module _ {S : Type 0} (drivers : ℕ → Filesystem S) (put_name : (ℕ → ℕ) → S → S) (fuel : ℕ)
    (stack : ℕ → ℕ) where
  unfoldable pub perform : Call → Op S
  perform (mounts fs name) = vfs_mount fuel fs name
  perform (mounts_fs fs volume name) = vfs_mount_fs drivers fuel fs volume name
  perform (unmounts name) = vfs_unmount drivers fuel name
  perform (opens pathname) = vfs_open drivers fuel stack pathname
  perform (closes file) = vfs_close drivers file
  perform (seeks file seek_position) = vfs_seek file seek_position
  perform (reads file bufsize) = vfs_read drivers file bufsize
  perform (writes file datasize) = vfs_write drivers file datasize
  perform (creates pathname size) = vfs_create drivers fuel stack pathname size
  perform (removes pathname) = vfs_remove drivers fuel stack pathname
  perform (asks_free filesystem) = vfs_getfree drivers fuel filesystem
  perform (counts pathname) = vfs_filecount drivers fuel stack pathname
  perform (lists pathname idx) = vfs_file drivers put_name fuel stack pathname idx
