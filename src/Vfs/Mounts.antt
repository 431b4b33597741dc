-- ===== src/Vfs/Mounts.antt =====
-- vfs_mount, vfs_unmount and the forced unmount of fs/vfs.c.
use aar.Base.{
  ℕ, zero, suc, ◌+◌, Bool, true, false, not, Option, none, some, Outcome, done, ◌>>=◌, ◌>>◌, assert,
  update, ◌==◌, if◌then◌else◌,
}
use aar.Base.Int.{ℤ, pos, eq_ℤ}
use aar.Tfs.{copy_name}
use aar.Vfs.{
  Filesystem, Entry, OpenFile, Vfs, Op, max_filesystems, max_open_files, vfs_ok, vfs_error,
  vfs_invalid_params, vfs_not_found, vfs_no_such_fs, vfs_limit, vfs_in_use, starting, ending,
  calling,
}
use aar.Vfs.Names.{find_mountpoint}

-- The first row that is free, of `n` rows from `row` on.
unfoldable pub free_row : ℕ → ℕ → (ℕ → Entry) → Option ℕ
free_row zero row table = none
free_row (suc n) row table =
    let rest = free_row n (row + 1) table in if (table row).filesystem == 0 then some row else rest

-- Whether one of `n` open files from `i` on is on the filesystem.
unfoldable pub is_used : ℕ → ℕ → ℕ → (ℕ → OpenFile) → Bool
is_used zero i fs table = false
is_used (suc n) i fs table =
    let rest = is_used n (i + 1) fs table in if (table i).filesystem == fs then true else rest

-- The name to mount under; `none` is NULL, for the name of the volume.
abbrev pub name_or : (ℕ → ℕ) → Option (ℕ → ℕ) → ℕ → ℕ
name_or volume none = volume
name_or volume (some name) = name

-- The loops of vfs_init, for the entries before `n`.
pub clear_mounts : ℕ → (ℕ → Entry) → ℕ → Entry
clear_mounts zero table = table
clear_mounts (suc n) table =
    let rest = clear_mounts n table in update rest n (record (rest n) { filesystem = 0 })

unfoldable pub clear_files : ℕ → (ℕ → OpenFile) → ℕ → OpenFile
clear_files zero table = table
clear_files (suc n) table =
    let rest = clear_files n table in update rest n (record (rest n) { filesystem = 0 })

module _ {S : Type 0} where
  -- `created` tells whether the semaphores of the two tables are created.
  unfoldable pub vfs_init : Bool → Vfs S → Outcome (Vfs S)
  vfs_init created v = do
    assert created
    done (record v {
      filesystems = clear_mounts max_filesystems v.filesystems;
      files = clear_files max_open_files v.files;
      vfs_ops = pos 0;
      vfs_usable = true;
    })

  abbrev pub set_filesystem : ℕ → ℕ → Vfs S → Vfs S
  set_filesystem row fs v = record v {
    filesystems = update v.filesystems row (record (v.filesystems row) { filesystem = fs });
  }

  abbrev pub set_row : ℕ → ℕ → (ℕ → ℕ) → Vfs S → Vfs S
  set_row row fs name v = record v {
    filesystems = update v.filesystems row (record {
      filesystem = fs;
      mountpoint = copy_name 0 0 (v.filesystems row).mountpoint name;
    });
  }

  -- The row is found; `taken` is a row that has the name.
  unfoldable pub mount_at : ℕ → (ℕ → ℕ) → ℕ → Option ℕ → Op S
  mount_at fs name row (some taken) v = ending vfs_error v
  mount_at fs name row none v = ending vfs_ok (set_row row fs name v)

  unfoldable pub mount_in : ℕ → ℕ → (ℕ → ℕ) → Option ℕ → Op S
  mount_in fuel fs name none v = ending vfs_limit v
  mount_in fuel fs name (some row) v = do
    taken ← find_mountpoint fuel max_filesystems 0 name v.filesystems
    mount_at fs name row taken v

  unfoldable pub vfs_mount : ℕ → ℕ → (ℕ → ℕ) → Op S
  vfs_mount fuel fs name v = do
    assert (not (name 0 == 0))
    starting (λ v. mount_in fuel fs name (free_row max_filesystems 0 v.filesystems) v) v

  -- Nothing is open on the filesystem `fs` in the row.
  unfoldable pub unmount_row : (ℕ → Filesystem S) → ℕ → ℕ → Op S
  unmount_row drivers row fs =
      calling (drivers fs).unmount (λ r v. ending vfs_ok (set_filesystem row 0 v))

  unfoldable pub unmount_at : (ℕ → Filesystem S) → Option ℕ → Op S
  unmount_at drivers none v = ending vfs_not_found v
  unmount_at drivers (some row) v =
      let fs = (v.filesystems row).filesystem in
      if fs == 0
      then ending vfs_not_found v
      else if is_used max_open_files 0 fs v.files
      then ending vfs_in_use v
      else unmount_row drivers row fs v

  unfoldable pub vfs_unmount : (ℕ → Filesystem S) → ℕ → (ℕ → ℕ) → Op S
  vfs_unmount drivers fuel name = starting λ v. do
    row ← find_mountpoint fuel max_filesystems 0 name v.filesystems
    unmount_at drivers row v

  -- `filesystem->unmount(filesystem)`, and `ret` is returned.
  abbrev pub give_up : (ℕ → Filesystem S) → ℕ → ℤ → Op S
  give_up drivers fs ret = calling (drivers fs).unmount (λ r v. done (ret, v))

  unfoldable pub mount_named : (ℕ → Filesystem S) → ℕ → ℕ → (ℕ → ℕ) → Op S
  mount_named drivers fuel fs name v =
      if name 0 == 0 then give_up drivers fs vfs_invalid_params v else do
        r ← vfs_mount fuel fs name v
        if eq_ℤ r.0 vfs_ok then done r else give_up drivers fs r.0 r.1

  -- vfs_mount_fs, when filesystems_try_all has found the filesystem `fs` with the volume name `volume`;
  -- it is 0 if there is none.
  unfoldable pub vfs_mount_fs : (ℕ → Filesystem S) → ℕ → ℕ → (ℕ → ℕ) → Option (ℕ → ℕ) → Op S
  vfs_mount_fs drivers fuel fs volume name v =
      if fs == 0
      then done (vfs_no_such_fs, v)
      else mount_named drivers fuel fs (name_or volume name) v

  -- The loop of vfs_deinit, with `n` rows left from `row` on.
  unfoldable pub unmount_rows : (ℕ → Filesystem S) → ℕ → ℕ → Vfs S → Outcome (Vfs S)
  unmount_rows drivers zero row v = done v
  unmount_rows drivers (suc n) row v =
      let fs = (v.filesystems row).filesystem in
      do
        v' ← if fs == 0 then done v else do
          r ← (drivers fs).unmount v.world
          done (set_filesystem row 0 (record v { world = r.1 }))
        unmount_rows drivers n (row + 1) v'

  -- vfs_deinit, when the operations that were on their way have ended.
  unfoldable pub vfs_deinit : (ℕ → Filesystem S) → Vfs S → Outcome (Vfs S)
  vfs_deinit drivers v = unmount_rows drivers max_filesystems 0 (record v { vfs_usable = false })
