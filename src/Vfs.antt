-- ===== src/Vfs.antt =====
-- fs/vfs.c: the virtual filesystem, with the mounted filesystems and the open files. The semaphores of
-- the two tables are left out, and an operation is one step; `vfs_ops` may count others that are on
-- their way.
pub mod Driver
pub mod Names
pub mod Mounts
pub mod Files
pub mod Calls
pub mod Sound
pub mod WriteRead
pub mod Running
pub mod Balance
pub mod Tests
use aar.Base.{
  ℕ, zero, suc, ◌+◌, ◌-◌, Bool, true, false, not, ◌&&◌, Option, none, some, Outcome, done, ◌>>=◌,
  ◌>>◌, assert, ◌==◌, if◌then◌else◌,
}
use aar.Base.Int.{ℤ, pos, negsuc, ◌+ℤ◌, ◌-ℤ◌, is_neg, eq_ℤ}

-- CONFIG_MAX_FILESYSTEMS and CONFIG_MAX_OPEN_FILES of kernel/config.h.
abbrev pub max_filesystems : ℕ
max_filesystems = 8

abbrev pub max_open_files : ℕ
max_open_files = 512

abbrev pub vfs_name_length : ℕ
vfs_name_length = 16

-- The codes of fs/vfs.h.
abbrev pub vfs_ok : ℤ
vfs_ok = pos 0

abbrev pub vfs_error : ℤ
vfs_error = negsuc 1

abbrev pub vfs_invalid_params : ℤ
vfs_invalid_params = negsuc 2

abbrev pub vfs_not_found : ℤ
vfs_not_found = negsuc 4

abbrev pub vfs_no_such_fs : ℤ
vfs_no_such_fs = negsuc 5

abbrev pub vfs_limit : ℤ
vfs_limit = negsuc 6

abbrev pub vfs_in_use : ℤ
vfs_in_use = negsuc 7

abbrev pub vfs_unusable : ℤ
vfs_unusable = negsuc 8

-- fs_struct: the operations of a filesystem, on the state `S` of the filesystems and of the buffers
-- of the callers.
pub record Filesystem (S : Type 0) : Type 0 where
  pub unmount : S → Outcome (ℤ × S)
  pub open_file : (ℕ → ℕ) → S → Outcome (ℤ × S)
  pub close : ℤ → S → Outcome (ℤ × S)
  pub read : ℤ → ℕ → ℤ → S → Outcome (ℤ × S)
  pub write : ℤ → ℕ → ℤ → S → Outcome (ℤ × S)
  pub create : (ℕ → ℕ) → ℤ → S → Outcome (ℤ × S)
  pub remove : (ℕ → ℕ) → S → Outcome (ℤ × S)
  pub getfree : S → Outcome (ℤ × S)
  pub filecount : (ℕ → ℕ) → S → Outcome (ℤ × S)
  pub file : (ℕ → ℕ) → ℤ → S → Outcome (ℤ × S)

-- vfs_entry_t. A pointer to a filesystem is a number, and NULL is 0.
pub record Entry : Type 0 where
  pub filesystem : ℕ
  pub mountpoint : ℕ → ℕ

-- openfile_entry_t
pub record OpenFile : Type 0 where
  pub filesystem : ℕ
  pub fileid : ℤ
  pub seek_position : ℤ

-- vfs_table, openfile_table, vfs_ops, vfs_usable, and how often vfs_unmount_sem was raised.
pub record Vfs (S : Type 0) : Type 0 where
  pub filesystems : ℕ → Entry
  pub files : ℕ → OpenFile
  pub vfs_ops : ℤ
  pub vfs_usable : Bool
  pub unmount_signals : ℕ
  pub world : S

abbrev pub Op : Type 0 → Type 0
Op S = Vfs S → Outcome (ℤ × Vfs S)

module _ {S : Type 0} where
  unfoldable pub vfs_start_op : Vfs S → ℤ × Vfs S
  vfs_start_op v =
      if v.vfs_usable
      then (vfs_ok, record v { vfs_ops = v.vfs_ops +ℤ pos 1 })
      else (vfs_unusable, v)

  unfoldable pub vfs_end_op : Vfs S → Outcome (Vfs S)
  vfs_end_op v =
      let ops = v.vfs_ops -ℤ pos 1 in
      let last = not v.vfs_usable && eq_ℤ ops (pos 0) in
      do
        assert (not (is_neg ops))
        done (record v {
          vfs_ops = ops;
          unmount_signals = if last then v.unmount_signals + 1 else v.unmount_signals;
        })

  -- `if (vfs_start_op() != VFS_OK) return VFS_UNUSABLE;`
  unfoldable pub starting : Op S → Op S
  starting rest v =
      let (r, v') = vfs_start_op v in
      if not (eq_ℤ r vfs_ok) then done (vfs_unusable, v') else rest v'

  -- `vfs_end_op(); return ret;`
  unfoldable pub ending : ℤ → Op S
  ending ret v = do v' ← vfs_end_op v; done (ret, v')

  -- A call of a filesystem, with what follows it.
  unfoldable pub calling : (S → Outcome (ℤ × S)) → (ℤ → Op S) → Op S
  calling call rest v = do r ← call v.world; rest r.0 (record v { world = r.1 })
