-- ===== src/Tfs/Directory.antt =====
-- tfs_open, tfs_close, tfs_filecount and tfs_file of fs/tfs.c, which read the directory block.
pub mod Lookup
use aar.Base.{
  ℕ, zero, suc, ◌+◌, Bool, true, false, not, ◌&&◌, ◌||◌, Option, none, some, Outcome, done, spin,
  ◌==◌, if◌then◌else◌,
}
use aar.Base.Int.{ℤ, pos, is_neg, eq_ℤ}
use aar.Libc.{stringcmp}
use aar.Tfs.{
  Tfs, tfs_directory_block, tfs_max_files, vfs_ok, vfs_error, vfs_not_found, to_int, entry_inode,
  entry_name, characters, copy_name,
}
use aar.Tfs.Exec.{Exec, ◌>>=◌, ◌>>◌, pure, return, gets, modify, lift, return_if, run, read_md}

-- `stringcmp(a, b) == 0`, with `fuel` rounds.
pub same_name : ℕ → (ℕ → ℕ) → (ℕ → ℕ) → Outcome Bool
same_name fuel a b = elim (stringcmp fuel (characters a) (characters b)) [
  | none ↦ spin
  | some r ↦ done (eq_ℤ r (pos 0))
]

-- The loops of tfs_open and tfs_remove, with `n` rounds left from the entry `i` on.
pub find_entry : ℕ → ℕ → ℕ → (ℕ → ℕ) → Exec (Option ℕ)
find_entry fuel zero i filename = pure none
find_entry fuel (suc n) i filename =
    let more = find_entry fuel n (i + 1) filename in
    do
      md ← gets (λ s. s.buffer_md)
      same ← lift (same_name fuel (entry_name md i) filename)
      if same then pure (some i) else more

-- `return from_big_endian32(tfs->buffer_md[i].inode);`, or that the file is not found.
abbrev pub inode_of : Option ℕ → (ℕ → ℕ) → ℤ
inode_of none md = vfs_not_found
inode_of (some i) md = to_int (entry_inode md i)

unfoldable pub tfs_open : ℕ → (ℕ → ℕ) → Tfs → Outcome (ℤ × Tfs)
tfs_open fuel filename = run do
  read_md tfs_directory_block
  found ← find_entry fuel tfs_max_files 0 filename
  md ← gets (λ s. s.buffer_md)
  pure (inode_of found md)

pub tfs_close : ℤ → Tfs → Outcome (ℤ × Tfs)
tfs_close fileid s = done (vfs_ok, s)

-- The entries in use among the `n` from `i` on.
pub count_entries : ℕ → ℕ → (ℕ → ℕ) → ℕ
count_entries zero i md = 0
count_entries (suc n) i md =
    let rest = count_entries n (i + 1) md in if entry_inode md i == 0 then rest else suc rest

-- The directory name is a string, and `root` is "/".
abbrev pub root : ℕ → ℕ
root j = if j == 0 then 47 else 0

pub tfs_filecount : ℕ → (ℕ → ℕ) → Tfs → Outcome (ℤ × Tfs)
tfs_filecount fuel dirname = run do
  same ← lift (same_name fuel dirname root)
  return_if (not same) vfs_not_found
  read_md tfs_directory_block
  md ← gets (λ s. s.buffer_md)
  pure (pos (count_entries tfs_max_files 0 md))

-- The loop of tfs_file, with `n` rounds left from the entry `i` on and `count` entries in use before.
pub seek_entry : ℕ → ℕ → ℕ → ℤ → (ℕ → ℕ) → Option ℕ
seek_entry zero i count idx md = none
seek_entry (suc n) i count idx md =
    let free = entry_inode md i == 0 in
    let rest = seek_entry n (i + 1) (if free then count else count + 1) idx md in
    if not free && eq_ℤ (pos count) idx then some i else rest

abbrev pub copy_entry : Option ℕ → Exec ℤ
copy_entry none = pure vfs_error
copy_entry (some i) = do
  modify (λ s. record s { buffer = copy_name 0 0 s.buffer (entry_name s.buffer_md i) })
  pure vfs_ok

-- `buffer` of the state is the buffer for the name.
pub tfs_file : ℕ → (ℕ → ℕ) → ℤ → Tfs → Outcome (ℤ × Tfs)
tfs_file fuel dirname idx = run do
  same ← lift (same_name fuel dirname root)
  return_if (not same || is_neg idx) vfs_error
  read_md tfs_directory_block
  md ← gets (λ s. s.buffer_md)
  copy_entry (seek_entry tfs_max_files 0 0 idx md)
