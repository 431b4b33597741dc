-- ===== src/Vfs/Names.antt =====
-- vfs_parse_pathname and vfs_get_filesystem of fs/vfs.c.
pub mod Parse
use aar.Base.{
  ℕ, zero, suc, ◌+◌, ◌-◌, not, Option, none, some, Outcome, done, ◌>>=◌, update, ◌==◌,
  if◌then◌else◌,
}
use aar.Tfs.Directory.{same_name}
use aar.Vfs.{Entry, max_filesystems, vfs_name_length}

-- The loop over the name of the volume, with `n` rounds left, at the character `p` of the path name;
-- `i` characters are in `volumebuf`. Another end than at a ']' is an error.
pub parse_volume : ℕ → ℕ → ℕ → (ℕ → ℕ) → (ℕ → ℕ) → Option (ℕ × ℕ × (ℕ → ℕ))
parse_volume zero i p pathname volumebuf = none
parse_volume (suc n) i p pathname volumebuf =
    let rest = parse_volume n (i + 1) (p + 1) pathname (update volumebuf i (pathname p)) in
    if pathname p == 0 then none else if pathname p == 93 then some (i, p + 1, volumebuf) else rest

-- The loop over the file name, with `n` rounds left and `i` characters in `filenamebuf`.
pub parse_filename : ℕ → ℕ → ℕ → (ℕ → ℕ) → (ℕ → ℕ) → Option (ℕ → ℕ)
parse_filename zero i p pathname filenamebuf = none
parse_filename (suc n) i p pathname filenamebuf =
    let buf = update filenamebuf i (pathname p) in
    let rest = parse_filename n (i + 1) (p + 1) pathname buf in
    if not (pathname p == 0) then rest else if i == 0 then none else some buf

-- The volume is parsed: it has `i` characters, and the file name begins at `p`.
abbrev pub parse_rest : (ℕ → ℕ) → (ℕ → ℕ) → Option (ℕ × ℕ × (ℕ → ℕ)) → Option ((ℕ → ℕ) × (ℕ → ℕ))
parse_rest pathname filenamebuf none = none
parse_rest pathname filenamebuf (some (i, p, volumebuf)) =
    elim (parse_filename vfs_name_length 0 p pathname filenamebuf) [
      | none ↦ none
      | some buf ↦ some (update volumebuf i 0, buf)
    ]

-- `none` is VFS_ERROR; the value is what the buffers hold.
pub vfs_parse_pathname : (ℕ → ℕ) → (ℕ → ℕ) → (ℕ → ℕ) → Option ((ℕ → ℕ) × (ℕ → ℕ))
vfs_parse_pathname pathname volumebuf filenamebuf = parse_rest pathname filenamebuf (
    if pathname 0 == 91
    then parse_volume (vfs_name_length - 1) 0 1 pathname volumebuf
    else some (0, 0, volumebuf))

-- The loops of vfs_get_filesystem and vfs_unmount, with `n` rows left from `row` on: the first row
-- with the mount point.
unfoldable pub find_mountpoint : ℕ → ℕ → ℕ → (ℕ → ℕ) → (ℕ → Entry) → Outcome (Option ℕ)
find_mountpoint fuel zero row mountpoint table = done none
find_mountpoint fuel (suc n) row mountpoint table =
    let rest = find_mountpoint fuel n (row + 1) mountpoint table in
    do
      same ← same_name fuel (table row).mountpoint mountpoint
      if same then done (some row) else rest

abbrev pub filesystem_of : (ℕ → Entry) → Option ℕ → ℕ
filesystem_of table none = 0
filesystem_of table (some row) = (table row).filesystem

unfoldable pub vfs_get_filesystem : ℕ → (ℕ → ℕ) → (ℕ → Entry) → Outcome ℕ
vfs_get_filesystem fuel mountpoint table = do
  row ← find_mountpoint fuel max_filesystems 0 mountpoint table
  done (filesystem_of table row)
