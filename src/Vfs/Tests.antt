-- ===== src/Vfs/Tests.antt =====
-- A system in which the theorems on fs/vfs.c are tried: the trivial filesystem of the tests of fs/tfs.c
-- is mounted as filesystem 1, and each open file is its file "ab", at the byte 500.
use aar.Vfs.Balance.Served.{serve, Idle, vfs_init-serve}
use aar.Vfs.Calls.{Call, mounts, unmounts, opens, writes}
use aar.Vfs.Mounts.{vfs_init}
use aar.Base.{List, [], ◌∷◌, ◌>>=◌}
use aar.Base.{ℕ, ◌-◌, ◌≡◌, refl, ◌==◌, true, some, arith, if◌then◌else◌, Returns, Partly}
use aar.Base.Int.{pos}
use aar.Tfs.Tests.{zeros, some_name, some_volume, some_volume-IsFile, some_volume-NoFailures}
use aar.Vfs.{Filesystem, Vfs}
use aar.Vfs.Names.{vfs_parse_pathname}
use aar.Vfs.Names.Parse.{Spells, Prefix, vfs_parse_pathname-Prefix}
use aar.Vfs.Files.{vfs_seek, vfs_read, vfs_write}
use aar.Vfs.Driver.{World, tfs_driver}
use aar.Vfs.Calls.{closes, perform}
use aar.Vfs.Sound.{Sound}
use aar.Vfs.Balance.Every.{perform-Sound}
use aar.Vfs.Running.{running}
use aar.Vfs.WriteRead.{entry_of, with_buffer, Fetches, vfs_read-vfs_write}

abbrev pub some_system : Vfs World
some_system = record {
  filesystems = λ row. record { filesystem = if row == 0 then 1 else 0; mountpoint = zeros };
  files = λ f. entry_of 1 3 500;
  vfs_ops = pos 0;
  vfs_usable = true;
  unmount_signals = 0;
  world = (some_volume, record { semaphores = 1; pages = 1; requests = 0 });
}

abbrev pub some_drivers : ℕ → Filesystem World
some_drivers fs = tfs_driver 16

abbrev pub some_put_name : (ℕ → ℕ) → World → World
some_put_name name w = (record w.0 { buffer = name }, w.1)

pub some_system-Sound : Sound some_system
some_system-Sound f l h = (0, omega arith, refl)

perform-Sound_example :
    Partly
      (perform some_drivers some_put_name 16 zeros (closes (pos 5)) some_system)
      (λ r. Sound r.1 × (r.1.vfs_ops ≡ pos 0) × (r.1.vfs_usable ≡ true))
perform-Sound_example =
    perform-Sound some_drivers some_put_name 16 zeros (closes (pos 5)) some_system some_system-Sound

vfs_read-vfs_write_example :
    Returns (vfs_write some_drivers (pos 5) (pos 30) (running 0 some_system)) (λ r.
      (r.0 ≡ pos 30)
      × Returns (vfs_seek (pos 5) (pos 500) r.1) (λ q.
        Returns
          (vfs_read some_drivers (pos 5) (pos 30) (with_buffer zeros q.1))
          (Fetches 30 some_volume.buffer)))
vfs_read-vfs_write_example =
    vfs_read-vfs_write some_drivers 16 5 1 0 3 500 30 600 some_system zeros (omega arith)
      (λ e. omega arith) refl refl some_volume-NoFailures some_volume-IsFile (omega arith)

-- "[d]ab"
abbrev pub some_path : ℕ → ℕ
some_path j =
    if j == 0 then 91 else if j == 1 then 100 else if j == 2 then 93 else some_name (j - 3)

abbrev some_disk_name : ℕ → ℕ
some_disk_name j = if j == 0 then 100 else 0

some_path-Spells : Spells some_path some_disk_name some_name 1 2
some_path-Spells = record {
  opens = refl;
  spells_volume = λ i h. ground arith;
  nonzero = λ i h. ground arith;
  no_bracket = λ i h. ground arith;
  closes = refl;
  spells_file = λ i h. ground arith;
  file_nonzero = λ i h. ground arith;
  ends = refl;
}

vfs_parse_pathname-Prefix_example :
    (vol : ℕ → ℕ) × (name : ℕ → ℕ) × (vfs_parse_pathname some_path zeros zeros ≡ some (vol, name))
    × Prefix vol some_disk_name 1
    × (vol 1 ≡ 0)
    × Prefix name some_name 2
    × (name 2 ≡ 0)
vfs_parse_pathname-Prefix_example =
    vfs_parse_pathname-Prefix some_path some_disk_name some_name zeros zeros 1 2 some_path-Spells
      (omega arith) (omega arith) (omega arith)

-- Each of these calls succeeds.
abbrev some_calls : List Call
some_calls =
    mounts 1 some_disk_name
    ∷ opens some_path
    ∷ writes (pos 0) (pos 30)
    ∷ closes (pos 0)
    ∷ unmounts some_disk_name
    ∷ []

vfs_init-serve_example :
    Partly
      (vfs_init true some_system >>= serve some_drivers some_put_name 16 zeros some_calls)
      (Idle some_drivers some_put_name 16 zeros)
vfs_init-serve_example =
    vfs_init-serve some_drivers some_put_name 16 zeros true some_calls some_system
