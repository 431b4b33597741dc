-- ===== src/Vfs/Driver.antt =====
-- fs/tfs.c as a filesystem of fs/vfs.c.
use aar.Base.{ℕ, Outcome, done, ◌>>=◌}
use aar.Base.Int.{ℤ}
use aar.Tfs.{Tfs}
use aar.Tfs.Init.{Resources, tfs_unmount}
use aar.Tfs.Directory.{tfs_open, tfs_close, tfs_filecount, tfs_file}
use aar.Tfs.Create.{tfs_create}
use aar.Tfs.Remove.{tfs_remove}
use aar.Tfs.Transfer.{tfs_read, tfs_write}
use aar.Tfs.Volume.{tfs_getfree}
use aar.Vfs.{Filesystem}

-- The volume, and what the kernel holds for its volumes.
abbrev pub World : Type 0
World = Tfs × Resources

abbrev pub on_volume : (Tfs → Outcome (ℤ × Tfs)) → World → Outcome (ℤ × World)
on_volume op w = do r ← op w.0; done (r.0, (r.1, w.1))

-- The functions that tfs_init puts into fs_t, with `fuel` rounds for each stringcmp.
unfoldable pub tfs_driver : ℕ → Filesystem World
tfs_driver fuel = record {
  unmount = λ w. let (r, held) = tfs_unmount w.1 in done (r, (w.0, held));
  open_file = λ filename. on_volume (tfs_open fuel filename);
  close = λ fileid. on_volume (tfs_close fileid);
  read = λ fileid bufsize offset. on_volume (tfs_read fileid bufsize offset);
  write = λ fileid datasize offset. on_volume (tfs_write fileid datasize offset);
  create = λ filename size. on_volume (tfs_create fuel filename size);
  remove = λ filename. on_volume (tfs_remove fuel filename);
  getfree = on_volume tfs_getfree;
  filecount = λ dirname. on_volume (tfs_filecount fuel dirname);
  file = λ dirname idx. on_volume (tfs_file fuel dirname idx);
}
