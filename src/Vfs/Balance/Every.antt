-- ===== src/Vfs/Balance/Every.antt =====
-- The operations of fs/vfs.c that a running system serves keep the invariant.
use aar.Base.{ℕ, ◌≡◌, refl, Bool, not, Option, none, some, Outcome, in_range, ltb, Partly}
use aar.Base.Int.{ℤ, pos, ◌+ℤ◌, is_neg, eq_ℤ}
use aar.Vfs.{Filesystem, Vfs, max_filesystems, vfs_ok, vfs_error, starting}
use aar.Vfs.Files.{parsing, on_filesystem, vfs_create, vfs_remove, vfs_getfree}
use aar.Vfs.Calls.{
  vfs_filecount, name_at, vfs_file, Call, mounts, mounts_fs, unmounts, opens, closes, seeks, reads,
  writes, creates, removes, asks_free, counts, lists, perform,
}
use aar.Vfs.Sound.{Sound, At, Ends, starting-At, ending-At}
use aar.Vfs.Balance.{
  looking-At, asserting-At, if-At, parsing-At, on_filesystem-At, vfs_mount-At, vfs_mount_fs-At,
  vfs_unmount-At,
}
use aar.Vfs.Balance.Files.{vfs_open-At, vfs_close-At, vfs_seek-At, vfs_read-At, vfs_write-At}

module _ {S : Type 0} (n : ℤ) (u : Bool) (drivers : ℕ → Filesystem S) (fuel : ℕ)
    (stack : ℕ → ℕ) where
  -- An operation on a path name that is one call of the filesystem.
  path_call-At :
      (pathname : ℕ → ℕ) (call : (ℕ → ℕ) → Filesystem S → S → Outcome (ℤ × S)) (v : Vfs S)
      → At n u v
      → Ends n u (
          starting
            (parsing stack pathname
              (λ volumename filename. on_filesystem drivers fuel volumename (call filename)))
            v)
  path_call-At pathname call v a =
      starting-At n u _ v
        (λ v' a'.
          parsing-At n u stack pathname
            (λ volumename filename. on_filesystem drivers fuel volumename (call filename)) v'
            (λ volumename filename.
              on_filesystem-At n u drivers fuel volumename (call filename) v' a')
            a')
        a

  vfs_create-At :
      (pathname : ℕ → ℕ) (size : ℤ) (v : Vfs S)
      → At n u v
      → Ends n u (vfs_create drivers fuel stack pathname size v)
  unfolding vfs_create
  vfs_create-At pathname size v a =
      asserting-At n u (not (is_neg size)) _
        (path_call-At pathname (λ filename d. d.create filename size) v a)

  vfs_filecount-At :
      (pathname : Option (ℕ → ℕ)) (v : Vfs S)
      → At n u v
      → Ends n u (vfs_filecount drivers fuel stack pathname v)
  unfolding vfs_filecount
  vfs_filecount-At none v a = starting-At n u _ v (λ v' a'. ending-At n u _ v' a') a
  vfs_filecount-At (some pathname) v a =
      path_call-At pathname (λ dirname d. d.filecount dirname) v a

  name_at-At :
      (put_name : (ℕ → ℕ) → S → S) (r : ℕ × ℤ) (v : Vfs S)
      → At (n +ℤ pos 1) u v
      → Ends n u (name_at put_name r v)
  unfolding name_at
  name_at-At put_name (ret, idx) v a =
      if-At n u (eq_ℤ idx (pos 0)) _ _
        (λ k. looking-At n u (in_range (ltb ret max_filesystems)) _ (λ t.
          ending-At n u vfs_ok
            (record v { world = put_name (v.filesystems ret).mountpoint v.world }) a))
        (λ k. ending-At n u vfs_error v a)

  vfs_file-At :
      (put_name : (ℕ → ℕ) → S → S) (pathname : Option (ℕ → ℕ)) (idx : ℤ) (v : Vfs S)
      → At n u v
      → Ends n u (vfs_file drivers put_name fuel stack pathname idx v)
  unfolding vfs_file
  vfs_file-At put_name none idx v a = starting-At n u _ v (λ v' a'. name_at-At put_name _ v' a') a
  vfs_file-At put_name (some pathname) idx v a =
      path_call-At pathname (λ dirname d. d.file dirname idx) v a

  perform-At :
      (put_name : (ℕ → ℕ) → S → S) (q : Call) (v : Vfs S)
      → At n u v
      → Ends n u (perform drivers put_name fuel stack q v)
  unfolding perform vfs_remove vfs_getfree
  perform-At put_name (mounts fs name) v a = vfs_mount-At n u fuel fs name v a
  perform-At put_name (mounts_fs fs volume name) v a =
      vfs_mount_fs-At n u drivers fuel fs volume name v a
  perform-At put_name (unmounts name) v a = vfs_unmount-At n u drivers fuel name v a
  perform-At put_name (opens pathname) v a = vfs_open-At n u drivers fuel stack pathname v a
  perform-At put_name (closes file) v a = vfs_close-At n u drivers file v a
  perform-At put_name (seeks file p) v a = vfs_seek-At n u drivers file p v a
  perform-At put_name (reads file bufsize) v a = vfs_read-At n u drivers file bufsize v a
  perform-At put_name (writes file datasize) v a = vfs_write-At n u drivers file datasize v a
  perform-At put_name (creates pathname size) v a = vfs_create-At pathname size v a
  perform-At put_name (removes pathname) v a =
      path_call-At pathname (λ filename d. d.remove filename) v a
  perform-At put_name (asks_free name) v a =
      starting-At n u _ v (λ v' a'. on_filesystem-At n u drivers fuel name (λ d. d.getfree) v' a') a
  perform-At put_name (counts pathname) v a = vfs_filecount-At pathname v a
  perform-At put_name (lists pathname idx) v a = vfs_file-At put_name pathname idx v a

-- If every open file is on a filesystem that stands in a row of the table of mounts, then an
-- operation of fs/vfs.h other than vfs_init, vfs_deinit and vfs_mount_all (with vfs_mount_fs from
-- what filesystems_try_all finds on) that returns leaves that so, whatever the filesystems do and
-- whichever error it gives. It ends with as many operations on their way as before it, and does not
-- change whether the system is usable.
pub perform-Sound :
    {S : Type 0} (drivers : ℕ → Filesystem S) (put_name : (ℕ → ℕ) → S → S) (fuel : ℕ)
    (stack : ℕ → ℕ) (q : Call) (v : Vfs S)
    → Sound v
    → Partly
        (perform drivers put_name fuel stack q v)
        (λ r. Sound r.1 × (r.1.vfs_ops ≡ v.vfs_ops) × (r.1.vfs_usable ≡ v.vfs_usable))
perform-Sound drivers put_name fuel stack q v s =
    perform-At v.vfs_ops v.vfs_usable drivers fuel stack put_name q v (s, refl, refl)
