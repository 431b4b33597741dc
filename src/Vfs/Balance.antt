-- ===== src/Vfs/Balance.antt =====
-- The operations of fs/vfs.c that a running system serves keep the invariant and end with as many
-- operations on their way as there were before it.
pub mod Files
pub mod Every
pub mod Served
use aar.Base.{
  ℕ, zero, suc, ◌+◌, ◌-◌, ◌<◌, ◌≤◌, ◌≡◌, ◌≢◌, refl, sym, ap, inl, inr, Bool, true, false, not, ◌&&◌,
  Option, none, some, Outcome, done, ◌>>=◌, ◌>>◌, assert, in_range, update, ltb, ◌==◌, arith,
  if◌then◌else◌, Bool-cases, Partly, Partly-bind, Partly-any, Partly-mono,
}
use aar.Base.Int.{ℤ, pos, negsuc, ◌+ℤ◌, ◌-ℤ◌, is_neg, is_pos, eq_ℤ, pos_part}
use aar.Vfs.{
  Filesystem, Entry, OpenFile, Vfs, Op, max_filesystems, max_open_files, vfs_ok, vfs_error,
  vfs_limit, vfs_in_use, vfs_not_found, vfs_no_such_fs, vfs_invalid_params, starting, ending,
  calling,
}
use aar.Vfs.Names.{find_mountpoint, filesystem_of, vfs_get_filesystem, vfs_parse_pathname}
use aar.Vfs.Mounts.{
  free_row, is_used, set_filesystem, set_row, mount_at, mount_in, vfs_mount, name_or, give_up,
  mount_named, vfs_mount_fs, unmount_row, unmount_at, vfs_unmount,
}
use aar.Vfs.Files.{
  set_file, set_file_system, set_seek, free_file, opened, open_on, open_at, parsing, vfs_open,
  vfs_verify_open, vfs_close, vfs_seek, moved_by, vfs_read, vfs_write, on_filesystem, vfs_create,
  vfs_remove, vfs_getfree,
}
use aar.Vfs.Calls.{
  vfs_filecount, name_at, vfs_file, Call, mounts, unmounts, opens, closes, seeks, reads, writes,
  creates, removes, asks_free, counts, lists, perform,
}
use aar.Vfs.Sound.{
  Mounted, Sound, At, Ends, starting-At, ending-At, calling-At, vfs_get_filesystem-Mounted,
  is_used-false, free_row-free, set_row-Sound, set_filesystem-Sound, set_file-Sound,
}

module _ {S : Type 0} (n : ℤ) (u : Bool) where
  -- What is looked up does not change the state.
  pub looking-At :
      {A : Type 0} (m : Outcome A) (f : A → Outcome (ℤ × Vfs S))
      → ((a : A) → Ends n u (f a))
      → Ends n u (m >>= f)
  looking-At m f k =
      Partly-bind m f (λ a. Unit) (λ r. At n u r.1) (Partly-any m (λ a. Unit) (λ a. tt))
        (λ a h. k a)

  pub asserting-At : (b : Bool) (m : Outcome (ℤ × Vfs S)) → Ends n u m → Ends n u (assert b >> m)
  asserting-At true m k = k
  asserting-At false m k = tt

  pub if-At :
      (b : Bool) (l m : Outcome (ℤ × Vfs S))
      → (b ≡ true → Ends n u l)
      → (b ≡ false → Ends n u m)
      → Ends n u (if b then l else m)
  if-At true l m k k' = k refl
  if-At false l m k k' = k' refl

  pub parsing-At :
      (stack pathname : ℕ → ℕ) (rest : (ℕ → ℕ) → (ℕ → ℕ) → Op S) (v : Vfs S)
      → ((volumename filename : ℕ → ℕ) → Ends n u (rest volumename filename v))
      → At (n +ℤ pos 1) u v
      → Ends n u (parsing stack pathname rest v)
  parsing-At stack pathname rest v k a =
      elim (vfs_parse_pathname pathname stack stack)
        as (λ r. Ends n u (elim r [
          | none ↦ ending vfs_error v
          | some (volumename, filename) ↦ rest volumename filename v
        ])) [
          | none ↦ ending-At n u vfs_error v a
          | some (volumename, filename) ↦ k volumename filename
        ]

  pub on_filesystem-At :
      (drivers : ℕ → Filesystem S) (fuel : ℕ) (name : ℕ → ℕ)
      (call : Filesystem S → S → Outcome (ℤ × S)) (v : Vfs S)
      → At (n +ℤ pos 1) u v
      → Ends n u (on_filesystem drivers fuel name call v)
  unfolding on_filesystem
  on_filesystem-At drivers fuel name call v a =
      looking-At (vfs_get_filesystem fuel name v.filesystems)
        (λ fs. if fs == 0 then ending vfs_no_such_fs v else calling (call (drivers fs)) ending v)
        (λ fs.
          if-At (fs == 0) (ending vfs_no_such_fs v) (calling (call (drivers fs)) ending v)
            (λ e. ending-At n u vfs_no_such_fs v a)
            (λ e.
              calling-At n u (call (drivers fs)) ending v
                (λ r w. ending-At n u r (record v { world = w }) a)))

  mount_at-At :
      (fs row : ℕ) (name : ℕ → ℕ) (taken : Option ℕ) (v : Vfs S)
      → (v.filesystems row).filesystem ≡ 0
      → At (n +ℤ pos 1) u v
      → Ends n u (mount_at fs name row taken v)
  unfolding mount_at
  mount_at-At fs row name none v free (s, e, f) =
      ending-At n u vfs_ok (set_row row fs name v) (set_row-Sound row fs name v free s, e, f)
  mount_at-At fs row name (some r) v free a = ending-At n u vfs_error v a

  mount_in-At :
      (fuel fs : ℕ) (name : ℕ → ℕ) (r : Option ℕ) (v : Vfs S)
      → ((row : ℕ) → r ≡ some row → (v.filesystems row).filesystem ≡ 0)
      → At (n +ℤ pos 1) u v
      → Ends n u (mount_in fuel fs name r v)
  unfolding mount_in
  mount_in-At fuel fs name none v free a = ending-At n u vfs_limit v a
  mount_in-At fuel fs name (some row) v free a =
      looking-At (find_mountpoint fuel max_filesystems 0 name v.filesystems)
        (λ taken. mount_at fs name row taken v)
        (λ taken. mount_at-At fs row name taken v (free row refl) a)

  pub vfs_mount-At :
      (fuel fs : ℕ) (name : ℕ → ℕ) (v : Vfs S) → At n u v → Ends n u (vfs_mount fuel fs name v)
  unfolding vfs_mount
  vfs_mount-At fuel fs name v a = asserting-At (not (name 0 == 0)) _ (
      starting-At n u (λ v. mount_in fuel fs name (free_row max_filesystems 0 v.filesystems) v) v
        (λ v' a'.
          mount_in-At fuel fs name (free_row max_filesystems 0 v'.filesystems) v'
            (λ row e. free_row-free max_filesystems 0 row v'.filesystems e) a')
        a)

  give_up-At :
      (drivers : ℕ → Filesystem S) (fs : ℕ) (ret : ℤ) (v : Vfs S)
      → At n u v
      → Ends n u (give_up drivers fs ret v)
  give_up-At drivers fs ret v a =
      calling-At n u (drivers fs).unmount (λ r v. done (ret, v)) v (λ r w. a)

  mount_named-At :
      (drivers : ℕ → Filesystem S) (fuel fs : ℕ) (name : ℕ → ℕ) (v : Vfs S)
      → At n u v
      → Ends n u (mount_named drivers fuel fs name v)
  unfolding mount_named
  mount_named-At drivers fuel fs name v a =
      if-At (name 0 == 0) (give_up drivers fs vfs_invalid_params v) _
        (λ e. give_up-At drivers fs vfs_invalid_params v a)
        (λ e.
          Partly-bind (vfs_mount fuel fs name v)
            (λ r. if eq_ℤ r.0 vfs_ok then done r else give_up drivers fs r.0 r.1) (λ r. At n u r.1)
            (λ r. At n u r.1) (vfs_mount-At fuel fs name v a)
            (λ r b.
              if-At (eq_ℤ r.0 vfs_ok) (done r) (give_up drivers fs r.0 r.1) (λ t. b)
                (λ t. give_up-At drivers fs r.0 r.1 b)))

  pub vfs_mount_fs-At :
      (drivers : ℕ → Filesystem S) (fuel fs : ℕ) (volume : ℕ → ℕ) (name : Option (ℕ → ℕ))
      (v : Vfs S)
      → At n u v
      → Ends n u (vfs_mount_fs drivers fuel fs volume name v)
  unfolding vfs_mount_fs
  vfs_mount_fs-At drivers fuel fs volume name v a =
      if-At (fs == 0) (done (vfs_no_such_fs, v))
        (mount_named drivers fuel fs (name_or volume name) v) (λ e. a)
        (λ e. mount_named-At drivers fuel fs (name_or volume name) v a)

  unmount_at-At :
      (drivers : ℕ → Filesystem S) (r : Option ℕ) (v : Vfs S)
      → At (n +ℤ pos 1) u v
      → Ends n u (unmount_at drivers r v)
  unfolding unmount_at unmount_row
  unmount_at-At drivers none v a = ending-At n u vfs_not_found v a
  unmount_at-At drivers (some row) v (s, e, f) =
      let fs = (v.filesystems row).filesystem in
      if-At (fs == 0) (ending vfs_not_found v) _ (λ z. ending-At n u vfs_not_found v (s, e, f))
        (λ z.
          if-At (is_used max_open_files 0 fs v.files) (ending vfs_in_use v) _
            (λ k. ending-At n u vfs_in_use v (s, e, f))
            (λ k.
              let unused : (x : ℕ) → x < max_open_files → (v.files x).filesystem ≢ fs =
                λ x l. is_used-false max_open_files 0 fs v.files k x (omega arith) (omega arith) in
              calling-At n u (drivers fs).unmount (λ r v. ending vfs_ok (set_filesystem row 0 v)) v
                (λ r w.
                  ending-At n u vfs_ok (set_filesystem row 0 (record v { world = w }))
                    (set_filesystem-Sound row v unused s, e, f))))

  pub vfs_unmount-At :
      (drivers : ℕ → Filesystem S) (fuel : ℕ) (name : ℕ → ℕ) (v : Vfs S)
      → At n u v
      → Ends n u (vfs_unmount drivers fuel name v)
  unfolding vfs_unmount
  vfs_unmount-At drivers fuel name v a =
      starting-At n u _ v
        (λ v' a'.
          looking-At (find_mountpoint fuel max_filesystems 0 name v'.filesystems)
            (λ row. unmount_at drivers row v') (λ row. unmount_at-At drivers row v' a'))
        a
