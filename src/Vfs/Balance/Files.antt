-- ===== src/Vfs/Balance/Files.antt =====
-- The operations of fs/vfs.c on files keep the invariant.
use aar.Base.{ℕ, ◌≢◌, refl, Bool, not, Option, none, some, ◌==◌, Partly-bind}
use aar.Base.Int.{ℤ, pos, ◌+ℤ◌, is_neg, is_pos}
use aar.Vfs.{Filesystem, Vfs, max_open_files, vfs_ok, vfs_limit, vfs_no_such_fs}
use aar.Vfs.Names.{vfs_get_filesystem}
use aar.Vfs.Files.{
  set_file, set_file_system, set_seek, free_file, opened, open_on, open_at, vfs_open,
  vfs_verify_open, vfs_close, vfs_seek, moved_by, vfs_read, vfs_write,
}
use aar.Vfs.Sound.{
  Mounted, Sound, At, Ends, starting-At, ending-At, calling-At, vfs_get_filesystem-Mounted,
  set_file-Sound,
}
use aar.Vfs.Sound.{keep_file-Sound}
use aar.Vfs.Balance.{looking-At, asserting-At, if-At, parsing-At}

module _ {S : Type 0} (n : ℤ) (u : Bool) (drivers : ℕ → Filesystem S) where
  opened-At :
      (file : ℕ) (fileid : ℤ) (v : Vfs S) → At (n +ℤ pos 1) u v → Ends n u (opened file fileid v)
  unfolding opened
  opened-At file fileid v (s, e, f) =
      if-At n u (is_neg fileid) _ _
        (λ k. ending-At n u fileid (set_file_system file 0 v) (
          set_file-Sound file (record (v.files file) { filesystem = 0 }) v (λ ne. absurd (ne refl))
              s,
          e,
          f,
        ))
        (λ k.
          let entry = record (v.files file) { fileid = fileid; seek_position = pos 0 } in
          ending-At n u (pos file) (set_file file entry v)
            (keep_file-Sound file entry v refl s, e, f))

  open_on-At :
      (file : ℕ) (filename : ℕ → ℕ) (fs : ℕ) (v : Vfs S)
      → (fs ≢ 0 → Mounted v.filesystems fs)
      → At (n +ℤ pos 1) u v
      → Ends n u (open_on drivers file filename fs v)
  unfolding open_on
  open_on-At file filename fs v mounted (s, e, f) =
      if-At n u (fs == 0) _ _ (λ k. ending-At n u vfs_no_such_fs v (s, e, f))
        (λ k.
          let v1 = set_file_system file fs v in
          let s1 : Sound v1 =
            set_file-Sound file (record (v.files file) { filesystem = fs }) v mounted s in
          calling-At n u ((drivers fs).open_file filename) (opened file) v1
            (λ r w. opened-At file r (record v1 { world = w }) (s1, e, f)))

  open_at-At :
      (fuel : ℕ) (volumename filename : ℕ → ℕ) (file : Option ℕ) (v : Vfs S)
      → At (n +ℤ pos 1) u v
      → Ends n u (open_at drivers fuel volumename filename file v)
  unfolding open_at
  open_at-At fuel volumename filename none v a = ending-At n u vfs_limit v a
  open_at-At fuel volumename filename (some file) v a =
      Partly-bind (vfs_get_filesystem fuel volumename v.filesystems)
        (λ fs. open_on drivers file filename fs v) (λ fs. fs ≢ 0 → Mounted v.filesystems fs)
        (λ r. At n u r.1) (vfs_get_filesystem-Mounted fuel volumename v.filesystems)
        (λ fs mounted. open_on-At file filename fs v mounted a)

  pub vfs_open-At :
      (fuel : ℕ) (stack pathname : ℕ → ℕ) (v : Vfs S)
      → At n u v
      → Ends n u (vfs_open drivers fuel stack pathname v)
  unfolding vfs_open
  vfs_open-At fuel stack pathname v a =
      starting-At n u _ v
        (λ v' a'.
          parsing-At n u stack pathname
            (λ volumename filename v.
              open_at drivers fuel volumename filename (free_file max_open_files 0 v.files) v)
            v'
            (λ volumename filename.
              open_at-At fuel volumename filename (free_file max_open_files 0 v'.files) v' a')
            a')
        a

  pub vfs_close-At : (file : ℤ) (v : Vfs S) → At n u v → Ends n u (vfs_close drivers file v)
  unfolding vfs_close
  vfs_close-At file v a =
      starting-At n u _ v
        (λ v' (s, e, f). looking-At n u (vfs_verify_open file v') _ (λ i.
          calling-At n u _ _ v' (λ r w.
            ending-At n u r (set_file_system i 0 (record v' { world = w })) (
              set_file-Sound i (record (v'.files i) { filesystem = 0 }) v' (λ ne. absurd (ne refl))
                  s,
              e,
              f,
            ))))
        a

  set_seek-At :
      (file : ℕ) (p : ℤ) (v : Vfs S) → At (n +ℤ pos 1) u v → At (n +ℤ pos 1) u (set_seek file p v)
  set_seek-At file p v (s, e, f) =
      (keep_file-Sound file (record (v.files file) { seek_position = p }) v refl s, e, f)

  pub vfs_seek-At : (file p : ℤ) (v : Vfs S) → At n u v → Ends n u (vfs_seek file p v)
  unfolding vfs_seek
  vfs_seek-At file p v a =
      starting-At n u _ v
        (λ v' a'. asserting-At n u (not (is_neg p)) _ (
          looking-At n u (vfs_verify_open file v') _
            (λ i. ending-At n u vfs_ok (set_seek i p v') (set_seek-At i p v' a'))))
        a

  moved_by-At :
      (file : ℕ) (ret : ℤ) (v : Vfs S) → At (n +ℤ pos 1) u v → Ends n u (moved_by file ret v)
  moved_by-At file ret v a =
      if-At n u (is_pos ret) _ _
        (λ k.
          ending-At n u ret (set_seek file ((v.files file).seek_position +ℤ ret) v)
            (set_seek-At file _ v a))
        (λ k. ending-At n u ret v a)

  pub vfs_read-At :
      (file bufsize : ℤ) (v : Vfs S) → At n u v → Ends n u (vfs_read drivers file bufsize v)
  unfolding vfs_read
  vfs_read-At file bufsize v a =
      starting-At n u _ v
        (λ v' a'. looking-At n u (vfs_verify_open file v') _ (λ i.
          asserting-At n u (not (is_neg bufsize)) _ (
            calling-At n u _ (moved_by i) v'
              (λ r w. moved_by-At i r (record v' { world = w }) a'))))
        a

  pub vfs_write-At :
      (file datasize : ℤ) (v : Vfs S) → At n u v → Ends n u (vfs_write drivers file datasize v)
  unfolding vfs_write
  vfs_write-At file datasize v a =
      starting-At n u _ v
        (λ v' a'. looking-At n u (vfs_verify_open file v') _ (λ i.
          asserting-At n u (not (is_neg datasize)) _ (
            calling-At n u _ (moved_by i) v'
              (λ r w. moved_by-At i r (record v' { world = w }) a'))))
        a
