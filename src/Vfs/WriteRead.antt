-- ===== src/Vfs/WriteRead.antt =====
-- vfs_write, vfs_seek and vfs_read of fs/vfs.c on a file of the trivial filesystem.
use Prim.Native.Nat.{min}
use aar.Base.{
  ℕ, ◌-◌, ◌<◌, ◌≤◌, ◌≡◌, ◌≢◌, sym, ap, subst, ◌∙◌, Outcome, done, update_self, Returns,
  Returns-bind,
}
use aar.Base.Int.{ℤ, pos}
use aar.Tfs.{Tfs}
use aar.Tfs.Transfer.{tfs_write, tfs_read}
use aar.Tfs.Transfer.File.{NoFailures, IsFile}
use aar.Tfs.Transfer.RoundTrip.{ReadsBack, tfs_read-tfs_write}
use aar.Vfs.{Filesystem, OpenFile, Vfs, max_open_files}
use aar.Vfs.Files.{set_seek, vfs_seek, vfs_read, vfs_write}
use aar.Vfs.Driver.{World, on_volume, tfs_driver}
use aar.Vfs.Running.{
  running, after, transferred, vfs_write-Returns, vfs_read-Returns, vfs_seek-running,
}

-- The caller gives another buffer.
abbrev pub with_buffer : (ℕ → ℕ) → Vfs World → Vfs World
with_buffer target v = record v { world = (record v.world.0 { buffer = target }, v.world.1) }

on_volume-Returns :
    (op : Tfs → Outcome (ℤ × Tfs)) (w : World) (P : ℤ × Tfs → Type 0) (Q : ℤ × World → Type 0)
    → Returns (op w.0) P
    → ((r : ℤ × Tfs) → P r → Q (r.0, (r.1, w.1)))
    → Returns (on_volume op w) Q
on_volume-Returns op w P Q h k = Returns-bind (op w.0) (λ r. done (r.0, (r.1, w.1))) P Q h k

-- The entry of an open file.
abbrev pub entry_of : ℕ → ℕ → ℕ → OpenFile
entry_of fs fileid offset = record {
  filesystem = fs;
  fileid = pos fileid;
  seek_position = pos offset;
}

set_seek-entry :
    (f fs fileid offset p : ℕ) (a : ℤ) (v : Vfs World)
    → v.files f ≡ entry_of fs fileid offset
    → (set_seek f (pos p) (set_seek f a v)).files f ≡ entry_of fs fileid p
set_seek-entry f fs fileid offset p a v e =
    let at = λ (x : OpenFile). record x { seek_position = pos p } in
    let moved : (set_seek f a v).files f ≡ record (v.files f) { seek_position = a } =
      update_self v.files f (record (v.files f) { seek_position = a }) in
    update_self (set_seek f a v).files f (at ((set_seek f a v).files f)) ∙ ap at moved ∙ ap at e

set_seek-filesystem :
    (f fs fileid offset : ℕ) (a : ℤ) (v : Vfs World)
    → v.files f ≡ entry_of fs fileid offset
    → ((set_seek f a v).files f).filesystem ≡ fs
set_seek-filesystem f fs fileid offset a v e =
    ap (λ x. x.filesystem) (update_self v.files f (record (v.files f) { seek_position = a }))
    ∙ ap (λ x. x.filesystem) e

module _ (drivers : ℕ → Filesystem World) (fuel f fs n fileid offset : ℕ) (l : f < max_open_files)
    (mounted : fs ≢ 0) (driver : drivers fs ≡ tfs_driver fuel) where
  writes_back :
      (length : ℕ) (v : Vfs World) (P : ℤ × World → Type 0) (R : ℤ × Vfs World → Type 0)
      → v.files f ≡ entry_of fs fileid offset
      → Returns (on_volume (tfs_write (pos fileid) length (pos offset)) v.world) P
      → ((r : ℤ × World) → P r → R (transferred f n v r))
      → Returns (vfs_write drivers (pos f) (pos length) (running n v)) R
  unfolding tfs_driver
  writes_back length v P R e h k =
      let there : (v.files f).filesystem ≢ 0 = λ z. mounted (sym (ap (λ x. x.filesystem) e) ∙ z) in
      vfs_write-Returns drivers f n length v P R l there
        (subst
          (λ x. Returns ((drivers x.filesystem).write x.fileid length x.seek_position v.world) P)
          (sym e)
          (subst (λ d. Returns (d.write (pos fileid) length (pos offset) v.world) P) (sym driver)
            h))
        k

  reads_back :
      (length : ℕ) (v : Vfs World) (P : ℤ × World → Type 0) (R : ℤ × Vfs World → Type 0)
      → v.files f ≡ entry_of fs fileid offset
      → Returns (on_volume (tfs_read (pos fileid) length (pos offset)) v.world) P
      → ((r : ℤ × World) → P r → R (transferred f n v r))
      → Returns (vfs_read drivers (pos f) (pos length) (running n v)) R
  unfolding tfs_driver
  reads_back length v P R e h k =
      let there : (v.files f).filesystem ≢ 0 = λ z. mounted (sym (ap (λ x. x.filesystem) e) ∙ z) in
      vfs_read-Returns drivers f n length v P R l there
        (subst
          (λ x. Returns ((drivers x.filesystem).read x.fileid length x.seek_position v.world) P)
          (sym e)
          (subst (λ d. Returns (d.read (pos fileid) length (pos offset) v.world) P) (sym driver) h))
        k

-- What a vfs_read of `k` bytes into a buffer leaves: `k` and the bytes of `source`.
abbrev pub Fetches : ℕ → (ℕ → ℕ) → ℤ × Vfs World → Type 0
Fetches k source r = (r.0 ≡ pos k) × ((j : ℕ) → j < k → r.1.world.0.buffer j ≡ source j)

-- On a usable system, with a file open on the trivial filesystem at a place within it: after a
-- vfs_write and a vfs_seek back to that place, a vfs_read of the same length into another buffer
-- returns what the vfs_write returned, the smaller of the length and of the bytes that are left in
-- the file, and gives back the bytes that were written, if the device answers every request.
pub vfs_read-vfs_write :
    (drivers : ℕ → Filesystem World) (fuel f fs n fileid offset length size : ℕ) (v : Vfs World)
    (target : ℕ → ℕ)
    → f < max_open_files
    → fs ≢ 0
    → drivers fs ≡ tfs_driver fuel
    → v.files f ≡ entry_of fs fileid offset
    → NoFailures v.world.0
    → IsFile v.world.0 fileid size
    → offset ≤ size
    → Returns (vfs_write drivers (pos f) (pos length) (running n v)) (λ r.
      (r.0 ≡ pos (min length (size - offset)))
      × Returns (vfs_seek (pos f) (pos offset) r.1) (λ q.
        Returns
          (vfs_read drivers (pos f) (pos length) (with_buffer target q.1))
          (Fetches (min length (size - offset)) v.world.0.buffer)))
vfs_read-vfs_write drivers fuel f fs n fileid offset length size v target l mounted driver e ok file
      h =
    let k = min length (size - offset) in
    let source = v.world.0.buffer in
    let back = λ (r : ℤ × World).
      (r.0 ≡ pos k)
      × Returns (tfs_read (pos fileid) length (pos offset) (record r.1.0 { buffer = target }))
          (ReadsBack k source) in
    writes_back drivers fuel f fs n fileid offset l mounted driver length v back _ e
      (on_volume-Returns (tfs_write (pos fileid) length (pos offset)) v.world _ back
        (tfs_read-tfs_write fileid length offset size v.world.0 target ok file h) (λ r p. p))
      (λ r p.
        let a = after (v.files f).seek_position r.0 in
        let v2 = set_seek f a (record v { world = r.1 }) in
        let v3 = with_buffer target (set_seek f (pos offset) v2) in
        let there : (v2.files f).filesystem ≢ 0 = λ z.
          mounted
            (sym (set_seek-filesystem f fs fileid offset a (record v { world = r.1 }) e) ∙ z) in
        (
          p.0,
          rw (vfs_seek-running f n offset v2 l there) (
              reads_back drivers fuel f fs n fileid offset l mounted driver length v3
                (λ q. ReadsBack k source (q.0, q.1.0)) (Fetches k source)
                (set_seek-entry f fs fileid offset offset a (record v { world = r.1 }) e)
                (on_volume-Returns (tfs_read (pos fileid) length (pos offset)) v3.world
                  (ReadsBack k source) _ p.1 (λ q g. g))
                (λ q g. g)),
        ))
