-- ===== src/Vfs/Running.antt =====
-- What the operations of fs/vfs.c on an open file come to while the system is usable.
use aar.Base.{
  ℕ, ◌+◌, ◌<◌, ◌≡◌, ◌≢◌, refl, sym, ap, ◌∙◌, inl, inr, true, false, Outcome, done, update_same, ltb,
  ◌==◌, arith, if◌then◌else◌, Bool-cases, Returns, Returns-bind,
}
use aar.Base.Int.{ℤ, pos, ◌+ℤ◌, ◌-ℤ◌, is_pos}
use aar.Vfs.{
  Filesystem, Vfs, Op, max_open_files, vfs_ok, vfs_start_op, vfs_end_op, starting, ending, calling,
}
use aar.Vfs.Files.{set_seek, moved_by, vfs_verify_open, vfs_seek, vfs_read, vfs_write}

-- A usable system with `n` operations on their way.
abbrev pub running : {S : Type 0} → ℕ → Vfs S → Vfs S
running n v = record v { vfs_ops = pos n; vfs_usable = true }

-- The seek position after a transfer.
abbrev pub after : ℤ → ℤ → ℤ
after p ret = if is_pos ret then p +ℤ ret else p

module _ {S : Type 0} where
  starting-running :
      (rest : Op S) (n : ℕ) (v : Vfs S) → starting rest (running n v) ≡ rest (running (n + 1) v)
  unfolding starting vfs_start_op
  starting-running rest n v =
      let e : pos n +ℤ pos 1 ≡ pos (n + 1) = ground arith in
      ap (λ t. rest (record v { vfs_ops = t; vfs_usable = true })) e

  ending-running :
      (ret : ℤ) (n : ℕ) (v : Vfs S) → ending ret (running (n + 1) v) ≡ done (ret, running n v)
  unfolding ending vfs_end_op
  ending-running ret n v = let e : pos (n + 1) -ℤ pos 1 ≡ pos n = ground arith in rw e refl

  -- The file is open.
  verify-running :
      (f n : ℕ) (v : Vfs S)
      → f < max_open_files
      → (v.files f).filesystem ≢ 0
      → vfs_verify_open (pos f) (running n v) ≡ done f
  unfolding vfs_verify_open
  verify-running f n v h open_there =
      let e : ltb f max_open_files ≡ true = ground arith in
      let g : ((v.files f).filesystem == 0) ≡ false = ground (arith, open_there) in rw (e, g) refl

  moved_by-running :
      (f n : ℕ) (ret : ℤ) (v : Vfs S)
      → moved_by f ret (running (n + 1) v)
        ≡ done (ret, running n (set_seek f (after (v.files f).seek_position ret) v))
  moved_by-running f n ret v = elim (Bool-cases (is_pos ret)) [
    | inl e ↦ rw e (ending-running ret n (set_seek f ((v.files f).seek_position +ℤ ret) v))
    | inr e ↦
        let same = update_same v.files f (v.files f) refl in
        rw e (
          ending-running ret n v
          ∙ ap (λ t. done (ret, running n (record v { files = t }))) (sym same))
  ]

  transfer-Returns :
      (f n : ℕ) (call : S → Outcome (ℤ × S)) (v : Vfs S) (P : ℤ × S → Type 0)
      (R : ℤ × Vfs S → Type 0)
      → Returns (call v.world) P
      → ((r : ℤ × S)
          → P r
          → R (
            r.0,
            running n (set_seek f (after (v.files f).seek_position r.0) (record v { world = r.1 })),
          ))
      → Returns (calling call (moved_by f) (running (n + 1) v)) R
  unfolding calling
  transfer-Returns f n call v P R h k =
      Returns-bind (call v.world) (λ r. moved_by f r.0 (record (running (n + 1) v) { world = r.1 }))
        P R h (λ r p. rw (moved_by-running f n r.0 (record v { world = r.1 })) (k r p))

  -- The state after a transfer that returned `r`.
  abbrev pub transferred : ℕ → ℕ → Vfs S → ℤ × S → ℤ × Vfs S
  transferred f n v r =
      (r.0, running n (set_seek f (after (v.files f).seek_position r.0) (record v { world = r.1 })))

  pub vfs_write-Returns :
      (drivers : ℕ → Filesystem S) (f n datasize : ℕ) (v : Vfs S) (P : ℤ × S → Type 0)
      (R : ℤ × Vfs S → Type 0)
      → f < max_open_files
      → (v.files f).filesystem ≢ 0
      → Returns
          ((drivers (v.files f).filesystem).write
            (v.files f).fileid
            datasize
            (v.files f).seek_position
            v.world)
          P
      → ((r : ℤ × S) → P r → R (transferred f n v r))
      → Returns (vfs_write drivers (pos f) (pos datasize) (running n v)) R
  unfolding vfs_write
  vfs_write-Returns drivers f n datasize v P R l open_there h k =
      let call =
        (drivers (v.files f).filesystem).write (v.files f).fileid datasize
          (v.files f).seek_position in
      rw (starting-running _ n v, verify-running f (n + 1) v l open_there)
        (transfer-Returns f n call v P R h k)

  pub vfs_read-Returns :
      (drivers : ℕ → Filesystem S) (f n bufsize : ℕ) (v : Vfs S) (P : ℤ × S → Type 0)
      (R : ℤ × Vfs S → Type 0)
      → f < max_open_files
      → (v.files f).filesystem ≢ 0
      → Returns
          ((drivers (v.files f).filesystem).read
            (v.files f).fileid
            bufsize
            (v.files f).seek_position
            v.world)
          P
      → ((r : ℤ × S) → P r → R (transferred f n v r))
      → Returns (vfs_read drivers (pos f) (pos bufsize) (running n v)) R
  unfolding vfs_read
  vfs_read-Returns drivers f n bufsize v P R l open_there h k =
      let call =
        (drivers (v.files f).filesystem).read (v.files f).fileid bufsize
          (v.files f).seek_position in
      rw (starting-running _ n v, verify-running f (n + 1) v l open_there)
        (transfer-Returns f n call v P R h k)

  pub vfs_seek-running :
      (f n p : ℕ) (v : Vfs S)
      → f < max_open_files
      → (v.files f).filesystem ≢ 0
      → vfs_seek (pos f) (pos p) (running n v) ≡ done (vfs_ok, running n (set_seek f (pos p) v))
  unfolding vfs_seek
  vfs_seek-running f n p v l open_there =
      rw (starting-running _ n v, verify-running f (n + 1) v l open_there)
        (ending-running vfs_ok n (set_seek f (pos p) v))
