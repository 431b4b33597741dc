-- ===== src/Tfs/Transfer/Reads.antt =====
-- tfs_read of fs/tfs.c as the reading of bytes of a file.
use Prim.Native.Nat.{min}
use aar.Base.{
  ℕ, zero, suc, ◌+◌, ◌-◌, ◌*◌, ◌/◌, ◌%◌, ◌<◌, ◌≤◌, ◌≡◌, refl, sym, ap, subst, ◌∙◌, inl, inr, true,
  done, ltb, leb, ◌==◌, ◌&&◌, arith, if◌then◌else◌, Bool-cases, Returns,
}
use aar.Base.Int.{pos}
use aar.Tfs.{Tfs, block}
use aar.Tfs.Exec.{goes, ◌>>=◌, pure, return, gets, modify, lift, read_block, fill, request, sector}
use aar.Tfs.Transfer.{block_number, take_bytes, read_rest, read_bytes, tfs_read}
use aar.Tfs.Transfer.Copy.{copy_between-range}
use aar.Tfs.Transfer.File.{
  IsFile, content, inode_loaded, bytes_at-IsFile, Holds-content, NoFailures, Holds, data_sector,
  blocks_for, first_step, first_step-bound, Span-first, Span, step_of, Span-next, step_of-bound,
}

-- The volume with the block in the buffer of the allocation block.
abbrev pub loaded : ℕ → Tfs → Tfs
loaded b s = record (request s) { buffer_bat = fill (s.disk (sector s b)) s.buffer_bat }

abbrev pub after_read : ℕ → ℕ → ℕ → ℕ → Tfs → Tfs
after_read b now to from s = take_bytes now to from (loaded (block s.buffer_inode b) s)

read_rest-step :
    (k b1 b2 n read : ℕ) (s : Tfs)
    → NoFailures s
    → b1 < 127
    → read_rest (suc k) b1 b2 n read s
      ≡ read_rest k
          (b1 + 1)
          b2
          n
          (read + step_of b1 b2 n read)
          (after_read b1 (step_of b1 b2 n read) read 0 s)
unfolding read_rest block_number read_block ◌>>=◌ gets lift modify
read_rest-step k b1 b2 n read s ok h =
    let e = ok s.requests (sector s (block s.buffer_inode b1)) in
    let f : ltb b1 127 ≡ true = ground arith in rw (f, e) refl

-- The buffer holds the first `n` bytes from `offset` on, and behind them what it held.
abbrev pub Got : (ℕ → ℕ) → (ℕ → ℕ) → ℕ → ℕ → Tfs → Type 0
Got c base offset n s = (j : ℕ) → s.buffer j ≡ (if ltb j n then c (offset + j) else base j)

take_bytes-Got :
    (b now read from offset m : ℕ) (c base : ℕ → ℕ) (s : Tfs)
    → Holds s s.buffer_inode m c
    → b < m
    → offset + read ≡ 512 * b + from
    → from + now ≤ 512
    → read + now ≤ 65024
    → Got c base offset read s
    → Got c base offset (read + now) (after_read b now read from s)
take_bytes-Got b now read from offset m c base s holds l at p q got j =
    let source = fill (s.disk (data_sector s s.buffer_inode b)) s.buffer_bat in
    let e = copy_between-range now read from s.buffer source j (omega arith) in
    elim (Bool-cases (leb read j && ltb j (read + now))) [
      | inl f ↦
          let near : ltb (from + (j - read)) 512 ≡ true = ground arith in
          let here : 512 * b + (from + (j - read)) ≡ offset + j = ground arith in
          let new : ltb j (read + now) ≡ true = ground arith in
          rw (e, f, near, new) (holds b (from + (j - read)) l (ground arith) ∙ ap c here)
      | inr f ↦ let same : ltb j (read + now) ≡ ltb j read = ground arith in rw (e, f, same) (got j)
    ]

-- The end of a transfer into the buffer.
pub record Read (n : ℕ) (c base : ℕ → ℕ) (offset : ℕ) (s s' : Tfs) : Type 0 where
  pub disk : s'.disk ≡ s.disk
  pub got : Got c base offset n s'

-- The loop of tfs_read ends with the number of bytes and the bytes in the buffer.
read_rest-Read :
    (k b1 b2 n read offset m : ℕ) (c base : ℕ → ℕ) (s : Tfs)
    → NoFailures s
    → Holds s s.buffer_inode m c
    → Span k b1 b2 n read offset m
    → Got c base offset read s
    → (s' : Tfs) × (read_rest k b1 b2 n read s ≡ done (goes (pos n), s'))
      × Read n c base offset s s'
unfolding read_rest pure
read_rest-Read zero b1 b2 n read offset m c base s ok holds x got =
    let all : read ≡ n = x.ended refl in
    (
      s,
      ap (λ t. done (goes (pos t), s)) all,
      record { disk = refl; got = subst (λ t. Got c base offset t s) all got },
    )
read_rest-Read (suc k) b1 b2 n read offset m c base s ok holds x got =
    let now = step_of b1 b2 n read in
    let next = Span-next k b1 b2 n read offset m x in
    let in_file : b1 < m = omega (arith, x.counts, x.inside) in
    let at : offset + read ≡ 512 * b1 + 0 = omega (arith, x.starts (omega arith)) in
    let bound : now ≤ 512 = step_of-bound k b1 b2 n read offset m x in
    let short : read + now ≤ 65024 = omega (arith, next.moves, next.short) in
    let s1 = after_read b1 now read 0 s in
    let got1 =
      take_bytes-Got b1 now read 0 offset m c base s holds in_file at (omega arith) short got in
    let (s', e, r) =
      read_rest-Read k (b1 + 1) b2 n (read + now) offset m c base s1 ok holds next got1 in
    (
      s',
      read_rest-step k b1 b2 n read s ok (omega (arith, x.small)) ∙ e,
      record { disk = r.disk; got = r.got },
    )

read_bytes-step :
    (n offset : ℕ) (s : Tfs)
    → NoFailures s
    → offset / 512 < 127
    → read_bytes offset n s
      ≡ read_rest
          ((offset + n - 1) / 512 - offset / 512)
          (offset / 512 + 1)
          ((offset + n - 1) / 512)
          n
          (first_step offset n)
          (after_read (offset / 512) (first_step offset n) 0 (offset % 512) s)
unfolding read_bytes block_number read_block ◌>>=◌ gets lift modify
read_bytes-step n offset s ok h =
    let e = ok s.requests (sector s (block s.buffer_inode (offset / 512))) in
    let f : ltb (offset / 512) 127 ≡ true = ground arith in rw (f, e) refl

read_bytes-Read :
    (n offset size : ℕ) (c : ℕ → ℕ) (s : Tfs)
    → NoFailures s
    → Holds s s.buffer_inode (blocks_for size) c
    → 0 < n
    → offset + n ≤ size
    → size ≤ 65024
    → (s' : Tfs) × (read_bytes offset n s ≡ done (goes (pos n), s')) × Read n c s.buffer offset s s'
read_bytes-Read n offset size c s ok holds p l q =
    let b1 = offset / 512 in
    let b2 = (offset + n - 1) / 512 in
    let now = first_step offset n in
    let bound = first_step-bound offset n in
    let start : 0 + now ≡ now = omega arith in
    let s1 = after_read b1 now 0 (offset % 512) s in
    let got : Got c s.buffer offset (0 + now) s1 =
      take_bytes-Got b1 now 0 (offset % 512) offset (blocks_for size) c s.buffer s holds
        (omega arith) (omega arith) bound (omega arith) (λ j. ground arith) in
    let (s', e, r) =
      read_rest-Read (b2 - b1) (b1 + 1) b2 n now offset (blocks_for size) c s.buffer s1 ok holds
        (Span-first offset n size p l q) (subst (λ t. Got c s.buffer offset t s1) start got) in
    (s', read_bytes-step n offset s ok (omega arith) ∙ e, record { disk = r.disk; got = r.got })

-- tfs_read of a file of `size` bytes from a place within it returns the smaller of the length asked for
-- and of the bytes that are left, and puts exactly these bytes of the file into the buffer, whose
-- other bytes and all blocks of the device stay as they are, if the device answers every request.
pub tfs_read-Read :
    (fileid bufsize offset size : ℕ) (s : Tfs)
    → NoFailures s
    → IsFile s fileid size
    → offset ≤ size
    → Returns (tfs_read (pos fileid) bufsize (pos offset) s) (λ r.
      (r.0 ≡ pos (min bufsize (size - offset)))
      × Read (min bufsize (size - offset)) (content s fileid) s.buffer offset s r.1)
unfolding tfs_read ◌>>=◌ pure return
tfs_read-Read fileid bufsize offset size s ok file h =
    let n = min bufsize (size - offset) in
    let start = bytes_at-IsFile fileid bufsize offset size s ok file h in
    let s1 = inode_loaded fileid s in
    elim (Bool-cases (n == 0)) [
      | inl e ↦
          let none : pos n ≡ pos 0 = ap pos (ground arith) in
          rw (start, e) (sym none, record { disk = refl; got = λ j. ground (arith, e) })
      | inr e ↦
          let (s', f, r) =
            read_bytes-Read n offset size (content s fileid) s1 ok
              (Holds-content fileid size s file) (ground arith) (omega arith) file.fits in
          rw (start, e, f) (refl, record { disk = r.disk; got = r.got })
    ]
