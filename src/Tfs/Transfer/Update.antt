-- ===== src/Tfs/Transfer/Update.antt =====
-- tfs_write of fs/tfs.c and then tfs_read, on the same file.
use Prim.Native.Nat.{min}
use aar.Base.{
  ℕ, ◌+◌, ◌-◌, ◌*◌, ◌/◌, ◌%◌, ◌<◌, ◌≤◌, ◌≡◌, ◌≢◌, refl, sym, ap, subst, ◌∙◌, inl, inr, true, false,
  done, ltb, leb, ◌==◌, ◌&&◌, arith, Bool-cases, Returns,
}
use aar.Base.Int.{pos}
use aar.Tfs.{Tfs, block}
use aar.Tfs.Exec.{goes, ◌>>=◌, pure, return, gets, lift, sector, fill}
use aar.Tfs.Transfer.{block_number, write_part, write_rest, write_bytes, tfs_write}
use aar.Tfs.Transfer.Copy.{word-fill}
use aar.Tfs.Transfer.File.{
  NoFailures, Holds, data_sector, IsFile, content, inode_at, blocks_for, first_step,
  first_step-bound, Span-first, inode_loaded, bytes_at-IsFile, Holds-content,
}
use aar.Tfs.Transfer.Writes.{
  stored, Apart, written, Wrote, Wrote-stored, write_part-Patched, stored-Holds, write_rest-Wrote,
}

write_bytes-step :
    (n offset r : ℕ) (bat : ℕ → ℕ) (s : Tfs)
    → offset / 512 < 127
    → write_part (block s.buffer_inode (offset / 512)) (first_step offset n) (offset % 512) 0 s
      ≡ done (goes tt, stored r bat (data_sector s s.buffer_inode (offset / 512)) s)
    → write_bytes offset n s
      ≡ write_rest
          ((offset + n - 1) / 512 - offset / 512)
          (offset / 512 + 1)
          ((offset + n - 1) / 512)
          n
          (first_step offset n)
          (stored r bat (data_sector s s.buffer_inode (offset / 512)) s)
unfolding write_bytes block_number ◌>>=◌ gets lift
write_bytes-step n offset r bat s h e =
    let f : ltb (offset / 512) 127 ≡ true = ground arith in rw (f, e) refl

write_bytes-Wrote :
    (n offset size : ℕ) (c : ℕ → ℕ) (s : Tfs)
    → NoFailures s
    → Apart s s.buffer_inode (blocks_for size)
    → Holds s s.buffer_inode (blocks_for size) c
    → 0 < n
    → offset + n ≤ size
    → size ≤ 65024
    → (s' : Tfs) × (write_bytes offset n s ≡ done (goes (pos n), s'))
      × Wrote n offset (blocks_for size) c s s'
write_bytes-Wrote n offset size c s ok apart holds p l q =
    let b1 = offset / 512 in
    let b2 = (offset + n - 1) / 512 in
    let m = blocks_for size in
    let now = first_step offset n in
    let in_file : b1 < m = omega arith in
    let bound = first_step-bound offset n in
    let start : 0 + now ≡ now = omega arith in
    let (r, bat, e, patched) =
      write_part-Patched (block s.buffer_inode b1) now (offset % 512) 0 s ok bound in
    let s1 = stored r bat (data_sector s s.buffer_inode b1) s in
    let holds0 : Holds s s.buffer_inode m (written c s.buffer offset 0) = λ b j k i.
      let nothing : (leb offset (512 * b + j) && ltb (512 * b + j) (offset + 0)) ≡ false =
        ground arith in
      rw nothing (holds b j k i) in
    let holds1 =
      stored-Holds b1 now (offset % 512) 0 offset m r c bat s apart holds0 patched in_file bound
        (omega arith) in
    let holds2 =
      subst (λ t. Holds s1 s.buffer_inode m (written c s.buffer offset t)) start holds1 in
    let (s', f, w) =
      write_rest-Wrote (b2 - b1) (b1 + 1) b2 n now offset m c s1 ok apart holds2
        (Span-first offset n size p l q) in
    (
      s',
      write_bytes-step n offset r bat s (omega arith) e ∙ f,
      Wrote-stored r b1 n offset m bat c s s' in_file w,
    )

-- The file is the same size, in the same blocks.
pub IsFile-agree :
    (fileid size : ℕ) (s s' : Tfs)
    → s'.startblock ≡ s.startblock
    → s'.totalblocks ≡ s.totalblocks
    → s'.disk (sector s fileid) ≡ s.disk (sector s fileid)
    → IsFile s fileid size
    → IsFile s' fileid size
IsFile-agree fileid size s s' e f g file = record {
  valid = rw f file.valid;
  sized = rw (e, g) file.sized;
  fits = file.fits;
  apart = rw (e, g) file.apart;
  beside_inode = rw (e, g) file.beside_inode;
}

-- The volume `s'` is `s` with `n` bytes of the caller's buffer written into the file, from `offset` on.
pub record Updated (fileid size offset n : ℕ) (s s' : Tfs) : Type 0 where
  pub file : IsFile s' fileid size
  pub bytes :
      (x : ℕ) → x < size → content s' fileid x ≡ written (content s fileid) s.buffer offset n x
  pub elsewhere :
      (x : ℕ)
      → ((b : ℕ) → b < blocks_for size → data_sector s (inode_at s fileid) b ≢ x)
      → s'.disk x ≡ s.disk x
  pub fails : s'.fails ≡ s.fails
  pub buffer : s'.buffer ≡ s.buffer

data_sector-loaded :
    (fileid b : ℕ) (s : Tfs)
    → b < 127
    → data_sector s (fill (inode_at s fileid) s.buffer_inode) b
      ≡ data_sector s (inode_at s fileid) b
data_sector-loaded fileid b s h =
    ap (sector s) (word-fill (inode_at s fileid) s.buffer_inode (b + 1) (omega arith))

Wrote-Updated :
    (fileid size offset n : ℕ) (s s' : Tfs)
    → IsFile s fileid size
    → Wrote n offset (blocks_for size) (content s fileid) (inode_loaded fileid s) s'
    → Updated fileid size offset n s s'
Wrote-Updated fileid size offset n s s' file w =
    let loaded : (b : ℕ)
        → b < blocks_for size
        → data_sector s (fill (inode_at s fileid) s.buffer_inode) b
          ≡ data_sector s (inode_at s fileid) b =
      λ b l. data_sector-loaded fileid b s (omega (arith, file.fits)) in
    let inode : s'.disk (sector s fileid) ≡ s.disk (sector s fileid) =
      w.elsewhere (sector s fileid) (λ b l e. file.beside_inode b l (sym e ∙ loaded b l)) in
    record {
      file = IsFile-agree fileid size s s' w.startblock w.totalblocks inode file;
      bytes = λ x l.
          let b = x / 512 in
          let at : 512 * b + x % 512 ≡ x = omega arith in
          let k : b < blocks_for size = omega arith in
          rw (w.startblock, inode)
            (ap (λ t. s'.disk t (x % 512)) (sym (loaded b k))
              ∙ w.holds b (x % 512) k (omega arith)
              ∙ ap (written (content s fileid) s.buffer offset n) at);
      elsewhere = λ x ne. w.elsewhere x (λ b l e. ne b l (sym (loaded b l) ∙ e));
      fails = w.fails;
      buffer = w.buffer;
    }

-- tfs_write to a file of `size` bytes from a place within it returns the smaller of the length
-- given and of the bytes that are left in the file, if the device answers every request. Afterwards
-- the file has the same size and blocks; exactly these bytes of it are those of the caller's buffer
-- and the others are as before, and so are all blocks that do not belong to the file.
pub tfs_write-Updated :
    (fileid datasize offset size : ℕ) (s : Tfs)
    → NoFailures s
    → IsFile s fileid size
    → offset ≤ size
    → Returns (tfs_write (pos fileid) datasize (pos offset) s) (λ r.
      (r.0 ≡ pos (min datasize (size - offset)))
      × Updated fileid size offset (min datasize (size - offset)) s r.1)
unfolding tfs_write ◌>>=◌ pure return
tfs_write-Updated fileid datasize offset size s ok file h =
    let n = min datasize (size - offset) in
    let start = bytes_at-IsFile fileid datasize offset size s ok file h in
    let s1 = inode_loaded fileid s in
    let holds = Holds-content fileid size s file in
    elim (Bool-cases (n == 0)) [
      | inl e ↦
          let none : n ≡ 0 = ground arith in
          let nothing : Wrote n offset (blocks_for size) (content s fileid) s1 s1 = record {
            holds = λ b j k i.
                let out : (leb offset (512 * b + j) && ltb (512 * b + j) (offset + n)) ≡ false =
                  ground arith in
                rw out (holds b j k i);
            elsewhere = λ x ne. refl;
            startblock = refl;
            totalblocks = refl;
            fails = refl;
            buffer = refl;
          } in
          rw (start, e) (ap pos (sym none), Wrote-Updated fileid size offset n s s1 file nothing)
      | inr e ↦
          let apart : Apart s1 s1.buffer_inode (blocks_for size) = λ b b' l l' d e.
            file.apart b b' l l' d (
              sym (data_sector-loaded fileid b s (omega (arith, file.fits)))
              ∙ e
              ∙ data_sector-loaded fileid b' s (omega (arith, file.fits))) in
          let (s', f, w) =
            write_bytes-Wrote n offset size (content s fileid) s1 ok apart holds (ground arith)
              (omega arith) file.fits in
          rw (start, e, f) (refl, Wrote-Updated fileid size offset n s s' file w)
    ]
