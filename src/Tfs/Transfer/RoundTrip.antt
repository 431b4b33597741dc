-- ===== src/Tfs/Transfer/RoundTrip.antt =====
-- tfs_read of fs/tfs.c after tfs_write, on the same place of the same file.
use Prim.Native.Nat.{min}
use aar.Base.{
  ℕ, ◌+◌, ◌-◌, ◌<◌, ◌≤◌, ◌≡◌, ap, ◌∙◌, true, ltb, leb, ◌&&◌, arith, Returns, Returns-mono,
}
use aar.Base.Int.{ℤ, pos}
use aar.Tfs.{Tfs}
use aar.Tfs.Transfer.{tfs_write, tfs_read}
use aar.Tfs.Transfer.File.{NoFailures, IsFile, content}
use aar.Tfs.Transfer.Reads.{Read, tfs_read-Read}
use aar.Tfs.Transfer.Update.{Updated, tfs_write-Updated}

-- What is read into the buffer `target` when the volume is `s`, if it is `n` bytes of `source`.
abbrev pub ReadsBack : ℕ → (ℕ → ℕ) → ℤ × Tfs → Type 0
ReadsBack n source r = (r.0 ≡ pos n) × ((j : ℕ) → j < n → r.1.buffer j ≡ source j)

read_back :
    (fileid size offset length : ℕ) (s s' : Tfs) (target : ℕ → ℕ)
    → NoFailures s
    → offset ≤ size
    → Updated fileid size offset (min length (size - offset)) s s'
    → Returns
        (tfs_read (pos fileid) length (pos offset) (record s' { buffer = target }))
        (ReadsBack (min length (size - offset)) s.buffer)
read_back fileid size offset length s s' target ok h u =
    let n = min length (size - offset) in
    let s1 = record s' { buffer = target } in
    let ok' : NoFailures s1 = λ m b. ap (λ f. f m b) u.fails ∙ ok m b in
    let file : IsFile s1 fileid size = record {
      valid = u.file.valid;
      sized = u.file.sized;
      fits = u.file.fits;
      apart = u.file.apart;
      beside_inode = u.file.beside_inode;
    } in
    Returns-mono (tfs_read (pos fileid) length (pos offset) s1)
      (λ r. (r.0 ≡ pos n) × Read n (content s1 fileid) target offset s1 r.1) (ReadsBack n s.buffer)
      (tfs_read-Read fileid length offset size s1 ok' file h)
      (λ r q. (
        q.0,
        λ j l.
            let at : offset + j - offset ≡ j = omega arith in
            let now : ltb j n ≡ true = ground arith in
            let in_range : (leb offset (offset + j) && ltb (offset + j) (offset + n)) ≡ true =
              ground arith in
            q.1.got j ∙ rw now (u.bytes (offset + j) (omega arith) ∙ rw in_range (ap s.buffer at)),
      ))

-- tfs_read with the arguments of a tfs_write that went before, into whatever buffer, returns the same
-- number as the tfs_write and gives back the bytes that were written, if the place is within the file
-- and the device answers every request.
pub tfs_read-tfs_write :
    (fileid length offset size : ℕ) (s : Tfs) (target : ℕ → ℕ)
    → NoFailures s
    → IsFile s fileid size
    → offset ≤ size
    → Returns (tfs_write (pos fileid) length (pos offset) s) (λ r.
      (r.0 ≡ pos (min length (size - offset)))
      × Returns
          (tfs_read (pos fileid) length (pos offset) (record r.1 { buffer = target }))
          (ReadsBack (min length (size - offset)) s.buffer))
tfs_read-tfs_write fileid length offset size s target ok file h =
    let n = min length (size - offset) in
    Returns-mono (tfs_write (pos fileid) length (pos offset) s)
      (λ r. (r.0 ≡ pos n) × Updated fileid size offset n s r.1)
      (λ r.
        (r.0 ≡ pos n)
        × Returns (tfs_read (pos fileid) length (pos offset) (record r.1 { buffer = target }))
            (ReadsBack n s.buffer))
      (tfs_write-Updated fileid length offset size s ok file h)
      (λ r q. (q.0, read_back fileid size offset length s r.1 target ok h q.1))
