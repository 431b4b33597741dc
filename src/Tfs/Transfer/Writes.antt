-- ===== src/Tfs/Transfer/Writes.antt =====
-- tfs_write of fs/tfs.c as the writing of bytes of a file.
use aar.Base.{
  ℕ, zero, suc, ◌+◌, ◌-◌, ◌*◌, ◌<◌, ◌≤◌, ◌≡◌, ◌≢◌, refl, sym, ap, subst, ◌∙◌, inl, inr, true, false,
  done, ltb, leb, ◌&&◌, arith, if◌then◌else◌, Bool-cases, ℕ_discrete, update, update_self,
  update_ne,
}
use aar.Base.Int.{pos}
use aar.Tfs.{Tfs, tfs_block_size, block, copy_between}
use aar.Tfs.Exec.{goes, ◌>>=◌, pure, gets, modify, lift, read_block, write_block, fill, sector}
use aar.Tfs.Transfer.{block_number, write_part, write_rest}
use aar.Tfs.Transfer.Copy.{copy_between-range}
use aar.Tfs.Transfer.File.{NoFailures, Holds, data_sector, Span, step_of, Span-next, step_of-bound}

-- The volume with the buffer of the allocation block written to a sector.
abbrev pub stored : ℕ → (ℕ → ℕ) → ℕ → Tfs → Tfs
stored r bat x s = record s {
  requests = r;
  buffer_bat = bat;
  disk = update s.disk x (fill bat (s.disk x));
}

-- The buffer holds the block of the sector `x`, with `now` bytes of the caller's buffer in it.
abbrev pub Patched : (ℕ → ℕ) → ℕ → ℕ → ℕ → ℕ → Tfs → Type 0
Patched bat now to from x s =
    (j : ℕ)
    → j < 512
    → bat j ≡ (if leb to j && ltb j (to + now) then s.buffer (from + (j - to)) else s.disk x j)

pub write_part-Patched :
    (b now to from : ℕ) (s : Tfs)
    → NoFailures s
    → to + now ≤ 512
    → (r : ℕ) × (bat : ℕ → ℕ) × (write_part b now to from s
        ≡ done (goes tt, stored r bat (sector s b) s))
      × Patched bat now to from (sector s b) s
unfolding write_part read_block write_block ◌>>=◌ modify pure
write_part-Patched b now to from s ok h = elim (Bool-cases (ltb now tfs_block_size)) [
  | inl e ↦
      let f = ok s.requests (sector s b) in
      let g = ok (s.requests + 1) (sector s b) in
      let old = fill (s.disk (sector s b)) s.buffer_bat in
      (
        s.requests + 1 + 1,
        copy_between (pos now) to from old s.buffer,
        rw (e, f, g) refl,
        λ j l.
            let c = copy_between-range now to from old s.buffer j (omega arith) in
            let near : ltb j 512 ≡ true = ground arith in c ∙ rw near refl,
      )
  | inr e ↦
      let f = ok s.requests (sector s b) in
      (
        s.requests + 1,
        copy_between (pos now) to from s.buffer_bat s.buffer,
        rw (e, f) refl,
        λ j l.
            let c = copy_between-range now to from s.buffer_bat s.buffer j (omega arith) in
            let all : (leb to j && ltb j (to + now)) ≡ true = ground arith in c ∙ rw all refl,
      )
]

-- The bytes `c` with `n` bytes of `source` written over them from `offset` on.
abbrev pub written : (ℕ → ℕ) → (ℕ → ℕ) → ℕ → ℕ → ℕ → ℕ
written c source offset n x =
    if leb offset x && ltb x (offset + n) then source (x - offset) else c x

abbrev pub Apart : Tfs → (ℕ → ℕ) → ℕ → Type 0
Apart s inode m =
    (b b' : ℕ) → b < m → b' < m → b ≢ b' → data_sector s inode b ≢ data_sector s inode b'

written-outside :
    (c source : ℕ → ℕ) (offset moved now x : ℕ)
    → (leb (offset + moved) x && ltb x (offset + moved + now)) ≡ false
    → written c source offset moved x ≡ written c source offset (moved + now) x
written-outside c source offset moved now x e =
    let same : (leb offset x && ltb x (offset + (moved + now)))
        ≡ (leb offset x && ltb x (offset + moved)) =
      ground arith in
    rw same refl

written-inside :
    (c source : ℕ → ℕ) (offset moved now x : ℕ)
    → (leb (offset + moved) x && ltb x (offset + moved + now)) ≡ true
    → written c source offset (moved + now) x ≡ source (moved + (x - (offset + moved)))
written-inside c source offset moved now x e =
    let new : (leb offset x && ltb x (offset + (moved + now))) ≡ true = ground arith in
    let at : x - offset ≡ moved + (x - (offset + moved)) = ground arith in rw new (ap source at)

pub stored-Holds :
    (b now to moved offset m r : ℕ) (c bat : ℕ → ℕ) (s : Tfs)
    → Apart s s.buffer_inode m
    → Holds s s.buffer_inode m (written c s.buffer offset moved)
    → Patched bat now to moved (data_sector s s.buffer_inode b) s
    → b < m
    → to + now ≤ 512
    → offset + moved ≡ 512 * b + to
    → Holds
        (stored r bat (data_sector s s.buffer_inode b) s)
        s.buffer_inode
        m
        (written c s.buffer offset (moved + now))
stored-Holds b now to moved offset m r c bat s apart holds patched l q at b' j l' k =
    let x = data_sector s s.buffer_inode b in
    let s1 = stored r bat x s in
    elim (ℕ_discrete b b') [
      | yes d ↦
          let near : ltb j 512 ≡ true = ground arith in
          let self = ap (λ t. t j) (update_self s.disk x (fill bat (s.disk x))) in
          let new : s1.disk x j ≡ bat j = self ∙ rw near refl in
          let p = 512 * b + j in
          let here : s1.disk x j ≡ written c s.buffer offset (moved + now) p =
            elim (Bool-cases (leb to j && ltb j (to + now))) [
              | inl e ↦
                  let inside : (leb (offset + moved) p && ltb p (offset + moved + now)) ≡ true =
                    ground arith in
                  let from : moved + (p - (offset + moved)) ≡ moved + (j - to) = ground arith in
                  new
                  ∙ patched j k
                  ∙ rw e (
                      ap s.buffer (sym from)
                      ∙ sym (written-inside c s.buffer offset moved now p inside))
              | inr e ↦
                  let outside : (leb (offset + moved) p && ltb p (offset + moved + now)) ≡ false =
                    ground arith in
                  new
                  ∙ patched j k
                  ∙ rw e (holds b j l k ∙ written-outside c s.buffer offset moved now p outside)
            ] in
          subst
            (λ z.
              s1.disk (data_sector s s.buffer_inode z) j
              ≡ written c s.buffer offset (moved + now) (512 * z + j))
            d here
      | no d ↦
          let p = 512 * b' + j in
          let kept =
            ap (λ t. t j)
              (update_ne s.disk x (data_sector s s.buffer_inode b') (fill bat (s.disk x))
                (apart b b' l l' d)) in
          let outside : (leb (offset + moved) p && ltb p (offset + moved + now)) ≡ false =
            ground (arith, d) in
          kept ∙ holds b' j l' k ∙ written-outside c s.buffer offset moved now p outside
    ]

-- What a transfer to the device leaves.
pub record Wrote (n offset m : ℕ) (c : ℕ → ℕ) (s s' : Tfs) : Type 0 where
  pub holds :
      (b j : ℕ)
      → b < m
      → j < 512
      → s'.disk (data_sector s s.buffer_inode b) j ≡ written c s.buffer offset n (512 * b + j)
  pub elsewhere :
      (x : ℕ) → ((b : ℕ) → b < m → data_sector s s.buffer_inode b ≢ x) → s'.disk x ≡ s.disk x
  pub startblock : s'.startblock ≡ s.startblock
  pub totalblocks : s'.totalblocks ≡ s.totalblocks
  pub fails : s'.fails ≡ s.fails
  pub buffer : s'.buffer ≡ s.buffer

pub Wrote-stored :
    (r b n offset m : ℕ) (bat c : ℕ → ℕ) (s s' : Tfs)
    → b < m
    → Wrote n offset m c (stored r bat (data_sector s s.buffer_inode b) s) s'
    → Wrote n offset m c s s'
Wrote-stored r b n offset m bat c s s' l w =
    let x = data_sector s s.buffer_inode b in
    record {
      holds = w.holds;
      elsewhere = λ y ne. w.elsewhere y ne ∙ update_ne s.disk x y (fill bat (s.disk x)) (ne b l);
      startblock = w.startblock;
      totalblocks = w.totalblocks;
      fails = w.fails;
      buffer = w.buffer;
    }

write_rest-step :
    (k b1 b2 n moved r : ℕ) (bat : ℕ → ℕ) (s : Tfs)
    → b1 < 127
    → write_part (block s.buffer_inode b1) (step_of b1 b2 n moved) 0 moved s
      ≡ done (goes tt, stored r bat (data_sector s s.buffer_inode b1) s)
    → write_rest (suc k) b1 b2 n moved s
      ≡ write_rest k
          (b1 + 1)
          b2
          n
          (moved + step_of b1 b2 n moved)
          (stored r bat (data_sector s s.buffer_inode b1) s)
unfolding write_rest block_number ◌>>=◌ gets lift
write_rest-step k b1 b2 n moved r bat s h e =
    let f : ltb b1 127 ≡ true = ground arith in rw (f, e) refl

pub write_rest-Wrote :
    (k b1 b2 n moved offset m : ℕ) (c : ℕ → ℕ) (s : Tfs)
    → NoFailures s
    → Apart s s.buffer_inode m
    → Holds s s.buffer_inode m (written c s.buffer offset moved)
    → Span k b1 b2 n moved offset m
    → (s' : Tfs) × (write_rest k b1 b2 n moved s ≡ done (goes (pos n), s'))
      × Wrote n offset m c s s'
unfolding write_rest pure
write_rest-Wrote zero b1 b2 n moved offset m c s ok apart holds x =
    let all : moved ≡ n = x.ended refl in
    (
      s,
      ap (λ t. done (goes (pos t), s)) all,
      record {
        holds = λ b j l k.
            subst
              (λ t.
                s.disk (data_sector s s.buffer_inode b) j
                ≡ written c s.buffer offset t (512 * b + j))
              all (holds b j l k);
        elsewhere = λ y ne. refl;
        startblock = refl;
        totalblocks = refl;
        fails = refl;
        buffer = refl;
      },
    )
write_rest-Wrote (suc k) b1 b2 n moved offset m c s ok apart holds x =
    let now = step_of b1 b2 n moved in
    let next = Span-next k b1 b2 n moved offset m x in
    let in_file : b1 < m = omega (arith, x.counts, x.inside) in
    let at : offset + moved ≡ 512 * b1 + 0 = omega (arith, x.starts (omega arith)) in
    let bound : now ≤ 512 = step_of-bound k b1 b2 n moved offset m x in
    let (r, bat, e, patched) =
      write_part-Patched (block s.buffer_inode b1) now 0 moved s ok (omega arith) in
    let s1 = stored r bat (data_sector s s.buffer_inode b1) s in
    let holds1 =
      stored-Holds b1 now 0 moved offset m r c bat s apart holds patched in_file (omega arith) at in
    let (s', f, w) =
      write_rest-Wrote k (b1 + 1) b2 n (moved + now) offset m c s1 ok apart holds1 next in
    (
      s',
      write_rest-step k b1 b2 n moved r bat s (omega (arith, x.small)) e ∙ f,
      Wrote-stored r b1 n offset m bat c s s' in_file w,
    )
