-- ===== src/Tfs/Create/Whole.antt =====
-- tfs_create of fs/tfs.c makes a file of zeros, or changes nothing.
use aar.Base.{
  ℕ, zero, suc, ◌+◌, ◌<◌, ◌≤◌, ◌≡◌, refl, sym, ap, subst, ◌∙◌, ◌⊎◌, inl, inr, Option, none, some,
  done, ltb, ◌==◌, arith, if◌then◌else◌, Bool-cases, Returns, Returns-mono,
}
use aar.Base.Int.{ℤ, pos}
use aar.Libc.Compare.{Length}
use aar.Tfs.{
  Tfs, tfs_directory_block, tfs_blocks_max, tfs_max_files, vfs_error, entry_inode, entry_name,
  characters,
}
use aar.Tfs.Exec.{goes, returned, ◌>>=◌, pure, return, read_block, fill, request, sector}
use aar.Tfs.Directory.Lookup.{same_name-Agree}
use aar.Tfs.Transfer.File.{NoFailures}
use aar.Tfs.Create.{num_blocks, free_entry, create_at, tfs_create}
use aar.Tfs.Exec.{ends}
use aar.Tfs.Create.Exists.{entry_taken, entry_passed}
use aar.Tfs.Create.Creates.{num_blocks-pos, Creates, refuses, creates, Reserved}
use aar.Tfs.Directory.Lookup.{NoneNamed, Named, NoneNamed-suc}
use aar.Base.{Bool, true, false, inl, inr, ◌⊎◌, Bool-cases, subst}
use mathlib.Core.Bool.{true≢false}
use aar.Tfs.Create.Made.{create_at-Creates}

next-low :
    (free : Bool) (i : ℕ) (index : Option ℕ)
    → ((j : ℕ) → index ≡ some j → j < i)
    → (j : ℕ) → (if free then some i else index) ≡ some j
    → j < i + 1
next-low true i index low j e = ground (arith, e)
next-low false i index low j e = omega (arith, low j e)

module _ (fuel n : ℕ) (filename : ℕ → ℕ) (l : n < fuel) (h : Length (characters filename) n) where
  -- The search of the directory ends, with the volume as it was; it goes on if no entry has the name.
  free_entry-ends :
      (k i : ℕ) (index : Option ℕ) (s : Tfs)
      → NoneNamed s.buffer_md filename n i
      → ((j : ℕ) → index ≡ some j → j < i)
      → (free_entry fuel k i index filename s ≡ done (returned vfs_error, s))
        ⊎ ((r : Option ℕ) × (free_entry fuel k i index filename s ≡ done (goes r, s))
            × NoneNamed s.buffer_md filename n (i + k)
            × ((j : ℕ) → r ≡ some j → j < i + k))
  unfolding free_entry pure
  free_entry-ends zero i index s unused low =
      let count : i ≡ i + 0 = omega arith in
      inr (
        index,
        refl,
        subst (NoneNamed s.buffer_md filename n) count unused,
        λ j e. omega (arith, low j e),
      )
  free_entry-ends (suc k) i index s unused low =
      let (t, e, same) = same_name-Agree fuel n (entry_name s.buffer_md i) filename l h in
      elim (Bool-cases t) [
        | inl b ↦ inl (entry_taken fuel n filename l h k i index s (e ∙ ap done b))
        | inr b ↦
            let next = if entry_inode s.buffer_md i == 0 then some i else index in
            let step = entry_passed fuel n filename l h k i index s (e ∙ ap done b) in
            let other : ¬ Named s.buffer_md filename n i = λ x. true≢false (sym (same.1 x) ∙ b) in
            let low' : (j : ℕ) → next ≡ some j → j < i + 1 =
              next-low (entry_inode s.buffer_md i == 0) i index low in
            let count : i + 1 + k ≡ i + suc k = omega arith in
            elim (free_entry-ends k (i + 1) next s
              (NoneNamed-suc s.buffer_md filename n i unused other) low') [
                | inl f ↦ inl (step ∙ f)
                | inr (r, f, u, v) ↦ inr (
                  r,
                  step ∙ f,
                  subst (NoneNamed s.buffer_md filename n) count u,
                  λ j d. omega (arith, v j d),
                )
              ]
      ]

-- The directory block is read.
Creates-read :
    (filename : ℕ → ℕ) (n size : ℕ) (s : Tfs) (md : ℕ → ℕ) (r : ℤ × Tfs)
    → Creates (record (request s) { buffer_md = md }) filename n size r
    → Creates s filename n size r
Creates-read filename n size s md r (refuses e f) = refuses e f
Creates-read filename n size s md r (creates p e free opens file zeros kept) =
    creates p e free opens file zeros kept

-- tfs_create with a size that is not negative returns: VFS_ERROR, and then no block of the device has
-- changed; or VFS_OK, and then tfs_open finds the name and gives a block that was free, this block is
-- the inode of a file of that size whose bytes are all zero, and every block that was marked in the
-- allocation block is as before, but for the allocation block and the directory block. The
-- conditions: the device answers every request; the volume has at most 4096 blocks, whose sector
-- numbers have 32 bits; the three system blocks are marked; and the name has at most 15 characters,
-- which are fewer than the rounds of stringcmp.
pub tfs_create-Creates :
    (fuel n size : ℕ) (filename : ℕ → ℕ) (s : Tfs)
    → n < fuel
    → n ≤ 15
    → Length (characters filename) n
    → NoFailures s
    → s.totalblocks ≤ 4096
    → s.startblock + 4096 ≤ 0x100000000
    → Reserved s
    → Returns (tfs_create fuel filename (pos size) s) (Creates s filename n size)
unfolding tfs_create read_block ◌>>=◌ pure return create_at
tfs_create-Creates fuel n size filename s l short h ok small room reserved =
    elim (Bool-cases (ltb tfs_blocks_max (num_blocks (pos size)))) [
      | inl e ↦ rw e (refuses refl refl)
      | inr e ↦
          let f = ok s.requests (sector s tfs_directory_block) in
          let md = fill (s.disk (sector s tfs_directory_block)) s.buffer_md in
          let s1 = record (request s) { buffer_md = md } in
          let fits : size ≤ 65024 = ground (arith, e, num_blocks-pos size) in
          elim (free_entry-ends fuel n filename l h tfs_max_files 0 none s1
            (λ j x. absurd (omega arith)) (λ j x. absurd cc)) [
              | inl g ↦ rw (e, f, g) (refuses refl refl)
              | inr (none, g, unused, low) ↦ rw (e, f, g) (refuses refl refl)
              | inr (some index, g, unused, low) ↦
                  let r =
                    create_at-Creates filename size index s1 ok small room reserved fits n short h
                      (low index refl) unused in
                  rw (e, f, g)
                    (Returns-mono (ends (create_at filename (pos size) (some index) s1))
                      (Creates s1 filename n size) (Creates s filename n size) r
                      (λ q c. Creates-read filename n size s md q c))
            ]
    ]
