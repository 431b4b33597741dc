-- ===== src/Tfs/Create/Exists.antt =====
-- tfs_create of fs/tfs.c for a name that is in use.
use mathlib.Core.Bool.{true≢false}
use aar.Base.{
  ℕ, zero, suc, ◌+◌, ◌<◌, ◌≤◌, ◌≡◌, refl, sym, ap, subst, ◌∙◌, inl, inr, true, false, Option, none,
  some, done, ltb, ◌==◌, arith, if◌then◌else◌, Bool-cases, Returns,
}
use aar.Base.Int.{ℤ}
use aar.Libc.Compare.{Length}
use aar.Tfs.{
  Tfs, tfs_directory_block, tfs_blocks_max, tfs_max_files, vfs_error, entry_inode, entry_name,
  characters,
}
use aar.Tfs.Exec.{returned, ◌>>=◌, pure, return, gets, lift, read_block, fill, request, sector}
use aar.Tfs.Directory.{same_name}
use aar.Tfs.Directory.Lookup.{Named, same_name-Agree}
use aar.Tfs.Create.{free_entry, num_blocks, tfs_create}

module _ (fuel n : ℕ) (filename : ℕ → ℕ) (l : n < fuel) (h : Length (characters filename) n) where
  pub entry_taken :
      (k i : ℕ) (index : Option ℕ) (s : Tfs)
      → same_name fuel (entry_name s.buffer_md i) filename ≡ done true
      → free_entry fuel (suc k) i index filename s ≡ done (returned vfs_error, s)
  unfolding free_entry ◌>>=◌ gets lift pure return
  entry_taken k i index s e = rw e refl

  pub entry_passed :
      (k i : ℕ) (index : Option ℕ) (s : Tfs)
      → same_name fuel (entry_name s.buffer_md i) filename ≡ done false
      → free_entry fuel (suc k) i index filename s
        ≡ free_entry fuel k
            (i + 1)
            (if entry_inode s.buffer_md i == 0 then some i else index)
            filename
            s
  unfolding free_entry ◌>>=◌ gets lift pure return
  entry_passed k i index s e = rw e refl

  free_entry-exists :
      (k i j : ℕ) (index : Option ℕ) (s : Tfs)
      → i ≤ j
      → j < i + k
      → Named s.buffer_md filename n j
      → free_entry fuel k i index filename s ≡ done (returned vfs_error, s)
  free_entry-exists zero i j index s p q named = absurd (omega arith)
  free_entry-exists (suc k) i j index s p q named =
      let (t, e, same) = same_name-Agree fuel n (entry_name s.buffer_md i) filename l h in
      elim (Bool-cases t) [
        | inl b ↦ entry_taken k i index s (e ∙ ap done b)
        | inr b ↦
            let other : i ≡ j → ⊥ = λ d.
              true≢false (sym (same.1 (subst (Named s.buffer_md filename n) (sym d) named)) ∙ b) in
            entry_passed k i index s (e ∙ ap done b)
            ∙ free_entry-exists k (i + 1) j
                (if entry_inode s.buffer_md i == 0 then some i else index) s (omega (arith, other))
                (omega arith) named
      ]

-- tfs_create with a file name that an entry of the directory block already has returns VFS_ERROR and
-- leaves every block of the device as it is, whatever the size and whether or not the device reads
-- the block, if the name has fewer characters than stringcmp has rounds.
pub tfs_create-exists :
    (fuel n j : ℕ) (filename : ℕ → ℕ) (size : ℤ) (s : Tfs)
    → n < fuel
    → Length (characters filename) n
    → j < tfs_max_files
    → Named (fill (s.disk (sector s tfs_directory_block)) s.buffer_md) filename n j
    → Returns (tfs_create fuel filename size s) (λ r. (r.0 ≡ vfs_error) × (r.1.disk ≡ s.disk))
unfolding tfs_create read_block ◌>>=◌ pure return
tfs_create-exists fuel n j filename size s l h p named =
    elim (Bool-cases (ltb tfs_blocks_max (num_blocks size))) [
      | inl e ↦ rw e (refl, refl)
      | inr e ↦ elim (Bool-cases (s.fails s.requests (sector s tfs_directory_block))) [
        | inl f ↦ rw (e, f) (refl, refl)
        | inr f ↦
            let s' = record (request s) {
              buffer_md = fill (s.disk (sector s tfs_directory_block)) s.buffer_md;
            } in
            let g =
              free_entry-exists fuel n filename l h tfs_max_files 0 j none s' (omega arith)
                (omega arith) named in
            rw (e, f, g) (refl, refl)
      ]
    ]
