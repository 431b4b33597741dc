-- ===== src/Tfs/Directory/Lookup.antt =====
-- The search of the directory in fs/tfs.c, and tfs_open.
use mathlib.Core.Logic.{◌↔◌}
use mathlib.Core.Bool.{true≢false}
use aar.Base.{
  ℕ, zero, suc, ◌+◌, ◌<◌, ◌≡◌, refl, sym, ap, subst, ◌∙◌, inl, inr, Bool, true, false, Option, none,
  some, done, arith, Bool-cases, ℕ_discrete, Returns,
}
use aar.Base.Int.{ℤ, pos, eq_ℤ}
use aar.Libc.Compare.{Length, Agree, stringcmp-Tells}
use aar.Tfs.{Tfs, tfs_directory_block, tfs_max_files, vfs_error, entry_name, characters}
use aar.Tfs.Exec.{goes, ◌>>=◌, pure, gets, lift, read_block, fill, request, sector}
use aar.Tfs.Directory.{inode_of, same_name, find_entry, tfs_open}

-- The entry `i` of a directory has the name, which has `n` characters.
abbrev pub Named : (ℕ → ℕ) → (ℕ → ℕ) → ℕ → ℕ → Type 0
Named md filename n i = Agree (characters (entry_name md i)) (characters filename) n

abbrev pub NoneNamed : (ℕ → ℕ) → (ℕ → ℕ) → ℕ → ℕ → Type 0
NoneNamed md filename n k = (i : ℕ) → i < k → ¬ Named md filename n i

-- What a search of the directory gives: the first of its entries with the name.
pub data Lookup (md filename : ℕ → ℕ) (n k : ℕ) : Option ℕ → Type 0 where
  first :
      {r : Option ℕ} (i : ℕ)
      → i < k
      → r ≡ some i
      → Named md filename n i
      → NoneNamed md filename n i
      → Lookup md filename n k r
  nowhere : {r : Option ℕ} → r ≡ none → NoneNamed md filename n k → Lookup md filename n k r

pub same_name-Agree :
    (fuel n : ℕ) (a b : ℕ → ℕ)
    → n < fuel
    → Length (characters b) n
    → (t : Bool) × (same_name fuel a b ≡ done t)
      × ((t ≡ true) ↔ Agree (characters a) (characters b) n)
unfolding same_name
same_name-Agree fuel n a b l h =
    let (r, e, t) = stringcmp-Tells fuel n (characters a) (characters b) l h in
    (eq_ℤ r (pos 0), rw (e, same_name) refl, t)

pub NoneNamed-suc :
    (md filename : ℕ → ℕ) (n k : ℕ)
    → NoneNamed md filename n k
    → ¬ Named md filename n k
    → NoneNamed md filename n (k + 1)
NoneNamed-suc md filename n k h e i l = elim (ℕ_discrete i k) [
  | yes d ↦ subst (λ j. ¬ Named md filename n j) (sym d) e
  | no d ↦ h i (omega arith)
]

module _ (fuel n : ℕ) (filename : ℕ → ℕ) (l : n < fuel) (h : Length (characters filename) n) where
  find_here :
      (k i : ℕ) (s : Tfs)
      → same_name fuel (entry_name s.buffer_md i) filename ≡ done true
      → find_entry fuel (suc k) i filename s ≡ done (goes (some i), s)
  unfolding find_entry ◌>>=◌ gets lift pure
  find_here k i s e = rw e refl

  find_later :
      (k i : ℕ) (s : Tfs)
      → same_name fuel (entry_name s.buffer_md i) filename ≡ done false
      → find_entry fuel (suc k) i filename s ≡ find_entry fuel k (i + 1) filename s
  unfolding find_entry ◌>>=◌ gets lift pure
  find_later k i s e = rw e refl

  -- The search with `k` rounds left ends with the volume as it was.
  pub find_entry-Lookup :
      (k i : ℕ) (s : Tfs)
      → NoneNamed s.buffer_md filename n i
      → (r : Option ℕ) × (find_entry fuel k i filename s ≡ done (goes r, s))
        × Lookup s.buffer_md filename n (i + k) r
  unfolding find_entry pure
  find_entry-Lookup zero i s none_yet = (none, refl, nowhere refl (λ j m. none_yet j (omega arith)))
  find_entry-Lookup (suc k) i s none_yet =
      let (t, e, named) = same_name-Agree fuel n (entry_name s.buffer_md i) filename l h in
      elim (Bool-cases t) [
        | inl b ↦ (
          some i,
          find_here k i s (e ∙ ap done b),
          first i (omega arith) refl (named.0 b) none_yet,
        )
        | inr b ↦
            let not_here : ¬ Named s.buffer_md filename n i =
              λ x. absurd (true≢false (sym (named.1 x) ∙ b)) in
            let (r, f, found) =
              find_entry-Lookup k (i + 1) s
                (NoneNamed-suc s.buffer_md filename n i none_yet not_here) in
            let count : i + 1 + k ≡ i + suc k = omega arith in
            (
              r,
              find_later k i s (e ∙ ap done b) ∙ f,
              subst (λ c. Lookup s.buffer_md filename n c r) count found,
            )
      ]

-- How tfs_open ends on a volume, with the directory block `md` in its buffer.
pub data Opens (s : Tfs) (filename : ℕ → ℕ) (n : ℕ) : ℤ × Tfs → Type 0 where
  unread :
      {r : ℤ × Tfs}
      → s.fails s.requests (sector s tfs_directory_block) ≡ true
      → r ≡ (vfs_error, request s)
      → Opens s filename n r
  looked :
      {r : ℤ × Tfs} (md : ℕ → ℕ) (found : Option ℕ)
      → s.fails s.requests (sector s tfs_directory_block) ≡ false
      → md ≡ fill (s.disk (sector s tfs_directory_block)) s.buffer_md
      → Lookup md filename n tfs_max_files found
      → r ≡ (inode_of found md, record (request s) { buffer_md = md })
      → Opens s filename n r

-- tfs_open with a file name of `n` characters, which are fewer than the rounds of stringcmp, returns:
-- VFS_ERROR if the device does not read the directory block; else the inode number of the first of the
-- 25 entries that has the name, or VFS_NOT_FOUND if none has it. Only the buffer of the directory and
-- the number of requests change.
pub tfs_open-Opens :
    (fuel n : ℕ) (filename : ℕ → ℕ) (s : Tfs)
    → n < fuel
    → Length (characters filename) n
    → Returns (tfs_open fuel filename s) (Opens s filename n)
unfolding tfs_open read_block ◌>>=◌ gets pure
tfs_open-Opens fuel n filename s l h =
    elim (Bool-cases (s.fails s.requests (sector s tfs_directory_block))) [
      | inl e ↦ rw e (unread e refl)
      | inr e ↦
          let md = fill (s.disk (sector s tfs_directory_block)) s.buffer_md in
          let s' = record (request s) { buffer_md = md } in
          let (r, f, found) =
            find_entry-Lookup fuel n filename l h tfs_max_files 0 s'
              (λ i k. absurd (omega arith)) in
          rw (e, f) (looked md r e refl found refl)
    ]
