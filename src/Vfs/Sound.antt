-- ===== src/Vfs/Sound.antt =====
-- The invariant of fs/vfs.c: a file is open only on a filesystem that is mounted.
use mathlib.Core.Bool.{true≢false}
use aar.Base.{
  ℕ, zero, suc, ◌+◌, ◌<◌, ◌≤◌, ◌≡◌, ◌≢◌, refl, sym, ap, subst, ◌∙◌, inl, inr, Bool, true, false,
  Option, none, some, Outcome, done, update, update_self, update_ne, ◌==◌, arith, if◌then◌else◌,
  Bool-cases, ℕ_discrete, Partly, Partly-bind, Partly-any, Partly-mono,
}
use aar.Base.Int.{ℤ, pos, negsuc, ◌+ℤ◌, ◌-ℤ◌, is_neg}
use aar.Tfs.Directory.{same_name}
use aar.Vfs.{
  Entry, OpenFile, Vfs, Op, max_filesystems, max_open_files, vfs_unusable, vfs_start_op, vfs_end_op,
  starting, ending, calling,
}
use aar.Vfs.Names.{find_mountpoint, filesystem_of, vfs_get_filesystem}
use aar.Vfs.Mounts.{free_row, is_used, set_filesystem, set_row}
use aar.Vfs.Files.{set_file}

-- The filesystem stands in a row of the table.
abbrev pub Mounted : (ℕ → Entry) → ℕ → Type 0
Mounted table fs = (row : ℕ) × (row < max_filesystems) × ((table row).filesystem ≡ fs)

abbrev pub Sound : {S : Type 0} → Vfs S → Type 0
Sound v =
    (f : ℕ)
    → f < max_open_files
    → (v.files f).filesystem ≢ 0
    → Mounted v.filesystems (v.files f).filesystem

-- The tables are sound, `n` operations are on their way, and whether the system is usable.
abbrev pub At : {S : Type 0} → ℤ → Bool → Vfs S → Type 0
At n u v = Sound v × (v.vfs_ops ≡ n) × (v.vfs_usable ≡ u)

-- What an operation returns is such a state, if it returns.
abbrev pub Ends : {S : Type 0} → ℤ → Bool → Outcome (ℤ × Vfs S) → Type 0
Ends n u m = Partly m (λ r. At n u r.1)

minus_one : (n : ℤ) → n +ℤ pos 1 -ℤ pos 1 ≡ n
minus_one (pos n) = ground arith
minus_one (negsuc n) = ground arith

module _ {S : Type 0} (n : ℤ) (u : Bool) where
  pub ending-At : (ret : ℤ) (v : Vfs S) → At (n +ℤ pos 1) u v → Ends n u (ending ret v)
  unfolding ending vfs_end_op
  ending-At ret v (s, e, f) =
      let back : v.vfs_ops -ℤ pos 1 ≡ n = ap (λ t. t -ℤ pos 1) e ∙ minus_one n in
      elim (Bool-cases (is_neg (v.vfs_ops -ℤ pos 1))) [
        | inl neg ↦ rw neg tt
        | inr ok ↦ rw ok (s, back, f)
      ]

  started :
      (rest : Op S) (v : Vfs S)
      → v.vfs_usable ≡ true
      → starting rest v ≡ rest (record v { vfs_ops = v.vfs_ops +ℤ pos 1 })
  unfolding starting vfs_start_op
  started rest v e = simp e refl

  refused :
      (rest : Op S) (v : Vfs S) → v.vfs_usable ≡ false → starting rest v ≡ done (vfs_unusable, v)
  unfolding starting vfs_start_op
  refused rest v e = simp e refl

  pub starting-At :
      (rest : Op S) (v : Vfs S)
      → ((v' : Vfs S) → At (n +ℤ pos 1) u v' → Ends n u (rest v'))
      → At n u v
      → Ends n u (starting rest v)
  starting-At rest v k (s, e, f) = elim (Bool-cases v.vfs_usable) [
    | inl usable ↦
        rw (started rest v usable)
          (k (record v { vfs_ops = v.vfs_ops +ℤ pos 1 }) (s, ap (λ t. t +ℤ pos 1) e, f))
    | inr unusable ↦ rw (refused rest v unusable) (s, e, f)
  ]

  pub calling-At :
      (call : S → Outcome (ℤ × S)) (rest : ℤ → Op S) (v : Vfs S)
      → ((r : ℤ) (w : S) → Ends n u (rest r (record v { world = w })))
      → Ends n u (calling call rest v)
  unfolding calling
  calling-At call rest v k =
      Partly-bind (call v.world) (λ r. rest r.0 (record v { world = r.1 })) (λ r. Unit)
        (λ r. At n u r.1) (Partly-any (call v.world) (λ r. Unit) (λ r. tt)) (λ r h. k r.0 r.1)

-- The row that a search gives is within the table.
find_mountpoint-bound :
    (fuel n row : ℕ) (name : ℕ → ℕ) (table : ℕ → Entry)
    → Partly (find_mountpoint fuel n row name table) (λ r. (i : ℕ) → r ≡ some i → i < row + n)
unfolding find_mountpoint
find_mountpoint-bound fuel zero row name table = λ i e. absurd cc
find_mountpoint-bound fuel (suc n) row name table =
    Partly-bind (same_name fuel (table row).mountpoint name)
      (λ same. if same then done (some row) else find_mountpoint fuel n (row + 1) name table)
      (λ r. Unit) (λ r. (i : ℕ) → r ≡ some i → i < row + suc n)
      (Partly-any (same_name fuel (table row).mountpoint name) (λ r. Unit) (λ r. tt))
      (λ same h.
        elim same
          as (λ b.
            Partly (if b then done (some row) else find_mountpoint fuel n (row + 1) name table)
              (λ r. (i : ℕ) → r ≡ some i → i < row + suc n)) [
                | true ↦ λ i e. ground (arith, e)
                | false ↦
                    Partly-mono (find_mountpoint fuel n (row + 1) name table)
                      (λ r. (i : ℕ) → r ≡ some i → i < row + 1 + n)
                      (λ r. (i : ℕ) → r ≡ some i → i < row + suc n)
                      (find_mountpoint-bound fuel n (row + 1) name table)
                      (λ r k i e. omega (arith, k i e))
              ])

pub vfs_get_filesystem-Mounted :
    (fuel : ℕ) (name : ℕ → ℕ) (table : ℕ → Entry)
    → Partly (vfs_get_filesystem fuel name table) (λ fs. fs ≢ 0 → Mounted table fs)
unfolding vfs_get_filesystem
vfs_get_filesystem-Mounted fuel name table =
    Partly-bind (find_mountpoint fuel max_filesystems 0 name table)
      (λ row. done (filesystem_of table row)) (λ r. (i : ℕ) → r ≡ some i → i < 0 + max_filesystems)
      (λ fs. fs ≢ 0 → Mounted table fs) (find_mountpoint-bound fuel max_filesystems 0 name table)
      found
  where
    found :
        (r : Option ℕ)
        → ((i : ℕ) → r ≡ some i → i < 0 + max_filesystems)
        → filesystem_of table r ≢ 0
        → Mounted table (filesystem_of table r)
    found none h ne = absurd (ne refl)
    found (some i) h ne = (i, omega (arith, h i refl), refl)

is_used-here :
    (n i fs : ℕ) (table : ℕ → OpenFile)
    → ((table i).filesystem == fs) ≡ true
    → is_used (suc n) i fs table ≡ true
unfolding is_used
is_used-here n i fs table e = rw e refl

is_used-later :
    (n i fs : ℕ) (table : ℕ → OpenFile)
    → ((table i).filesystem == fs) ≡ false
    → is_used (suc n) i fs table ≡ is_used n (i + 1) fs table
unfolding is_used
is_used-later n i fs table e = rw e refl

pub is_used-false :
    (n i fs : ℕ) (table : ℕ → OpenFile)
    → is_used n i fs table ≡ false
    → (f : ℕ) → i ≤ f
    → f < i + n
    → (table f).filesystem ≢ fs
is_used-false zero i fs table e f l h = absurd (omega arith)
is_used-false (suc n) i fs table e f l h = elim (Bool-cases ((table i).filesystem == fs)) [
  | inl here ↦ absurd (true≢false (sym (is_used-here n i fs table here) ∙ e))
  | inr differs ↦ elim (ℕ_discrete i f) [
    | yes d ↦ subst (λ x. (table x).filesystem ≢ fs) d (ground arith)
    | no d ↦
        is_used-false n (i + 1) fs table (sym (is_used-later n i fs table differs) ∙ e) f
          (omega arith) (omega arith)
  ]
]

free_row-here :
    (n row : ℕ) (table : ℕ → Entry)
    → ((table row).filesystem == 0) ≡ true
    → free_row (suc n) row table ≡ some row
unfolding free_row
free_row-here n row table e = rw e refl

free_row-later :
    (n row : ℕ) (table : ℕ → Entry)
    → ((table row).filesystem == 0) ≡ false
    → free_row (suc n) row table ≡ free_row n (row + 1) table
unfolding free_row
free_row-later n row table e = rw e refl

pub free_row-free :
    (n row r : ℕ) (table : ℕ → Entry) → free_row n row table ≡ some r → (table r).filesystem ≡ 0
unfolding free_row
free_row-free zero row r table e = absurd cc
free_row-free (suc n) row r table e = elim (Bool-cases ((table row).filesystem == 0)) [
  | inl here ↦
      let same : row ≡ r = ground (arith, sym (free_row-here n row table here) ∙ e) in
      subst (λ x. (table x).filesystem ≡ 0) same (ground arith)
  | inr later ↦ free_row-free n (row + 1) r table (sym (free_row-later n row table later) ∙ e)
]

module _ {S : Type 0} where
  pub set_row-Sound :
      (row fs : ℕ) (name : ℕ → ℕ) (v : Vfs S)
      → (v.filesystems row).filesystem ≡ 0
      → Sound v
      → Sound (set_row row fs name v)
  set_row-Sound row fs name v free s f l open_there =
      let (there, bound, e) = s f l open_there in
      let other : row ≢ there =
        λ d. open_there (sym e ∙ ap (λ x. (v.filesystems x).filesystem) (sym d) ∙ free) in
      (there, bound, ap (λ x. x.filesystem) (update_ne v.filesystems row there _ other) ∙ e)

  pub set_filesystem-Sound :
      (row : ℕ) (v : Vfs S)
      → ((f : ℕ) → f < max_open_files → (v.files f).filesystem ≢ (v.filesystems row).filesystem)
      → Sound v
      → Sound (set_filesystem row 0 v)
  set_filesystem-Sound row v unused s f l open_there =
      let (there, bound, e) = s f l open_there in
      let other : row ≢ there =
        λ d. unused f l (sym e ∙ ap (λ x. (v.filesystems x).filesystem) (sym d)) in
      (there, bound, ap (λ x. x.filesystem) (update_ne v.filesystems row there _ other) ∙ e)

  pub set_file-Sound :
      (file : ℕ) (entry : OpenFile) (v : Vfs S)
      → (entry.filesystem ≢ 0 → Mounted v.filesystems entry.filesystem)
      → Sound v
      → Sound (set_file file entry v)
  set_file-Sound file entry v mounted s f l =
      let here = λ (x : OpenFile). x.filesystem ≢ 0 → Mounted v.filesystems x.filesystem in
      elim (ℕ_discrete file f) [
        | yes d ↦
            let new : update v.files file entry f ≡ entry =
              ap (update v.files file entry) (sym d) ∙ update_self v.files file entry in
            subst here (sym new) mounted
        | no d ↦ subst here (sym (update_ne v.files file f entry d)) (s f l)
      ]

  -- An entry whose filesystem stays.
  pub keep_file-Sound :
      (file : ℕ) (entry : OpenFile) (v : Vfs S)
      → entry.filesystem ≡ (v.files file).filesystem
      → Sound v
      → Sound (set_file file entry v)
  keep_file-Sound file entry v e s f l =
      let here = λ (x : OpenFile). x.filesystem ≢ 0 → Mounted v.filesystems x.filesystem in
      let mounted = λ (fs : ℕ). fs ≢ 0 → Mounted v.filesystems fs in
      elim (ℕ_discrete file f) [
        | yes d ↦
            let new : update v.files file entry f ≡ entry =
              ap (update v.files file entry) (sym d) ∙ update_self v.files file entry in
            let old : (v.files f).filesystem ≡ entry.filesystem =
              ap (λ x. (v.files x).filesystem) (sym d) ∙ sym e in
            subst here (sym new) (subst mounted old (s f l))
        | no d ↦ subst here (sym (update_ne v.files file f entry d)) (s f l)
      ]
