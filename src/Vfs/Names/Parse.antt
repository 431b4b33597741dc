-- ===== src/Vfs/Names/Parse.antt =====
-- vfs_parse_pathname of fs/vfs.c on path names with a volume.
use aar.Base.{
  ℕ, zero, suc, ◌+◌, ◌<◌, ◌≤◌, ◌≡◌, ◌≢◌, refl, sym, ap, subst, ◌∙◌, true, false, some, update,
  update_self, update_ne, ◌==◌, arith, ℕ_discrete,
}
use aar.Vfs.Names.{parse_volume, parse_filename, parse_rest, vfs_parse_pathname}

-- The path name is `[volume]file`, with `v` and `f` characters in the names.
pub record Spells (pathname volume file : ℕ → ℕ) (v f : ℕ) : Type 0 where
  pub opens : pathname 0 ≡ 91
  pub spells_volume : (i : ℕ) → i < v → pathname (i + 1) ≡ volume i
  pub nonzero : (i : ℕ) → i < v → volume i ≢ 0
  pub no_bracket : (i : ℕ) → i < v → volume i ≢ 93
  pub closes : pathname (v + 1) ≡ 93
  pub spells_file : (i : ℕ) → i < f → pathname (v + 2 + i) ≡ file i
  pub file_nonzero : (i : ℕ) → i < f → file i ≢ 0
  pub ends : pathname (v + 2 + f) ≡ 0

-- The buffer holds the first `n` characters of the name.
abbrev pub Prefix : (ℕ → ℕ) → (ℕ → ℕ) → ℕ → Type 0
Prefix buf name n = (j : ℕ) → j < n → buf j ≡ name j

Prefix-update :
    (buf name : ℕ → ℕ) (i c : ℕ)
    → Prefix buf name i
    → c ≡ name i
    → Prefix (update buf i c) name (i + 1)
Prefix-update buf name i c h e j l = elim (ℕ_discrete i j) [
  | yes d ↦ ap (update buf i c) (sym d) ∙ update_self buf i c ∙ e ∙ ap name d
  | no d ↦ update_ne buf i j c d ∙ h j (omega arith)
]

volume_closes :
    (n i p : ℕ) (pathname buf : ℕ → ℕ)
    → pathname p ≡ 93
    → parse_volume (suc n) i p pathname buf ≡ some (i, p + 1, buf)
unfolding parse_volume
volume_closes n i p pathname buf e = rw e refl

volume_goes_on :
    (n i p : ℕ) (pathname buf : ℕ → ℕ)
    → pathname p ≢ 0
    → pathname p ≢ 93
    → parse_volume (suc n) i p pathname buf
      ≡ parse_volume n (i + 1) (p + 1) pathname (update buf i (pathname p))
unfolding parse_volume
volume_goes_on n i p pathname buf h k =
    let e : (pathname p == 0) ≡ false = ground (arith, h) in
    let f : (pathname p == 93) ≡ false = ground (arith, k) in rw (e, f) refl

file_ends :
    (n i p : ℕ) (pathname buf : ℕ → ℕ)
    → pathname p ≡ 0
    → 0 < i
    → parse_filename (suc n) i p pathname buf ≡ some (update buf i (pathname p))
unfolding parse_filename
file_ends n i p pathname buf h k =
    let e : (pathname p == 0) ≡ true = ground (arith, h) in
    let f : (i == 0) ≡ false = ground arith in rw (e, f) refl

file_goes_on :
    (n i p : ℕ) (pathname buf : ℕ → ℕ)
    → pathname p ≢ 0
    → parse_filename (suc n) i p pathname buf
      ≡ parse_filename n (i + 1) (p + 1) pathname (update buf i (pathname p))
unfolding parse_filename
file_goes_on n i p pathname buf h =
    let e : (pathname p == 0) ≡ false = ground (arith, h) in rw e refl

module _ (pathname volume file : ℕ → ℕ) (v f : ℕ) (s : Spells pathname volume file v f) where
  parse_volume-Prefix :
      (n i : ℕ) (buf : ℕ → ℕ)
      → i ≤ v
      → v < i + n
      → Prefix buf volume i
      → (buf' : ℕ → ℕ) × (parse_volume n i (i + 1) pathname buf ≡ some (v, v + 2, buf'))
        × Prefix buf' volume v
  parse_volume-Prefix zero i buf h k p = absurd (omega arith)
  parse_volume-Prefix (suc n) i buf h k p = elim (ℕ_discrete i v) [
    | yes d ↦
        let closed : pathname (i + 1) ≡ 93 = ap (λ t. pathname (t + 1)) d ∙ s.closes in
        let behind : i + 1 + 1 ≡ v + 2 = omega arith in
        (
          buf,
          volume_closes n i (i + 1) pathname buf closed
              ∙ ap (λ t. some (t, i + 1 + 1, buf)) d
              ∙ ap (λ t. some (v, t, buf)) behind,
          subst (Prefix buf volume) d p,
        )
    | no d ↦
        let at = s.spells_volume i (omega arith) in
        let (buf', e, q) =
          parse_volume-Prefix n (i + 1) (update buf i (pathname (i + 1))) (omega arith)
            (omega arith) (Prefix-update buf volume i (pathname (i + 1)) p at) in
        (
          buf',
          volume_goes_on n i (i + 1) pathname buf (λ z. s.nonzero i (omega arith) (sym at ∙ z))
                (λ z. s.no_bracket i (omega arith) (sym at ∙ z))
              ∙ e,
          q,
        )
  ]

  parse_filename-Prefix :
      (n i : ℕ) (buf : ℕ → ℕ)
      → 0 < f
      → i ≤ f
      → f < i + n
      → Prefix buf file i
      → (buf' : ℕ → ℕ) × (parse_filename n i (v + 2 + i) pathname buf ≡ some buf')
        × Prefix buf' file f
        × (buf' f ≡ 0)
  parse_filename-Prefix zero i buf o h k p = absurd (omega arith)
  parse_filename-Prefix (suc n) i buf o h k p = elim (ℕ_discrete i f) [
    | yes d ↦
        let c = pathname (v + 2 + i) in
        let zero_here : c ≡ 0 = ap (λ t. pathname (v + 2 + t)) d ∙ s.ends in
        (
          update buf i c,
          file_ends n i (v + 2 + i) pathname buf zero_here (omega arith),
          (λ j l. update_ne buf i j c (omega arith) ∙ p j (omega arith)),
          ap (update buf i c) (sym d) ∙ update_self buf i c ∙ zero_here,
        )
    | no d ↦
        let at = s.spells_file i (omega arith) in
        let next : v + 2 + i + 1 ≡ v + 2 + (i + 1) = omega arith in
        let (buf', e, q, z) =
          parse_filename-Prefix n (i + 1) (update buf i (pathname (v + 2 + i))) o (omega arith)
            (omega arith) (Prefix-update buf file i (pathname (v + 2 + i)) p at) in
        (
          buf',
          file_goes_on n i (v + 2 + i) pathname buf
                (λ z. s.file_nonzero i (omega arith) (sym at ∙ z))
              ∙ ap (λ t. parse_filename n (i + 1) t pathname (update buf i (pathname (v + 2 + i))))
                  next
              ∙ e,
          q,
          z,
        )
  ]

-- vfs_parse_pathname splits the path name `[volume]file` into the two names, each with the zero behind
-- it, if the name of the volume has at most 14 characters, none of them a ']', and that of the file has
-- 1 to 15.
pub vfs_parse_pathname-Prefix :
    (pathname volume file volumebuf filenamebuf : ℕ → ℕ) (v f : ℕ)
    → Spells pathname volume file v f
    → v ≤ 14
    → 0 < f
    → f ≤ 15
    → (vol : ℕ → ℕ) × (name : ℕ → ℕ) × (vfs_parse_pathname pathname volumebuf filenamebuf
        ≡ some (vol, name))
      × Prefix vol volume v
      × (vol v ≡ 0)
      × Prefix name file f
      × (name f ≡ 0)
unfolding vfs_parse_pathname
vfs_parse_pathname-Prefix pathname volume file volumebuf filenamebuf v f s h o k =
    let (vol, e, p) =
      parse_volume-Prefix pathname volume file v f s 15 0 volumebuf (omega arith) (omega arith)
        (λ j l. absurd (omega arith)) in
    let (name, g, q, z) =
      parse_filename-Prefix pathname volume file v f s 16 0 filenamebuf o (omega arith)
        (omega arith) (λ j l. absurd (omega arith)) in
    let bracket : (pathname 0 == 91) ≡ true = ground (arith, s.opens) in
    let at : v + 2 + 0 ≡ v + 2 = omega arith in
    let g' = ap (λ t. parse_filename 16 0 t pathname filenamebuf) (sym at) ∙ g in
    (
      update vol v 0,
      name,
      rw (bracket, e, parse_rest, g') refl,
      (λ j l. update_ne vol v j 0 (omega arith) ∙ p j l),
      update_self vol v 0,
      q,
      z,
    )
