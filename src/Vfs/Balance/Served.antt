-- ===== src/Vfs/Balance/Served.antt =====
-- A system of fs/vfs.c that is started and then serves calls.
use aar.Base.{
  ℕ, zero, suc, ◌<◌, ◌≡◌, refl, sym, ap, ◌∙◌, Bool, true, false, List, [], ◌∷◌, Outcome, done,
  ◌>>=◌, arith, update, update_self, update_ne, ℕ_discrete, Partly, Partly-bind, Partly-mono,
}
use aar.Base.Int.{pos}
use aar.Vfs.{Filesystem, OpenFile, Vfs, max_open_files}
use aar.Vfs.Mounts.{clear_files, vfs_init}
use aar.Vfs.Calls.{Call, perform}
use aar.Vfs.Sound.{Sound}
use aar.Vfs.Balance.Every.{perform-Sound}

clear_files-closed :
    (n f : ℕ) (table : ℕ → OpenFile) → f < n → (clear_files n table f).filesystem ≡ 0
unfolding clear_files
clear_files-closed zero f table h = absurd (omega arith)
clear_files-closed (suc n) f table h =
    let rest = clear_files n table in
    let entry = record (rest n) { filesystem = 0 } in
    elim (ℕ_discrete n f) [
      | yes d ↦ ap (λ x. x.filesystem) (ap (update rest n entry) (sym d) ∙ update_self rest n entry)
      | no d ↦
          ap (λ x. x.filesystem) (update_ne rest n f entry d)
          ∙ clear_files-closed n f table (omega arith)
    ]

module _ {S : Type 0} (drivers : ℕ → Filesystem S) (put_name : (ℕ → ℕ) → S → S) (fuel : ℕ)
    (stack : ℕ → ℕ) where
  -- The calls one after the other.
  pub serve : List Call → Vfs S → Outcome (Vfs S)
  serve [] v = done v
  serve (q ∷ qs) v = do r ← perform drivers put_name fuel stack q v; serve qs r.1

  abbrev pub Idle : Vfs S → Type 0
  Idle v = Sound v × (v.vfs_ops ≡ pos 0) × (v.vfs_usable ≡ true)

  serve-Idle : (qs : List Call) (v : Vfs S) → Idle v → Partly (serve qs v) Idle
  unfolding serve
  serve-Idle [] v h = h
  serve-Idle (q ∷ qs) v (s, e, f) =
      Partly-bind (perform drivers put_name fuel stack q v) (λ r. serve qs r.1) (λ r. Idle r.1) Idle
        (Partly-mono (perform drivers put_name fuel stack q v)
          (λ r. Sound r.1 × (r.1.vfs_ops ≡ v.vfs_ops) × (r.1.vfs_usable ≡ v.vfs_usable))
          (λ r. Idle r.1) (perform-Sound drivers put_name fuel stack q v s)
          (λ r (s', e', f'). (s', e' ∙ e, f' ∙ f)))
        (λ r. serve-Idle qs r.1)

-- After vfs_init and any number of calls of fs/vfs.h other than vfs_init, vfs_deinit and
-- vfs_mount_all (with vfs_mount_fs from what filesystems_try_all finds on), with whatever arguments
-- and on whatever filesystems, no operation is left on its way, the system is usable, and each open
-- file is on a filesystem that stands in the table of mounts, if none of them ends in a panic, a
-- fault or a loop without end.
pub vfs_init-serve :
    {S : Type 0} (drivers : ℕ → Filesystem S) (put_name : (ℕ → ℕ) → S → S) (fuel : ℕ)
    (stack : ℕ → ℕ) (created : Bool) (qs : List Call) (v : Vfs S)
    → Partly
        (vfs_init created v >>= serve drivers put_name fuel stack qs)
        (Idle drivers put_name fuel stack)
unfolding vfs_init
vfs_init-serve drivers put_name fuel stack false qs v = tt
vfs_init-serve drivers put_name fuel stack true qs v = serve-Idle drivers put_name fuel stack qs _ (
  λ f l open_there. absurd (open_there (clear_files-closed max_open_files f v.files l)),
  refl,
  refl,
)
