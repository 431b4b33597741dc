-- ===== src/Tfs/Exec.antt =====
-- The way in which the functions of fs/tfs.c run: each changes the volume, and may return before its
-- end, with what it has changed so far.
use aar.Base.{ℕ, ◌+◌, ◌%◌, ◌^◌, Bool, Outcome, done, panic, fault, spin, update, ltb, if◌then◌else◌}
use aar.Base.Int.{ℤ}
use aar.Tfs.{Tfs, tfs_block_size, vfs_error}

-- The code goes on with a value, or has returned one.
pub data Reply {ℓ} (A : Type ℓ) : Type ℓ where
  goes : A → Reply A
  returned : ℤ → Reply A

abbrev pub Exec {ℓ} : Type ℓ → Type ℓ
Exec A = Tfs → Outcome (Reply A × Tfs)

abbrev pub continue {ℓ κ} :
    {A : Type ℓ} {B : Type κ} → Outcome (Reply A × Tfs) → (A → Exec B) → Outcome (Reply B × Tfs)
continue (done (goes a, s)) f = f a s
continue (done (returned v, s)) f = done (returned v, s)
continue panic f = panic
continue fault f = fault
continue spin f = spin

infixl 5 ◌>>=◌ ◌>>◌
unfoldable pub ◌>>=◌ {ℓ κ} : {A : Type ℓ} {B : Type κ} → Exec A → (A → Exec B) → Exec B
m >>= f = λ s. continue (m s) f

abbrev pub ◌>>◌ {ℓ} : {B : Type ℓ} → Exec (Unit {0}) → Exec B → Exec B
m >> n = m >>= λ _. n

unfoldable pub pure {ℓ} : {A : Type ℓ} → A → Exec A
pure a = λ s. done (goes a, s)

-- `return v;`
unfoldable pub return {ℓ} : {A : Type ℓ} → ℤ → Exec A
return v = λ s. done (returned v, s)

unfoldable pub gets {ℓ} : {A : Type ℓ} → (Tfs → A) → Exec A
gets f = λ s. done (goes (f s), s)

unfoldable pub modify : (Tfs → Tfs) → Exec (Unit {0})
modify f = λ s. done (goes tt, f s)

unfoldable pub lift {ℓ} : {A : Type ℓ} → Outcome A → Exec A
lift (done a) = λ s. done (goes a, s)
lift panic = λ s. panic
lift fault = λ s. fault
lift spin = λ s. spin

-- `if (test) { return v; }`
abbrev pub return_if : Bool → ℤ → Exec (Unit {0})
return_if test v = if test then return v else pure tt

-- A function that runs to its end returns the value of its last line.
abbrev pub ends : Outcome (Reply ℤ × Tfs) → Outcome (ℤ × Tfs)
ends (done (goes v, s)) = done (v, s)
ends (done (returned v, s)) = done (v, s)
ends panic = panic
ends fault = fault
ends spin = spin

abbrev pub run : Exec ℤ → Tfs → Outcome (ℤ × Tfs)
run m s = ends (m s)

-- The number of a block of the volume on the device.
abbrev pub sector : Tfs → ℕ → ℕ
sector s b = (s.startblock + b) % 2 ^ 32

abbrev pub request : Tfs → Tfs
request s = record s { requests = s.requests + 1 }

-- The 512 bytes of a block, in front of the rest of a buffer.
abbrev pub fill : (ℕ → ℕ) → (ℕ → ℕ) → ℕ → ℕ
fill content rest j = if ltb j tfs_block_size then content j else rest j

-- disk->read_block into one of the buffers, which `set` fills; the functions return VFS_ERROR if it
-- fails.
unfoldable pub read_block : (Tfs → ℕ → ℕ) → ((ℕ → ℕ) → Tfs → Tfs) → ℕ → Exec (Unit {0})
read_block get set b = λ s.
    if s.fails s.requests (sector s b)
    then done (returned vfs_error, request s)
    else done (goes tt, set (fill (s.disk (sector s b)) (get s)) (request s))

unfoldable pub write_block : (Tfs → ℕ → ℕ) → ℕ → Exec (Unit {0})
write_block get b = λ s.
    if s.fails s.requests (sector s b)
    then done (returned vfs_error, request s)
    else done (
      goes tt,
      record (request s) { disk = update s.disk (sector s b) (fill (get s) (s.disk (sector s b))) },
    )

abbrev pub read_md : ℕ → Exec (Unit {0})
read_md = read_block (λ s. s.buffer_md) (λ b s. record s { buffer_md = b })

abbrev pub read_bat : ℕ → Exec (Unit {0})
read_bat = read_block (λ s. s.buffer_bat) (λ b s. record s { buffer_bat = b })

abbrev pub read_inode : ℕ → Exec (Unit {0})
read_inode = read_block (λ s. s.buffer_inode) (λ b s. record s { buffer_inode = b })

abbrev pub write_md : ℕ → Exec (Unit {0})
write_md = write_block (λ s. s.buffer_md)

abbrev pub write_bat : ℕ → Exec (Unit {0})
write_bat = write_block (λ s. s.buffer_bat)

abbrev pub write_inode : ℕ → Exec (Unit {0})
write_inode = write_block (λ s. s.buffer_inode)
