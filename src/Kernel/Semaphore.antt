-- ===== src/Kernel/Semaphore.antt =====
-- kudos/kernel/semaphore.c: counting semaphores, whose waiters sleep on the address of the semaphore.
pub mod Count
pub mod Wait
pub mod Signal
pub mod Create
use aar.Base.{
  ℕ, zero, suc, ◌+◌, ◌*◌, ◌%◌, Bool, true, false, not, Option, none, some, Outcome, done, panic,
  ◌>>=◌, ◌>>◌, assert, update, ltb, ◌==◌, if◌then◌else◌,
}
use aar.Base.Int.{ℤ, pos, negsuc, is_neg, is_pos, eq_ℤ}
use aar.Kernel.{Kernel}
use aar.Kernel.SleepQueue.{sleepq_add, sleepq_wake}
use aar.Kernel.Threads.{thread_switch, thread_get_current_thread}

abbrev pub max_semaphores : ℕ
max_semaphores = 128

-- semaphore_t, without its spinlock.
pub record Semaphore : Type 0 where
  pub value : ℤ
  pub creator : ℤ

-- The kernel with the semaphore table; `table_address` is where the table lies, and `next` is the
-- static variable of semaphore_create.
pub record System : Type 0 where
  pub kernel : Kernel
  pub semaphores : ℕ → Semaphore
  pub table_address : ℕ
  pub next : ℕ

-- The address of a semaphore, of 12 bytes each.
abbrev pub address : System → ℕ → ℕ
address s i = s.table_address + 12 * i

abbrev pub set_value : ℕ → ℤ → System → System
set_value i v s = record s {
  semaphores = update s.semaphores i (record (s.semaphores i) { value = v });
}

abbrev pub set_creator : ℕ → ℤ → System → System
set_creator i c s = record s {
  semaphores = update s.semaphores i (record (s.semaphores i) { creator = c });
}

pub semaphore_init : System → System
semaphore_init s = record s {
  semaphores = λ i.
      if ltb i max_semaphores
      then record (s.semaphores i) { creator = negsuc 0 }
      else s.semaphores i;
}

-- The search of semaphore_create, with `n` rounds left, on behalf of the thread `c`.
pub find_unused : ℕ → ℕ → System → Option ℕ × System
find_unused zero c s = (none, s)
find_unused (suc n) c s =
    let s' = record s { next = (s.next + 1) % max_semaphores } in
    let more = find_unused n c s' in
    if eq_ℤ (s.semaphores s.next).creator (negsuc 0)
    then (some s.next, set_creator s.next (pos c) s')
    else more

-- `none` is NULL.
pub semaphore_create : ℕ → ℤ → System → Outcome (Option ℕ × System)
unfolding thread_get_current_thread
semaphore_create cpu value s = do
  assert (not (is_neg value))
  let (found, s') = find_unused max_semaphores (thread_get_current_thread cpu s.kernel) s
  done (elim found [ none ↦ (none, s') | some i ↦ (some i, set_value i value s') ])

pub semaphore_destroy : ℕ → System → System
semaphore_destroy i s = set_creator i (negsuc 0) s

abbrev pub pred_ℤ : ℤ → ℤ
pred_ℤ (pos zero) = negsuc 0
pred_ℤ (pos (suc n)) = pos n
pred_ℤ (negsuc n) = negsuc (suc n)

abbrev pub suc_ℤ : ℤ → ℤ
suc_ℤ (pos n) = pos (suc n)
suc_ℤ (negsuc zero) = pos 0
suc_ℤ (negsuc (suc n)) = negsuc n

abbrev disabled : Kernel → Kernel
disabled k = record k { interrupts = false }

-- The branch of semaphore_P that waits.
unfoldable pub wait_in_line : ℕ → ℕ → System → Outcome System
wait_in_line cpu i s = do
  k₁ ← sleepq_add cpu (address s i) (disabled s.kernel)
  k₂ ← thread_switch cpu k₁
  done (record s { kernel = record k₂ { interrupts = s.kernel.interrupts } })

-- Up to the point where the caller has the semaphore, or has given up the processor to wait for it.
pub semaphore_P : ℕ → ℕ → System → Outcome System
semaphore_P cpu i s =
    let v = pred_ℤ (s.semaphores i).value in
    if is_neg v then wait_in_line cpu i (set_value i v s) else done (set_value i v s)

-- The branch of semaphore_V that wakes a waiter.
unfoldable pub wake_next : ℕ → System → Outcome System
wake_next i s = do
  k ← sleepq_wake (address s i) (disabled s.kernel)
  done (record s { kernel = record k { interrupts = s.kernel.interrupts } })

pub semaphore_V : ℕ → System → Outcome System
semaphore_V i s =
    let v = suc_ℤ (s.semaphores i).value in
    if not (is_pos v) then wake_next i (set_value i v s) else done (set_value i v s)
