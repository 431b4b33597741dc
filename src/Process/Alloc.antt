-- ===== src/Process/Alloc.antt =====
-- alloc_process_id of kudos/proc/process.c, and process_init before it.
use aar.Base.{
  ℕ, zero, suc, ◌+◌, ◌<◌, ◌≤◌, ◌≡◌, refl, ◌≢◌, subst, inl, inr, true, false, arith, Outcome, done,
  fault, ℕ_discrete, Bool-cases,
}
use aar.Base.Int.{pos}
use aar.Process.{
  Machine, ProcessState, process_free, process_running, process_zombie, max_processes,
  is_process_free, set_process, process_reset, reset_before, process_init, find_process,
  alloc_process_id,
}

-- The two ways in which alloc_process_id ends.
pub data Allocates (m : Machine) : Outcome (ℕ × Machine) → Type 0 where
  allocated :
      {r : Outcome (ℕ × Machine)} (pid : ℕ)
      → pid < max_processes
      → (m.processes pid).state ≡ process_free
      → ((j : ℕ) → j < pid → (m.processes j).state ≢ process_free)
      → r ≡ done (pid, set_process pid (record (m.processes pid) { state = process_running }) m)
      → Allocates m r
  overrun :
      {r : Outcome (ℕ × Machine)}
      → ((j : ℕ) → j < max_processes → (m.processes j).state ≢ process_free)
      → r ≡ fault
      → Allocates m r

free_of : (s : ProcessState) → is_process_free s ≡ true → s ≡ process_free
free_of process_free h = refl
free_of process_running h = cc
free_of process_zombie h = cc

taken_of : (s : ProcessState) → is_process_free s ≡ false → s ≢ process_free
taken_of s h e = ground arith

found :
    (n i : ℕ) (m : Machine)
    → i < max_processes
    → is_process_free (m.processes i).state ≡ true
    → find_process (suc n) i m
      ≡ done (i, set_process i (record (m.processes i) { state = process_running }) m)
unfolding find_process
found n i m h f = ground arith

passed :
    (n i : ℕ) (m : Machine)
    → i < max_processes
    → is_process_free (m.processes i).state ≡ false
    → find_process (suc n) i m ≡ find_process n (i + 1) m
unfolding find_process
passed n i m h f = ground arith

beyond : (n i : ℕ) (m : Machine) → max_processes ≤ i → find_process (suc n) i m ≡ fault
unfolding find_process
beyond n i m h = ground arith

-- The search from the entry `i` on, with a round for each entry and one more.
find_process-Allocates :
    (n i : ℕ) (m : Machine)
    → i + n ≡ suc max_processes
    → i ≤ max_processes
    → ((j : ℕ) → j < i → (m.processes j).state ≢ process_free)
    → Allocates m (find_process n i m)
find_process-Allocates zero i m e h t = absurd (omega arith)
find_process-Allocates (suc n) i m e h t = elim (ℕ_discrete i max_processes) [
  | yes z ↦ overrun (λ j l. t j (omega arith)) (beyond n i m (omega arith))
  | no z ↦ elim (Bool-cases (is_process_free (m.processes i).state)) [
    | inl f ↦
        allocated i (omega arith) (free_of (m.processes i).state f) t (found n i m (omega arith) f)
    | inr f ↦ rw (passed n i m (omega arith) f) (
        find_process-Allocates n (i + 1) m (omega arith) (omega arith) λ j l.
          elim (ℕ_discrete i j) [
            | yes d ↦
                subst (λ x. (m.processes x).state ≢ process_free) d
                  (taken_of (m.processes i).state f)
            | no d ↦ t j (omega arith)
          ])
  ]
]

-- alloc_process_id takes the first free entry, which becomes a running process, and keeps all else;
-- if no entry is free, it reads past the end of the table.
pub alloc_process_id-Allocates : (m : Machine) → Allocates m (alloc_process_id m)
unfolding alloc_process_id
alloc_process_id-Allocates m =
    find_process-Allocates (suc max_processes) 0 m (omega arith) (omega arith)
      λ j l. absurd (omega arith)

reset_before-reset :
    (n j : ℕ) (m : Machine)
    → j < n
    → (((reset_before n m).processes j).state ≡ process_free)
      × (((reset_before n m).processes j).retval ≡ pos 0)
unfolding reset_before process_reset
reset_before-reset zero j m h = absurd (omega arith)
reset_before-reset (suc n) j m h = elim (ℕ_discrete n j) [
  | yes e ↦ (ground arith, ground arith)
  | no d ↦
      let a = reset_before-reset n j m (omega arith) in (ground (arith, a.0), ground (arith, a.1))
]

-- After process_init the first process gets the entry 0.
pub alloc_process_id-process_init :
    (m : Machine)
    → alloc_process_id (process_init m)
      ≡ done (
        0,
        set_process 0
            (record ((process_init m).processes 0) { state = process_running })
            (process_init m),
      )
unfolding alloc_process_id process_init
alloc_process_id-process_init m =
    let (f, _) = reset_before-reset max_processes 0 m (omega arith) in
    found max_processes 0 (process_init m) (omega arith) (rw f refl)
