-- ===== src/Process/Tests.antt =====
-- A process table in which the theorems on kudos/proc/process.c are tried: every thread belongs to
-- the process 1, whose control block thread 4 waits for, and process 3 is its child.
use aar.Base.{
  ℕ, ◌<◌, ◌≡◌, refl, ◌≢◌, [], ◌∷◌, arith, ◌==◌, if◌then◌else◌, true, some, done, Returns, ◌>>=◌,
}
use aar.Base.Int.{pos}
use aar.Bitmap.{get_bit}
use aar.Pages.Free.{Reserved}
use aar.Kernel.SleepQueue.Frame.{Sound, Sound-agree}
use aar.Kernel.Tests.{some_threads, some_kernel, sleepers, some_kernel-Sound, five, five-NotIn}
use aar.Process.{
  Machine, Process, process_free, process_running, alloc_process_id, join_round, process_join,
  process_exit, illegal_join,
}
use aar.Process.Alloc.{Allocates, alloc_process_id-Allocates}
use aar.Process.Exit.{Exited, process_exit-Exited}
use aar.Process.Join.{Joins, process_join-Joins, process_join-illegal, join_round-process_exit}

abbrev some_processes : ℕ → Process
some_processes n = record {
  state = process_running;
  retval = pos 0;
  parent = if n == 3 then pos 1 else pos 0;
  entry_point = 0;
  stack_top = 0;
}

abbrev pub some_machine : Machine
some_machine = record {
  kernel = record some_kernel {
    threads = λ x. record (some_threads x) { process_id = pos 1; pagetable = 0x80005000 };
  };
  processes = some_processes;
  table_address = 20;
  pages = record {
    num_pages = 64;
    num_free_pages = pos 58;
    static_end = 3;
    free_pages = λ i. if i == 0 then 0x3f else 0;
  };
}

page_five : Reserved 5 some_machine.pages
unfolding get_bit
page_five = record { not_static = omega arith; there = omega arith; reserved = refl }

some_machine-Sound : Sound some_machine.kernel (1 ∷ 2 ∷ []) sleepers
some_machine-Sound =
    Sound-agree some_kernel some_machine.kernel (1 ∷ 2 ∷ []) sleepers (λ x. (refl, refl, refl)) refl
      refl refl some_kernel-Sound

alloc_process_id-Allocates_example : Allocates some_machine (alloc_process_id some_machine)
alloc_process_id-Allocates_example = alloc_process_id-Allocates some_machine

process_exit-Exited_example :
    Returns
      (process_exit 0 (pos 9) some_machine)
      (Exited 0 1 (pos 9) some_machine (1 ∷ 2 ∷ []) sleepers)
process_exit-Exited_example =
    process_exit-Exited 0 1 (pos 9) some_machine (1 ∷ 2 ∷ []) sleepers (omega arith) five refl refl
      (omega arith) five-NotIn some_machine-Sound page_five

process_join-Joins_example :
    Returns (process_join 0 (pos 3) some_machine) (Joins 0 3 some_machine (1 ∷ 2 ∷ []) sleepers)
process_join-Joins_example =
    process_join-Joins 0 3 some_machine (1 ∷ 2 ∷ []) sleepers (omega arith) (omega arith) five refl
      (omega arith) refl five-NotIn some_machine-Sound

not_the_parent : (n : ℕ) → pos 2 ≡ pos n → n < 128 → (some_processes n).parent ≢ pos 1
not_the_parent n e h f = ground arith

process_join-illegal_example :
    process_join 0 (pos 2) some_machine ≡ done (some illegal_join, some_machine)
process_join-illegal_example =
    process_join-illegal 0 (pos 2) some_machine (omega arith) (omega arith) not_the_parent

join_round-process_exit_example :
    Returns
      (process_exit 0 (pos 9) some_machine >>= join_round 0 true 1)
      (λ r. (r.0 ≡ some (pos 9)) × ((r.1.processes 1).state ≡ process_free))
join_round-process_exit_example =
    join_round-process_exit 0 0 1 (pos 9) true some_machine (1 ∷ 2 ∷ []) sleepers (omega arith) five
      refl refl (omega arith) five-NotIn some_machine-Sound page_five
