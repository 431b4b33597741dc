-- ===== src/Kernel/Tests.antt =====
-- A kernel in which the theorems on kudos/kernel/ are tried: thread 5 runs on processor 0, threads 1
-- and 2 are ready, and threads 3 and 4 sleep in one queue, 4 on the semaphore 0 and 3 on something
-- else.
use aar.Kernel.Semaphore.Create.{CreatesSemaphore, semaphore_create-CreatesSemaphore}
use aar.Kernel.Semaphore.{semaphore_create}
use aar.Kernel.Threads.Finish.{Finished, thread_finish-Finished}
use aar.Kernel.Threads.{thread_finish}
use aar.Kernel.SleepQueue.WakeAll.Loop.{sleepq_wake_all-AllWoken}
use aar.Kernel.SleepQueue.WakeAll.{AllWoken}
use aar.Kernel.SleepQueue.{sleepq_wake_all}
use aar.Base.{
  ℕ, zero, suc, ◌≡◌, refl, ◌≢◌, subst, List, [], ◌∷◌, ◌++◌, arith, NotIn, update, ◌==◌,
  if◌then◌else◌, ℕ_discrete, false, Returns, get_or,
}
use aar.Base.Int.{ℤ, pos, negsuc}
use aar.Kernel.{Kernel, Thread, ThreadState, free, running, ready, sleeping, no_thread}
use aar.Kernel.Scheduler.{add_to_ready_list, schedule}
use aar.Kernel.Scheduler.ReadyList.{Queued, Added, add_to_ready_list-Added}
use aar.Kernel.Scheduler.Retire.{Ready}
use aar.Kernel.Scheduler.RoundRobin.{Scheduled, schedule-Scheduled}
use aar.Kernel.Scheduler.Fairness.{schedule_times, schedule_times-current}
use aar.Kernel.SleepQueue.{sleepq_add, sleepq_wake}
use aar.Kernel.SleepQueue.Buckets.{Bucket, Sleepers, IsTid}
use aar.Kernel.SleepQueue.Frame.{Sound}
use aar.Kernel.SleepQueue.Add.{Joined, sleepq_add-Sound}
use aar.Kernel.SleepQueue.Wake.{Woken, sleepq_wake-Woken}
use aar.Kernel.SleepQueue.Switch.{Switched, schedule-Sound}
use aar.Kernel.Threads.{thread_create}
use aar.Kernel.Threads.Creation.{Creates, thread_create-Creates, thread_create-Sound}
use aar.Kernel.Semaphore.{Semaphore, System, semaphore_P, semaphore_V}
use aar.Kernel.Semaphore.Wait.{Balanced, Passed, semaphore_P-Passed}
use aar.Kernel.Semaphore.Signal.{IsLongest, Signalled, semaphore_V-Signalled}

abbrev entry : ThreadState → ℕ → ℤ → Thread
entry s r n = record {
  context = 0;
  user_context = 0;
  state = s;
  sleeps_on = r;
  pagetable = 0;
  process_id = negsuc 0;
  next = n;
  attribs = 0;
}

abbrev pub some_threads : ℕ → Thread
some_threads t =
    get_or
      (entry ready 0 no_thread
        ∷ entry ready 0 (pos 2)
        ∷ entry ready 0 no_thread
        ∷ entry sleeping 167 (pos 4)
        ∷ entry sleeping 40 no_thread
        ∷ entry running 0 no_thread
        ∷ [])
      t (entry free 0 no_thread)

abbrev pub some_kernel : Kernel
some_kernel = record {
  threads = some_threads;
  contexts =
      λ _. record { registers = λ _. 0; hi = 0; lo = 0; pc = 0; status = 0; prev_context = 0 };
  stack_areas = 4096;
  current = λ _. 5;
  head = pos 1;
  tail = pos 2;
  sleepq = λ h. if 40 == h then pos 3 else no_thread;
  next_tid = 4;
  interrupts = false;
}

abbrev pub sleepers : ℕ → List ℕ
sleepers h = if 40 == h then 3 ∷ 4 ∷ [] else []

some_kernel-Queued : Queued some_kernel (1 ∷ 2 ∷ [])
some_kernel-Queued = record {
  chain = (refl, (refl, refl));
  ends = refl;
  distinct = (((λ e. omega arith), tt), (tt, tt));
  bounds = ((omega arith, omega arith), ((omega arith, omega arith), tt));
}

some_kernel-Ready : Ready some_kernel (1 ∷ 2 ∷ [])
some_kernel-Ready = record {
  queued = some_kernel-Queued;
  states = ((refl, refl), ((refl, refl), tt));
}

forty-Bucket : Bucket some_kernel 40 (3 ∷ 4 ∷ [])
forty-Bucket = record {
  chain = (refl, (refl, refl));
  distinct = (((λ e. omega arith), tt), (tt, tt));
  bounds = ((omega arith, omega arith), ((omega arith, omega arith), tt));
  waiting = (((λ e. omega arith), refl), (((λ e. omega arith), refl), tt));
}

empty-Bucket : (h : ℕ) → 40 ≢ h → Bucket some_kernel h []
empty-Bucket h n = record { chain = ground arith; distinct = tt; bounds = tt; waiting = tt }

some_kernel-Sleepers : Sleepers some_kernel sleepers
some_kernel-Sleepers h = elim (ℕ_discrete 40 h) [
  | yes e ↦ subst (λ j. Bucket some_kernel j (sleepers j)) e forty-Bucket
  | no n ↦ let e : sleepers h ≡ [] = ground arith in rw e (empty-Bucket h n)
]

pub some_kernel-Sound : Sound some_kernel (1 ∷ 2 ∷ []) sleepers
some_kernel-Sound = record { ready_list = some_kernel-Ready; sleepers = some_kernel-Sleepers }

pub five : IsTid 5
five = (omega arith, omega arith)

pub five-NotIn : NotIn 5 (1 ∷ 2 ∷ [])
five-NotIn = ((λ e. omega arith), ((λ e. omega arith), tt))

free-awake : (x : ℕ) → (some_threads x).state ≡ free → (some_threads x).sleeps_on ≡ 0
free-awake zero h = refl
free-awake (suc zero) h = refl
free-awake (suc (suc zero)) h = refl
free-awake (suc (suc (suc zero))) h = cc
free-awake (suc (suc (suc (suc zero)))) h = cc
free-awake (suc (suc (suc (suc (suc zero))))) h = refl
free-awake (suc (suc (suc (suc (suc (suc n)))))) h = refl

-- Semaphore 0 has one waiter, and the others have the value 1.
abbrev some_semaphores : ℕ → Semaphore
some_semaphores zero = record { value = negsuc 0; creator = pos 4 }
some_semaphores _ = record { value = pos 1; creator = negsuc 0 }

abbrev some_system : System
some_system = record {
  kernel = some_kernel;
  semaphores = some_semaphores;
  table_address = 40;
  next = 1;
}

some_system-Balanced : Balanced some_system sleepers
some_system-Balanced zero h = refl
some_system-Balanced (suc j) h = ground arith

add_to_ready_list-Added_example :
    Returns (add_to_ready_list (pos 5) some_kernel) (Added some_kernel (1 ∷ 2 ∷ []) 5)
add_to_ready_list-Added_example =
    add_to_ready_list-Added some_kernel (1 ∷ 2 ∷ []) 5 five.0 five.1 five-NotIn some_kernel-Queued

schedule-Scheduled_example :
    Returns (schedule 0 some_kernel) (Scheduled 0 some_kernel (1 ∷ 2 ∷ []) 1 (2 ∷ 5 ∷ []))
schedule-Scheduled_example =
    schedule-Scheduled 0 some_kernel (1 ∷ 2 ∷ []) (omega arith) five.1 five-NotIn some_kernel-Ready

schedule-Sound_example :
    Returns (schedule 0 some_kernel) (Switched 0 some_kernel (1 ∷ 2 ∷ []) sleepers)
schedule-Sound_example =
    schedule-Sound 0 some_kernel (1 ∷ 2 ∷ []) sleepers (omega arith) five.1 five-NotIn
      some_kernel-Sound

schedule_times-current_example : Returns (schedule_times 2 0 some_kernel) (λ k'. k'.current 0 ≡ 2)
schedule_times-current_example =
    schedule_times-current 0 (1 ∷ []) [] 2 some_kernel (omega arith) five.1 five-NotIn
      some_kernel-Ready

sleepq_add-Sound_example :
    Returns (sleepq_add 0 40 some_kernel) (λ k'.
      Sound k' (1 ∷ 2 ∷ []) (update sleepers 40 (3 ∷ 4 ∷ 5 ∷ [])) × Joined some_kernel 5 40 k')
sleepq_add-Sound_example =
    sleepq_add-Sound 0 some_kernel 40 (1 ∷ 2 ∷ []) sleepers refl (omega arith) five refl
      (λ e. omega arith) five-NotIn some_kernel-Sound

sleepq_wake-Woken_example :
    Returns (sleepq_wake 40 some_kernel) (Woken some_kernel (1 ∷ 2 ∷ []) sleepers 40 (3 ∷ []) 4)
sleepq_wake-Woken_example =
    sleepq_wake-Woken some_kernel 40 4 (3 ∷ []) [] (1 ∷ 2 ∷ []) sleepers some_kernel-Sound refl
      ((λ e. omega arith), tt) refl

thread_create-Creates_example : Creates 8 16 24 some_kernel (thread_create 8 16 24 some_kernel)
thread_create-Creates_example = thread_create-Creates 8 16 24 some_kernel (omega arith)

thread_create-Sound_example : Sound (thread_create 8 16 24 some_kernel).1 (1 ∷ 2 ∷ []) sleepers
thread_create-Sound_example =
    thread_create-Sound 8 16 24 some_kernel (1 ∷ 2 ∷ []) sleepers free-awake some_kernel-Sound

semaphore_P-Passed_example :
    Returns (semaphore_P 0 0 some_system) (Passed 0 0 some_system (1 ∷ 2 ∷ []) sleepers)
semaphore_P-Passed_example =
    semaphore_P-Passed 0 0 some_system (1 ∷ 2 ∷ []) sleepers (omega arith) (omega arith) five refl
      five-NotIn some_kernel-Sound some_system-Balanced

semaphore_V-Signalled_example :
    (pre : List ℕ) × (w : ℕ) × (post : List ℕ) × IsLongest some_system sleepers 0 pre w post
    × Returns
        (semaphore_V 0 some_system)
        (Signalled 0 some_system (1 ∷ 2 ∷ []) sleepers w (pre ++ post))
semaphore_V-Signalled_example =
    semaphore_V-Signalled 0 0 some_system (1 ∷ 2 ∷ []) sleepers (omega arith) refl some_kernel-Sound
      some_system-Balanced

sleepq_wake_all-AllWoken_example :
    Returns
      (sleepq_wake_all 40 some_kernel)
      (AllWoken some_kernel 40 (1 ∷ 2 ∷ []) sleepers [] (3 ∷ 4 ∷ []))
sleepq_wake_all-AllWoken_example =
    sleepq_wake_all-AllWoken some_kernel 40 (1 ∷ 2 ∷ []) sleepers some_kernel-Sound

thread_finish-Finished_example :
    Returns (thread_finish 0 some_kernel) (Finished 0 some_kernel (1 ∷ 2 ∷ []) sleepers)
thread_finish-Finished_example =
    thread_finish-Finished 0 some_kernel (1 ∷ 2 ∷ []) sleepers (omega arith) five refl five-NotIn
      some_kernel-Sound

semaphore_create-CreatesSemaphore_example :
    Returns (semaphore_create 0 (pos 3) some_system) (CreatesSemaphore 0 3 some_system)
semaphore_create-CreatesSemaphore_example =
    semaphore_create-CreatesSemaphore 0 3 some_system (omega arith)
