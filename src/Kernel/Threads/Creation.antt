-- ===== src/Kernel/Threads/Creation.antt =====
-- thread_create of kudos/kernel/thread.c: the search for a free entry and what becomes of it.
use aar.Base.{update_ne}
use aar.Base.{Option-cases, ℕ_discrete}
use aar.Base.{
  ℕ, zero, suc, ◌+◌, ◌-◌, ◌%◌, ◌<◌, ◌≤◌, ◌≡◌, refl, ◌≢◌, sym, subst, inl, inr, none, some, arith,
  List, NotIn-of_All, All-of_NotIn, All-mono, All-zip,
}
use aar.Base.Int.{ℤ, pos, negsuc}
use aar.Kernel.{Kernel, free, nonready, max_threads}
use aar.Kernel.Scheduler.Retire.{IsRunnable}
use aar.Kernel.SleepQueue.Buckets.{IsTid, SameLinks, Bucket-agree}
use aar.Kernel.SleepQueue.Frame.{Sound, Same, Ready-agree, NotIn-Bucket_of_awake}
use aar.Kernel.Threads.{find_free, create_at, thread_create}

-- The entry of round `i`.
abbrev slot : Kernel → ℕ → ℕ
slot k i = (i + k.next_tid) % max_threads

-- What the search finds is a free entry other than the idle thread's.
find_free-some :
    (n i : ℕ) (k : Kernel) (t : ℕ)
    → find_free n i k ≡ some t
    → IsTid t × ((k.threads t).state ≡ free)
unfolding find_free
find_free-some zero i k t e = cc
find_free-some (suc n) i k t e = ground (arith, find_free-some n (i + 1) k t)

none_now :
    (n i : ℕ) (k : Kernel)
    → find_free (suc n) i k ≡ none
    → slot k i ≢ 0
    → (k.threads (slot k i)).state ≢ free
unfolding find_free
none_now n i k e z f = ground arith

none_later : (n i : ℕ) (k : Kernel) → find_free (suc n) i k ≡ none → find_free n (i + 1) k ≡ none
unfolding find_free
none_later n i k e = ground arith

-- If it finds none, no entry that it looked at is free.
find_free-none :
    (n i j : ℕ) (k : Kernel)
    → find_free n i k ≡ none
    → i ≤ j
    → j < i + n
    → slot k j ≢ 0
    → (k.threads (slot k j)).state ≢ free
find_free-none zero i j k e p q z = absurd (omega arith)
find_free-none (suc n) i j k e p q z = elim (ℕ_discrete i j) [
  | yes d ↦
      subst (λ m. (k.threads (slot k m)).state ≢ free) d
        (none_now n i k e (subst (λ m. slot k m ≢ 0) (sym d) z))
  | no d ↦ find_free-none n (i + 1) j k (none_later n i k e) (omega arith) (omega arith) z
]

-- The search looks at every entry.
every_entry :
    (k : Kernel) (t : ℕ)
    → find_free max_threads 0 k ≡ none
    → k.next_tid < max_threads
    → IsTid t
    → (k.threads t).state ≢ free
every_entry k t e n b =
    let j : ℕ = (t + max_threads - k.next_tid) % max_threads in
    let here : slot k j ≡ t = omega arith in
    subst (λ m. (k.threads m).state ≢ free) here
      (find_free-none max_threads 0 j k e (omega arith) (omega arith) (omega arith))

-- A new thread is on no list yet.
create_at-Sound :
    (finish func arg t : ℕ) (k : Kernel) (ts : List ℕ) (bs : ℕ → List ℕ)
    → (k.threads t).state ≡ free
    → (k.threads t).sleeps_on ≡ 0
    → Sound k ts bs
    → Sound (create_at finish func arg t k) ts bs
unfolding create_at
create_at-Sound finish func arg t k ts bs f z s = record {
  ready_list =
      Ready-agree k k' ts refl refl
        (All-zip (λ y. t ≢ y) (IsRunnable k) (Same k k') ts
          (λ y d r. (ground arith, ground arith, ground arith))
          (All-of_NotIn t ts
            (NotIn-of_All (IsRunnable k) t ts s.ready_list.states (λ v. ground arith)))
          s.ready_list.states)
        s.ready_list;
  sleepers = λ j.
      Bucket-agree k k' j (bs j) refl
        (All-mono (λ y. t ≢ y) (SameLinks k k') (bs j) (λ y d. (ground arith, ground arith))
          (All-of_NotIn t (bs j) (NotIn-Bucket_of_awake k j (bs j) t z (s.sleepers j))))
        (s.sleepers j);
}
  where
    k' : Kernel
    k' = create_at finish func arg t k

create_at-own :
    (finish func arg t : ℕ) (k : Kernel)
    → ((create_at finish func arg t k).threads t).state ≡ nonready
unfolding create_at
create_at-own finish func arg t k = ground arith

create_at-other :
    (finish func arg t x : ℕ) (k : Kernel)
    → t ≢ x
    → (create_at finish func arg t k).threads x ≡ k.threads x
unfolding create_at
create_at-other finish func arg t x k d = update_ne k.threads t x _ d

create_at-next_tid :
    (finish func arg t : ℕ) (k : Kernel) → (create_at finish func arg t k).next_tid < max_threads
unfolding create_at
create_at-next_tid finish func arg t k = omega arith

-- The two ways in which thread_create ends.
pub data Creates (finish func arg : ℕ) (k : Kernel) : ℤ × Kernel → Type 0 where
  full :
      {r : ℤ × Kernel}
      → ((t : ℕ) → IsTid t → (k.threads t).state ≢ free)
      → r ≡ (negsuc 0, k)
      → Creates finish func arg k r
  created :
      {r : ℤ × Kernel} (t : ℕ)
      → IsTid t
      → (k.threads t).state ≡ free
      → r.0 ≡ pos t
      → (r.1.threads t).state ≡ nonready
      → ((x : ℕ) → t ≢ x → r.1.threads x ≡ k.threads x)
      → r.1.next_tid < max_threads
      → Creates finish func arg k r

-- If the entry to begin the search with is in the table, thread_create either gives -1 and changes
-- nothing, and then every entry but the idle thread's is taken, or it takes one free entry other
-- than the idle thread's, which becomes nonready, and keeps all other entries.
pub thread_create-Creates :
    (finish func arg : ℕ) (k : Kernel)
    → k.next_tid < max_threads
    → Creates finish func arg k (thread_create finish func arg k)
unfolding thread_create
thread_create-Creates finish func arg k n = elim (Option-cases (find_free max_threads 0 k)) [
  | inl e ↦ full (λ t b. every_entry k t e n b) (rw (e, thread_create))
  | inr (t, e) ↦
      let b = find_free-some max_threads 0 k t e in
      rw (e, thread_create)
        (created t b.0 b.1 refl (create_at-own finish func arg t k)
          (λ x d. create_at-other finish func arg t x k d) (create_at-next_tid finish func arg t k))
]

-- thread_create keeps the ready list and the sleep queues well formed and with the same threads, if
-- free entries wait for nothing.
pub thread_create-Sound :
    (finish func arg : ℕ) (k : Kernel) (ts : List ℕ) (bs : ℕ → List ℕ)
    → ((x : ℕ) → (k.threads x).state ≡ free → (k.threads x).sleeps_on ≡ 0)
    → Sound k ts bs
    → Sound (thread_create finish func arg k).1 ts bs
unfolding thread_create
thread_create-Sound finish func arg k ts bs z s = elim (Option-cases (find_free max_threads 0 k)) [
  | inl e ↦ rw (e, thread_create) s
  | inr (t, e) ↦
      let f = (find_free-some max_threads 0 k t e).1 in
      rw (e, thread_create) (create_at-Sound finish func arg t k ts bs f (z t f) s)
]
