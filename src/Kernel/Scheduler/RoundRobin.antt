-- ===== src/Kernel/Scheduler/RoundRobin.antt =====
-- scheduler_schedule of kudos/kernel/scheduler.c as a round-robin choice over the ready list.
use aar.Base.{
  ℕ, ◌<◌, ◌≡◌, refl, ◌≢◌, ◌∙◌, List, [], ◌∷◌, arith, NotIn, All, All-mono, done, Returns,
  Returns-bind, update, ◌>>=◌, lt→ltb,
}
use aar.Kernel.{Kernel, running, max_threads, max_cpus, idle_tid, set_state}
use aar.Kernel.Scheduler.{remove_first_ready, retire, schedule}
use aar.Kernel.Scheduler.ReadyList.{
  Queued, Queued-agree, remove_first_ready-cons, remove_first_ready-nil,
}
use aar.Kernel.Scheduler.Retire.{
  Ready, IsRunnable, Retired, requeue, retired_state, states-set_state, retire-Retired,
}

-- The thread that runs next, and the queue behind it.
abbrev pub next_thread : List ℕ → ℕ
next_thread [] = idle_tid
next_thread (t ∷ ts) = t

abbrev pub rest : List ℕ → List ℕ
rest [] = []
rest (t ∷ ts) = ts

-- What scheduler_schedule leaves behind on the processor `cpu`: the thread `t` runs, and `q` is the
-- ready list.
pub record Scheduled (cpu : ℕ) (k : Kernel) (ts : List ℕ) (t : ℕ) (q : List ℕ) (k' : Kernel)
    : Type 0 where
  pub current : k'.current ≡ update k.current cpu t
  pub ready_list : Ready k' q
  pub runs : (k'.threads t).state ≡ running
  pub off_list : NotIn t q
  pub in_table : t < max_threads
  pub own : k.current cpu ≢ t → (k'.threads (k.current cpu)).state ≡ retired_state k (k.current cpu)
  pub state : (x : ℕ) → k.current cpu ≢ x → t ≢ x → (k'.threads x).state ≡ (k.threads x).state
  pub sleeps_on : (x : ℕ) → (k'.threads x).sleeps_on ≡ (k.threads x).sleeps_on
  pub next : (x : ℕ) → (k.threads x).sleeps_on ≢ 0 → (k'.threads x).next ≡ (k.threads x).next
  pub sleepq : k'.sleepq ≡ k.sleepq

abbrev dispatch : ℕ → ℕ → Kernel → Kernel
dispatch cpu t k = record (set_state t running k) { current = update k.current cpu t }

dispatch-Ready :
    (cpu t : ℕ) (q : List ℕ) (k₁ k₂ : Kernel)
    → Queued k₂ q
    → All (IsRunnable k₁) q
    → NotIn t q
    → k₂.threads ≡ k₁.threads
    → Ready (dispatch cpu t k₂) q
dispatch-Ready cpu t q k₁ k₂ queued runnable n th = record {
  queued = Queued-agree k₂ (dispatch cpu t k₂) q (λ x. ground arith) refl refl queued;
  states =
      states-set_state k₂ t running q n (All-mono (IsRunnable k₁) (IsRunnable k₂) q same runnable);
}
  where
    same : (x : ℕ) → IsRunnable k₁ x → IsRunnable k₂ x
    same x h = rw th h

dispatch-Scheduled :
    (cpu : ℕ) (k : Kernel) (ts : List ℕ) (t : ℕ) (q : List ℕ) (k₁ k₂ : Kernel)
    → Retired k (k.current cpu) ts k₁
    → Queued k₂ q
    → All (IsRunnable k₁) q
    → NotIn t q
    → t < max_threads
    → k₂.threads ≡ k₁.threads
    → k₂.current ≡ k₁.current
    → k₂.sleepq ≡ k₁.sleepq
    → Scheduled cpu k ts t q (dispatch cpu t k₂)
dispatch-Scheduled cpu k ts t q k₁ k₂ r queued runnable n h th cu sl = record {
  current = rw (cu, r.current);
  ready_list = dispatch-Ready cpu t q k₁ k₂ queued runnable n th;
  runs = ground arith;
  off_list = n;
  in_table = h;
  own = λ d. ground (arith, same (k.current cpu), r.own);
  state = λ x d d'. ground (arith, same x, r.state x d);
  sleeps_on = λ x. ground (arith, same x, r.sleeps_on x);
  next = λ x m. ground (arith, same x, r.next x m);
  sleepq = sl ∙ r.sleepq;
}
  where
    same : (x : ℕ) → k₂.threads x ≡ k₁.threads x
    same x = rw th

choose-Scheduled :
    (cpu : ℕ) (k : Kernel) (ts q : List ℕ) (k₁ : Kernel)
    → Retired k (k.current cpu) ts k₁
    → Ready k₁ q
    → Returns
        (remove_first_ready k₁ >>= λ r. done (dispatch cpu r.0 r.1))
        (Scheduled cpu k ts (next_thread q) (rest q))
choose-Scheduled cpu k ts [] k₁ r a =
    rw (remove_first_ready-nil k₁ a.queued)
      (dispatch-Scheduled cpu k ts 0 [] k₁ k₁ r a.queued tt tt (omega arith) refl refl refl)
choose-Scheduled cpu k ts (t ∷ q) k₁ r a =
    Returns-bind (remove_first_ready k₁) (λ r. done (dispatch cpu r.0 r.1)) _
      (Scheduled cpu k ts t q) (remove_first_ready-cons k₁ t q a.queued a.states.0.0)
      λ s p. rw p.0 (
        dispatch-Scheduled cpu k ts t q k₁ s.1 r p.1 a.states.1 a.queued.distinct.0
          a.queued.bounds.0.1 p.2 p.3 p.4)

schedule-retire :
    (cpu : ℕ) (k : Kernel)
    → cpu < max_cpus
    → k.current cpu < max_threads
    → schedule cpu k ≡ (
        retire (k.current cpu) k >>= λ k₁.
        remove_first_ready k₁ >>= λ r. done (dispatch cpu r.0 r.1))
unfolding schedule
schedule-retire cpu k h c = rw (lt→ltb cpu 4 h, lt→ltb (k.current cpu) 32 c)

-- On a well-formed ready list, of threads that are ready, scheduler_schedule always returns if the
-- running thread is in the table and not on the list: the thread that ran goes behind the list,
-- unless it is dying, waiting or the idle thread, and the first of the list runs next, or the idle
-- thread if there is none.
pub schedule-Scheduled :
    (cpu : ℕ) (k : Kernel) (ts : List ℕ)
    → cpu < max_cpus
    → k.current cpu < max_threads
    → NotIn (k.current cpu) ts
    → Ready k ts
    → Returns (schedule cpu k) (
        Scheduled cpu k ts
          (next_thread (requeue k (k.current cpu) ts))
          (rest (requeue k (k.current cpu) ts)))
schedule-Scheduled cpu k ts h c n r = rw (schedule-retire cpu k h c) (
    Returns-bind (retire (k.current cpu) k)
      (λ k₁. remove_first_ready k₁ >>= λ r. done (dispatch cpu r.0 r.1))
      (Retired k (k.current cpu) ts) _ (retire-Retired k (k.current cpu) ts c n r)
      λ k₁ a. choose-Scheduled cpu k ts (requeue k (k.current cpu) ts) k₁ a a.ready_list)
