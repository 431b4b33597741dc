-- ===== src/Kernel/SleepQueue/Sleep.antt =====
-- sleepq_add and then thread_switch, as the kernel calls them to wait for a resource.
use aar.Base.{
  ℕ, ◌<◌, ◌≡◌, ◌≢◌, sym, subst, ap, ◌∙◌, false, List, [], ◌∷◌, ◌++◌, NotIn, arith, update, Returns,
  Returns-bind, Returns-mono, ◌>>=◌,
}
use aar.Kernel.{Kernel, max_threads, max_cpus}
use aar.Kernel.Scheduler.{schedule}
use aar.Kernel.Scheduler.Retire.{requeue}
use aar.Kernel.Scheduler.RoundRobin.{next_thread, rest}
use aar.Kernel.SleepQueue.{sleepq_hash, sleepq_add}
use aar.Kernel.SleepQueue.Buckets.{IsTid}
use aar.Kernel.SleepQueue.Frame.{Sound}
use aar.Kernel.SleepQueue.Add.{Joined, sleepq_add-Sound}
use aar.Kernel.SleepQueue.Switch.{Switched, schedule-Sound}
use aar.Kernel.Threads.{thread_switch}

-- The queues with `c` behind the others that wait at the hash of `r`.
abbrev pub behind : ℕ → ℕ → (ℕ → List ℕ) → ℕ → List ℕ
behind r c bs = update bs (sleepq_hash r) (bs (sleepq_hash r) ++ c ∷ [])

-- The kernel when the running thread of `cpu` has gone to wait for `r`.
pub record Slept (cpu : ℕ) (k : Kernel) (r : ℕ) (ts : List ℕ) (bs : ℕ → List ℕ) (k' : Kernel)
    : Type 0 where
  pub sound : Sound k' (rest ts) (behind r (k.current cpu) bs)
  pub runs : k'.current ≡ update k.current cpu (next_thread ts)
  pub waits : (k'.threads (k.current cpu)).sleeps_on ≡ r
  pub others : (x : ℕ) → k.current cpu ≢ x → (k'.threads x).sleeps_on ≡ (k.threads x).sleeps_on

requeue_waiting :
    (k : Kernel) (c : ℕ) (ts : List ℕ) → (k.threads c).sleeps_on ≢ 0 → requeue k c ts ≡ ts
requeue_waiting k c ts n = ground arith

Switched-Slept :
    (cpu r : ℕ) (k k₁ k₂ : Kernel) (ts : List ℕ) (bs : ℕ → List ℕ)
    → r ≢ 0
    → Joined k (k.current cpu) r k₁
    → Switched cpu k₁ ts (behind r (k.current cpu) bs) k₂
    → Slept cpu k r ts bs k₂
Switched-Slept cpu r k k₁ k₂ ts bs z j (sound, sch) = record {
  sound = subst (λ q. Sound k₂ (rest q) (behind r (k.current cpu) bs)) queue sound;
  runs =
      sch.current
      ∙ ap (λ q. update k₁.current cpu (next_thread q)) queue
      ∙ ap (λ f. update f cpu (next_thread ts)) j.current;
  waits = sch.sleeps_on (k.current cpu) ∙ j.waits;
  others = λ x d. sch.sleeps_on x ∙ j.others x d;
}
  where
    same : k₁.current cpu ≡ k.current cpu
    same = ap (λ f. f cpu) j.current

    asleep : (k₁.threads (k₁.current cpu)).sleeps_on ≡ r
    asleep = ap (λ (t : ℕ). (k₁.threads t).sleeps_on) same ∙ j.waits

    queue : requeue k₁ (k₁.current cpu) ts ≡ ts
    queue = requeue_waiting k₁ (k₁.current cpu) ts (λ e. z (sym asleep ∙ e))

-- On well-formed lists sleepq_add and then thread_switch always return, with interrupts off, for a
-- running thread other than the idle thread that waits for nothing and is not on the ready list:
-- the thread waits for `r` as the last of its queue, the first ready thread runs, and no other
-- thread waits for anything else than before.
pub sleep-Slept :
    (cpu : ℕ) (k : Kernel) (r : ℕ) (ts : List ℕ) (bs : ℕ → List ℕ)
    → k.interrupts ≡ false
    → cpu < max_cpus
    → IsTid (k.current cpu)
    → (k.threads (k.current cpu)).sleeps_on ≡ 0
    → r ≢ 0
    → NotIn (k.current cpu) ts
    → Sound k ts bs
    → Returns (sleepq_add cpu r k >>= thread_switch cpu) (Slept cpu k r ts bs)
unfolding thread_switch
sleep-Slept cpu k r ts bs i h b z n o s =
    Returns-bind (sleepq_add cpu r k) (thread_switch cpu)
      (λ k'. Sound k' ts (behind r c bs) × Joined k c r k') (Slept cpu k r ts bs)
      (sleepq_add-Sound cpu k r ts bs i h b z n o s)
      λ k₁ p.
        Returns-mono (schedule cpu k₁) (Switched cpu k₁ ts (behind r c bs)) (Slept cpu k r ts bs)
          (schedule-Sound cpu k₁ ts (behind r c bs) h
            (subst (λ t. t < max_threads) (sym (same k₁ p.1)) b.1)
            (subst (λ t. NotIn t ts) (sym (same k₁ p.1)) o) p.0)
          λ k₂ q. Switched-Slept cpu r k k₁ k₂ ts bs n p.1 q
  where
    c : ℕ
    c = k.current cpu

    same : (k₁ : Kernel) → Joined k c r k₁ → k₁.current cpu ≡ c
    same k₁ j = ap (λ f. f cpu) j.current
