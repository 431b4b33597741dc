-- ===== src/Kernel/Semaphore/Wait.antt =====
-- semaphore_P of kudos/kernel/semaphore.c, and the relation of the values to the sleep queues.
use mathlib.Core.Bool.{true≢false}
use aar.Base.{Outcome}
use aar.Kernel.SleepQueue.Sleep.{Slept, sleep-Slept}
use aar.Base.{>>=_assoc}
use aar.Base.{
  ℕ, zero, suc, ◌+◌, ◌<◌, ◌≡◌, refl, ◌≢◌, ap, subst, ◌∙◌, Bool, true, false, List, [], ◌∷◌, ◌++◌,
  arith, NotIn, update, update_self, update_ne, sym, ◌==◌, if◌then◌else◌, ℕ_discrete, Bool-cases,
  inl, inr, done, Returns, Returns-bind, ◌>>=◌,
}
use aar.Base.Int.{ℤ, pos, negsuc, is_neg, neg_part}
use aar.Kernel.{Kernel, max_cpus}
use aar.Kernel.Scheduler.RoundRobin.{next_thread, rest}
use aar.Kernel.Threads.{thread_switch}
use aar.Kernel.SleepQueue.{sleepq_hash, sleepq_add}
use aar.Kernel.SleepQueue.Buckets.{IsTid}
use aar.Kernel.SleepQueue.Frame.{Sound, Sound-interrupts, NotIn-Bucket_of_awake}
use aar.Kernel.Semaphore.{
  System, address, max_semaphores, set_value, pred_ℤ, disabled, wait_in_line, semaphore_P,
}
use aar.Kernel.Semaphore.Count.{count_waiting, count-joined}

-- A negative value of a semaphore counts the threads that wait for it; otherwise none waits.
abbrev pub Balanced : System → (ℕ → List ℕ) → Type 0
Balanced s bs =
    (j : ℕ)
    → j < max_semaphores
    → count_waiting s.kernel.threads (address s j) (bs (sleepq_hash (address s j)))
      ≡ neg_part (s.semaphores j).value

-- Whether semaphore_P waits.
abbrev pub must_wait : System → ℕ → Bool
must_wait s i = is_neg (pred_ℤ (s.semaphores i).value)

abbrev pub joined : System → ℕ → ℕ → (ℕ → List ℕ) → ℕ → List ℕ
joined s i c bs = update bs (sleepq_hash (address s i)) (bs (sleepq_hash (address s i)) ++ c ∷ [])

-- The system after semaphore_P on the semaphore `i`, called by the running thread of `cpu`.
pub record Passed (cpu i : ℕ) (s : System) (ts : List ℕ) (bs : ℕ → List ℕ) (s' : System)
    : Type 0 where
  pub value : (s'.semaphores i).value ≡ pred_ℤ (s.semaphores i).value
  pub creator : (s'.semaphores i).creator ≡ (s.semaphores i).creator
  pub other_semaphores : (j : ℕ) → i ≢ j → s'.semaphores j ≡ s.semaphores j
  pub static : (s'.table_address ≡ s.table_address) × (s'.next ≡ s.next)
  pub kernel : must_wait s i ≡ false → s'.kernel ≡ s.kernel
  pub sound :
      Sound s'.kernel
        (if must_wait s i then rest ts else ts)
        (if must_wait s i then joined s i (s.kernel.current cpu) bs else bs)
  pub balanced : Balanced s' (if must_wait s i then joined s i (s.kernel.current cpu) bs else bs)
  pub runs :
      s'.kernel.current cpu ≡ (if must_wait s i then next_thread ts else s.kernel.current cpu)
  pub waits :
      (s'.kernel.threads (s.kernel.current cpu)).sleeps_on
      ≡ (if must_wait s i then address s i else 0)

pub address-ne : (s : System) (i j : ℕ) → i ≢ j → address s i ≢ address s j
address-ne s i j n e = n (omega arith)

neg_part-pred : (v : ℤ) → is_neg (pred_ℤ v) ≡ true → neg_part (pred_ℤ v) ≡ neg_part v + 1
neg_part-pred (pos zero) h = omega arith
neg_part-pred (pos (suc n)) h = cc
neg_part-pred (negsuc n) h = omega arith

neg_part-pred_pos : (v : ℤ) → is_neg (pred_ℤ v) ≡ false → neg_part (pred_ℤ v) ≡ neg_part v
neg_part-pred_pos (pos zero) h = cc
neg_part-pred_pos (pos (suc n)) h = refl
neg_part-pred_pos (negsuc n) h = cc

-- The system when the caller has given up the processor.
abbrev handed_over : ℕ → System → Kernel → System
handed_over i s k = record (set_value i (pred_ℤ (s.semaphores i).value) s) {
  kernel = record k { interrupts = s.kernel.interrupts };
}

Balanced-joined :
    (i c : ℕ) (s : System) (bs : ℕ → List ℕ) (k : Kernel)
    → must_wait s i ≡ true
    → ((j : ℕ) → NotIn c (bs j))
    → (k.threads c).sleeps_on ≡ address s i
    → ((x : ℕ) → c ≢ x → (k.threads x).sleeps_on ≡ (s.kernel.threads x).sleeps_on)
    → Balanced s bs
    → Balanced (handed_over i s k) (joined s i c bs)
Balanced-joined i c s bs k m n w o b j h = elim (ℕ_discrete i j) [
  | yes e ↦
      counted
      ∙ ground (
        arith,
        b j h,
        ap (address s) e,
        neg_part-pred (s.semaphores i).value m,
        ap (λ (t : ℕ). neg_part (s.semaphores t).value) e,
      )
  | no e ↦ counted ∙ ground (arith, b j h, address-ne s i j e)
]
  where
    counted :
        count_waiting k.threads (address s j) (joined s i c bs (sleepq_hash (address s j)))
        ≡ count_waiting s.kernel.threads (address s j) (bs (sleepq_hash (address s j)))
          + (if address s i == address s j then 1 else 0)
    counted =
        count-joined s.kernel.threads k.threads c (address s i) (address s j) bs
          (n (sleepq_hash (address s j))) w o

Slept-Passed :
    (cpu i : ℕ) (s : System) (ts : List ℕ) (bs : ℕ → List ℕ) (k : Kernel)
    → must_wait s i ≡ true
    → ((j : ℕ) → NotIn (s.kernel.current cpu) (bs j))
    → Slept cpu (disabled s.kernel) (address s i) ts bs k
    → Balanced s bs
    → Passed cpu i s ts bs (handed_over i s k)
Slept-Passed cpu i s ts bs k m n l b = record {
  value = ap (λ x. x.value) (update_self s.semaphores i _);
  creator = ap (λ x. x.creator) (update_self s.semaphores i _);
  other_semaphores = λ j d. update_ne s.semaphores i j _ d;
  static = (refl, refl);
  kernel = λ e. absurd (true≢false (sym m ∙ e));
  sound = rw m (
      Sound-interrupts k s.kernel.interrupts (rest ts) (joined s i (s.kernel.current cpu) bs)
        l.sound);
  balanced = rw m (Balanced-joined i (s.kernel.current cpu) s bs k m n l.waits l.others b);
  runs = rw m (ap (λ f. f cpu) l.runs ∙ update_self s.kernel.current cpu (next_thread ts));
  waits = rw m l.waits;
}

wait_in_line-Passed :
    (cpu i : ℕ) (s : System) (ts : List ℕ) (bs : ℕ → List ℕ)
    → must_wait s i ≡ true
    → cpu < max_cpus
    → address s i ≢ 0
    → IsTid (s.kernel.current cpu)
    → (s.kernel.threads (s.kernel.current cpu)).sleeps_on ≡ 0
    → NotIn (s.kernel.current cpu) ts
    → Sound s.kernel ts bs
    → Balanced s bs
    → Returns
        (wait_in_line cpu i (set_value i (pred_ℤ (s.semaphores i).value) s))
        (Passed cpu i s ts bs)
unfolding wait_in_line
wait_in_line-Passed cpu i s ts bs m h z b a n so ba =
    let sleep = sleepq_add cpu (address s i) (disabled s.kernel) in
    let go_on : Kernel → Outcome System = λ k. done (handed_over i s k) in
    let apart =
      λ (j : ℕ). NotIn-Bucket_of_awake s.kernel j (bs j) (s.kernel.current cpu) a (so.sleepers j) in
    subst (λ o. Returns o (Passed cpu i s ts bs)) (>>=_assoc sleep (thread_switch cpu) go_on)
      (Returns-bind (sleep >>= thread_switch cpu) go_on
        (Slept cpu (disabled s.kernel) (address s i) ts bs) (Passed cpu i s ts bs)
        (sleep-Slept cpu (disabled s.kernel) (address s i) ts bs refl h b a z n
          (Sound-interrupts s.kernel false ts bs so))
        λ k l. Slept-Passed cpu i s ts bs k m apart l ba)

Balanced-passed :
    (i : ℕ) (s : System) (bs : ℕ → List ℕ)
    → must_wait s i ≡ false
    → Balanced s bs
    → Balanced (set_value i (pred_ℤ (s.semaphores i).value) s) bs
Balanced-passed i s bs m b j h = elim (ℕ_discrete i j) [
  | yes e ↦ ground (
    arith,
    b j h,
    neg_part-pred_pos (s.semaphores i).value m,
    ap (λ (t : ℕ). neg_part (s.semaphores t).value) e,
  )
  | no e ↦ ground (arith, b j h)
]

-- On well-formed lists, with negative values that count the waiting threads of every semaphore,
-- semaphore_P always returns when it is called by a running thread other than the idle thread that
-- waits for nothing and is not on the ready list. Only the value of that semaphore changes in the
-- table, and where it was positive nothing else does. Otherwise the caller joins the end of the
-- semaphore's queue and the first ready thread runs. Either way the negative values go on to count
-- the waiting threads.
pub semaphore_P-Passed :
    (cpu i : ℕ) (s : System) (ts : List ℕ) (bs : ℕ → List ℕ)
    → cpu < max_cpus
    → 0 < s.table_address
    → IsTid (s.kernel.current cpu)
    → (s.kernel.threads (s.kernel.current cpu)).sleeps_on ≡ 0
    → NotIn (s.kernel.current cpu) ts
    → Sound s.kernel ts bs
    → Balanced s bs
    → Returns (semaphore_P cpu i s) (Passed cpu i s ts bs)
unfolding semaphore_P
semaphore_P-Passed cpu i s ts bs h p b a n so ba = elim (Bool-cases (must_wait s i)) [
  | inl m ↦
      rw (m, semaphore_P)
        (wait_in_line-Passed cpu i s ts bs m h (λ e. absurd (omega arith)) b a n so ba)
  | inr m ↦
      rw (m, semaphore_P)
        (record {
          value = ap (λ x. x.value) (update_self s.semaphores i _);
          creator = ap (λ x. x.creator) (update_self s.semaphores i _);
          other_semaphores = λ j d. update_ne s.semaphores i j _ d;
          static = (refl, refl);
          kernel = λ e. refl;
          sound = rw m so;
          balanced = rw m (Balanced-passed i s bs m ba);
          runs = rw m;
          waits = rw m a;
        })
]
