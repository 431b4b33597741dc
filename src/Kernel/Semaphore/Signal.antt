-- ===== src/Kernel/Semaphore/Signal.antt =====
-- semaphore_V of kudos/kernel/semaphore.c on a semaphore that threads wait for.
use aar.Base.{[]}
use aar.Base.{
  ℕ, zero, suc, ◌+◌, ◌<◌, ◌≡◌, refl, ◌≢◌, sym, ap, subst, ◌∙◌, false, List, ◌∷◌, ◌++◌, arith, NotIn,
  NotIn-of_Distinct, All, update, update_self, ◌==◌, if◌then◌else◌, ℕ_discrete, done, Returns,
  Returns-bind,
}
use aar.Base.Int.{negsuc, neg_part}
use aar.Kernel.{Kernel, is_sleeping}
use aar.Kernel.SleepQueue.{sleepq_hash, sleepq_wake}
use aar.Kernel.SleepQueue.Buckets.{Bucket}
use aar.Kernel.SleepQueue.Frame.{Sound, Sound-interrupts, NotIn-Bucket_of_other}
use aar.Kernel.SleepQueue.Wake.{Woken, sleepq_wake-Woken}
use aar.Kernel.Semaphore.{
  System, address, max_semaphores, set_value, suc_ℤ, disabled, wake_next, semaphore_V,
}
use aar.Kernel.Semaphore.Count.{count_waiting, first_waiting, count-left}
use aar.Kernel.Semaphore.Wait.{Balanced, address-ne}

-- The thread `w` is the one of the queue `pre ++ w ∷ post` that has waited longest for `i`.
pub record IsLongest (s : System) (bs : ℕ → List ℕ) (i : ℕ) (pre : List ℕ) (w : ℕ) (post : List ℕ)
    : Type 0 where
  pub place : bs (sleepq_hash (address s i)) ≡ pre ++ w ∷ post
  pub before : All (λ t. (s.kernel.threads t).sleeps_on ≢ address s i) pre
  pub waits : (s.kernel.threads w).sleeps_on ≡ address s i

-- The system after semaphore_V has woken `w`.
pub record Signalled (i : ℕ) (s : System) (ts : List ℕ) (bs : ℕ → List ℕ) (w : ℕ) (q : List ℕ)
    (s' : System) : Type 0 where
  pub value : (s'.semaphores i).value ≡ suc_ℤ (s.semaphores i).value
  pub sound :
      Sound s'.kernel
        (if is_sleeping (s.kernel.threads w).state then ts ++ w ∷ [] else ts)
        (update bs (sleepq_hash (address s i)) q)
  pub balanced : Balanced s' (update bs (sleepq_hash (address s i)) q)
  pub cleared : (s'.kernel.threads w).sleeps_on ≡ 0
  pub current : s'.kernel.current ≡ s.kernel.current

abbrev signalled : ℕ → System → Kernel → System
signalled i s k = record (set_value i (suc_ℤ (s.semaphores i).value) s) {
  kernel = record k { interrupts = s.kernel.interrupts };
}

V-wakes :
    (i n : ℕ) (s : System)
    → (s.semaphores i).value ≡ negsuc n
    → semaphore_V i s ≡ wake_next i (set_value i (suc_ℤ (s.semaphores i).value) s)
unfolding semaphore_V
V-wakes i zero s e = rw e
V-wakes i (suc n) s e = rw e

neg_part-suc : (n : ℕ) → neg_part (negsuc n) ≡ suc (neg_part (suc_ℤ (negsuc n)))
neg_part-suc zero = refl
neg_part-suc (suc n) = refl

Balanced-left :
    (i n w : ℕ) (s : System) (pre post : List ℕ) (bs : ℕ → List ℕ) (k : Kernel)
    → (s.semaphores i).value ≡ negsuc n
    → IsLongest s bs i pre w post
    → NotIn w (pre ++ post)
    → ((j : ℕ) → sleepq_hash (address s i) ≢ j → NotIn w (bs j))
    → ((x : ℕ) → w ≢ x → (k.threads x).sleeps_on ≡ (s.kernel.threads x).sleeps_on)
    → Balanced s bs
    → Balanced (signalled i s k) (update bs (sleepq_hash (address s i)) (pre ++ post))
Balanced-left i n w s pre post bs k v l d m o b j h = elim (ℕ_discrete i j) [
  | yes e ↦
      let c : count_waiting s.kernel.threads (address s j) (bs (sleepq_hash (address s j)))
          ≡ suc (neg_part (suc_ℤ (s.semaphores i).value)) =
        b j h ∙ ap (λ (t : ℕ). neg_part (s.semaphores t).value) (sym e) ∙ rw v (neg_part-suc n) in
      ground (arith, counted, c, ap (address s) e)
  | no e ↦ ground (arith, counted, b j h, address-ne s i j e)
]
  where
    counted :
        count_waiting k.threads
            (address s j)
            (update bs (sleepq_hash (address s i)) (pre ++ post) (sleepq_hash (address s j)))
          + (if address s i == address s j then 1 else 0)
        ≡ count_waiting s.kernel.threads (address s j) (bs (sleepq_hash (address s j)))
    counted =
        count-left s.kernel.threads k.threads w (address s i) (address s j) pre post bs l.place d
          (m (sleepq_hash (address s j))) l.waits o

Woken-Signalled :
    (i n w : ℕ) (s : System) (ts pre post : List ℕ) (bs : ℕ → List ℕ) (k : Kernel)
    → (s.semaphores i).value ≡ negsuc n
    → IsLongest s bs i pre w post
    → Sound s.kernel ts bs
    → Balanced s bs
    → Woken (disabled s.kernel) ts bs (sleepq_hash (address s i)) (pre ++ post) w k
    → Signalled i s ts bs w (pre ++ post) (signalled i s k)
Woken-Signalled i n w s ts pre post bs k v l so b o = record {
  value = ap (λ x. x.value) (update_self s.semaphores i _);
  sound =
      Sound-interrupts k s.kernel.interrupts
        (if is_sleeping (s.kernel.threads w).state then ts ++ w ∷ [] else ts)
        (update bs (sleepq_hash (address s i)) (pre ++ post)) o.sound;
  balanced =
      Balanced-left i n w s pre post bs k v l (NotIn-of_Distinct w pre post own.distinct) apart
        o.sleeps_on b;
  cleared = o.cleared;
  current = o.current;
}
  where
    own : Bucket s.kernel (sleepq_hash (address s i)) (pre ++ w ∷ post)
    own =
        subst (Bucket s.kernel (sleepq_hash (address s i))) l.place
          (so.sleepers (sleepq_hash (address s i)))

    apart : (j : ℕ) → sleepq_hash (address s i) ≢ j → NotIn w (bs j)
    apart j d =
        NotIn-Bucket_of_other s.kernel j (bs j) w (λ e. d (ap sleepq_hash (sym l.waits) ∙ e))
          (so.sleepers j)

-- On well-formed lists, with negative values that count the waiting threads of every semaphore:
-- where the value of a semaphore is negative, some thread waits for it, and semaphore_V always
-- returns. The value is one more, and the thread that has waited longest is out of its queue and
-- waits for nothing, as the last of the ready list if it had gone to sleep. The lists stay well
-- formed, and the negative values go on to count the waiting threads.
pub semaphore_V-Signalled :
    (i n : ℕ) (s : System) (ts : List ℕ) (bs : ℕ → List ℕ)
    → i < max_semaphores
    → (s.semaphores i).value ≡ negsuc n
    → Sound s.kernel ts bs
    → Balanced s bs
    → (pre : List ℕ) × (w : ℕ) × (post : List ℕ) × IsLongest s bs i pre w post
      × Returns (semaphore_V i s) (Signalled i s ts bs w (pre ++ post))
unfolding wake_next
semaphore_V-Signalled i n s ts bs h v so b =
    let (pre, w, post, q, a, e) =
      first_waiting s.kernel.threads (address s i) n (bs (sleepq_hash (address s i)))
        (b i h ∙ ap neg_part v) in
    let l : IsLongest s bs i pre w post = record { place = q; before = a; waits = e } in
    (
      pre,
      w,
      post,
      l,
      rw (V-wakes i n s v) (
          Returns-bind (sleepq_wake (address s i) (disabled s.kernel)) (λ k. done (signalled i s k))
            (Woken (disabled s.kernel) ts bs (sleepq_hash (address s i)) (pre ++ post) w)
            (Signalled i s ts bs w (pre ++ post))
            (sleepq_wake-Woken (disabled s.kernel) (address s i) w pre post ts bs
              (Sound-interrupts s.kernel false ts bs so) q a e)
            λ k o. Woken-Signalled i n w s ts pre post bs k v l so b o),
    )
