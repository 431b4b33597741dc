-- ===== src/Kernel/Scheduler/Retire.antt =====
-- The first half of scheduler_schedule of kudos/kernel/scheduler.c: what becomes of the thread that
-- ran.
use aar.Base.{NotIn-of_All}
use aar.Base.{
  ℕ, ◌<◌, ◌≡◌, refl, ◌≢◌, ◌∙◌, true, false, not, List, [], ◌∷◌, ◌++◌, arith, NotIn, All, All-append,
  All-zip, All-mono, All-of_NotIn, done, Returns, Returns-bind, Bool-cases, ℕ_discrete, subst,
  ◌>>=◌, ◌==◌, if◌then◌else◌, inl, inr,
}
use aar.Kernel.{
  Kernel, ThreadState, ready, free, sleeping, max_threads, idle_tid, set_state, is_dying,
}
use aar.Base.Int.{pos}
use aar.Kernel.Scheduler.{add_to_ready_list, retire}
use aar.Kernel.Scheduler.ReadyList.{Queued, Linked, Queued-agree, add_to_ready_list-Added}

abbrev pub IsRunnable : Kernel → ℕ → Type 0
IsRunnable k t = ((k.threads t).state ≡ ready) × ((k.threads t).sleeps_on ≡ 0)

-- The ready list holds `ts`, and each of them is ready and waits for nothing.
pub record Ready (k : Kernel) (ts : List ℕ) : Type 0 where
  pub queued : Queued k ts
  pub states : All (IsRunnable k) ts

-- The queue once the thread `c` has stopped running.
abbrev pub requeue : Kernel → ℕ → List ℕ → List ℕ
requeue k c ts =
    if is_dying (k.threads c).state
    then ts
    else if not ((k.threads c).sleeps_on == 0)
    then ts
    else if c == idle_tid
    then ts
    else ts ++ c ∷ []

abbrev pub retired_state : Kernel → ℕ → ThreadState
retired_state k c =
    if is_dying (k.threads c).state
    then free
    else if not ((k.threads c).sleeps_on == 0)
    then sleeping
    else ready

Queued-set_state :
    (k : Kernel) (c : ℕ) (s : ThreadState) (ts : List ℕ) → Queued k ts → Queued (set_state c s k) ts
Queued-set_state k c s ts = Queued-agree k (set_state c s k) ts (λ x. ground arith) refl refl

pub states-set_state :
    (k : Kernel) (c : ℕ) (s : ThreadState) (ts : List ℕ)
    → NotIn c ts
    → All (IsRunnable k) ts
    → All (IsRunnable (set_state c s k)) ts
states-set_state k c s ts n a =
    All-zip (λ x. c ≢ x) (IsRunnable k) (IsRunnable (set_state c s k)) ts
      (λ x d r. (ground arith, ground arith)) (All-of_NotIn c ts n) a

-- What retiring `c` does beside the queue.
pub record Retired (k : Kernel) (c : ℕ) (ts : List ℕ) (k' : Kernel) : Type 0 where
  pub ready_list : Ready k' (requeue k c ts)
  pub own : (k'.threads c).state ≡ retired_state k c
  pub state : (x : ℕ) → c ≢ x → (k'.threads x).state ≡ (k.threads x).state
  pub sleeps_on : (x : ℕ) → (k'.threads x).sleeps_on ≡ (k.threads x).sleeps_on
  pub next : (x : ℕ) → (k.threads x).sleeps_on ≢ 0 → (k'.threads x).next ≡ (k.threads x).next
  pub current : k'.current ≡ k.current
  pub sleepq : k'.sleepq ≡ k.sleepq

-- Where the queue stays as it is, only the state of `c` changes.
unqueued-Retired :
    (k : Kernel) (c : ℕ) (s : ThreadState) (ts : List ℕ)
    → requeue k c ts ≡ ts
    → s ≡ retired_state k c
    → NotIn c ts
    → Ready k ts
    → Retired k c ts (set_state c s k)
unqueued-Retired k c s ts e f n r = record {
  ready_list = rw e (record {
    queued = Queued-set_state k c s ts r.queued;
    states = states-set_state k c s ts n r.states;
  });
  own = ground arith;
  state = λ x d. ground arith;
  sleeps_on = λ x. ground arith;
  next = λ x m. ground arith;
  current = refl;
  sleepq = refl;
}

Queued-Retired :
    (k : Kernel) (c : ℕ) (ts : List ℕ) (k' : Kernel)
    → requeue k c ts ≡ ts ++ c ∷ []
    → ready ≡ retired_state k c
    → (k.threads c).sleeps_on ≡ 0
    → NotIn c ts
    → Ready k ts
    → Queued k' (ts ++ c ∷ []) × Linked k ts c k'
    → Retired k c ts (set_state c ready k')
Queued-Retired k c ts k' e f z n r (q, l) = record {
  ready_list = rw e (record {
    queued = Queued-set_state k' c ready (ts ++ c ∷ []) q;
    states = All-append (IsRunnable (set_state c ready k')) ts (c ∷ []) others (own, tt);
  });
  own = set_self ∙ f;
  state = λ x d. ground (arith, l.state x);
  sleeps_on = λ x. ground (arith, l.sleeps_on x);
  next = λ x m.
      ground
        (arith, l.next x (off_list x m) (λ d. m (subst (λ y. (k.threads y).sleeps_on ≡ 0) d z)));
  current = l.current;
  sleepq = l.sleepq;
}
  where
    moved : All (IsRunnable k') ts
    moved =
        All-mono (IsRunnable k) (IsRunnable k') ts (λ x h. (l.state x ∙ h.0, l.sleeps_on x ∙ h.1))
          r.states

    others : All (IsRunnable (set_state c ready k')) ts
    others = states-set_state k' c ready ts n moved

    off_list : (x : ℕ) → (k.threads x).sleeps_on ≢ 0 → NotIn x ts
    off_list x m = NotIn-of_All (IsRunnable k) x ts r.states (λ v. m v.1)

    set_self : ((set_state c ready k').threads c).state ≡ ready
    set_self = ground arith

    own : IsRunnable (set_state c ready k') c
    own = (ground arith, ground (arith, l.sleeps_on c))

retire-dying :
    (k : Kernel) (c : ℕ)
    → is_dying (k.threads c).state ≡ true
    → retire c k ≡ done (set_state c free k)
unfolding retire
retire-dying k c d = ground arith

retire-sleeping :
    (k : Kernel) (c : ℕ)
    → is_dying (k.threads c).state ≡ false
    → (k.threads c).sleeps_on ≢ 0
    → retire c k ≡ done (set_state c sleeping k)
unfolding retire
retire-sleeping k c d e = ground arith

retire-idle :
    (k : Kernel) (c : ℕ)
    → is_dying (k.threads c).state ≡ false
    → (k.threads c).sleeps_on ≡ 0
    → c ≡ 0
    → retire c k ≡ done (set_state c ready k)
unfolding retire
retire-idle k c d e z = ground arith

retire-ready :
    (k : Kernel) (c : ℕ)
    → is_dying (k.threads c).state ≡ false
    → (k.threads c).sleeps_on ≡ 0
    → c ≢ 0
    → retire c k ≡ (add_to_ready_list (pos c) k >>= λ k'. done (set_state c ready k'))
unfolding retire
retire-ready k c d e z = ground arith

-- Retiring a thread that is not on the ready list always returns: a dying thread becomes free and a
-- waiting one sleeps, and neither is queued; any other becomes ready, and goes behind the list
-- unless it is the idle thread. No other thread's state, and no link of a waiting thread, changes.
pub retire-Retired :
    (k : Kernel) (c : ℕ) (ts : List ℕ)
    → c < max_threads
    → NotIn c ts
    → Ready k ts
    → Returns (retire c k) (Retired k c ts)
retire-Retired k c ts h n r = elim (Bool-cases (is_dying (k.threads c).state)) [
  | inl d ↦ rw (retire-dying k c d) (unqueued-Retired k c free ts (ground arith) (ground arith) n r)
  | inr d ↦ elim (ℕ_discrete (k.threads c).sleeps_on 0) [
    | no e ↦
        rw (retire-sleeping k c d e)
          (unqueued-Retired k c sleeping ts (ground arith) (ground arith) n r)
    | yes e ↦ elim (ℕ_discrete c 0) [
      | yes z ↦
          rw (retire-idle k c d e z)
            (unqueued-Retired k c ready ts (ground arith) (ground arith) n r)
      | no z ↦ rw (retire-ready k c d e z) (
          Returns-bind (add_to_ready_list (pos c) k) (λ k'. done (set_state c ready k'))
            (λ k'. Queued k' (ts ++ c ∷ []) × Linked k ts c k') (Retired k c ts)
            (add_to_ready_list-Added k ts c (omega arith) h n r.queued)
            (λ k' a. Queued-Retired k c ts k' (ground arith) (ground arith) e n r a))
    ]
  ]
]
