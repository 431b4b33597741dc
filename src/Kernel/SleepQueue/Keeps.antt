-- ===== src/Kernel/SleepQueue/Keeps.antt =====
-- The fields of a thread that belong to its process, through sleepq_wake_all of
-- kudos/kernel/sleepq.c.
use aar.Base.{
  ℕ, zero, suc, ◌≡◌, refl, arith, Bool-cases, Option, none, some, Option-cases, inl, inr, Outcome,
  done, Partly, Partly-bind, Partly-any, Partly-mono, ◌>>=◌,
}
use aar.Base.Int.{ℤ, pos}
use aar.Kernel.{Kernel, ready, max_threads, set_state, is_sleeping, no_thread}
use aar.Kernel.Scheduler.{add_to_ready_list}
use aar.Kernel.Scheduler.Keeps.{Keeps, Keeps-trans, add_to_ready_list-Keeps}
use aar.Kernel.SleepQueue.{
  sleepq_hash, link, seek, unlink, wait_for, wake_thread, wake_loop, sleepq_wake_all,
}

wake_thread-Keeps : (t : ℕ) (k : Kernel) → Partly (wake_thread t k) (Keeps k)
unfolding wake_thread
wake_thread-Keeps t k = elim (Bool-cases (is_sleeping (k.threads t).state)) [
  | inl e ↦
      rw (e, wake_thread)
        (Partly-mono (add_to_ready_list (pos t) (set_state t ready (wait_for t 0 k)))
          (Keeps (set_state t ready (wait_for t 0 k))) (Keeps k)
          (add_to_ready_list-Keeps (pos t) (set_state t ready (wait_for t 0 k)))
          λ k' a.
            Keeps-trans k (set_state t ready (wait_for t 0 k)) k'
              (λ x. (ground arith, ground arith)) a)
  | inr e ↦ rw (e, wake_thread) (λ x. (ground arith, ground arith))
]

unlink-Keeps :
    (h t : ℕ) (prev : ℤ) (k : Kernel) (o : Option ℕ) → link prev ≡ o → Keeps k (unlink h prev t k)
unlink-Keeps h t prev k none e = rw (e, unlink) (λ x. (refl, refl))
unlink-Keeps h t prev k (some p) e = rw (e, unlink) (λ x. (ground arith, ground arith))

-- Taking a thread out and waking it.
woken-Keeps :
    (h t : ℕ) (prev : ℤ) (k : Kernel) → Partly (wake_thread t (unlink h prev t k)) (Keeps k)
woken-Keeps h t prev k =
    Partly-mono (wake_thread t (unlink h prev t k)) (Keeps (unlink h prev t k)) (Keeps k)
      (wake_thread-Keeps t (unlink h prev t k))
      λ k' a. Keeps-trans k (unlink h prev t k) k' (unlink-Keeps h t prev k (link prev) refl) a

abbrev after_search : ℕ → ℕ → ℤ → ℤ → Kernel → Outcome Kernel
after_search n r prev first k = elim (link first) [
  | none ↦ wake_loop n r prev first k
  | some t ↦ do
    k' ← wake_thread t (unlink (sleepq_hash r) prev t k)
    wake_loop n r prev (k.threads t).next k'
]

loop_round :
    (n r t : ℕ) (prev first : ℤ) (k : Kernel)
    → link first ≡ some t
    → wake_loop (suc n) r prev first k
      ≡ (seek max_threads k.threads r prev first >>= λ s. after_search n r s.0 s.1 k)
unfolding wake_loop
loop_round n r t prev first k e = rw (e, wake_loop)

loop_end :
    (n r : ℕ) (prev first : ℤ) (k : Kernel)
    → link first ≡ none
    → wake_loop (suc n) r prev first k ≡ done k
unfolding wake_loop
loop_end n r prev first k e = rw (e, wake_loop)

wake_loop-Keeps :
    (n r : ℕ) (prev first : ℤ) (k : Kernel) → Partly (wake_loop n r prev first k) (Keeps k)
unfolding wake_loop
wake_loop-Keeps zero r prev first k = tt
wake_loop-Keeps (suc n) r prev first k = elim (Option-cases (link first)) [
  | inl e ↦ rw (loop_end n r prev first k e) (λ x. (refl, refl))
  | inr (t, e) ↦ rw (loop_round n r t prev first k e) (
      Partly-bind (seek max_threads k.threads r prev first) (λ s. after_search n r s.0 s.1 k)
        (λ _. Unit {0}) (Keeps k)
        (Partly-any (seek max_threads k.threads r prev first) (λ _. Unit {0}) (λ _. tt))
        λ s _. elim (Option-cases (link s.1)) [
          | inl f ↦ rw (f, after_search) (wake_loop-Keeps n r s.0 s.1 k)
          | inr (w, f) ↦
              rw (f, after_search)
                (Partly-bind (wake_thread w (unlink (sleepq_hash r) s.0 w k))
                  (wake_loop n r s.0 (k.threads w).next) (Keeps k) (Keeps k)
                  (woken-Keeps (sleepq_hash r) w s.0 k)
                  λ k' a.
                    Partly-mono (wake_loop n r s.0 (k.threads w).next k') (Keeps k') (Keeps k)
                      (wake_loop-Keeps n r s.0 (k.threads w).next k')
                      λ k'' b. Keeps-trans k k' k'' a b)
        ])
]

pub sleepq_wake_all-Keeps : (r : ℕ) (k : Kernel) → Partly (sleepq_wake_all r k) (Keeps k)
unfolding sleepq_wake_all
sleepq_wake_all-Keeps r k = wake_loop-Keeps max_threads r no_thread (k.sleepq (sleepq_hash r)) k
