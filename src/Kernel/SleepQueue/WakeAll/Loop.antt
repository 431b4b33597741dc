-- ===== src/Kernel/SleepQueue/WakeAll/Loop.antt =====
-- The loop of sleepq_wake_all of kudos/kernel/sleepq.c, round by round.
use aar.Base.{
  ℕ, zero, suc, ◌<◌, ◌≡◌, refl, ◌≢◌, sym, ap, subst, ◌∙◌, inl, inr, List, [], ◌∷◌, ◌++◌, arith,
  NotIn-of_Distinct, NotIn-front, All, All-append, All-back, All-middle, All-mono, All-zip,
  All-of_NotIn, length, length-append, update, update_self, update_same, ==_ne, done, Returns,
  Returns-bind, Returns-mono, ◌>>=◌,
}
use aar.Base.Int.{ℤ, pos}
use aar.Kernel.{Kernel, max_threads, no_thread}
use aar.Kernel.Chain.{Chain}
use aar.Kernel.SleepQueue.{sleepq_hash, unlink, wake_thread, wake_loop, sleepq_wake_all}
use aar.Kernel.SleepQueue.Buckets.{Bucket, IsTid, WaitsAt, last_of, seek-found}
use aar.Kernel.SleepQueue.Frame.{Sound, length-Bucket}
use aar.Kernel.SleepQueue.Wake.{Woken, unlinked-Woken}
use aar.Kernel.SleepQueue.WakeAll.{
  others, woken, AllWoken, scan, others_none, woken_none, last_of-append, Chain-restart, Chain-rest,
  loop-ends, Chain-head, loop-wakes,
}
use mathlib.Core.List.{append_assoc, append-nil}
use aar.Kernel.SleepQueue.WakeAll.Round.{longer, round-AllWoken}

-- Nobody is left that waits for `r`.
ends-AllWoken :
    (k : Kernel) (r : ℕ) (ts pre post : List ℕ) (bs : ℕ → List ℕ)
    → Sound k ts bs
    → bs (sleepq_hash r) ≡ pre ++ post
    → All (λ t. (k.threads t).sleeps_on ≢ r) post
    → AllWoken k r ts bs pre post k
ends-AllWoken k r ts pre post bs s q a = record {
  sound =
      subst (λ z. Sound k z (update bs (sleepq_hash r) (pre ++ others k.threads r post)))
        (sym (ap (λ z. ts ++ z) (no_one woken_nil) ∙ append-nil ts))
        (subst (Sound k ts) (sym (update_same bs (sleepq_hash r) _ (q ∙ ap (λ z. pre ++ z) stay)))
          s);
  resources =
      All-mono (λ t. (k.threads t).sleeps_on ≢ r) _ post
        (λ t n. rw (==_ne (k.threads t).sleeps_on r n)) a;
  kept = λ t n. (refl, refl);
  current = refl;
}
  where
    stay : post ≡ others k.threads r post
    stay =
        sym (append-nil post)
        ∙ sym (others_none k.threads r post [] a)
        ∙ ap (others k.threads r) (append-nil post)

    woken_nil : woken k.threads r (post ++ []) ≡ []
    woken_nil = woken_none k.threads r post [] a

    no_one : woken k.threads r (post ++ []) ≡ [] → woken k.threads r post ≡ []
    no_one e = ap (woken k.threads r) (sym (append-nil post)) ∙ e

-- The next round begins behind `w`, where the queue now goes on.
next-Chain :
    (k k' : Kernel) (h w : ℕ) (first : ℤ) (done_with mid post : List ℕ)
    → Chain k.threads first (mid ++ w ∷ post)
    → Bucket k' h (done_with ++ post)
    → Chain k'.threads (k.threads w).next post
next-Chain k k' h w first done_with mid post c b =
    Chain-restart k'.threads k.threads (k'.sleepq h) (k.threads w).next done_with post b.chain
      (Chain-rest k.threads first mid w post c)

-- The call of a round that finds `w`.
round-wakes :
    (n : ℕ) (k : Kernel) (r w : ℕ) (pre mid post : List ℕ) (first : ℤ)
    → Bucket k (sleepq_hash r) ((pre ++ mid) ++ w ∷ post)
    → All (λ t. (k.threads t).sleeps_on ≢ r) mid
    → (k.threads w).sleeps_on ≡ r
    → Chain k.threads first (mid ++ w ∷ post)
    → wake_loop (suc n) r (last_of no_thread pre) first k ≡ (
        wake_thread w (unlink (sleepq_hash r) (last_of no_thread (pre ++ mid)) w k) >>= λ k'.
        wake_loop n r (last_of no_thread (pre ++ mid)) (k.threads w).next k')
round-wakes n k r w pre mid post first b a e c =
    let bounds : All IsTid (mid ++ w ∷ post) =
      All-back IsTid pre (mid ++ w ∷ post)
        (subst (All IsTid) (append_assoc pre mid (w ∷ post)) b.bounds) in
    let (x, f, p) = Chain-head k.threads first mid w post c bounds in
    let short : length mid < max_threads = omega (
      arith,
      length-Bucket k (sleepq_hash r) ((pre ++ mid) ++ w ∷ post) b,
      length-append (pre ++ mid) (w ∷ post),
      length-append pre mid,
    ) in
    loop-wakes n k r x w (last_of no_thread pre) (last_of no_thread (pre ++ mid)) first f p
      (All-middle IsTid w mid post bounds).0
      (seek-found max_threads k.threads r (last_of no_thread pre) first mid post w short c bounds a
          e
        ∙ ap (λ (z : ℤ). done (z, pos w)) (sym (last_of-append no_thread pre mid)))

-- The rounds from the thread at the head of `post`.
loop-AllWoken :
    (n : ℕ) (k : Kernel) (r : ℕ) (ts pre post : List ℕ) (bs : ℕ → List ℕ) (first : ℤ)
    → length post < n
    → Sound k ts bs
    → bs (sleepq_hash r) ≡ pre ++ post
    → All (λ t. (k.threads t).sleeps_on ≢ r) pre
    → Chain k.threads first post
    → Returns (wake_loop n r (last_of no_thread pre) first k) (AllWoken k r ts bs pre post)
loop-AllWoken zero k r ts pre post bs first l s q a c = absurd (omega arith)
loop-AllWoken (suc n) k r ts pre post bs first l s q a c = elim (scan k.threads r post) [
  | inl f ↦
      let b = subst (Bucket k (sleepq_hash r)) q (s.sleepers (sleepq_hash r)) in
      rw
        (loop-ends (suc n) k r (last_of no_thread pre) first post l
          (omega (arith, length-Bucket k (sleepq_hash r) (pre ++ post) b, length-append pre post)) c
          (All-back IsTid pre post b.bounds) f)
        (ends-AllWoken k r ts pre post bs s q f)
  | inr (mid, w, post', z, f, e) ↦
      let c' = subst (Chain k.threads first) z c in
      let b : Bucket k (sleepq_hash r) ((pre ++ mid) ++ w ∷ post') =
        subst (Bucket k (sleepq_hash r))
          (q ∙ ap (λ y. pre ++ y) z ∙ sym (append_assoc pre mid (w ∷ post')))
          (s.sleepers (sleepq_hash r)) in
      subst
        (λ y.
          Returns (wake_loop (suc n) r (last_of no_thread pre) first k) (AllWoken k r ts bs pre y))
        (sym z)
        (rw (round-wakes n k r w pre mid post' first b f e c') (
          Returns-bind (wake_thread w (unlink (sleepq_hash r) (last_of no_thread (pre ++ mid)) w k))
            (wake_loop n r (last_of no_thread (pre ++ mid)) (k.threads w).next)
            (Woken k ts bs (sleepq_hash r) ((pre ++ mid) ++ post') w)
            (AllWoken k r ts bs pre (mid ++ w ∷ post'))
            (unlinked-Woken k (sleepq_hash r) w (pre ++ mid) post' ts bs
              (All-middle (WaitsAt k (sleepq_hash r)) w (pre ++ mid) post' b.waiting) b s)
            λ k' o.
              let qs = update bs (sleepq_hash r) ((pre ++ mid) ++ post') in
              let q' = update_self bs (sleepq_hash r) ((pre ++ mid) ++ post') in
              let n' = NotIn-of_Distinct w (pre ++ mid) post' b.distinct in
              Returns-mono (wake_loop n r (last_of no_thread (pre ++ mid)) (k.threads w).next k')
                (AllWoken k' r (longer k ts w) qs (pre ++ mid) post')
                (AllWoken k r ts bs pre (mid ++ w ∷ post'))
                (loop-AllWoken n k' r (longer k ts w) (pre ++ mid) post' qs (k.threads w).next
                  (omega (arith, ap length z, length-append mid (w ∷ post'))) o.sound q'
                  (All-zip (λ t. w ≢ t) (λ t. (k.threads t).sleeps_on ≢ r) _ (pre ++ mid)
                    (λ t d x y. x (sym (o.sleeps_on t d) ∙ y))
                    (All-of_NotIn w (pre ++ mid) (NotIn-front w (pre ++ mid) post' n'))
                    (All-append _ pre mid a f))
                  (next-Chain k k' (sleepq_hash r) w first (pre ++ mid) mid post' c'
                    (subst (Bucket k' (sleepq_hash r)) q' (o.sound.sleepers (sleepq_hash r)))))
                λ k'' u. round-AllWoken k k' k'' r w ts pre mid post' bs b.distinct f e o u))
]

-- On well-formed lists sleepq_wake_all always returns: the threads that wait for `r` are taken out
-- of their queue and wait for nothing; those among them that had gone to sleep are ready, and
-- stand behind the ready list in the order in which they came. The others of that queue keep their
-- places and what they wait for, and no other thread changes what it waits for or its state.
pub sleepq_wake_all-AllWoken :
    (k : Kernel) (r : ℕ) (ts : List ℕ) (bs : ℕ → List ℕ)
    → Sound k ts bs
    → Returns (sleepq_wake_all r k) (AllWoken k r ts bs [] (bs (sleepq_hash r)))
unfolding sleepq_wake_all
sleepq_wake_all-AllWoken k r ts bs s =
    let b = s.sleepers (sleepq_hash r) in
    loop-AllWoken max_threads k r ts [] (bs (sleepq_hash r)) bs (k.sleepq (sleepq_hash r))
      (length-Bucket k (sleepq_hash r) (bs (sleepq_hash r)) b) s refl tt b.chain
