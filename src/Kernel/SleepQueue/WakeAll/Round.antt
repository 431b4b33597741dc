-- ===== src/Kernel/SleepQueue/WakeAll/Round.antt =====
-- One round of sleepq_wake_all of kudos/kernel/sleepq.c that finds a thread, and the rounds after it.
use aar.Base.{
  ℕ, ◌≡◌, ◌≢◌, sym, ap, subst, ◌∙◌, inl, inr, List, [], ◌∷◌, ◌++◌, arith, NotIn, NotIn-of_Distinct,
  NotIn-back, Distinct, Distinct-apart, All, All-append, All-mono, All-zip, All-of_NotIn, update,
  update_twice, ◌==◌, ==_self, ==_ne, if◌then◌else◌, Bool-cases,
}
use aar.Kernel.{Kernel, is_sleeping}
use aar.Kernel.SleepQueue.{sleepq_hash}
use aar.Kernel.SleepQueue.Frame.{Sound}
use aar.Kernel.SleepQueue.Wake.{Woken}
use aar.Kernel.SleepQueue.WakeAll.{
  others, woken, AllWoken, others_none, woken_none, woken-agree, others-agree,
}
use mathlib.Core.List.{append_assoc}

abbrev Unchanged : Kernel → Kernel → ℕ → Type 0
Unchanged k k' t =
    ((k'.threads t).sleeps_on ≡ (k.threads t).sleeps_on)
    × ((k'.threads t).state ≡ (k.threads t).state)

-- The ready list after a round in which `w` was woken.
abbrev pub longer : Kernel → List ℕ → ℕ → List ℕ
longer k ts w = if is_sleeping (k.threads w).state then ts ++ w ∷ [] else ts

longer-woken :
    (k : Kernel) (r w : ℕ) (ts mid post : List ℕ)
    → All (λ t. (k.threads t).sleeps_on ≢ r) mid
    → (k.threads w).sleeps_on ≡ r
    → longer k ts w ++ woken k.threads r post ≡ ts ++ woken k.threads r (mid ++ w ∷ post)
longer-woken k r w ts mid post a e =
    let here : woken k.threads r (mid ++ w ∷ post) ≡ woken k.threads r (w ∷ post) =
      woken_none k.threads r mid (w ∷ post) a in
    elim (Bool-cases (is_sleeping (k.threads w).state)) [
      | inl s ↦ ground (arith, here, s, e, append_assoc ts (w ∷ []) (woken k.threads r post))
      | inr s ↦ ground (arith, here, s, e)
    ]

-- One round and the rounds after it.
pub round-AllWoken :
    (k k' k'' : Kernel) (r w : ℕ) (ts pre mid post : List ℕ) (bs : ℕ → List ℕ)
    → Distinct ((pre ++ mid) ++ w ∷ post)
    → All (λ t. (k.threads t).sleeps_on ≢ r) mid
    → (k.threads w).sleeps_on ≡ r
    → Woken k ts bs (sleepq_hash r) ((pre ++ mid) ++ post) w k'
    → AllWoken k' r
        (longer k ts w)
        (update bs (sleepq_hash r) ((pre ++ mid) ++ post))
        (pre ++ mid)
        post
        k''
    → AllWoken k r ts bs pre (mid ++ w ∷ post) k''
round-AllWoken k k' k'' r w ts pre mid post bs d a e o u = record {
  sound =
      subst (λ q. Sound k'' q (update bs h (pre ++ others k.threads r (mid ++ w ∷ post)))) list_eq
        (subst (Sound k'' (longer k ts w ++ woken k'.threads r post)) table_eq u.sound);
  resources =
      All-append _ mid (w ∷ post)
        (All-zip (λ t. NotIn t (w ∷ post)) (λ t. (k.threads t).sleeps_on ≢ r) _ mid
          (λ t n x. rw (==_ne (k.threads t).sleeps_on r x) (kept t n).0) apart a)
        (
          rw (e, ==_self r) ((u.kept w out).0 ∙ o.cleared),
          All-zip (Unchanged k k')
              (λ t.
                (k''.threads t).sleeps_on
                ≡ (if (k'.threads t).sleeps_on == r then 0 else (k'.threads t).sleeps_on))
              _ post
              (λ t s x. subst (λ z. (k''.threads t).sleeps_on ≡ (if z == r then 0 else z)) s.0 x)
              same u.resources,
        );
  kept = λ t n. kept t (NotIn-back t mid (w ∷ post) n);
  current = u.current ∙ o.current;
}
  where
    h : ℕ
    h = sleepq_hash r

    out : NotIn w post
    out = NotIn-back w (pre ++ mid) post (NotIn-of_Distinct w (pre ++ mid) post d)

    same : All (Unchanged k k') post
    same =
        All-mono (λ t. w ≢ t) (Unchanged k k') post (λ t n. (o.sleeps_on t n, o.state t n))
          (All-of_NotIn w post out)

    kept : (t : ℕ) → NotIn t (w ∷ post) → Unchanged k k'' t
    kept t n =
        let x = u.kept t n.1 in
        let other : w ≢ t = λ z. n.0 (sym z) in (x.0 ∙ o.sleeps_on t other, x.1 ∙ o.state t other)

    apart : All (λ t. NotIn t (w ∷ post)) mid
    apart = Distinct-apart pre mid (w ∷ post) d

    list_eq : longer k ts w ++ woken k'.threads r post ≡ ts ++ woken k.threads r (mid ++ w ∷ post)
    list_eq =
        ap (λ q. longer k ts w ++ q) (woken-agree k.threads k'.threads r post same)
        ∙ longer-woken k r w ts mid post a e

    rest_eq : (pre ++ mid) ++ others k'.threads r post ≡ pre ++ others k.threads r (mid ++ w ∷ post)
    rest_eq =
        append_assoc pre mid (others k'.threads r post)
        ∙ ap (λ q. pre ++ q)
            (ap (λ q. mid ++ q) (others-agree k.threads k'.threads r post same ∙ dropped)
              ∙ sym (others_none k.threads r mid (w ∷ post) a))
      where
        dropped : others k.threads r post ≡ others k.threads r (w ∷ post)
        dropped = ground (arith, e)

    table_eq :
        update (update bs h ((pre ++ mid) ++ post)) h ((pre ++ mid) ++ others k'.threads r post)
        ≡ update bs h (pre ++ others k.threads r (mid ++ w ∷ post))
    table_eq = update_twice bs h _ _ ∙ ap (update bs h) rest_eq
