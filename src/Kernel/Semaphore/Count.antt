-- ===== src/Kernel/Semaphore/Count.antt =====
-- How many threads of a sleep queue wait for one resource.
use aar.Base.{All-mono, false}
use aar.Kernel.SleepQueue.{sleepq_hash}
use aar.Base.{
  ℕ, suc, ◌+◌, ◌≡◌, refl, ◌≢◌, sym, ap, ◌∙◌, List, [], ◌∷◌, ◌++◌, arith, NotIn, All, All-of_NotIn,
  update, update_self, update_ne, ◌==◌, if◌then◌else◌, ℕ_discrete, ==_ne,
}
use aar.Kernel.{Thread}

abbrev pub count_waiting : (ℕ → Thread) → ℕ → List ℕ → ℕ
count_waiting f r [] = 0
count_waiting f r (t ∷ ts) = (if (f t).sleeps_on == r then 1 else 0) + count_waiting f r ts

pub count_waiting-agree :
    (f g : ℕ → Thread) (r : ℕ) (ts : List ℕ)
    → All (λ t. (g t).sleeps_on ≡ (f t).sleeps_on) ts
    → count_waiting g r ts ≡ count_waiting f r ts
count_waiting-agree f g r [] a = refl
count_waiting-agree f g r (t ∷ ts) a = rw (a.0, count_waiting-agree f g r ts a.1)

pub count_waiting-append :
    (f : ℕ → Thread) (r : ℕ) (xs ys : List ℕ)
    → count_waiting f r (xs ++ ys) ≡ count_waiting f r xs + count_waiting f r ys
count_waiting-append f r [] ys = omega arith
count_waiting-append f r (x ∷ xs) ys = omega (arith, count_waiting-append f r xs ys)

-- Where somebody waits, there is a first one.
pub first_waiting :
    (f : ℕ → Thread) (r n : ℕ) (ts : List ℕ)
    → count_waiting f r ts ≡ suc n
    → (pre : List ℕ) × (w : ℕ) × (post : List ℕ) × (ts ≡ pre ++ w ∷ post)
      × All (λ t. (f t).sleeps_on ≢ r) pre
      × ((f w).sleeps_on ≡ r)
first_waiting f r n [] e = absurd (omega arith)
first_waiting f r n (t ∷ ts) e = elim (ℕ_discrete (f t).sleeps_on r) [
  | yes d ↦ ([], t, ts, refl, tt, d)
  | no d ↦
      let (pre, w, post, q, a, h) = first_waiting f r n ts (ground arith) in
      (t ∷ pre, w, post, ap (◌∷◌ t) q, (d, a), h)
]

-- A thread that joins the queue of `r` counts for `r` and for nothing else.
pub count-joined :
    (f g : ℕ → Thread) (c r b : ℕ) (bs : ℕ → List ℕ)
    → NotIn c (bs (sleepq_hash b))
    → (g c).sleeps_on ≡ r
    → ((x : ℕ) → c ≢ x → (g x).sleeps_on ≡ (f x).sleeps_on)
    → count_waiting g b (update bs (sleepq_hash r) (bs (sleepq_hash r) ++ c ∷ []) (sleepq_hash b))
      ≡ count_waiting f b (bs (sleepq_hash b)) + (if r == b then 1 else 0)
count-joined f g c r b bs n z same = elim (ℕ_discrete (sleepq_hash r) (sleepq_hash b)) [
  | yes d ↦
      let e : update bs (sleepq_hash r) (bs (sleepq_hash r) ++ c ∷ []) (sleepq_hash b)
          ≡ bs (sleepq_hash b) ++ c ∷ [] =
        ap (update bs (sleepq_hash r) (bs (sleepq_hash r) ++ c ∷ [])) (sym d)
        ∙ update_self bs (sleepq_hash r) (bs (sleepq_hash r) ++ c ∷ [])
        ∙ ap (λ j. bs j ++ c ∷ []) d in
      rw (e, count_waiting-append g b (bs (sleepq_hash b)) (c ∷ []), old, z) (omega arith)
  | no d ↦
      let ne : (r == b) ≡ false = ==_ne r b (λ e. d (ap sleepq_hash e)) in
      rw (update_ne bs (sleepq_hash r) (sleepq_hash b) _ d, old, ne) (omega arith)
]
  where
    old : count_waiting g b (bs (sleepq_hash b)) ≡ count_waiting f b (bs (sleepq_hash b))
    old = count_waiting-agree f g b (bs (sleepq_hash b)) (
        All-mono (λ x. c ≢ x) (λ x. (g x).sleeps_on ≡ (f x).sleeps_on) (bs (sleepq_hash b)) same
          (All-of_NotIn c (bs (sleepq_hash b)) n))

-- A thread that leaves the queue of `r` counts for `r` and for nothing else.
pub count-left :
    (f g : ℕ → Thread) (w r b : ℕ) (pre post : List ℕ) (bs : ℕ → List ℕ)
    → bs (sleepq_hash r) ≡ pre ++ w ∷ post
    → NotIn w (pre ++ post)
    → (sleepq_hash r ≢ sleepq_hash b → NotIn w (bs (sleepq_hash b)))
    → (f w).sleeps_on ≡ r
    → ((x : ℕ) → w ≢ x → (g x).sleeps_on ≡ (f x).sleeps_on)
    → count_waiting g b (update bs (sleepq_hash r) (pre ++ post) (sleepq_hash b))
        + (if r == b then 1 else 0)
      ≡ count_waiting f b (bs (sleepq_hash b))
count-left f g w r b pre post bs q n m z same = elim (ℕ_discrete (sleepq_hash r) (sleepq_hash b)) [
  | yes d ↦
      let e : update bs (sleepq_hash r) (pre ++ post) (sleepq_hash b) ≡ pre ++ post =
        ap (update bs (sleepq_hash r) (pre ++ post)) (sym d)
        ∙ update_self bs (sleepq_hash r) (pre ++ post) in
      let whole : bs (sleepq_hash b) ≡ pre ++ w ∷ post = ap bs (sym d) ∙ q in
      rw (e, whole, old (pre ++ post) n) (middle z)
  | no d ↦
      let ne : (r == b) ≡ false = ==_ne r b (λ e. d (ap sleepq_hash e)) in
      rw (update_ne bs (sleepq_hash r) (sleepq_hash b) _ d, ne)
        (omega (arith, old (bs (sleepq_hash b)) (m d)))
]
  where
    old : (ts : List ℕ) → NotIn w ts → count_waiting g b ts ≡ count_waiting f b ts
    old ts k = count_waiting-agree f g b ts (
        All-mono (λ x. w ≢ x) (λ x. (g x).sleeps_on ≡ (f x).sleeps_on) ts same
          (All-of_NotIn w ts k))

    middle :
        (f w).sleeps_on ≡ r
        → count_waiting f b (pre ++ post) + (if r == b then 1 else 0)
          ≡ count_waiting f b (pre ++ w ∷ post)
    middle v =
        rw (count_waiting-append f b pre post, count_waiting-append f b pre (w ∷ post), v)
          (omega arith)
