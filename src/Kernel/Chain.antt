-- ===== src/Kernel/Chain.antt =====
-- Lists of threads that are linked through the `next` fields of the thread table.
use aar.Base.{ne_of_NotIn, NotIn-front}
use aar.Base.{
  ℕ, ◌≡◌, refl, sym, ◌≢◌, true, List, [], ◌∷◌, ◌++◌, arith, NotIn, Distinct, All, All-zip,
  All-of_NotIn, update, update_ne,
}
use aar.Base.Int.{ℤ, pos, is_neg}
use aar.Kernel.{Kernel, Thread, no_thread, set_next}

-- Following `next` from `h` passes the threads `ts` and ends at a negative number.
abbrev pub Chain : (ℕ → Thread) → ℤ → List ℕ → Type 0
Chain f h [] = is_neg h ≡ true
Chain f h (t ∷ ts) = (h ≡ pos t) × Chain f (f t).next ts

-- `z` is the last of the threads, or negative if there are none.
abbrev pub LastIs : ℤ → List ℕ → Type 0
LastIs z [] = is_neg z ≡ true
LastIs z (t ∷ []) = z ≡ pos t
LastIs z (t ∷ u ∷ ts) = LastIs z (u ∷ ts)

-- Only the `next` fields of the threads on it matter to a chain.
pub Chain-agree :
    (f g : ℕ → Thread) (h : ℤ) (ts : List ℕ)
    → All (λ t. (g t).next ≡ (f t).next) ts
    → Chain f h ts
    → Chain g h ts
Chain-agree f g h [] a c = c
Chain-agree f g h (t ∷ ts) a c = (c.0, rw a.0 (Chain-agree f g (f t).next ts a.1 c.1))

pub Chain-update :
    (f : ℕ → Thread) (h : ℤ) (ts : List ℕ) (t : ℕ) (v : Thread)
    → NotIn t ts
    → Chain f h ts
    → Chain (update f t v) h ts
Chain-update f h [] t v n c = c
Chain-update f h (x ∷ ts) t v n c =
    (c.0, rw (update_ne f t x v n.0) (Chain-update f (f x).next ts t v n.1 c.1))

-- The last thread of a list with no repetition stands nowhere before.
pub ne_of_LastIs :
    (x l : ℕ) (y : ℕ) (ts : List ℕ) → NotIn x (y ∷ ts) → LastIs (pos l) (y ∷ ts) → x ≢ l
ne_of_LastIs x l y [] n e = ground (arith, n.0)
ne_of_LastIs x l y (z ∷ ts) n e = ne_of_LastIs x l z ts n.1 e

-- Linking `t` behind the last thread appends it.
pub Chain-link :
    (k : Kernel) (h : ℤ) (t l x : ℕ) (ts : List ℕ)
    → NotIn t (x ∷ ts)
    → Distinct (x ∷ ts)
    → LastIs (pos l) (x ∷ ts)
    → Chain k.threads h (x ∷ ts)
    → Chain (set_next t no_thread (set_next l (pos t) k)).threads h ((x ∷ ts) ++ t ∷ [])
Chain-link k h t l x [] n d e c = ground (arith, n.0)
Chain-link k h t l x (y ∷ ts) n d e c = (
  c.0,
  rw (next_kept (n.0) (ne_of_LastIs x l y ts d.0 e))
      (Chain-link k (k.threads x).next t l y ts n.1 d.1 e c.1),
)
  where
    next_kept :
        t ≢ x
        → x ≢ l
        → ((set_next t no_thread (set_next l (pos t) k)).threads x).next ≡ (k.threads x).next
    next_kept a b = ground arith

pub LastIs-append : (t : ℕ) (ts : List ℕ) → LastIs (pos t) (ts ++ t ∷ [])
LastIs-append t [] = refl
LastIs-append t (x ∷ []) = refl
LastIs-append t (x ∷ y ∷ ts) = LastIs-append t (y ∷ ts)

-- Any table in which `t` follows the last thread, and ends the list, appends it.
pub Chain-extend :
    (f g : ℕ → Thread) (h : ℤ) (t l x : ℕ) (ts : List ℕ)
    → ((y : ℕ) → l ≢ y → t ≢ y → (g y).next ≡ (f y).next)
    → (g l).next ≡ pos t
    → is_neg (g t).next ≡ true
    → NotIn t (x ∷ ts)
    → Distinct (x ∷ ts)
    → LastIs (pos l) (x ∷ ts)
    → Chain f h (x ∷ ts)
    → Chain g h ((x ∷ ts) ++ t ∷ [])
Chain-extend f g h t l x [] same link end n d e c =
    let here : l ≡ x = ground arith in (c.0, (rw (← here) link, end))
Chain-extend f g h t l x (y ∷ ts) same link end n d e c = (
  c.0,
  rw (same x (λ q. ne_of_LastIs x l y ts d.0 e (sym q)) n.0)
      (Chain-extend f g (f x).next t l y ts same link end n.1 d.1 e c.1),
)

-- Any table in which the thread before `w` is followed by the one after `w` takes `w` out.
pub Chain-unlink :
    (f g : ℕ → Thread) (h : ℤ) (w l x : ℕ) (xs ys : List ℕ)
    → ((y : ℕ) → l ≢ y → w ≢ y → (g y).next ≡ (f y).next)
    → (g l).next ≡ (f w).next
    → Distinct ((x ∷ xs) ++ w ∷ ys)
    → LastIs (pos l) (x ∷ xs)
    → Chain f h ((x ∷ xs) ++ w ∷ ys)
    → Chain g h ((x ∷ xs) ++ ys)
Chain-unlink f g h w l x [] ys same link d e c =
    let here : l ≡ x = ground arith in
    (
      c.0,
      rw (← here, link)
          (Chain-agree f g (f w).next ys
            (All-zip (λ y. x ≢ y) (λ y. w ≢ y) (λ y. (g y).next ≡ (f y).next) ys
              (λ y p q. same y (rw here p) q) (All-of_NotIn x ys d.0.1) (All-of_NotIn w ys d.1.0))
            c.1.1),
    )
Chain-unlink f g h w l x (y ∷ xs) ys same link d e c = (
  c.0,
  rw
      (same x (λ q. ne_of_LastIs x l y xs (NotIn-front x (y ∷ xs) (w ∷ ys) d.0) e (sym q))
        (λ q. ne_of_NotIn x w (y ∷ xs) ys d.0 (sym q)))
      (Chain-unlink f g (f x).next w l y xs ys same link d.1 e c.1),
)
