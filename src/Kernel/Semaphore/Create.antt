-- ===== src/Kernel/Semaphore/Create.antt =====
-- semaphore_create of kudos/kernel/semaphore.c: the cyclic search for an unused semaphore.
use aar.Base.{
  ℕ, zero, suc, ◌+◌, ◌-◌, ◌%◌, ◌<◌, ◌≡◌, refl, ◌≢◌, sym, subst, ap, ◌∙◌, true, false, arith,
  update_self, update_ne, Option, none, some, Returns, Bool-cases, inl, inr, ℕ_discrete,
}
use aar.Base.Int.{ℤ, pos, negsuc, eq_ℤ}
use aar.Kernel.Threads.{thread_get_current_thread}
use aar.Kernel.Semaphore.{
  System, max_semaphores, set_value, set_creator, find_unused, semaphore_create,
}

abbrev Unused : System → ℕ → Type 0
Unused s i = (s.semaphores i).creator ≡ negsuc 0

unused_of : (z : ℤ) → eq_ℤ z (negsuc 0) ≡ true → z ≡ negsuc 0
unused_of (pos n) h = ground arith
unused_of (negsuc n) h = let e : n ≡ 0 = ground arith in ap negsuc e

used_of : (z : ℤ) → eq_ℤ z (negsuc 0) ≡ false → z ≢ negsuc 0
used_of z h e = let f : eq_ℤ z (negsuc 0) ≡ true = ap (λ (y : ℤ). eq_ℤ y (negsuc 0)) e in cc

abbrev step : System → System
step s = record s { next = (s.next + 1) % max_semaphores }

-- How the search with `n` rounds ends.
data Searches (n c : ℕ) (s : System) : Option ℕ × System → Type 0 where
  hit :
      {r : Option ℕ × System} (i : ℕ)
      → i < max_semaphores
      → Unused s i
      → r.0 ≡ some i
      → r.1.semaphores ≡ (set_creator i (pos c) s).semaphores
      → r.1.kernel ≡ s.kernel
      → Searches n c s r
  miss :
      {r : Option ℕ × System}
      → ((j : ℕ) → j < n → ¬ Unused s ((s.next + j) % max_semaphores))
      → r.0 ≡ none
      → r.1.semaphores ≡ s.semaphores
      → r.1.kernel ≡ s.kernel
      → Searches n c s r

here :
    (n c : ℕ) (s : System)
    → eq_ℤ (s.semaphores s.next).creator (negsuc 0) ≡ true
    → find_unused (suc n) c s ≡ (some s.next, set_creator s.next (pos c) (step s))
unfolding find_unused
here n c s e = rw e

later :
    (n c : ℕ) (s : System)
    → eq_ℤ (s.semaphores s.next).creator (negsuc 0) ≡ false
    → find_unused (suc n) c s ≡ find_unused n c (step s)
unfolding find_unused
later n c s e = rw e

widen :
    (n c : ℕ) (s : System) (r : Option ℕ × System)
    → s.next < max_semaphores
    → ¬ Unused s s.next
    → Searches n c (step s) r
    → Searches (suc n) c s r
widen n c s r h u (hit i l v e f g) = hit i l v e f g
widen n c s r h u (miss v e f g) =
    miss
      (λ j l. elim (ℕ_discrete j 0) [
        | yes z ↦
            let at : (s.next + j) % max_semaphores ≡ s.next = omega arith in
            subst (λ x. ¬ Unused s x) (sym at) u
        | no z ↦
            let at : ((s.next + 1) % max_semaphores + (j - 1)) % max_semaphores
                ≡ (s.next + j) % max_semaphores =
              omega arith in
            subst (λ x. ¬ Unused s x) at (v (j - 1) (omega arith))
      ])
      e f g

find_unused-Searches :
    (n c : ℕ) (s : System) → s.next < max_semaphores → Searches n c s (find_unused n c s)
unfolding find_unused
find_unused-Searches zero c s h = miss (λ j l. absurd (omega arith)) refl refl refl
find_unused-Searches (suc n) c s h =
    elim (Bool-cases (eq_ℤ (s.semaphores s.next).creator (negsuc 0))) [
      | inl e ↦
          rw (here n c s e)
            (hit s.next h (unused_of (s.semaphores s.next).creator e) refl refl refl)
      | inr e ↦ rw (later n c s e) (
          widen n c s (find_unused n c (step s)) h (used_of (s.semaphores s.next).creator e)
            (find_unused-Searches n c (step s) (omega arith)))
    ]

-- The two ways in which semaphore_create ends.
pub data CreatesSemaphore (cpu value : ℕ) (s : System) : Option ℕ × System → Type 0 where
  created :
      {r : Option ℕ × System} (i : ℕ)
      → i < max_semaphores
      → Unused s i
      → r.0 ≡ some i
      → (r.1.semaphores i).value ≡ pos value
      → (r.1.semaphores i).creator ≡ pos (s.kernel.current cpu)
      → ((x : ℕ) → i ≢ x → r.1.semaphores x ≡ s.semaphores x)
      → r.1.kernel ≡ s.kernel
      → CreatesSemaphore cpu value s r
  all_used :
      {r : Option ℕ × System}
      → ((i : ℕ) → i < max_semaphores → ¬ Unused s i)
      → r.0 ≡ none
      → r.1.semaphores ≡ s.semaphores
      → r.1.kernel ≡ s.kernel
      → CreatesSemaphore cpu value s r

abbrev finish : ℕ → Option ℕ × System → Option ℕ × System
finish value (none, s') = (none, s')
finish value (some i, s') = (some i, set_value i (pos value) s')

finish-created :
    (cpu value : ℕ) (s : System) (o : Option ℕ) (s' : System)
    → s.next < max_semaphores
    → Searches max_semaphores (s.kernel.current cpu) s (o, s')
    → CreatesSemaphore cpu value s (finish value (o, s'))
finish-created cpu value s none s' h (hit i l u e f g) = cc
finish-created cpu value s none s' h (miss v e f g) =
    all_used
      (λ i l.
        let j = (i + max_semaphores - s.next) % max_semaphores in
        let at : (s.next + j) % max_semaphores ≡ i = omega arith in
        subst (λ x. ¬ Unused s x) at (v j (omega arith)))
      refl f g
finish-created cpu value s (some k) s' h (miss v e f g) = cc
finish-created cpu value s (some k) s' h (hit i l u e f g) =
    let same : k ≡ i = ground (arith, e) in
    let owned = λ (x : ℕ). ap (λ t. t x) f in
    created i l u e
      (subst (λ x. ((set_value k (pos value) s').semaphores x).value ≡ pos value) same
        (ap (λ z. z.value) (update_self s'.semaphores k _)))
      (subst (λ x. ((set_value k (pos value) s').semaphores x).creator ≡ pos (s.kernel.current cpu))
        same
        (ap (λ z. z.creator) (update_self s'.semaphores k _)
          ∙ ap (λ x. (s'.semaphores x).creator) same
          ∙ ap (λ z. z.creator) (owned i)
          ∙ ap (λ z. z.creator) (update_self s.semaphores i _)))
      (λ x d.
        update_ne s'.semaphores k x _ (λ z. d (sym same ∙ z))
        ∙ owned x
        ∙ update_ne s.semaphores i x _ d)
      g

-- If its static variable is within the table, semaphore_create of a value that is not negative
-- returns: either an unused semaphore, which gets that value and the calling thread as its creator,
-- or NULL, and then every semaphore is in use. Other semaphores and the threads are as before.
pub semaphore_create-CreatesSemaphore :
    (cpu value : ℕ) (s : System)
    → s.next < max_semaphores
    → Returns (semaphore_create cpu (pos value) s) (CreatesSemaphore cpu value s)
unfolding semaphore_create thread_get_current_thread
semaphore_create-CreatesSemaphore cpu value s h =
    let c = s.kernel.current cpu in
    let r = find_unused max_semaphores c s in
    through r.0 r.1
      (finish-created cpu value s r.0 r.1 h (find_unused-Searches max_semaphores c s h))
  where
    through :
        (o : Option ℕ) (s' : System)
        → CreatesSemaphore cpu value s (finish value (o, s'))
        → CreatesSemaphore cpu value s
            (elim o [ none ↦ (none, s') | some i ↦ (some i, set_value i (pos value) s') ])
    through none s' x = x
    through (some i) s' x = x
