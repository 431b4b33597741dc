-- ===== src/Base/Outcomes.antt =====
-- How kernel code ends: with a value, in a panic, in an access outside an array, or not at all.
use mathlib.Core.Path.{◌≡◌, refl}
use mathlib.Core.Bool.{Bool, true, false}

-- `panic` is a failed KERNEL_ASSERT or a KERNEL_PANIC; `fault` is an index out of range, on which C
-- promises nothing; `spin` is a loop that the given number of rounds does not finish.
pub data Outcome {ℓ} (A : Type ℓ) : Type ℓ where
  done : A → Outcome A
  panic : Outcome A
  fault : Outcome A
  spin : Outcome A

infixl 5 ◌>>=◌ ◌>>◌
abbrev pub ◌>>=◌ {ℓ κ} : {A : Type ℓ} {B : Type κ} → Outcome A → (A → Outcome B) → Outcome B
done a >>= f = f a
panic >>= f = panic
fault >>= f = fault
spin >>= f = spin

abbrev pub ◌>>◌ {ℓ} : {B : Type ℓ} → Outcome (Unit {0}) → Outcome B → Outcome B
m >> k = m >>= λ _. k

-- KERNEL_ASSERT
abbrev pub assert : Bool → Outcome (Unit {0})
assert true = done tt
assert false = panic

-- An array access, whose index must be in range.
abbrev pub in_range : Bool → Outcome (Unit {0})
in_range true = done tt
in_range false = fault

pub >>=-eq-done {ℓ κ} :
    {A : Type ℓ} {B : Type κ} (m : Outcome A) (f : A → Outcome B) {b : B}
    → (m >>= f) ≡ done b
    → (a : A) × (m ≡ done a) × (f a ≡ done b)
>>=-eq-done (done a) f h = (a, refl, h)
>>=-eq-done panic f h = cc
>>=-eq-done fault f h = cc
>>=-eq-done spin f h = cc

pub >>=_assoc {ℓ κ μ} :
    {A : Type ℓ} {B : Type κ} {C : Type μ} (a : Outcome A) (f : A → Outcome B) (g : B → Outcome C)
    → ((a >>= f) >>= g) ≡ (a >>= λ x. f x >>= g)
>>=_assoc (done a) f g = refl
>>=_assoc panic f g = refl
>>=_assoc fault f g = refl
>>=_assoc spin f g = refl

-- Total correctness: the code returns, and what it returns satisfies `P`.
abbrev pub Returns {ℓ} : {A : Type ℓ} → Outcome A → (A → Type 0) → Type 0
Returns (done a) P = P a
Returns panic P = ⊥
Returns fault P = ⊥
Returns spin P = ⊥

pub Returns-bind {ℓ κ} :
    {A : Type ℓ} {B : Type κ} (m : Outcome A) (f : A → Outcome B) (P : A → Type 0) (Q : B → Type 0)
    → Returns m P
    → ((a : A) → P a → Returns (f a) Q)
    → Returns (m >>= f) Q
Returns-bind (done a) f P Q h k = k a h
Returns-bind panic f P Q h k = absurd h
Returns-bind fault f P Q h k = absurd h
Returns-bind spin f P Q h k = absurd h

pub Returns-mono {ℓ} :
    {A : Type ℓ} (m : Outcome A) (P Q : A → Type 0)
    → Returns m P
    → ((a : A) → P a → Q a)
    → Returns m Q
Returns-mono (done a) P Q h k = k a h
Returns-mono panic P Q h k = absurd h
Returns-mono fault P Q h k = absurd h
Returns-mono spin P Q h k = absurd h

-- Partial correctness: what the code returns satisfies `P`, if it returns.
abbrev pub Partly {ℓ} : {A : Type ℓ} → Outcome A → (A → Type 0) → Type 0
Partly (done a) P = P a
Partly panic P = Unit
Partly fault P = Unit
Partly spin P = Unit

pub Partly-bind {ℓ κ} :
    {A : Type ℓ} {B : Type κ} (m : Outcome A) (f : A → Outcome B) (P : A → Type 0) (Q : B → Type 0)
    → Partly m P
    → ((a : A) → P a → Partly (f a) Q)
    → Partly (m >>= f) Q
Partly-bind (done a) f P Q h k = k a h
Partly-bind panic f P Q h k = tt
Partly-bind fault f P Q h k = tt
Partly-bind spin f P Q h k = tt

pub Partly-any {ℓ} : {A : Type ℓ} (m : Outcome A) (P : A → Type 0) → ((a : A) → P a) → Partly m P
Partly-any (done a) P h = h a
Partly-any panic P h = tt
Partly-any fault P h = tt
Partly-any spin P h = tt

pub Returns-and {ℓ} :
    {A : Type ℓ} (m : Outcome A) (P Q : A → Type 0)
    → Returns m P
    → Partly m Q
    → Returns m (λ a. P a × Q a)
Returns-and (done a) P Q h k = (h, k)
Returns-and panic P Q h k = absurd h
Returns-and fault P Q h k = absurd h
Returns-and spin P Q h k = absurd h

pub Partly-mono {ℓ} :
    {A : Type ℓ} (m : Outcome A) (P Q : A → Type 0)
    → Partly m P
    → ((a : A) → P a → Q a)
    → Partly m Q
Partly-mono (done a) P Q h k = k a h
Partly-mono panic P Q h k = tt
Partly-mono fault P Q h k = tt
Partly-mono spin P Q h k = tt

pub Returns-done {ℓ} :
    {A : Type ℓ} (m : Outcome A) (P : A → Type 0) → Returns m P → (a : A) × (m ≡ done a) × P a
Returns-done (done a) P h = (a, refl, h)
Returns-done panic P h = absurd h
Returns-done fault P h = absurd h
Returns-done spin P h = absurd h
