-- ===== src/Base/Lists.antt =====
-- Lists measured and indexed by native numbers, under the library's names.
use Prim.Native.Nat.{ℕ, zero, suc, ◌+◌, ◌<◌}
use mathlib.Core.Path.{◌≡◌, refl, ap, sym, subst}
use mathlib.Core.Logic.{◌≢◌}
use mathlib.Core.List.{List, [], ◌∷◌, ◌++◌}
use mathlib.Core.Option.{Option, none, some}
use native.Mathlib.Omega.{arith}

module _ {ℓ} {A : Type ℓ} where
  abbrev pub length : List A → ℕ
  length [] = 0
  length (x ∷ xs) = suc (length xs)

  abbrev pub get_elem? : List A → ℕ → Option A
  get_elem? [] i = none
  get_elem? (x ∷ xs) zero = some x
  get_elem? (x ∷ xs) (suc i) = get_elem? xs i

  abbrev pub get_or : List A → ℕ → A → A
  get_or [] i d = d
  get_or (x ∷ xs) zero d = x
  get_or (x ∷ xs) (suc i) d = get_or xs i d

  -- A write out of bounds changes nothing.
  abbrev pub set : List A → ℕ → A → List A
  set [] i v = []
  set (x ∷ xs) zero v = v ∷ xs
  set (x ∷ xs) (suc i) v = x ∷ set xs i v

  abbrev pub replicate : ℕ → A → List A
  replicate zero a = []
  replicate (suc n) a = a ∷ replicate n a

  pub length-append : (xs ys : List A) → length (xs ++ ys) ≡ length xs + length ys
  length-append [] ys = omega arith
  length-append (x ∷ xs) ys = omega (arith, length-append xs ys)

  pub length-set : (xs : List A) (i : ℕ) (v : A) → length (set xs i v) ≡ length xs
  length-set [] i v = refl
  length-set (x ∷ xs) zero v = refl
  length-set (x ∷ xs) (suc i) v = ap suc (length-set xs i v)

  pub get_or-set_self :
      (xs : List A) (i : ℕ) (v d : A) → i < length xs → get_or (set xs i v) i d ≡ v
  get_or-set_self [] i v d h = absurd (omega arith)
  get_or-set_self (x ∷ xs) zero v d h = refl
  get_or-set_self (x ∷ xs) (suc i) v d h = get_or-set_self xs i v d (omega arith)

  pub get_or-set_ne :
      (xs : List A) (i j : ℕ) (v d : A) → i ≢ j → get_or (set xs i v) j d ≡ get_or xs j d
  get_or-set_ne [] i j v d h = refl
  get_or-set_ne (x ∷ xs) zero zero v d h = absurd (h refl)
  get_or-set_ne (x ∷ xs) zero (suc j) v d h = refl
  get_or-set_ne (x ∷ xs) (suc i) zero v d h = refl
  get_or-set_ne (x ∷ xs) (suc i) (suc j) v d h = get_or-set_ne xs i j v d (λ e. h (ap suc e))

  pub length-replicate : (n : ℕ) (a : A) → length (replicate n a) ≡ n
  length-replicate zero a = refl
  length-replicate (suc n) a = ap suc (length-replicate n a)

  pub get_or-replicate : (n i : ℕ) (a : A) → get_or (replicate n a) i a ≡ a
  get_or-replicate zero i a = refl
  get_or-replicate (suc n) zero a = refl
  get_or-replicate (suc n) (suc i) a = get_or-replicate n i a

-- A number that stands nowhere in a list, and a list with no number twice.
abbrev pub NotIn : ℕ → List ℕ → Type 0
NotIn t [] = Unit {0}
NotIn t (x ∷ xs) = (t ≢ x) × NotIn t xs

abbrev pub Distinct : List ℕ → Type 0
Distinct [] = Unit {0}
Distinct (x ∷ xs) = NotIn x xs × Distinct xs

abbrev pub All {ℓ} : (ℕ → Type ℓ) → List ℕ → Type ℓ
All P [] = Unit
All P (x ∷ xs) = P x × All P xs

pub NotIn-append : (t : ℕ) (xs ys : List ℕ) → NotIn t xs → NotIn t ys → NotIn t (xs ++ ys)
NotIn-append t [] ys hx hy = hy
NotIn-append t (x ∷ xs) ys hx hy = (hx.0, NotIn-append t xs ys hx.1 hy)

pub Distinct-append_one : (t : ℕ) (xs : List ℕ) → NotIn t xs → Distinct xs → Distinct (xs ++ t ∷ [])
Distinct-append_one t [] n d = (tt, tt)
Distinct-append_one t (x ∷ xs) n d =
    (NotIn-append x xs (t ∷ []) d.0 ((λ e. n.0 (sym e)), tt), Distinct-append_one t xs n.1 d.1)

pub All-append {ℓ} : (P : ℕ → Type ℓ) (xs ys : List ℕ) → All P xs → All P ys → All P (xs ++ ys)
All-append P [] ys hx hy = hy
All-append P (x ∷ xs) ys hx hy = (hx.0, All-append P xs ys hx.1 hy)

pub All-mono {ℓ κ} :
    (P : ℕ → Type ℓ) (Q : ℕ → Type κ) (xs : List ℕ) → ((x : ℕ) → P x → Q x) → All P xs → All Q xs
All-mono P Q [] f h = tt
All-mono P Q (x ∷ xs) f h = (f x h.0, All-mono P Q xs f h.1)

pub All-zip {ℓ κ μ} :
    (P : ℕ → Type ℓ) (Q : ℕ → Type κ) (R : ℕ → Type μ) (xs : List ℕ)
    → ((x : ℕ) → P x → Q x → R x)
    → All P xs
    → All Q xs
    → All R xs
All-zip P Q R [] f h k = tt
All-zip P Q R (x ∷ xs) f h k = (f x h.0 k.0, All-zip P Q R xs f h.1 k.1)

-- A number without the property that all entries of a list have is not an entry.
pub NotIn-of_All {ℓ} : (P : ℕ → Type ℓ) (t : ℕ) (xs : List ℕ) → All P xs → ¬ P t → NotIn t xs
NotIn-of_All P t [] h n = tt
NotIn-of_All P t (x ∷ xs) h n = ((λ e. n (subst P (sym e) h.0)), NotIn-of_All P t xs h.1 n)

pub All-of_NotIn : (t : ℕ) (xs : List ℕ) → NotIn t xs → All (λ x. t ≢ x) xs
All-of_NotIn t [] n = tt
All-of_NotIn t (x ∷ xs) n = (n.0, All-of_NotIn t xs n.1)

pub All-of {ℓ} : (P : ℕ → Type ℓ) (xs : List ℕ) → ((x : ℕ) → P x) → All P xs
All-of P [] f = tt
All-of P (x ∷ xs) f = (f x, All-of P xs f)

-- Taking one entry out of the middle.
pub NotIn-remove : (t w : ℕ) (xs ys : List ℕ) → NotIn t (xs ++ w ∷ ys) → NotIn t (xs ++ ys)
NotIn-remove t w [] ys n = n.1
NotIn-remove t w (x ∷ xs) ys n = (n.0, NotIn-remove t w xs ys n.1)

pub ne_of_NotIn : (t w : ℕ) (xs ys : List ℕ) → NotIn t (xs ++ w ∷ ys) → t ≢ w
ne_of_NotIn t w [] ys n = n.0
ne_of_NotIn t w (x ∷ xs) ys n = ne_of_NotIn t w xs ys n.1

pub Distinct-remove : (w : ℕ) (xs ys : List ℕ) → Distinct (xs ++ w ∷ ys) → Distinct (xs ++ ys)
Distinct-remove w [] ys d = d.1
Distinct-remove w (x ∷ xs) ys d = (NotIn-remove x w xs ys d.0, Distinct-remove w xs ys d.1)

pub NotIn-of_Distinct : (w : ℕ) (xs ys : List ℕ) → Distinct (xs ++ w ∷ ys) → NotIn w (xs ++ ys)
NotIn-of_Distinct w [] ys d = d.0
NotIn-of_Distinct w (x ∷ xs) ys d =
    ((λ e. ne_of_NotIn x w xs ys d.0 (sym e)), NotIn-of_Distinct w xs ys d.1)

pub All-remove {ℓ} :
    (P : ℕ → Type ℓ) (w : ℕ) (xs ys : List ℕ) → All P (xs ++ w ∷ ys) → All P (xs ++ ys)
All-remove P w [] ys a = a.1
All-remove P w (x ∷ xs) ys a = (a.0, All-remove P w xs ys a.1)

pub NotIn-front : (t : ℕ) (xs ys : List ℕ) → NotIn t (xs ++ ys) → NotIn t xs
NotIn-front t [] ys n = tt
NotIn-front t (x ∷ xs) ys n = (n.0, NotIn-front t xs ys n.1)

pub All-front {ℓ} : (P : ℕ → Type ℓ) (xs ys : List ℕ) → All P (xs ++ ys) → All P xs
All-front P [] ys a = tt
All-front P (x ∷ xs) ys a = (a.0, All-front P xs ys a.1)

pub All-middle {ℓ} : (P : ℕ → Type ℓ) (w : ℕ) (xs ys : List ℕ) → All P (xs ++ w ∷ ys) → P w
All-middle P w [] ys a = a.0
All-middle P w (x ∷ xs) ys a = All-middle P w xs ys a.1

pub NotIn-back : (t : ℕ) (xs ys : List ℕ) → NotIn t (xs ++ ys) → NotIn t ys
NotIn-back t [] ys n = n
NotIn-back t (x ∷ xs) ys n = NotIn-back t xs ys n.1

pub All-back {ℓ} : (P : ℕ → Type ℓ) (xs ys : List ℕ) → All P (xs ++ ys) → All P ys
All-back P [] ys a = a
All-back P (x ∷ xs) ys a = All-back P xs ys a.1

pub Distinct-back : (xs ys : List ℕ) → Distinct (xs ++ ys) → Distinct ys
Distinct-back [] ys d = d
Distinct-back (x ∷ xs) ys d = Distinct-back xs ys d.1

-- The entries before a place do not stand behind it.
pub Distinct-apart : (xs ys zs : List ℕ) → Distinct ((xs ++ ys) ++ zs) → All (λ t. NotIn t zs) ys
Distinct-apart [] [] zs d = tt
Distinct-apart [] (y ∷ ys) zs d = (NotIn-back y ys zs d.0, Distinct-apart [] ys zs d.1)
Distinct-apart (x ∷ xs) ys zs d = Distinct-apart xs ys zs d.1
