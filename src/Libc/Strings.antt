-- ===== src/Libc/Strings.antt =====
-- stringcmp, strlen and stringcopy of kudos/lib/libc.c.
use aar.Base.{
  ℕ, zero, suc, ◌+◌, ◌-◌, ◌<◌, ◌≤◌, ◌≡◌, refl, ◌≢◌, sym, ap, ◌∙◌, ◌⊎◌, inl, inr, true, false, not,
  ◌&&◌, ◌||◌, some, arith, update, update_ne, ltb, leb, ◌==◌, if◌then◌else◌, Bool-cases, ℕ_discrete,
}
use aar.Base.Int.{ℤ, pos, pos_part, ◌-ℤ◌, eq_ℤ}
use aar.Libc.{stringcmp, count_characters, pad, copy_string, stringcopy}
use aar.Libc.Memory.{Apart}

-- The strings agree on the character `i`, and go on behind it.
abbrev pub GoOn : (ℕ → ℤ) → (ℕ → ℤ) → ℕ → Type 0
GoOn a b i = (eq_ℤ (a i) (pos 0) ≡ false) × (eq_ℤ (b i) (pos 0) ≡ false) × (eq_ℤ (a i) (b i) ≡ true)

-- One of them ends at `i`, or they differ there.
abbrev pub Parts : (ℕ → ℤ) → (ℕ → ℤ) → ℕ → Type 0
Parts a b i = (eq_ℤ (a i) (pos 0) || (eq_ℤ (b i) (pos 0) || not (eq_ℤ (a i) (b i)))) ≡ true

-- stringcmp gives the difference of the characters at the first place where one of the strings ends
-- or they differ, with a round for each character before it and one more.
pub stringcmp-first :
    (fuel n : ℕ) (a b : ℕ → ℤ)
    → n < fuel
    → ((i : ℕ) → i < n → GoOn a b i)
    → Parts a b n
    → stringcmp fuel a b ≡ some (a n -ℤ b n)
unfolding stringcmp
stringcmp-first zero n a b h g p = absurd (omega arith)
stringcmp-first (suc fuel) zero a b h g p =
    elim (Bool-cases (eq_ℤ (a 0) (pos 0) && eq_ℤ (b 0) (pos 0))) [
      | inr e ↦ rw (e, p)
      | inl e ↦ ground (arith, e)
    ]
stringcmp-first (suc fuel) (suc n) a b h g p =
    let (x, y, z) = g 0 (omega arith) in
    rw (x, y, z)
      (stringcmp-first fuel n (λ i. a (suc i)) (λ i. b (suc i)) (omega arith)
        (λ i l. g (suc i) (omega arith)) p)

pad-range : (n t : ℕ) (m : ℕ → ℕ) (x : ℕ) → pad (suc n) t m x ≡ update m t 0 x
unfolding pad
pad-range zero t m x = refl
pad-range (suc n) t m x = let e = pad-range n t (update m t 0) x in ground (arith, e)

-- What copy_string leaves at `x`, if the string has `l` characters in the space.
abbrev pub copied : ℕ → ℕ → ℕ → (ℕ → ℕ) → ℕ → ℕ
copied l t s m x =
    if leb t x && ltb x (t + l) then m (s + (x - t)) else if x == t + l then 0 else m x

copied-step :
    (l n t s : ℕ) (m : ℕ → ℕ) (x : ℕ)
    → l ≤ n
    → Apart (suc n) t s
    → copied l (t + 1) (s + 1) (update m t (m s)) x ≡ copied (suc l) t s m x
copied-step l n t s m x b h = elim (Bool-cases (leb (t + 1) x && ltb x (t + 1 + l))) [
  | inr e ↦ elim (ℕ_discrete t x) [
    | yes d ↦ let here : s + (x - t) ≡ s = omega arith in ground (arith, ap m here)
    | no d ↦ ground arith
  ]
  | inl e ↦
      let here : s + 1 + (x - (t + 1)) ≡ s + (x - t) = ground arith in
      let out : t ≢ s + (x - t) = ground (arith, h) in
      ground (arith, here, out, ap m here, ap (update m t (m s)) here)
]

-- The string at `s` has `l` characters, or more than the `n` that there is space for.
pub record HasLength (m : ℕ → ℕ) (s n l : ℕ) : Type 0 where
  pub fits : l ≤ n
  pub nonzero : (j : ℕ) → j < l → m (s + j) ≢ 0
  pub ends : (l ≡ n) ⊎ (m (s + l) ≡ 0)

copy-ends :
    (n t s : ℕ) (m : ℕ → ℕ)
    → t ≢ s
    → m s ≡ 0
    → copy_string (suc n) t s m ≡ pad (n + 1) t (update m t (m s))
unfolding copy_string
copy-ends n t s m d e =
    let same : update m t (m s) s ≡ 0 = update_ne m t s (m s) d ∙ e in rw (same, copy_string)

copy-goes_on :
    (n t s : ℕ) (m : ℕ → ℕ)
    → t ≢ s
    → m s ≢ 0
    → copy_string (suc n) t s m ≡ copy_string n (t + 1) (s + 1) (update m t (m s))
unfolding copy_string
copy-goes_on n t s m d e =
    let same : (update m t (m s) s == 0) ≡ false = ground (arith, update_ne m t s (m s) d, e) in
    rw (same, copy_string)

rest-HasLength :
    (n l t s : ℕ) (m : ℕ → ℕ)
    → Apart (suc (suc n)) t s
    → HasLength m s (suc n) (suc l)
    → HasLength (update m t (m s)) (s + 1) n l
rest-HasLength n l t s m h x = record {
  fits = omega (arith, x.fits);
  nonzero = λ j k z.
      let here : s + 1 + j ≡ s + suc j = omega arith in
      let out : t ≢ s + suc j = ground (arith, h, x.fits) in
      x.nonzero (suc j) (omega arith)
        (sym (update_ne m t (s + suc j) (m s) out) ∙ sym (ap (update m t (m s)) here) ∙ z);
  ends = ends x.ends;
}
  where
    ends : (suc l ≡ suc n) ⊎ (m (s + suc l) ≡ 0) → (l ≡ n) ⊎ (update m t (m s) (s + 1 + l) ≡ 0)
    ends (inl e) = inl (omega arith)
    ends (inr e) =
        let here : s + 1 + l ≡ s + suc l = omega arith in
        let out : t ≢ s + suc l = ground (arith, h, x.fits) in
        inr (ap (update m t (m s)) here ∙ update_ne m t (s + suc l) (m s) out ∙ e)

empty_at : (n s : ℕ) (m : ℕ → ℕ) → (0 ≡ suc n) ⊎ (m (s + 0) ≡ 0) → m s ≡ 0
empty_at n s m (inl e) = absurd (omega arith)
empty_at n s m (inr e) = let at : s ≡ s + 0 = omega arith in ap m at ∙ e

copy_string-copied :
    (n l t s : ℕ) (m : ℕ → ℕ) (x : ℕ)
    → Apart (suc n) t s
    → HasLength m s n l
    → copy_string n t s m x ≡ copied l t s m x
unfolding copy_string
copy_string-copied zero l t s m x h k =
    let none_fit : l ≡ 0 = omega (arith, k.fits) in ground (arith, none_fit)
copy_string-copied (suc n) zero t s m x h k =
    let d : t ≢ s = ground (arith, h) in
    let q : n + 1 ≡ suc n = omega arith in
    let f = pad-range n t (update m t (m s)) x in
    rw (copy-ends n t s m d (empty_at n s m k.ends), q) (ground (arith, f))
copy_string-copied (suc n) (suc l) t s m x h k =
    let d : t ≢ s = ground (arith, h) in
    let at : s + 0 ≡ s = omega arith in
    let e : m s ≢ 0 = λ z. k.nonzero 0 (omega arith) (ap m at ∙ z) in
    rw (copy-goes_on n t s m d e) (
      copy_string-copied n l (t + 1) (s + 1) (update m t (m s)) x (ground (arith, h))
        (rest-HasLength n l t s m h k)
      ∙ copied-step l n t s m x (omega (arith, k.fits)) (ground (arith, h)))

-- stringcopy into a buffer of `n + 1` bytes that does not overlap the source copies the characters of
-- the string, at most `n` of them, and puts a zero behind them; it changes no other byte, not even
-- those of the buffer behind that zero.
pub stringcopy-copied :
    (n l t s : ℕ) (m : ℕ → ℕ) (x : ℕ)
    → Apart (suc n) t s
    → HasLength m s n l
    → (stringcopy t s (pos (suc n)) m).1 x ≡ copied l t s m x
unfolding stringcopy
stringcopy-copied n l t s m x h k =
    let rounds : pos_part (pos (suc n) -ℤ pos 1) ≡ n = ground arith in
    rw rounds (copy_string-copied n l t s m x h k)

-- strlen gives the number of characters before the zero, with a round for each and one more.
pub count_characters-ends :
    (fuel n l : ℕ) (s : ℕ → ℤ)
    → n < fuel
    → ((i : ℕ) → i < n → eq_ℤ (s i) (pos 0) ≡ false)
    → eq_ℤ (s n) (pos 0) ≡ true
    → count_characters fuel l s ≡ some (l + n)
unfolding count_characters
count_characters-ends zero n l s h c e = absurd (omega arith)
count_characters-ends (suc fuel) zero l s h c e =
    let z : l ≡ l + 0 = omega arith in rw e (ap some z)
count_characters-ends (suc fuel) (suc n) l s h c e =
    let z : l + 1 + n ≡ l + suc n = omega arith in
    rw (c 0 (omega arith)) (
      count_characters-ends fuel n (l + 1) (λ i. s (suc i)) (omega arith)
        (λ i k. c (suc i) (omega arith)) e
      ∙ ap some z)
