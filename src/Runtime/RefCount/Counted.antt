-- ===== src/Runtime/RefCount/Counted.antt =====
-- What a release of references may do to the headers, and the number of positive counts.
use jb_transpiler.Base.{
  ℕ, zero, suc, ◌≤◌, ◌<◌, ◌≡◌, inl, inr, refl, ap, ◌∙◌, subst, Bool, true, false, some, none, List,
  [], ◌∷◌, arith, eqb, if◌then◌else◌, Bool-cases, Option-cases,
}
use jb_transpiler.Base.Number.{ℤ, pos, negsuc}
use jb_transpiler.Runtime.Machine.{Store, In, update, update_self}
use jb_transpiler.Runtime.RefCount.{RefcountHeader, down, is_zero, count_down}

abbrev pub Headers : Type 0
Headers = Store RefcountHeader

abbrev pub Below : ℤ → ℤ → Type 0
Below (pos m) (pos n) = m ≤ n
Below (pos m) (negsuc n) = ⊥
Below (negsuc m) (pos n) = Unit
Below (negsuc m) (negsuc n) = n ≤ m

Below-refl : (c : ℤ) → Below c c
Below-refl (pos n) = omega arith
Below-refl (negsuc n) = omega arith

Below-trans : (c d e : ℤ) → Below c d → Below d e → Below c e
Below-trans (pos a) (pos b) (pos c) x y = omega arith
Below-trans (pos a) (pos b) (negsuc c) x y = y
Below-trans (pos a) (negsuc b) e x y = absurd x
Below-trans (negsuc a) (pos b) (pos c) x y = tt
Below-trans (negsuc a) (pos b) (negsuc c) x y = absurd y
Below-trans (negsuc a) (negsuc b) (pos c) x y = tt
Below-trans (negsuc a) (negsuc b) (negsuc c) x y = omega arith

Below-down : (c : ℤ) → Below (down c) c
Below-down (pos zero) = tt
Below-down (pos (suc n)) = omega arith
Below-down (negsuc n) = omega arith

abbrev is_positive : ℤ → Bool
is_positive (pos zero) = false
is_positive (pos (suc n)) = true
is_positive (negsuc n) = false

is_positive-Below : (c d : ℤ) → Below c d → is_positive c ≡ true → is_positive d ≡ true
is_positive-Below (pos zero) d b p = cc
is_positive-Below (pos (suc m)) (pos zero) b p = absurd (omega arith)
is_positive-Below (pos (suc m)) (pos (suc n)) b p = refl
is_positive-Below (pos (suc m)) (negsuc n) b p = absurd b
is_positive-Below (negsuc m) d b p = cc

-- Every header was there before, with its size and the pointers registered with it, and its count
-- did not rise.
abbrev pub Releases : Headers → Headers → Type 0
Releases h k =
    (q : ℕ) (a : RefcountHeader)
    → k q ≡ some a
    → (b : RefcountHeader) × (h q ≡ some b)
      × (a.size ≡ b.size)
      × (a.to_free ≡ b.to_free)
      × Below a.count b.count

pub Releases-refl : (h : Headers) → Releases h h
Releases-refl h q a e = (a, e, refl, refl, Below-refl a.count)

pub Releases-trans : (h k l : Headers) → Releases h k → Releases k l → Releases h l
Releases-trans h k l f g q a e =
    let (b, e', s, t, c) = g q a e in
    let (b', e'', s', t', c') = f q b e' in
    (b', e'', s ∙ s', t ∙ t', Below-trans a.count b.count b'.count c c')

pub Releases-free : (h : Headers) (p : ℕ) → Releases h (update h p none)
Releases-free h p q a e = (a, ground arith, refl, refl, Below-refl a.count)

pub Releases-down :
    (h : Headers) (p : ℕ) (a : RefcountHeader)
    → h p ≡ some a
    → Releases h (update h p (some (count_down a)))
Releases-down h p a e q b f = elim (Bool-cases (eqb p q)) [
  | inl same ↦
      let fell : down a.count ≡ b.count = ground arith in
      (
        a,
        ground arith,
        ground arith,
        ground arith,
        subst (λ c. Below c a.count) fell (Below-down a.count),
      )
  | inr other ↦ (b, ground arith, refl, refl, Below-refl b.count)
]

-- All headers are at these addresses.
abbrev pub Covers : List ℕ → Headers → Type 0
Covers addresses h = (q : ℕ) (a : RefcountHeader) → h q ≡ some a → In q addresses

pub Covers-Releases : (l : List ℕ) (h k : Headers) → Releases h k → Covers l h → Covers l k
Covers-Releases l h k r c q a e = let (b, f, _, _, _) = r q a e in c q b f

unfoldable pub positive_at : Headers → ℕ → Bool
positive_at h q = elim (h q) [ none ↦ false | some a ↦ is_positive a.count ]

-- The number of headers with a positive count.
unfoldable pub positives : List ℕ → Headers → ℕ
positives [] h = 0
positives (q ∷ l) h = if positive_at h q then suc (positives l h) else positives l h

positive_at-Releases :
    (h k : Headers) (q : ℕ) → Releases h k → positive_at k q ≡ true → positive_at h q ≡ true
unfolding positive_at
positive_at-Releases h k q r p = elim (Option-cases (k q)) [
  | inl e ↦ absurd (let f : false ≡ true = rw (e, positive_at) at p in cc)
  | inr (a, e) ↦
      let (b, f, _, _, c) = r q a e in
      rw (f, positive_at) (is_positive-Below a.count b.count c (rw (e, positive_at) at p))
]

pub positives-Releases : (l : List ℕ) (h k : Headers) → Releases h k → positives l k ≤ positives l h
unfolding positives
positives-Releases [] h k r = omega arith
positives-Releases (q ∷ l) h k r =
    ground (arith, positive_at-Releases h k q r, positives-Releases l h k r)

positives-falls :
    (l : List ℕ) (h k : Headers) (q : ℕ)
    → Releases h k
    → In q l
    → positive_at h q ≡ true
    → positive_at k q ≡ false
    → positives l k < positives l h
unfolding positives
positives-falls [] h k q r i p n = absurd i
positives-falls (x ∷ l) h k q r (inl e) p n =
    ground (arith, positives-Releases l h k r, ap (positive_at h) e, ap (positive_at k) e)
positives-falls (x ∷ l) h k q r (inr i) p n =
    ground (arith, positive_at-Releases h k x r, positives-falls l h k q r i p n)

was_positive : (c : ℤ) → is_zero (down c) ≡ true → is_positive c ≡ true
was_positive (pos zero) z = cc
was_positive (pos (suc n)) z = refl
was_positive (negsuc n) z = cc

not_positive : (c : ℤ) → is_zero c ≡ true → is_positive c ≡ false
not_positive (pos zero) z = refl
not_positive (pos (suc n)) z = cc
not_positive (negsuc n) z = cc

-- The last reference goes.
pub positives-last :
    (l : List ℕ) (h : Headers) (p : ℕ) (a : RefcountHeader)
    → h p ≡ some a
    → In p l
    → is_zero (down a.count) ≡ true
    → positives l (update h p (some (count_down a))) < positives l h
unfolding positive_at
positives-last l h p a e i z =
    let k = update h p (some (count_down a)) in
    positives-falls l h k p (Releases-down h p a e) i (rw (e, positive_at) (was_positive a.count z))
      (rw (update_self h p a (some (count_down a)), positive_at) (not_positive (down a.count) z))
