-- ===== src/Runtime/RefCount/Stored.antt =====
-- How the references that are stored, and the headers that are alive, change with one header.
use jb_transpiler.Base.{
  ℕ, ◌+◌, ◌≤◌, ◌<◌, ◌≡◌, ◌≢◌, refl, ap, sym, ◌∙◌, subst, inl, inr, true, false, some, none, List,
  [], ◌∷◌, ◌++◌, arith, eqb, Bool-cases,
}
use jb_transpiler.Runtime.Machine.{In, update}
use jb_transpiler.Runtime.RefCount.{RefcountHeader, count_down}
use jb_transpiler.Runtime.RefCount.Counted.{Headers}
use jb_transpiler.Runtime.RefCount.Balance.{
  uses, Dying, dies, registered_at, stored, lives, alive, NotNull, Apart, Distinct,
}

uses-nil : (q : ℕ) → uses q [] ≡ 0
unfolding uses
uses-nil q = refl

pub uses-append : (q : ℕ) (ps qs : List ℕ) → uses q (ps ++ qs) ≡ uses q ps + uses q qs
unfolding uses
uses-append q [] qs = omega arith
uses-append q (p ∷ ps) qs = ground (arith, uses-append q ps qs)

pub NotNull-append : (ps qs : List ℕ) → NotNull ps → NotNull qs → NotNull (ps ++ qs)
NotNull-append [] qs n m = m
NotNull-append (p ∷ ps) qs n m = (n.0, NotNull-append ps qs n.1 m)

stored-Apart :
    (h : Headers) (d : Dying) (l : List ℕ) (p q : ℕ)
    → Apart p l
    → stored h (dies d p) l q ≡ stored h d l q
unfolding stored
stored-Apart h d [] p q a = refl
stored-Apart h d (x ∷ l) p q a = ground (arith, stored-Apart h d l p q a.1)

pub Apart-In : (p x : ℕ) (l : List ℕ) → Apart x l → In p l → p ≢ x
Apart-In p x [] a i = absurd i
Apart-In p x (y ∷ l) a (inl e) = λ q. a.0 (sym e ∙ q)
Apart-In p x (y ∷ l) a (inr i) = Apart-In p x l a.1 i

pub registered_live :
    (h : Headers) (d : Dying) (x : ℕ) (a : RefcountHeader)
    → h x ≡ some a
    → d x ≡ false
    → registered_at h d x ≡ a.to_free
registered_live h d x a e f = ground arith

registered_dying : (h : Headers) (d : Dying) (p : ℕ) → registered_at h (dies d p) p ≡ []
registered_dying h d p = ground arith

registered_other :
    (h : Headers) (d : Dying) (p x : ℕ) → p ≢ x → registered_at h (dies d p) x ≡ registered_at h d x
registered_other h d p x n = ground arith

-- What a header has registered is no longer counted when it dies.
pub stored-dies :
    (h : Headers) (d : Dying) (l : List ℕ) (p q : ℕ) (a : RefcountHeader)
    → Distinct l
    → In p l
    → h p ≡ some a
    → d p ≡ false
    → stored h d l q ≡ uses q a.to_free + stored h (dies d p) l q
unfolding stored
stored-dies h d [] p q a n i e f = absurd i
stored-dies h d (x ∷ l) p q a n (inl s) e f =
    let here = ap (uses q) (registered_live h d x a (ap h (sym s) ∙ e) (ap d (sym s) ∙ f)) in
    let gone : registered_at h (dies d p) x ≡ [] =
      subst (λ y. registered_at h (dies d p) y ≡ []) s (registered_dying h d p) in
    omega (
      arith,
      here,
      ap (uses q) gone,
      uses-nil q,
      stored-Apart h d l p q (subst (λ y. Apart y l) (sym s) n.0),
    )
stored-dies h d (x ∷ l) p q a n (inr i) e f =
    let other = registered_other h d p x (Apart-In p x l n.0 i) in
    omega (arith, ap (uses q) other, stored-dies h d l p q a n.1 i e f)

registered_down :
    (h : Headers) (d : Dying) (p x : ℕ) (a : RefcountHeader)
    → h p ≡ some a
    → registered_at (update h p (some (count_down a))) d x ≡ registered_at h d x
registered_down h d p x a e = elim (Bool-cases (eqb p x)) [
  | inl same ↦ ground arith
  | inr other ↦ ground arith
]

registered_free :
    (h : Headers) (d : Dying) (p x : ℕ)
    → registered_at (update h p none) d x ≡ registered_at h (dies d p) x
registered_free h d p x = elim (Bool-cases (eqb p x)) [
  | inl same ↦ ground arith
  | inr other ↦ ground arith
]

lives_down :
    (h : Headers) (d : Dying) (p x : ℕ) (a : RefcountHeader)
    → h p ≡ some a
    → lives (update h p (some (count_down a))) d x ≡ lives h d x
lives_down h d p x a e = ground arith

lives_free :
    (h : Headers) (d : Dying) (p x : ℕ) → lives (update h p none) d x ≡ lives h (dies d p) x
lives_free h d p x = ground arith

lives-dies : (h : Headers) (d : Dying) (p x : ℕ) → lives h (dies d p) x ≡ true → lives h d x ≡ true
lives-dies h d p x t = ground arith

lives_dying : (h : Headers) (d : Dying) (p : ℕ) → lives h (dies d p) p ≡ false
lives_dying h d p = ground arith

lives_live :
    (h : Headers) (d : Dying) (x : ℕ) (a : RefcountHeader)
    → h x ≡ some a
    → d x ≡ false
    → lives h d x ≡ true
lives_live h d x a e f = ground arith

-- A lower count leaves what is registered.
pub stored-down :
    (h : Headers) (d : Dying) (l : List ℕ) (p q : ℕ) (a : RefcountHeader)
    → h p ≡ some a
    → stored (update h p (some (count_down a))) d l q ≡ stored h d l q
unfolding stored
stored-down h d [] p q a e = refl
stored-down h d (x ∷ l) p q a e =
    omega (arith, ap (uses q) (registered_down h d p x a e), stored-down h d l p q a e)

-- The header of a dying block goes.
pub stored-free :
    (h : Headers) (d : Dying) (l : List ℕ) (p q : ℕ)
    → stored (update h p none) d l q ≡ stored h (dies d p) l q
unfolding stored
stored-free h d [] p q = refl
stored-free h d (x ∷ l) p q =
    omega (arith, ap (uses q) (registered_free h d p x), stored-free h d l p q)

pub alive-down :
    (h : Headers) (d : Dying) (l : List ℕ) (p : ℕ) (a : RefcountHeader)
    → h p ≡ some a
    → alive (update h p (some (count_down a))) d l ≡ alive h d l
unfolding alive
alive-down h d [] p a e = refl
alive-down h d (x ∷ l) p a e = ground (arith, lives_down h d p x a e, alive-down h d l p a e)

pub alive-free :
    (h : Headers) (d : Dying) (l : List ℕ) (p : ℕ)
    → alive (update h p none) d l ≡ alive h (dies d p) l
unfolding alive
alive-free h d [] p = refl
alive-free h d (x ∷ l) p = ground (arith, lives_free h d p x, alive-free h d l p)

alive-le : (h : Headers) (d : Dying) (l : List ℕ) (p : ℕ) → alive h (dies d p) l ≤ alive h d l
unfolding alive
alive-le h d [] p = omega arith
alive-le h d (x ∷ l) p = ground (arith, lives-dies h d p x, alive-le h d l p)

-- One header fewer is alive when it dies.
pub alive-dies :
    (h : Headers) (d : Dying) (l : List ℕ) (p : ℕ) (a : RefcountHeader)
    → In p l
    → h p ≡ some a
    → d p ≡ false
    → alive h (dies d p) l < alive h d l
unfolding alive
alive-dies h d [] p a i e f = absurd i
alive-dies h d (x ∷ l) p a (inl s) e f = ground (
  arith,
  alive-le h d l p,
  lives_live h d x a (ap h (sym s) ∙ e) (ap d (sym s) ∙ f),
  subst (λ y. lives h (dies d p) y ≡ false) s (lives_dying h d p),
)
alive-dies h d (x ∷ l) p a (inr i) e f =
    ground (arith, lives-dies h d p x, alive-dies h d l p a i e f)
