-- ===== src/Runtime/RefCount/Cycles.antt =====
-- What is left of the headers when a program has given its references back.
use jb_transpiler.Base.{
  ℕ, zero, suc, ◌+◌, ◌≤◌, ◌<◌, ◌≡◌, refl, ap, sym, ◌∙◌, inl, inr, false, some, none, List, [], ◌∷◌,
  arith, eqb, leb, if◌then◌else◌, Bool-cases, Option-cases,
}
use jb_transpiler.Base.Number.{pos}
use jb_transpiler.Runtime.Machine.{In}
use jb_transpiler.Runtime.RefCount.{RefcountHeader, RefCount, is_zero}
use jb_transpiler.Runtime.RefCount.Counted.{Headers}
use jb_transpiler.Runtime.RefCount.Balance.{owner, uses, stored, registered_at, Distinct}
use jb_transpiler.Runtime.RefCount.Lower.{eq_of_eqb}
use jb_transpiler.Runtime.RefCount.Drop.{none_dies}
use jb_transpiler.Runtime.RefCount.Program.{Calls}
use jb_transpiler.Runtime.RefCount.Accounts.{Calls-Accounted}

-- `rank` falls from each header to those that the pointers registered with it lead to.
abbrev pub IsAcyclic : (ℕ → ℕ) → Headers → Type 0
IsAcyclic rank h =
    (x : ℕ) (a : RefcountHeader) (p : ℕ) → h x ≡ some a → In p a.to_free → rank (owner p) < rank x

unfoldable top : (ℕ → ℕ) → List ℕ → ℕ
top rank [] = 0
top rank (x ∷ l) = if leb (rank x) (top rank l) then top rank l else rank x

top-In : (rank : ℕ → ℕ) (l : List ℕ) (q : ℕ) → In q l → rank q ≤ top rank l
unfolding top
top-In rank [] q i = absurd i
top-In rank (x ∷ l) q (inl e) = ground (arith, ap rank e)
top-In rank (x ∷ l) q (inr i) = ground (arith, top-In rank l q i)

uses-user : (ps : List ℕ) (q : ℕ) → 0 < uses q ps → (p : ℕ) × In p ps × (owner p ≡ q)
unfolding uses
uses-user [] q lt = absurd (omega arith)
uses-user (p ∷ ps) q lt = elim (Bool-cases (eqb (owner p) q)) [
  | inl same ↦ (p, inl refl, eq_of_eqb (owner p) q same)
  | inr other ↦ let (r, i, e) = uses-user ps q (ground arith) in (r, inr i, e)
]

-- What is stored is registered with a header.
stored-user :
    (h : Headers) (l : List ℕ) (q : ℕ)
    → 0 < stored h none_dies l q
    → (x : ℕ) × (a : RefcountHeader) × (p : ℕ) × (h x ≡ some a) × In p a.to_free × (owner p ≡ q)
unfolding stored uses
stored-user h [] q lt = absurd (omega arith)
stored-user h (x ∷ l) q lt = elim (Bool-cases (eqb (uses q (registered_at h none_dies x)) 0)) [
  | inl unused ↦ stored-user h l q (ground arith)
  | inr used ↦ elim (Option-cases (h x)) [
    | inl e ↦ absurd (ground (arith, e))
    | inr (a, e) ↦
        let here : registered_at h none_dies x ≡ a.to_free = ground (arith, e) in
        let (p, i, o) = uses-user a.to_free q (ground (arith, ap (uses q) here)) in
        (x, a, p, e, i, o)
  ]
]

used : (n : ℕ) → is_zero (pos n) ≡ false → 0 < n
used zero z = absurd cc
used (suc n) z = omega arith

module _ (l : List ℕ) (st : RefCount) (u : Distinct l) (c : Calls l [] st) (rank : ℕ → ℕ) where
  -- A header that is left is registered with another one that is left.
  left_user :
      (q : ℕ) (a : RefcountHeader)
      → st.headers q ≡ some a
      → (x : ℕ) × (b : RefcountHeader) × (p : ℕ) × (st.headers x ≡ some b)
        × In p b.to_free
        × (owner p ≡ q)
  unfolding uses
  left_user q a e =
      let (b, m) = Calls-Accounted u c in
      let (w, _) = b.counts q a e refl in
      let total = uses q [] + stored st.headers none_dies l q in
      let more : 0 < total = used total (ap is_zero (sym w) ∙ m q a e refl) in
      stored-user st.headers l q (omega (arith, more))

  none_left :
      IsAcyclic rank st.headers
      → (n q : ℕ) (a : RefcountHeader) → st.headers q ≡ some a
      → top rank l < rank q + n
      → ⊥
  none_left acyclic zero q a e lt =
      let (b, _) = Calls-Accounted u c in let i = top-In rank l q (b.covers q a e) in omega arith
  none_left acyclic (suc n) q a e lt =
      let (x, b, p, f, i, o) = left_user q a e in
      let below = acyclic x b p f i in none_left acyclic n x b f (omega (arith, ap rank o))

-- Where the addresses that `malloc` answers are listed once, a program that holds no reference has
-- every header freed, when the pointers registered with the headers form no cycle.
pub Calls-freed :
    {l : List ℕ} {st : RefCount} (rank : ℕ → ℕ)
    → Distinct l
    → Calls l [] st
    → IsAcyclic rank st.headers
    → (q : ℕ) → st.headers q ≡ none
Calls-freed {l} {st} rank u c acyclic q = elim (Option-cases (st.headers q)) [
  | inl e ↦ e
  | inr (a, e) ↦ absurd (none_left l st u c rank acyclic (suc (top rank l)) q a e (omega arith))
]
