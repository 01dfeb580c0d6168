-- ===== src/Types/Hierarchy/Subclass.antt =====
-- `isSubclassOf` (src/types/TypeSystem.cpp) against the relation of being an ancestor.
use jb_transpiler.Base.{
  ℕ, zero, suc, Text, ◌≡◌, ◌↔◌, ◌∙◌, refl, sym, Bool, true, false, Option, none, some, inl, inr,
  arith, if◌then◌else◌, eq_iff, eq_refl, ◌==◌, Bool-cases, Result, ok, Option-cases, length,
}
use jb_transpiler.Base.Map.{Map, find}
use jb_transpiler.Types.LangType.{LangType}
use jb_transpiler.Types.Registry.{TypeSystem}
use jb_transpiler.Types.Hierarchy.{rounds, is_subclass_loop, is_subclass_of}
use jb_transpiler.Types.Hierarchy.Rooted.{parent_of, Within, IsRooted}

-- `Ancestor m c p`: `p` is the parent of `c`, or the parent of its parent, and so on.
pub data Ancestor (m : Map LangType) : Text → Text → Type 0 where
  parent : {c p : Text} → parent_of m c ≡ some p → Ancestor m c p
  above : {c p : Text} (q : Text) → parent_of m c ≡ some q → Ancestor m q p → Ancestor m c p

abbrev pub step_subclass : ℕ → TypeSystem → Text → Option Text → Result Bool
step_subclass n ts p none = ok false
step_subclass n ts p (some q) = if q == p then ok true else is_subclass_loop n ts q p

-- One round of the loop, by the class that it goes to next.
pub is_subclass_loop-suc :
    (n : ℕ) (ts : TypeSystem) (c p : Text)
    → is_subclass_loop (suc n) ts c p ≡ step_subclass n ts p (parent_of ts.classes c)
unfolding is_subclass_loop parent_of
is_subclass_loop-suc n ts c p = ground arith

loop_total :
    (n : ℕ) (ts : TypeSystem) (c p : Text)
    → Within n ts.classes c
    → (b : Bool) × (is_subclass_loop n ts c p ≡ ok b)
loop_total zero ts c p w = absurd w
loop_total (suc n) ts c p w = elim (Option-cases (parent_of ts.classes c)) [
  | inl e ↦ (false, is_subclass_loop-suc n ts c p ∙ (rw e))
  | inr (q, e) ↦
      let (b, ends) = loop_total n ts q p (rw e at w) in
      elim (Bool-cases (q == p)) [
        | inl same ↦ (true, is_subclass_loop-suc n ts c p ∙ (rw (e, same)))
        | inr other ↦ (b, is_subclass_loop-suc n ts c p ∙ (rw (e, other) ends))
      ]
]

loop_sound :
    (n : ℕ) (ts : TypeSystem) (c p : Text)
    → is_subclass_loop n ts c p ≡ ok true
    → Ancestor ts.classes c p
unfolding is_subclass_loop
loop_sound zero ts c p h = cc
loop_sound (suc n) ts c p h = elim (Option-cases (parent_of ts.classes c)) [
  | inl e ↦ cc (is_subclass_loop-suc n ts c p, e)
  | inr (q, e) ↦ elim (Bool-cases (q == p)) [
    | inl same ↦ parent (rw (← (eq_iff q p).0 same) e)
    | inr other ↦
        above q e (loop_sound n ts q p (sym (is_subclass_loop-suc n ts c p ∙ (rw (e, other))) ∙ h))
  ]
]

loop_complete :
    (n : ℕ) (ts : TypeSystem) (c p : Text)
    → Within n ts.classes c
    → Ancestor ts.classes c p
    → is_subclass_loop n ts c p ≡ ok true
loop_complete zero ts c p w a = absurd w
loop_complete (suc n) ts c p w (parent e) = is_subclass_loop-suc n ts c p ∙ (rw (e, eq_refl))
loop_complete (suc n) ts c p w (above q e a) =
    is_subclass_loop-suc n ts c p ∙ (rw e (unless (q == p) (loop_complete n ts q p (rw e at w) a)))
  where
    unless : (b : Bool) {r : Result Bool} → r ≡ ok true → (if b then ok true else r) ≡ ok true
    unless true h = refl
    unless false h = h

-- A class that is not declared has no parent.
loop_undeclared :
    (n : ℕ) (ts : TypeSystem) (c p : Text)
    → find c ts.classes ≡ none
    → is_subclass_loop (suc n) ts c p ≡ ok false
unfolding is_subclass_loop
loop_undeclared n ts c p e = ground arith

is_subclass_of-eq-loop :
    (ts : TypeSystem) (c p : Text) → is_subclass_of ts c p ≡ is_subclass_loop (rounds ts) ts c p
unfolding is_subclass_of
is_subclass_of-eq-loop ts c p = ground (arith, loop_undeclared (length ts.classes) ts c p)

-- In a well-formed hierarchy `isSubclassOf` ends without an exception, whatever the two names, and
-- answers true exactly when the second class is an ancestor of the first.
pub is_subclass_of_decides :
    (ts : TypeSystem) (child parent : Text)
    → IsRooted ts.classes
    → (b : Bool) × (is_subclass_of ts child parent ≡ ok b)
      × ((b ≡ true) ↔ Ancestor ts.classes child parent)
is_subclass_of_decides ts c p r =
    let w = r.within c in
    let (b, ends) = loop_total (rounds ts) ts c p w in
    (
      b,
      is_subclass_of-eq-loop ts c p ∙ ends,
      (
        λ yes_b. loop_sound (rounds ts) ts c p (cc (ends, yes_b)),
        λ a. cc (ends, loop_complete (rounds ts) ts c p w a),
      ),
    )
