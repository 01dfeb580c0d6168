-- ===== src/Types/Hierarchy/Rooted.antt =====
-- When the walks along the parent classes end: in a well-formed hierarchy, which every declaration
-- of a new class keeps.
use jb_transpiler.Base.{
  ℕ, zero, suc, ◌≤◌, Text, ◌≡◌, ◌≢◌, Option, none, some, inl, inr, arith, if◌then◌else◌, length,
  refl, sym, ◌∙◌, eq_iff, ne_of_eq-false, ◌==◌, Bool-cases, [],
}
use jb_transpiler.Base.Map.{Map, find, insert}
use jb_transpiler.Base.Map.Laws.{
  find-insert_ne, find-insert_self, length-insert_new, length-insert_le,
}
use jb_transpiler.Types.LangType.{LangType, parent_class, has_parent}

abbrev pub parent_in : Option LangType → Option Text
parent_in none = none
parent_in (some type) = if has_parent type then some (parent_class type) else none

-- The class that the walks go to next, if any.
unfoldable pub parent_of : Map LangType → Text → Option Text
parent_of classes c = parent_in (find c classes)

abbrev pub ThenWithin : (Text → Type 0) → Option Text → Type 0
ThenWithin P none = Unit
ThenWithin P (some p) = P p

-- From `c`, a class without parent is reached within `n` rounds.
abbrev pub Within : ℕ → Map LangType → Text → Type 0
Within zero m c = ⊥
Within (suc n) m c = ThenWithin (Within n m) (parent_of m c)

abbrev IsClosed : Map LangType → Type 0
IsClosed m = (c p : Text) → parent_of m c ≡ some p → (t : LangType) × (find p m ≡ some t)

-- The class hierarchy is well formed: every parent is a class, and no chain of parents is longer
-- than the number of classes, so none is cyclic.
pub record IsRooted (m : Map LangType) : Type 0 where
  pub closed : (c p : Text) → parent_of m c ≡ some p → (t : LangType) × (find p m ≡ some t)
  pub within : (c : Text) → Within (suc (length m)) m c

pub ThenWithin-map :
    (P Q : Text → Type 0) (o : Option Text)
    → ((p : Text) → o ≡ some p → P p → Q p)
    → ThenWithin P o
    → ThenWithin Q o
ThenWithin-map P Q none f h = tt
ThenWithin-map P Q (some p) f h = f p refl h

pub Within-mono : (n k : ℕ) (m : Map LangType) (c : Text) → n ≤ k → Within n m c → Within k m c
Within-mono zero k m c l h = absurd h
Within-mono (suc n) zero m c l h = absurd (omega arith)
Within-mono (suc n) (suc k) m c l h =
    ThenWithin-map (Within n m) (Within k m) (parent_of m c)
      (λ p e. Within-mono n k m p (omega arith)) h

-- Only the parents count.
Within-ext :
    (n : ℕ) (m m' : Map LangType) (c : Text)
    → ((d : Text) → parent_of m d ≡ parent_of m' d)
    → Within n m c
    → Within n m' c
Within-ext zero m m' c same h = h
Within-ext (suc n) m m' c same h =
    rw (← same c) (
      ThenWithin-map (Within n m) (Within n m') (parent_of m c) (λ p e. Within-ext n m m' p same) h)

parent_of-insert_ne :
    (k c : Text) (t : LangType) (m : Map LangType)
    → c ≢ k
    → parent_of (insert k t m) c ≡ parent_of m c
unfolding parent_of
parent_of-insert_ne k c t m ne = rw (find-insert_ne k c t m (λ e. ne (sym e)))

parent_of-insert_self :
    (k : Text) (t : LangType) (m : Map LangType) → parent_of (insert k t m) k ≡ parent_in (some t)
unfolding parent_of
parent_of-insert_self k t m = rw find-insert_self

all_unit : (o : Option Text) → ThenWithin (λ _. Unit) o
all_unit none = tt
all_unit (some p) = tt

-- Chains of a closed hierarchy do not meet a class that was not there.
Within-insert_new :
    (n : ℕ) (m : Map LangType) (k : Text) (t : LangType) (c : Text)
    → IsClosed m
    → find k m ≡ none
    → c ≢ k
    → Within n m c
    → Within n (insert k t m) c
Within-insert_new zero m k t c closed new ne w = w
Within-insert_new (suc n) m k t c closed new ne w = rw (parent_of-insert_ne k c t m ne) (
    ThenWithin-map (Within n m) (Within n (insert k t m)) (parent_of m c)
      (λ p e. Within-insert_new n m k t p closed new (is_other p (closed c p e))) w)
  where
    is_other : (p : Text) → (u : LangType) × (find p m ≡ some u) → p ≢ k
    is_other p found same = cc (found.1, new, same)

-- The type of a new class: it has no parent, or its parent is a class already.
abbrev pub HasKnownParent : Map LangType → LangType → Type 0
HasKnownParent m t = (p : Text) → parent_in (some t) ≡ some p → (u : LangType) × (find p m ≡ some u)

module _ (m : Map LangType) (k : Text) (t : LangType) (new : find k m ≡ none) where
  known-ne : (p : Text) → (u : LangType) × (find p m ≡ some u) → p ≢ k
  known-ne p (u, found) same = cc (found, new, same)

  still_known :
      (p : Text)
      → (u : LangType) × (find p m ≡ some u)
      → (u : LangType) × (find p (insert k t m) ≡ some u)
  still_known p (u, found) =
      (u, find-insert_ne k p t m (λ e. known-ne p (u, found) (sym e)) ∙ found)

  insert_new-closed : IsClosed m → HasKnownParent m t → IsClosed (insert k t m)
  insert_new-closed closed known c p e = elim (Bool-cases (c == k)) [
    | inl same ↦
        still_known p
          (known p (sym (parent_of-insert_self k t m) ∙ (rw ((eq_iff c k).0 same) at e)))
    | inr other ↦
        still_known p
          (closed c p (sym (parent_of-insert_ne k c t m (ne_of_eq-false c k other)) ∙ e))
  ]

  -- Within the longer bound, from any class.
  insert_new-Within :
      IsClosed m
      → HasKnownParent m t
      → ((c : Text) → Within (suc (length m)) m c)
      → (c : Text) → Within (suc (suc (length m))) (insert k t m) c
  insert_new-Within closed known within c = elim (Bool-cases (c == k)) [
    | inl same ↦ rw ((eq_iff c k).0 same) (
        rw (parent_of-insert_self k t m) (
          ThenWithin-map (λ _. Unit) (Within (suc (length m)) (insert k t m)) (parent_in (some t))
            (λ p e _. from_other p (known-ne p (known p e))) (all_unit (parent_in (some t)))))
    | inr other ↦
        Within-mono (suc (length m)) (suc (suc (length m))) (insert k t m) c (omega arith)
          (from_other c (ne_of_eq-false c k other))
  ]
    where
      from_other : (d : Text) → d ≢ k → Within (suc (length m)) (insert k t m) d
      from_other d ne = Within-insert_new (suc (length m)) m k t d closed new ne (within d)

  -- A new class whose parent, if any, is a class keeps the hierarchy well formed.
  pub insert_new-IsRooted : IsRooted m → HasKnownParent m t → IsRooted (insert k t m)
  insert_new-IsRooted r known = record {
    closed = insert_new-closed r.closed known;
    within = rw (length-insert_new k t m new) (insert_new-Within r.closed known r.within);
  }

module _ (m : Map LangType) (k : Text) (t t' : LangType) (old : find k m ≡ some t) where
  same_parents :
      parent_class t' ≡ parent_class t → (d : Text) → parent_of m d ≡ parent_of (insert k t' m) d
  same_parents e d = elim (Bool-cases (d == k)) [
    | inl same ↦
        rw ((eq_iff d k).0 same)
          (rw (parent_of-insert_self k t' m) (unfold parent_of in rw (old, e)))
    | inr other ↦ sym (parent_of-insert_ne k d t' m (ne_of_eq-false d k other))
  ]

  stays_class :
      (p : Text)
      → (u : LangType) × (find p m ≡ some u)
      → (u : LangType) × (find p (insert k t' m) ≡ some u)
  stays_class p (u, found) = elim (Bool-cases (p == k)) [
    | inl same ↦ (t', rw ((eq_iff p k).0 same) (find-insert_self k t' m))
    | inr other ↦ (u, find-insert_ne k p t' m (λ e. ne_of_eq-false p k other (sym e)) ∙ found)
  ]

  -- A class whose type changes and whose parent does not keeps it well formed too.
  pub insert_old-IsRooted : parent_class t' ≡ parent_class t → IsRooted m → IsRooted (insert k t' m)
  insert_old-IsRooted e r = record {
    closed = λ c p is. stays_class p (r.closed c p (same_parents e c ∙ is));
    within = λ c.
        Within-mono (suc (length m)) (suc (length (insert k t' m))) (insert k t' m) c
          (omega (arith, length-insert_le k t' m))
          (Within-ext (suc (length m)) m (insert k t' m) c (same_parents e) (r.within c));
  }

-- Without classes there is nothing to walk.
pub nil-IsRooted : IsRooted []
unfolding parent_of find
nil-IsRooted = record { closed = λ c p e. cc; within = λ c. tt }
