-- ===== src/Types/Hierarchy/Virtuals/Walk.antt =====
-- The loop of `getAllVirtualMethods` from one class up to the last of its ancestors.
use mathlib.Core.List.{Memᴰ}
use jb_transpiler.Base.{
  ℕ, zero, suc, Text, ◌≡◌, ◌∙◌, refl, sym, subst, some-injective, Bool, true, false, Option, none,
  some, List, Result, ok, Option-cases, inl, inr, if◌then◌else◌,
}
use jb_transpiler.Base.Map.{find}
use jb_transpiler.Types.LangType.{LangType, Function, has_parent, parent_class}
use jb_transpiler.Types.Registry.{TypeSystem, get_class_methods}
use jb_transpiler.Types.Hierarchy.{Seen, add_virtuals, all_virtuals_loop}
use jb_transpiler.Types.Hierarchy.Rooted.{parent_of, Within}
use jb_transpiler.Types.Hierarchy.Virtuals.Collect.{
  has_name, All, Distinct, IsGood, add_virtuals-IsGood, add_virtuals_keeps, add_virtuals_has,
}

-- `m` is a method of the class or of one of its ancestors.
pub data Inherits (ts : TypeSystem) : Text → Function → Type 0 where
  own :
      {c : Text} {m : Function} (t : LangType)
      → find c ts.classes ≡ some t
      → Memᴰ m (get_class_methods ts c)
      → Inherits ts c m
  above :
      {c : Text} {m : Function} (q : Text)
      → parent_of ts.classes c ≡ some q
      → Inherits ts q m
      → Inherits ts c m

abbrev onwards : ℕ → TypeSystem → Seen → Option Text → Result (List Function)
onwards n ts s none = ok s.virtuals
onwards n ts s (some q) = all_virtuals_loop n ts q s

-- One round, by the class that the loop goes to next.
loop_declared :
    (n : ℕ) (ts : TypeSystem) (c : Text) (s : Seen) (t : LangType)
    → find c ts.classes ≡ some t
    → all_virtuals_loop (suc n) ts c s
      ≡ onwards n ts (add_virtuals s (get_class_methods ts c)) (parent_of ts.classes c)
unfolding parent_of
loop_declared n ts c s t e =
    unfold all_virtuals_loop in
    rw (e, all_virtuals_loop) (by_parent (add_virtuals s (get_class_methods ts c)) (has_parent t))
  where
    by_parent :
        (s' : Seen) (b : Bool)
        → (if b then all_virtuals_loop n ts (parent_class t) s' else ok s'.virtuals)
          ≡ onwards n ts s' (if b then some (parent_class t) else none)
    by_parent s' true = refl
    by_parent s' false = refl

loop_undeclared :
    (n : ℕ) (ts : TypeSystem) (c : Text) (s : Seen)
    → find c ts.classes ≡ none
    → all_virtuals_loop (suc n) ts c s ≡ ok s.virtuals
loop_undeclared n ts c s e = unfold all_virtuals_loop in rw (e, all_virtuals_loop)

-- An undeclared class has no parent.
parent_of_undeclared :
    (ts : TypeSystem) (c : Text) → find c ts.classes ≡ none → parent_of ts.classes c ≡ none
unfolding parent_of
parent_of_undeclared ts c e = rw e

-- What the loop makes of the methods seen so far: it keeps them, adds those of the class and its
-- ancestors, and nothing else.
pub record IsAnswer (ts : TypeSystem) (c : Text) (s : Seen) (P : Function → Type 0)
    (vs : List Function) : Type 0 where
  pub each : All P vs
  pub distinct : Distinct vs
  pub kept : (j : Text) → has_name j s.virtuals ≡ true → has_name j vs ≡ true
  pub complete : (m : Function) → Inherits ts c m → m.is_virtual ≡ true → has_name m.name vs ≡ true

module _ (ts : TypeSystem) (c : Text) (s : Seen) (P : Function → Type 0) (g : IsGood P s) where
  IsAnswer-undeclared : find c ts.classes ≡ none → IsAnswer ts c s P s.virtuals
  IsAnswer-undeclared absent = record {
    each = g.each;
    distinct = g.distinct;
    kept = λ j h. h;
    complete = λ m i v. absurd (nothing i);
  }
    where
      nothing : {m : Function} → ¬ Inherits ts c m
      nothing (own t found i) = cc (absent, found)
      nothing (above q e i) = cc (parent_of_undeclared ts c absent, e)

  module _ (p : (m : Function) → Memᴰ m (get_class_methods ts c) → m.is_virtual ≡ true → P m) where
    abbrev with_own : Seen
    with_own = add_virtuals s (get_class_methods ts c)

    own_kept : (j : Text) → has_name j s.virtuals ≡ true → has_name j with_own.virtuals ≡ true
    own_kept j h = add_virtuals_keeps s (get_class_methods ts c) j h

    own_complete :
        (m : Function)
        → Memᴰ m (get_class_methods ts c)
        → m.is_virtual ≡ true
        → has_name m.name with_own.virtuals ≡ true
    own_complete m i v = add_virtuals_has P s (get_class_methods ts c) m p g i v

    own-IsGood : IsGood P with_own
    own-IsGood = add_virtuals-IsGood P s (get_class_methods ts c) p g

    IsAnswer-last : parent_of ts.classes c ≡ none → IsAnswer ts c s P with_own.virtuals
    IsAnswer-last last = record {
      each = own-IsGood.each;
      distinct = own-IsGood.distinct;
      kept = own_kept;
      complete = λ m i v. inherited i v;
    }
      where
        inherited :
            {m : Function}
            → Inherits ts c m
            → m.is_virtual ≡ true
            → has_name m.name with_own.virtuals ≡ true
        inherited {m} (own t found i) v = own_complete m i v
        inherited (above q e i) v = cc (last, e)

    IsAnswer-above :
        (q : Text) (vs : List Function)
        → parent_of ts.classes c ≡ some q
        → IsAnswer ts q with_own P vs
        → IsAnswer ts c s P vs
    IsAnswer-above q vs e a = record {
      each = a.each;
      distinct = a.distinct;
      kept = λ j h. a.kept j (own_kept j h);
      complete = λ m i v. inherited i v;
    }
      where
        inherited :
            {m : Function} → Inherits ts c m → m.is_virtual ≡ true → has_name m.name vs ≡ true
        inherited {m} (own t found i) v = a.kept m.name (own_complete m i v)
        inherited {m} (above r h i) v =
            a.complete m (subst (λ x. Inherits ts x m) (some-injective r q (sym h ∙ e)) i) v

pub loop_ends :
    (ts : TypeSystem) (P : Function → Type 0) (n : ℕ) (c : Text) (s : Seen)
    → ((m : Function) → Inherits ts c m → m.is_virtual ≡ true → P m)
    → IsGood P s
    → Within n ts.classes c
    → (vs : List Function) × (all_virtuals_loop n ts c s ≡ ok vs) × IsAnswer ts c s P vs
loop_ends ts P zero c s p g w = absurd w
loop_ends ts P (suc n) c s p g w = elim (Option-cases (find c ts.classes)) [
  | inl absent ↦
      (s.virtuals, loop_undeclared n ts c s absent, IsAnswer-undeclared ts c s P g absent)
  | inr (t, found) ↦
      let p' = λ (m : Function) (i : Memᴰ m (get_class_methods ts c)). p m (own t found i) in
      let step = loop_declared n ts c s t found in
      elim (Option-cases (parent_of ts.classes c)) [
        | inl last ↦ (
          (add_virtuals s (get_class_methods ts c)).virtuals,
          step ∙ (rw last),
          IsAnswer-last ts c s P g p' last,
        )
        | inr (q, e) ↦
            let (vs, ends, a) =
              loop_ends ts P n q (add_virtuals s (get_class_methods ts c))
                (λ m i. p m (above q e i)) (own-IsGood ts c s P g p') (rw e at w) in
            (vs, step ∙ (rw e ends), IsAnswer-above ts c s P g p' q vs e a)
      ]
]
