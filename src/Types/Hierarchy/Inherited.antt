-- ===== src/Types/Hierarchy/Inherited.antt =====
-- `getAllClassMembers` (src/types/TypeSystem.cpp): the members of the parent, then the own ones.
use jb_transpiler.Base.{
  ℕ, zero, suc, Text, lit, ◌≡◌, ◌∙◌, refl, sym, ap, Bool, true, false, Option, none, some, ◌++◌,
  Result, ok, throw, ◌>>=◌, compiler_error, type_error, Option-cases, inl, inr, if◌then◌else◌,
  length,
}
use jb_transpiler.Base.Map.{find}
use jb_transpiler.Types.LangType.{LangType, Fields, struct_members, has_parent, parent_class}
use jb_transpiler.Types.Registry.{TypeSystem}
use jb_transpiler.Types.Hierarchy.{all_members_rec, get_all_class_members}
use jb_transpiler.Types.Hierarchy.Rooted.{parent_of, Within, ThenWithin, ThenWithin-map, IsRooted}

abbrev members_above : ℕ → TypeSystem → LangType → Option Text → Result Fields
members_above n ts t none = ok (struct_members t)
members_above n ts t (some q) =
    all_members_rec n ts q >>= λ inherited. ok (inherited ++ struct_members t)

-- One round, by the class that the recursion goes to next.
all_members_rec-suc :
    (n : ℕ) (ts : TypeSystem) (c : Text) (t : LangType)
    → find c ts.classes ≡ some t
    → all_members_rec (suc n) ts c ≡ members_above n ts t (parent_of ts.classes c)
unfolding all_members_rec parent_of
all_members_rec-suc n ts c t e = rw (e, all_members_rec) (by_parent (has_parent t))
  where
    by_parent :
        (b : Bool)
        → (if b
            then (all_members_rec n ts (parent_class t) >>= λ inherited.
                ok (inherited ++ struct_members t))
            else ok (struct_members t))
          ≡ members_above n ts t (if b then some (parent_class t) else none)
    by_parent true = refl
    by_parent false = refl

all_members_rec_undeclared :
    (n : ℕ) (ts : TypeSystem) (c : Text)
    → find c ts.classes ≡ none
    → all_members_rec (suc n) ts c
      ≡ throw (compiler_error type_error (lit "Class not found: " ++ c))
unfolding all_members_rec
all_members_rec_undeclared n ts c e = rw (e, all_members_rec)

-- Rounds that suffice give the result of one round more.
more_rounds :
    (n : ℕ) (ts : TypeSystem) (c : Text)
    → Within n ts.classes c
    → all_members_rec (suc n) ts c ≡ all_members_rec n ts c
more_rounds zero ts c w = absurd w
more_rounds (suc n) ts c w = elim (Option-cases (find c ts.classes)) [
  | inl absent ↦
      all_members_rec_undeclared (suc n) ts c absent
      ∙ sym (all_members_rec_undeclared n ts c absent)
  | inr (t, found) ↦
      all_members_rec-suc (suc n) ts c t found
      ∙ above t (parent_of ts.classes c) (
          ThenWithin-map (Within n ts.classes) _ (parent_of ts.classes c)
            (λ q e. more_rounds n ts q) w)
      ∙ sym (all_members_rec-suc n ts c t found)
]
  where
    above :
        (t : LangType) (o : Option Text)
        → ThenWithin (λ q. all_members_rec (suc n) ts q ≡ all_members_rec n ts q) o
        → members_above (suc n) ts t o ≡ members_above n ts t o
    above t none h = refl
    above t (some q) h = rw h

module _ (ts : TypeSystem) (c p : Text) (t : LangType) where
  -- In a well-formed hierarchy the members of a derived class are those of its parent, then its
  -- own.
  pub get_all_class_members_derived :
      IsRooted ts.classes
      → find c ts.classes ≡ some t
      → parent_of ts.classes c ≡ some p
      → get_all_class_members ts c
        ≡ (get_all_class_members ts p >>= λ inherited. ok (inherited ++ struct_members t))
  unfolding get_all_class_members
  get_all_class_members_derived r found derived =
      all_members_rec-suc (length ts.classes) ts c t found
      ∙ (rw derived (
          ap (λ m. m >>= λ inherited. ok (inherited ++ struct_members t))
            (sym (more_rounds (length ts.classes) ts p (rw derived at (r.within c))))))
