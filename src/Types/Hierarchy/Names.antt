-- ===== src/Types/Hierarchy/Names.antt =====
-- `findMethodImplementation` (src/types/TypeSystem.cpp), and the method names `Class_method` that
-- it and the virtual tables take apart at the first underscore.
use jb_transpiler.Base.{
  ℕ, zero, suc, Text, Lacks, lit, ◌≡◌, ◌⊎◌, ◌∙◌, refl, sym, subst, some-injective, true, false,
  Bool, Option, none, some, ◌∷◌, ◌++◌, Result, ok, Option-cases, inl, inr, if◌then◌else◌,
  after_byte-append,
}
use jb_transpiler.Base.Map.{find}
use jb_transpiler.Types.LangType.{LangType, has_parent, parent_class}
use jb_transpiler.Types.Registry.{TypeSystem, get_class_methods}
use jb_transpiler.Types.Hierarchy.{
  rounds, base_name, find_by_base_name, implementation_loop, find_method_implementation,
}
use jb_transpiler.Types.Hierarchy.Rooted.{parent_of, parent_in, Within, IsRooted}

-- The name under which `visitClassDecl` registers a method.
abbrev pub method_name : Text → Text → Text
method_name class_name method = class_name ++ b'_' ∷ method

-- The base name of a method is its own name, whatever that is, where the name of its class has no
-- underscore.
pub base_name-method_name :
    (class_name method : Text)
    → Lacks b'_' class_name
    → base_name (method_name class_name method) ≡ method
unfolding base_name
base_name-method_name c m h = after_byte-append b'_' c m h

-- `Implements ts b c n`: the nearest class, from `c` upwards, with a method of base name `b` has
-- its first such method under the full name `n`.
pub data Implements (ts : TypeSystem) (b : Text) : Text → Text → Type 0 where
  here : {c n : Text} → find_by_base_name b (get_class_methods ts c) ≡ some n → Implements ts b c n
  there :
      {c n : Text} (q : Text)
      → find_by_base_name b (get_class_methods ts c) ≡ none
      → parent_of ts.classes c ≡ some q
      → Implements ts b q n
      → Implements ts b c n

abbrev next_class : ℕ → TypeSystem → Text → Text → Option Text → Result Text
next_class n ts d b none = ok d
next_class n ts d b (some q) = implementation_loop n ts d q b

loop_found :
    (n : ℕ) (ts : TypeSystem) (d c b name : Text)
    → find_by_base_name b (get_class_methods ts c) ≡ some name
    → implementation_loop (suc n) ts d c b ≡ ok name
loop_found n ts d c b name e = unfold implementation_loop in rw (e, implementation_loop)

loop_next :
    (n : ℕ) (ts : TypeSystem) (d c b : Text)
    → find_by_base_name b (get_class_methods ts c) ≡ none
    → implementation_loop (suc n) ts d c b ≡ next_class n ts d b (parent_of ts.classes c)
unfolding parent_of
loop_next n ts d c b e =
    unfold implementation_loop in rw (e, implementation_loop) (by_type (find c ts.classes))
  where
    by_parent :
        (t : LangType) (x : Bool)
        → (if x then implementation_loop n ts d (parent_class t) b else ok d)
          ≡ next_class n ts d b (if x then some (parent_class t) else none)
    by_parent t true = refl
    by_parent t false = refl

    by_type :
        (o : Option LangType)
        → (elim o [
          | none ↦ ok d
          | some t ↦ if has_parent t then implementation_loop n ts d (parent_class t) b else ok d
        ])
          ≡ next_class n ts d b (parent_in o)
    by_type none = refl
    by_type (some t) = by_parent t (has_parent t)

module _ (ts : TypeSystem) (d b : Text) where
  loop_lem :
      (n : ℕ) (c : Text)
      → Within n ts.classes c
      → (name : Text) × (implementation_loop n ts d c b ≡ ok name)
        × (Implements ts b c name ⊎ (name ≡ d) × ((m : Text) → ¬ Implements ts b c m))
  loop_lem zero c w = absurd w
  loop_lem (suc n) c w = elim (Option-cases (find_by_base_name b (get_class_methods ts c))) [
    | inr (name, e) ↦ (name, loop_found n ts d c b name e, inl (here e))
    | inl absent ↦ elim (Option-cases (parent_of ts.classes c)) [
      | inl last ↦
          (d, loop_next n ts d c b absent ∙ (rw last), inr (refl, λ m i. nothing absent last i))
      | inr (q, e) ↦
          let (name, ends, is) = loop_lem n q (rw e at w) in
          (name, loop_next n ts d c b absent ∙ (rw e ends), upwards absent e is)
    ]
  ]
    where
      nothing :
          {m : Text}
          → find_by_base_name b (get_class_methods ts c) ≡ none
          → parent_of ts.classes c ≡ none
          → ¬ Implements ts b c m
      nothing absent last (here e) = cc (absent, e)
      nothing absent last (there q _ e i) = cc (last, e)

      only_above :
          {q m : Text}
          → find_by_base_name b (get_class_methods ts c) ≡ none
          → parent_of ts.classes c ≡ some q
          → Implements ts b c m
          → Implements ts b q m
      only_above absent e (here h) = absurd (cc (absent, h))
      only_above {q} {m} absent e (there r _ h i) =
          subst (λ x. Implements ts b x m) (some-injective r q (sym h ∙ e)) i

      upwards :
          {q name : Text}
          → find_by_base_name b (get_class_methods ts c) ≡ none
          → parent_of ts.classes c ≡ some q
          → Implements ts b q name ⊎ (name ≡ d) × ((m : Text) → ¬ Implements ts b q m)
          → Implements ts b c name ⊎ (name ≡ d) × ((m : Text) → ¬ Implements ts b c m)
      upwards {q} absent e (inl i) = inl (there q absent e i)
      upwards absent e (inr (same, none_above)) =
          inr (same, λ m i. none_above m (only_above absent e i))

-- In a well-formed hierarchy `findMethodImplementation` ends without an exception. It returns the
-- name of the method of the nearest class that has one of this base name, and the name that the
-- class itself would give it exactly where neither the class nor an ancestor has one.
pub find_method_implementation_lem :
    (ts : TypeSystem) (c b : Text)
    → IsRooted ts.classes
    → (name : Text) × (find_method_implementation ts c b ≡ ok name)
      × (Implements ts b c name
          ⊎ (name ≡ c ++ (lit "_" ++ b)) × ((m : Text) → ¬ Implements ts b c m))
unfolding find_method_implementation
find_method_implementation_lem ts c b r =
    loop_lem ts (c ++ (lit "_" ++ b)) b (rounds ts) c (r.within c)
