-- ===== src/Tests/Samples.antt =====
-- A hierarchy of two classes with a virtual method, one with a cycle, and symbol tables.
use jb_transpiler.Base.{
  Text, lit, ◌≡◌, refl, sym, ap, ◌∙◌, ne_of_eq-false, Result, ok, true, false, Option, none, some,
  [], ◌∷◌, ◌==◌,
}
use jb_transpiler.Base.Map.{find, insert}
use jb_transpiler.Types.LangType.{
  LangType, Fields, Function, class, int, simple_type, set_struct, set_parent_class,
}
use jb_transpiler.Types.Registry.{TypeSystem, empty}
use jb_transpiler.Types.Hierarchy.Rooted.{
  IsRooted, HasKnownParent, nil-IsRooted, insert_new-IsRooted, parent_of,
}
use jb_transpiler.Types.Hierarchy.Subclass.{Ancestor}

abbrev pub animal : Text
animal = lit "Animal"

abbrev pub dog : Text
dog = lit "Dog"

abbrev pub animal_type : LangType
animal_type = set_struct animal (simple_type class)

abbrev pub dog_type : LangType
dog_type = set_parent_class animal (set_struct dog (simple_type class))

abbrev virtual_method : Text → Function
virtual_method name = record {
  name = name;
  params = [];
  return_type = simple_type int;
  is_static = false;
  is_virtual = true;
}

-- `Dog` derives from `Animal` and overrides `speak`; only `Animal` has `move`.
abbrev pub zoo : TypeSystem
zoo = record empty {
  classes = insert dog dog_type (insert animal animal_type []);
  class_methods =
      (animal, virtual_method (lit "Animal_speak") ∷ virtual_method (lit "Animal_move") ∷ [])
      ∷ (dog, virtual_method (lit "Dog_speak") ∷ [])
      ∷ [];
}

abbrev pub one_class : TypeSystem
one_class = record empty { classes = insert animal animal_type [] }

pub one_class-IsRooted : IsRooted one_class.classes
unfolding find
one_class-IsRooted = insert_new-IsRooted [] animal animal_type refl nil-IsRooted (λ p e. cc)

abbrev text_or : Text → Option Text → Text
text_or d none = d
text_or d (some q) = q

animal_is_known : HasKnownParent one_class.classes dog_type
unfolding find insert lit ◌==◌
animal_is_known p e =
    (animal_type, ap (λ q. find q one_class.classes) (sym (ap (text_or animal) e)))

pub zoo-IsRooted : IsRooted zoo.classes
unfolding find insert lit ◌==◌
zoo-IsRooted =
    insert_new-IsRooted one_class.classes dog dog_type refl one_class-IsRooted animal_is_known

-- a class that was declared as its own parent
abbrev pub ouroboros : TypeSystem
ouroboros = record empty {
  classes = insert animal (set_parent_class animal (set_struct animal (simple_type class))) [];
}

pub ouroboros-Ancestor : Ancestor ouroboros.classes animal animal
unfolding parent_of find insert lit ◌==◌
ouroboros-Ancestor = Ancestor.parent refl

only_animal : {c p : Text} → Ancestor ouroboros.classes c p → c ≡ animal → p ≡ animal
unfolding parent_of find insert lit ◌==◌
only_animal (Ancestor.parent e) same =
    sym (ap (text_or animal) (ap (parent_of ouroboros.classes) (sym same) ∙ e))
only_animal (Ancestor.above q e a) same =
    only_animal a (sym (ap (text_or animal) (ap (parent_of ouroboros.classes) (sym same) ∙ e)))

pub dog-not_above : ¬ Ancestor ouroboros.classes animal dog
dog-not_above a = ne_of_eq-false dog animal (unfold lit ◌==◌ in refl) (only_animal a refl)

-- the fields of a class
abbrev pub legs : Fields
legs = (lit "legs", simple_type int) ∷ []

abbrev pub system_or : TypeSystem → Result TypeSystem → TypeSystem
system_or d (ok ts) = ts
system_or d _ = d
