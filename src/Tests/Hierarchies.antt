-- ===== src/Tests/Hierarchies.antt =====
-- The theorems on the class hierarchy, the method tables and the types, applied to the samples.
use jb_transpiler.Base.{
  Text, lit, ◌≡◌, refl, true, some, List, [], ◌++◌, Bool, ok, hang, ◌↔◌, ◌⊎◌, if◌then◌else◌,
  is_empty,
}
use jb_transpiler.Base.Map.{find}
use jb_transpiler.Base.Set
use jb_transpiler.Types.LangType.{LangType, Function}
use jb_transpiler.Types.Hierarchy.{
  is_subclass_loop, is_subclass_of, get_all_virtual_methods, all_virtuals_loop,
  find_method_implementation, none_seen,
}
use jb_transpiler.Types.Hierarchy.Compatible.{is_compatible_lem}
use jb_transpiler.Types.Hierarchy.Subclass.{Ancestor, is_subclass_of_decides}
use jb_transpiler.Types.Hierarchy.Cyclic.{cycle_hangs-is_subclass, cycle_hangs-all_virtuals}
use jb_transpiler.Types.Hierarchy.Virtuals.{get_all_virtual_methods_lem}
use jb_transpiler.Types.Hierarchy.Virtuals.Walk.{Inherits}
use jb_transpiler.Types.Hierarchy.Virtuals.Collect.{All, Distinct, has_name}
use jb_transpiler.Types.VTable.Slots.{AllEntries, DistinctSlots, IsSlot, has_slot}
use jb_transpiler.Types.Hierarchy.Names.{Implements, find_method_implementation_lem}
use jb_transpiler.Types.VTable.{
  generate_vtable_struct, generate_vtable_instance, instance_text, slot_lines,
}
use jb_transpiler.Types.VTable.Instance.{generate_vtable_instance_lem}
use jb_transpiler.Types.VTable.Struct.{generate_vtable_struct_lem}
use jb_transpiler.Types.LangType.{set_pointer}
use jb_transpiler.Types.Hierarchy.{is_compatible}
use jb_transpiler.Tests.Samples.{
  animal_type, animal, dog, dog_type, zoo, zoo-IsRooted, ouroboros, ouroboros-Ancestor,
  dog-not_above,
}

is_subclass_of_decides_example :
    (b : Bool) × (is_subclass_of zoo dog animal ≡ ok b)
    × ((b ≡ true) ↔ Ancestor zoo.classes dog animal)
is_subclass_of_decides_example = is_subclass_of_decides zoo dog animal zoo-IsRooted

get_all_virtual_methods_lem_example :
    (vs : List Function) × (get_all_virtual_methods zoo dog ≡ ok vs)
    × All (λ m. Inherits zoo dog m × (m.is_virtual ≡ true)) vs
    × Distinct vs
    × ((m : Function) → Inherits zoo dog m → m.is_virtual ≡ true → has_name m.name vs ≡ true)
get_all_virtual_methods_lem_example = get_all_virtual_methods_lem zoo dog zoo-IsRooted

find_method_implementation_lem_example :
    (name : Text) × (find_method_implementation zoo dog (lit "move") ≡ ok name)
    × (Implements zoo (lit "move") dog name
        ⊎ (name ≡ dog ++ (lit "_" ++ lit "move"))
          × ((m : Text) → ¬ Implements zoo (lit "move") dog m))
find_method_implementation_lem_example =
    find_method_implementation_lem zoo dog (lit "move") zoo-IsRooted

generate_vtable_instance_lem_example :
    (vs : List Function) × (es : List (Text × Text)) × (get_all_virtual_methods zoo dog ≡ ok vs)
    × (generate_vtable_instance zoo dog ≡ ok (if is_empty vs then [] else instance_text dog es))
    × AllEntries (λ slot impl. Implements zoo slot dog impl × IsSlot zoo dog slot) es
    × DistinctSlots es
    × ((b : Text) → IsSlot zoo dog b → has_slot b es ≡ true)
generate_vtable_instance_lem_example = generate_vtable_instance_lem zoo dog zoo-IsRooted

generate_vtable_struct_lem_example :
    (slots : List Text) × (generate_vtable_struct zoo
      ≡ ok (lit "struct vtable {\n" ++ (slot_lines slots ++ lit "};\n\n")))
    × Set.IsOrdered slots
    × ((c b : Text) (t : LangType)
        → find c zoo.classes ≡ some t
        → IsSlot zoo c b
        → Set.contains b slots ≡ true)
    × ((b : Text) → Set.contains b slots ≡ true → (c : Text) × IsSlot zoo c b)
generate_vtable_struct_lem_example = generate_vtable_struct_lem zoo zoo-IsRooted

cycle_hangs-all_virtuals_example : all_virtuals_loop 7 ouroboros animal none_seen ≡ hang
cycle_hangs-all_virtuals_example =
    cycle_hangs-all_virtuals ouroboros animal ouroboros-Ancestor 7 none_seen

cycle_hangs-is_subclass_example : is_subclass_loop 7 ouroboros animal dog ≡ hang
cycle_hangs-is_subclass_example =
    cycle_hangs-is_subclass ouroboros animal dog ouroboros-Ancestor dog-not_above 7

is_compatible_lem_example :
    (b : Bool) × (is_compatible zoo (set_pointer true dog_type) (set_pointer true animal_type)
      ≡ ok b)
    × ((b ≡ true) ↔ ((dog ≡ animal) ⊎ Ancestor zoo.classes dog animal))
is_compatible_lem_example =
    is_compatible_lem zoo (set_pointer true dog_type) (set_pointer true animal_type) zoo-IsRooted
      (refl, refl, refl) (refl, refl, refl)
