-- ===== src/Types/VTable.antt =====
-- `generateVTableStruct` and `generateVTableInstance` (src/types/TypeSystem.cpp).
pub mod Slots
pub mod Instance
pub mod Struct
use jb_transpiler.Base.{
  Text, lit, List, [], ◌∷◌, ◌++◌, Result, ok, ◌>>=◌, if◌then◌else◌, true, false, is_empty,
}
use jb_transpiler.Base.Map.{Map}
use jb_transpiler.Base.Set
use jb_transpiler.Types.LangType.{LangType, Function}
use jb_transpiler.Types.Registry.{TypeSystem}
use jb_transpiler.Types.Hierarchy.{base_name, get_all_virtual_methods, find_method_implementation}

unfoldable pub add_slots : List Text → List Function → List Text
add_slots s [] = s
add_slots s (m ∷ ms) = add_slots (Set.insert (base_name m.name) s) ms

-- `allVirtualMethods`, for the classes in the order of the map
unfoldable pub collect_slots : TypeSystem → Map LangType → List Text → Result (List Text)
unfolding add_slots
collect_slots ts [] s = ok s
collect_slots ts ((c, _) ∷ classes) s = do
  virtuals ← get_all_virtual_methods ts c
  collect_slots ts classes (add_slots s virtuals)

unfoldable pub slot_lines : List Text → Text
slot_lines [] = []
slot_lines (name ∷ names) =
    lit "    void (*" ++ (name ++ (lit ")(void* this);\n" ++ slot_lines names))

unfoldable pub generate_vtable_struct : TypeSystem → Result Text
unfolding collect_slots slot_lines
generate_vtable_struct ts = do
  slots ← collect_slots ts ts.classes []
  ok (lit "struct vtable {\n" ++ (slot_lines slots ++ lit "};\n\n"))

-- The slots that one class's table fills, each with its function, in the order of the loop;
-- `processed` is `processedMethods`.
unfoldable pub instance_entries :
    TypeSystem → Text → List Text → List Function → Result (List (Text × Text))
instance_entries ts c processed [] = ok []
instance_entries ts c processed (m ∷ ms) = elim (Set.contains (base_name m.name) processed) [
  | true ↦ instance_entries ts c processed ms
  | false ↦ find_method_implementation ts c (base_name m.name) >>= λ impl.
      instance_entries ts c (Set.insert (base_name m.name) processed) ms >>= λ rest.
      ok ((base_name m.name, impl) ∷ rest)
]

entry_lines : List (Text × Text) → Text
entry_lines [] = []
entry_lines ((name, impl) ∷ entries) =
    lit "    ." ++ (name ++ (lit " = " ++ (impl ++ (lit ",\n" ++ entry_lines entries))))

unfoldable pub instance_text : Text → List (Text × Text) → Text
unfolding entry_lines
instance_text c entries =
    lit "static struct vtable "
    ++ (c ++ (lit "_vtable = {\n" ++ (entry_lines entries ++ lit "};\n\n")))

unfoldable pub generate_vtable_instance : TypeSystem → Text → Result Text
unfolding instance_entries instance_text
generate_vtable_instance ts c = do
  virtuals ← get_all_virtual_methods ts c
  if is_empty virtuals
      then ok []
      else do entries ← instance_entries ts c [] virtuals; ok (instance_text c entries)
