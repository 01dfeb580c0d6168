-- ===== src/Types/Hierarchy.antt =====
-- The walks of src/types/TypeSystem.cpp along the chain of parent classes. Each is a loop, or a
-- recursion, that the source ends only when a class has no parent; here it has one round more than
-- there are classes, and `Hierarchy/Rooted` proves that these suffice.
pub mod Rooted
pub mod Cyclic
pub mod Subclass
pub mod Compatible
pub mod Inherited
pub mod Virtuals
pub mod Names
use jb_transpiler.Base.{
  ℕ, zero, suc, Text, lit, ◌==◌, Bool, true, false, not, ◌&&◌, Option, none, some, List, [], ◌∷◌,
  ◌++◌, Result, ok, throw, hang, ◌>>=◌, if◌then◌else◌, compiler_error, type_error, length,
  after_byte, is_empty, no_except,
}
use jb_transpiler.Base.Map.{find}
use jb_transpiler.Base.Set
use jb_transpiler.Types.LangType.{
  LangType, Function, Fields, parent_class, has_parent, struct_members, is_pointer, is_class,
  struct_name,
}
use jb_transpiler.Types.LangType.Render.{type_to_string}
use jb_transpiler.Types.Registry.{TypeSystem, get_class_methods}

abbrev pub rounds : TypeSystem → ℕ
rounds ts = suc (length ts.classes)

-- `name.substr(name.find('_') + 1)`
unfoldable pub base_name : Text → Text
base_name name = after_byte b'_' name

unfoldable pub is_subclass_loop : ℕ → TypeSystem → Text → Text → Result Bool
is_subclass_loop zero ts current parent = hang
is_subclass_loop (suc fuel) ts current parent = elim (find current ts.classes) [
  | none ↦ ok false
  | some type ↦
      let rest = is_subclass_loop fuel ts (parent_class type) parent in
      if has_parent type then (if parent_class type == parent then ok true else rest) else ok false
]

-- The test of `child` before the loop is the first one of the loop again.
unfoldable pub is_subclass_of : TypeSystem → Text → Text → Result Bool
unfolding is_subclass_loop
is_subclass_of ts child parent = elim (find child ts.classes) [
  | none ↦ ok false
  | some _ ↦ is_subclass_loop (rounds ts) ts child parent
]

unfoldable pub all_members_rec : ℕ → TypeSystem → Text → Result Fields
all_members_rec zero ts class_name = hang
all_members_rec (suc fuel) ts class_name = elim (find class_name ts.classes) [
  | none ↦ throw (compiler_error type_error (lit "Class not found: " ++ class_name))
  | some type ↦
      let inherited = all_members_rec fuel ts (parent_class type) in
      if has_parent type
      then (inherited >>= λ parent_members. ok (parent_members ++ struct_members type))
      else ok (struct_members type)
]

unfoldable pub get_all_class_members : TypeSystem → Text → Result Fields
unfolding all_members_rec
get_all_class_members ts class_name = all_members_rec (rounds ts) ts class_name

virtual_only : List Function → List Function
virtual_only [] = []
virtual_only (m ∷ ms) = if m.is_virtual then m ∷ virtual_only ms else virtual_only ms

unfoldable pub get_virtual_methods : TypeSystem → Text → List Function
unfolding virtual_only
get_virtual_methods ts class_name = virtual_only (get_class_methods ts class_name)

unfoldable pub has_virtual_methods : TypeSystem → Text → Bool
has_virtual_methods ts class_name = not (is_empty (get_virtual_methods ts class_name))

-- `allVirtuals` and `seenMethods`
pub record Seen : Type 0 where
  pub virtuals : List Function
  pub names : List Text

unfoldable pub add_virtual : Seen → Function → Seen
add_virtual s m =
    if m.is_virtual && not (Set.contains m.name s.names)
    then record { virtuals = s.virtuals ++ m ∷ []; names = Set.insert m.name s.names }
    else s

unfoldable pub add_virtuals : Seen → List Function → Seen
unfolding add_virtual
add_virtuals s [] = s
add_virtuals s (m ∷ ms) = add_virtuals (add_virtual s m) ms

unfoldable pub all_virtuals_loop : ℕ → TypeSystem → Text → Seen → Result (List Function)
unfolding add_virtuals
all_virtuals_loop zero ts current s = hang
all_virtuals_loop (suc fuel) ts current s = elim (find current ts.classes) [
  | none ↦ ok s.virtuals
  | some type ↦
      let s' = add_virtuals s (get_class_methods ts current) in
      let rest = all_virtuals_loop fuel ts (parent_class type) s' in
      if has_parent type then rest else ok s'.virtuals
]

abbrev pub none_seen : Seen
none_seen = record { virtuals = []; names = [] }

unfoldable pub get_all_virtual_methods : TypeSystem → Text → Result (List Function)
unfolding all_virtuals_loop
get_all_virtual_methods ts class_name = all_virtuals_loop (rounds ts) ts class_name none_seen

unfoldable pub find_by_base_name : Text → List Function → Option Text
unfolding base_name
find_by_base_name method_name [] = none
find_by_base_name method_name (m ∷ ms) =
    if base_name m.name == method_name then some m.name else find_by_base_name method_name ms

unfoldable pub implementation_loop : ℕ → TypeSystem → Text → Text → Text → Result Text
unfolding find_by_base_name
implementation_loop zero ts default current method_name = hang
implementation_loop (suc fuel) ts default current method_name =
    elim (find_by_base_name method_name (get_class_methods ts current)) [
      | some name ↦ ok name
      | none ↦ elim (find current ts.classes) [
        | none ↦ ok default
        | some type ↦
            let rest = implementation_loop fuel ts default (parent_class type) method_name in
            if has_parent type then rest else ok default
      ]
    ]

unfoldable pub find_method_implementation : TypeSystem → Text → Text → Result Text
unfolding implementation_loop
find_method_implementation ts class_name method_name =
    implementation_loop (rounds ts) ts (class_name ++ (lit "_" ++ method_name)) class_name
      method_name

-- `isCompatible` is `noexcept`.
unfoldable pub is_compatible : TypeSystem → LangType → LangType → Result Bool
unfolding is_subclass_of
is_compatible ts from to = no_except do
  from_text ← type_to_string from
  to_text ← type_to_string to
  if from_text == to_text
      then ok true
      else if (is_pointer from && is_pointer to) && (is_class from && is_class to)
      then is_subclass_of ts (struct_name from) (struct_name to)
      else ok false
