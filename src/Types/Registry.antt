-- ===== src/Types/Registry.antt =====
-- class `TypeSystem` (include/jblang/types/TypeSystem.h): its maps, and the operations of
-- src/types/TypeSystem.cpp that register and look up names. A null `shared_ptr` is `none`.
pub mod Classes
use jb_transpiler.Base.{
  Text, lit, Option, none, some, List, [], ◌∷◌, ◌++◌, Result, ok, throw, compiler_error, type_error,
  other,
}
use jb_transpiler.Base.Map.{Map, find, insert}
use jb_transpiler.Types.LangType.{
  LangType, struct, class, Fields, Function, simple_type, set_struct, set_struct_members,
  set_parent_class,
}

pub record TypeSystem : Type 0 where
  pub typedefs : Map LangType
  pub funcs : Map Function
  pub defines : Map Text
  pub structs : Map LangType
  pub classes : Map LangType
  pub class_methods : Map (List Function)
  pub class_constructors : Map Function

abbrev pub empty : TypeSystem
empty = record {
  typedefs = [];
  funcs = [];
  defines = [];
  structs = [];
  classes = [];
  class_methods = [];
  class_constructors = [];
}

unfoldable pub register_struct : TypeSystem → Text → LangType × TypeSystem
register_struct ts name =
    let type = set_struct name (simple_type struct) in
    (type, record ts { structs = insert name type ts.structs })

set_struct_members_found :
    TypeSystem → Text → Fields → Option LangType → Result (LangType × TypeSystem)
set_struct_members_found ts name members none =
    throw (compiler_error type_error (lit "Struct not found: " ++ name))
set_struct_members_found ts name members (some old) =
    let type = set_struct_members members old in
    ok (type, record ts { structs = insert name type ts.structs })

unfoldable pub set_members_of_struct : TypeSystem → Text → Fields → Result (LangType × TypeSystem)
unfolding set_struct_members_found
set_members_of_struct ts name members =
    set_struct_members_found ts name members (find name ts.structs)

unfoldable pub register_type_def : TypeSystem → Text → LangType → TypeSystem
register_type_def ts name type = record ts { typedefs = insert name type ts.typedefs }

unfoldable pub register_function : TypeSystem → Option Function → Result TypeSystem
register_function ts none = throw (compiler_error other (lit "Cannot register null function"))
register_function ts (some func) = ok (record ts { funcs = insert func.name func ts.funcs })

unfoldable pub register_class : TypeSystem → Text → LangType × TypeSystem
register_class ts name =
    let type = set_struct name (simple_type class) in
    (type, record ts { classes = insert name type ts.classes })

unfoldable pub set_class_members_found :
    TypeSystem → Text → Fields → Option LangType → Result (LangType × TypeSystem)
set_class_members_found ts name members none =
    throw (compiler_error type_error (lit "Class not found: " ++ name))
set_class_members_found ts name members (some old) =
    let type = set_struct_members members old in
    ok (type, record ts { classes = insert name type ts.classes })

unfoldable pub set_class_members : TypeSystem → Text → Fields → Result (LangType × TypeSystem)
unfolding set_class_members_found
set_class_members ts name members = set_class_members_found ts name members (find name ts.classes)

-- `m_classMethods[className]`, which is empty for a class that has no entry
abbrev entry : Option (List Function) → List Function
entry none = []
entry (some methods) = methods

unfoldable pub get_class_methods : TypeSystem → Text → List Function
get_class_methods ts class_name = entry (find class_name ts.class_methods)

unfoldable pub register_class_method : TypeSystem → Text → Option Function → Result TypeSystem
unfolding get_class_methods
register_class_method ts class_name none =
    throw (compiler_error other (lit "Cannot register null method"))
register_class_method ts class_name (some method) =
    let methods = get_class_methods ts class_name ++ method ∷ [] in
    ok (record ts { class_methods = insert class_name methods ts.class_methods })

unfoldable pub register_class_constructor : TypeSystem → Text → Option Function → Result TypeSystem
register_class_constructor ts class_name none =
    throw (compiler_error other (lit "Cannot register null constructor"))
register_class_constructor ts class_name (some constructor) =
    ok (record ts { class_constructors = insert class_name constructor ts.class_constructors })

unfoldable pub get_class_constructor : TypeSystem → Text → Option Function
get_class_constructor ts class_name = find class_name ts.class_constructors

unfoldable pub set_class_parent_found :
    TypeSystem → Text → Text → Option LangType → Option LangType → Result (LangType × TypeSystem)
set_class_parent_found ts class_name parent_name none parent =
    throw (compiler_error type_error (lit "Class not found: " ++ class_name))
set_class_parent_found ts class_name parent_name (some old) none =
    throw (compiler_error type_error (lit "Parent class not found: " ++ parent_name))
set_class_parent_found ts class_name parent_name (some old) (some parent) =
    let type = set_parent_class parent_name old in
    ok (type, record ts { classes = insert class_name type ts.classes })

unfoldable pub set_class_parent : TypeSystem → Text → Text → Result (LangType × TypeSystem)
unfolding set_class_parent_found
set_class_parent ts class_name parent_name =
    set_class_parent_found ts class_name parent_name (find class_name ts.classes)
      (find parent_name ts.classes)

abbrev value_or_empty : Option Text → Text
value_or_empty none = []
value_or_empty (some val) = val

unfoldable pub get_define_value : TypeSystem → Text → Text
get_define_value ts key = value_or_empty (find key ts.defines)

unfoldable pub register_define : TypeSystem → Text → Text → TypeSystem
register_define ts key val = record ts { defines = insert key val ts.defines }
