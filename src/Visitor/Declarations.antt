-- ===== src/Visitor/Declarations.antt =====
-- Declarations (src/ast/TranspilerVisitor.cpp): `getStructFromCode`, `getClassFromCode`, and the
-- parts of `visitFunctionDecl`, `visitVarDecl`, `visitClassDecl` and `visitTypedefDecl` that visit
-- no block.
use jb_transpiler.Base.{
  Text, lit, false, ◌&&◌, Option, none, some, List, [], ◌∷◌, ◌++◌, Result, ok, if◌then◌else◌,
}
use jb_transpiler.Syntax.{TypeSpec}
use jb_transpiler.Syntax.Tree.{
  Declarator, Expr, StructDecl, ClassMembers, no_members, class_field, class_method,
  class_constructor,
}
use jb_transpiler.Types.LangType.{
  LangType, Fields, Function, struct_name, struct_members, has_parent, parent_class, is_pointer,
}
use jb_transpiler.Types.Registry.{
  TypeSystem, register_struct, set_members_of_struct, register_class, set_class_parent,
  set_class_members, register_function, register_type_def,
}
use jb_transpiler.Types.Hierarchy.{has_virtual_methods}
use jb_transpiler.Types.Resolve.{resolve_type_from_context}
use jb_transpiler.Symbols.{add_symbol, is_global_scope}
use jb_transpiler.CodeGen.{
  generate_function_decl, generate_struct_decl, generate_type_def, generate_var_decl,
}
use jb_transpiler.Visitor.{
  Exec, pure, ◌>>=◌, ◌>>◌, lift, gets, emit, skip, is_first_pass, indent_level, find_variable,
  set_symbols, set_types, add_class_name,
}
use jb_transpiler.Visitor.Declarators.{get_declared, get_all_declared, field_lines}
use jb_transpiler.Visitor.Expressions.{visit_expr}
use jb_transpiler.Visitor.Steps.{cast_between, find_pointer, emit_inc_ref, null_text, when_some}

-- `if (!m_first_pass)`
unfoldable pub second_pass_only : Exec (Unit {0}) → Exec (Unit {0})
second_pass_only m = do first ← is_first_pass; if first then skip else m

unfoldable pub first_pass_only : Exec (Unit {0}) → Exec (Unit {0})
first_pass_only m = do first ← is_first_pass; if first then m else skip

-- a step on the type system that may throw
unfoldable pub update_types : (TypeSystem → Result TypeSystem) → Exec (Unit {0})
update_types f = do types ← gets (λ s. s.types); types' ← lift (f types); set_types types'

unfoldable pub declared : Declarator → Exec (Text × LangType)
declared d = do types ← gets (λ s. s.types); lift (get_declared types d)

unfoldable pub all_declared : List Declarator → Exec Fields
all_declared ds = do types ← gets (λ s. s.types); lift (get_all_declared types ds)

unfoldable pub resolve : Option TypeSpec → Exec LangType
resolve spec = do types ← gets (λ s. s.types); lift (resolve_type_from_context types spec)

unfoldable pub get_struct_from_code : StructDecl → Exec LangType
get_struct_from_code d = do
  first_pass_only (update_types (λ ts. ok (register_struct ts d.name).1))
  members ← all_declared d.members
  types ← gets (λ s. s.types)
  (type, types') ← lift (set_members_of_struct types d.name members)
  set_types types'
  pure type

unfoldable pub set_parent : Text → Option Text → Exec (Unit {0})
set_parent name none = skip
set_parent name (some parent) = do
  types ← gets (λ s. s.types)
  (type, types') ← lift (set_class_parent types name parent)
  set_types types'

-- the fields among the members, in order
unfoldable pub fields_of : ClassMembers → List Declarator
fields_of no_members = []
fields_of (class_field d rest) = d ∷ fields_of rest
fields_of (class_method is_virtual spec name params body rest) = fields_of rest
fields_of (class_constructor name params parent body rest) = fields_of rest

unfoldable pub get_class_from_code : Text → Option Text → ClassMembers → Exec LangType
unfolding fields_of set_parent
get_class_from_code name parent members = do
  first_pass_only (update_types (λ ts. ok (register_class ts name).1))
  set_parent name parent
  fields ← all_declared (fields_of members)
  types ← gets (λ s. s.types)
  (type, types') ← lift (set_class_members types name fields)
  set_types types'
  pure type

unfoldable pub set_current_func : Option Function → Exec (Unit {0})
set_current_func func = do
  symbols ← gets (λ s. s.symbols)
  set_symbols (record symbols { current_func = func })

unfoldable pub add_variable : Text → LangType → Exec (Unit {0})
add_variable name type = do
  symbols ← gets (λ s. s.symbols)
  symbols' ← lift (add_symbol symbols name type)
  set_symbols symbols'

-- Global pointers are the roots that `main` registers.
unfoldable pub register_global : Text → LangType → Exec (Unit {0})
register_global name type = do
  symbols ← gets (λ s. s.symbols)
  if is_global_scope symbols && is_pointer type
      then first_pass_only
          (set_symbols (record symbols { global_vars = symbols.global_vars ++ (name, type) ∷ [] }))
      else skip

-- The declaration with its initial value; a pointer variable as initial value gains a reference.
unfoldable pub initialized : Text → LangType → Option Expr → Exec (Unit {0})
initialized name type none = do
  indent ← indent_level
  text ← lift (generate_var_decl name type [])
  emit (indent ++ text)
initialized name type (some e) = do
  indent ← indent_level
  value ← visit_expr e
  from ← find_variable value
  value' ←
      cast_between from
        (some (record { name = name; type = type; struct_name = []; field_name = [] })) value
  found ← find_pointer value'
  when_some found (emit_inc_ref indent null_text)
  text ← lift (generate_var_decl name type (lit " = " ++ value'))
  emit (indent ++ text)

unfoldable pub visit_var_decl : Declarator → Option Expr → Exec (Unit {0})
unfolding register_global initialized
visit_var_decl d e = do
  (name, type) ← declared d
  register_global name type
  second_pass_only (initialized name type e)
  add_variable name type

unfoldable pub visit_struct_decl : StructDecl → Exec (Unit {0})
visit_struct_decl d = do
  type ← get_struct_from_code d
  second_pass_only (do text ← lift (generate_struct_decl (struct_name type) type); emit text)

unfoldable pub visit_typedef : Text → LangType → Exec (Unit {0})
visit_typedef name type = do
  first_pass_only (update_types (λ ts. ok (register_type_def ts name type)))
  second_pass_only (do text ← lift (generate_type_def name type); emit text)

-- The `Function` of a declaration.
unfoldable pub get_function : TypeSpec → Text → List Declarator → Exec Function
get_function spec name params = do
  fields ← all_declared params
  return_type ← resolve (some spec)
  pure (record {
    name = name;
    params = fields;
    return_type = return_type;
    is_static = false;
    is_virtual = false;
  })

-- the `struct` of a class
unfoldable pub class_struct : Text → LangType → Exec (Unit {0})
class_struct name type = do
  emit (lit "struct " ++ (name ++ lit " {\n"))
  types ← gets (λ s. s.types)
  if has_parent type
      then emit (lit "    struct " ++ (parent_class type ++ lit " parent;\n"))
      else if has_virtual_methods types name
      then emit (lit "    struct vtable* vtable;\n")
      else skip
  lines ← lift (field_lines (struct_members type))
  emit (lines ++ lit "};\n\n")

-- `visitClassDecl` up to the members
unfoldable pub begin_class : Text → Option Text → ClassMembers → Exec LangType
unfolding class_struct
begin_class name parent members = do
  type ← get_class_from_code name parent members
  first ← is_first_pass
  if first then add_class_name name else class_struct name type
  pure type

-- A function up to its block.
unfoldable pub begin_function : TypeSpec → Text → List Declarator → Exec (Unit {0})
begin_function spec name params = do
  func ← get_function spec name params
  first_pass_only (update_types (λ ts. register_function ts (some func)))
  set_current_func (some func)
  second_pass_only (do text ← lift (generate_function_decl (some func)); emit text)
