-- ===== src/Visitor/Members.antt =====
-- Methods and constructors of a class (`visitClassDecl` of src/ast/TranspilerVisitor.cpp), up to
-- their blocks.
use jb_transpiler.Base.{
  Text, lit, ◌==◌, Bool, true, false, ◌||◌, Option, none, some, List, [], ◌∷◌, ◌++◌, if◌then◌else◌,
  is_empty, has_infix,
}
use jb_transpiler.Syntax.{TypeSpec}
use jb_transpiler.Syntax.Tree.{Declarator, Args, no_args, arg, Stmts}
use jb_transpiler.Syntax.Tokens.{method_text}
use jb_transpiler.Types.LangType.{
  LangType, void, Function, simple_type, has_parent, parent_class, set_pointer,
}
use jb_transpiler.Types.Registry.{register_class_method, register_class_constructor}
use jb_transpiler.Types.Hierarchy.{base_name, get_all_virtual_methods}
use jb_transpiler.CodeGen.{generate_function_decl, generate_function_call}
use jb_transpiler.Visitor.{Exec, pure, ◌>>=◌, ◌>>◌, crash, lift, gets, emit, indent_level}
use jb_transpiler.Visitor.Expressions.{visit_args}
use jb_transpiler.Visitor.Declarations.{
  second_pass_only, first_pass_only, update_types, all_declared, resolve, set_current_func,
}

abbrev pub this_param : LangType → Text × LangType
this_param type = (lit "this", set_pointer true type)

unfoldable pub overrides : Text → List Function → Bool
overrides method_name [] = false
overrides method_name (m ∷ ms) = base_name m.name == method_name || overrides method_name ms

-- Whether a method is virtual: its text has the word, or it overrides a virtual method.
unfoldable pub decide_virtual : LangType → Text → Text → Exec Bool
unfolding overrides
decide_virtual type method_name text =
    if has_infix (lit "virtual") text
    then pure true
    else if has_parent type
    then (do
      types ← gets (λ s. s.types)
      virtuals ← lift (get_all_virtual_methods types (parent_class type))
      pure (overrides method_name virtuals))
    else pure false

-- A method up to its block. Returned is whether it is virtual.
unfoldable pub begin_method :
    Text → LangType → Bool → TypeSpec → Text → List Declarator → Stmts → Exec Bool
begin_method class_name type marked spec name params body = do
  return_type ← resolve (some spec)
  is_virtual ← decide_virtual type name (method_text marked spec name params body)
  fields ← all_declared params
  let method : Function = record {
    name = class_name ++ (lit "_" ++ name);
    params = this_param type ∷ fields;
    return_type = return_type;
    is_static = false;
    is_virtual = is_virtual;
  }
  first_pass_only (update_types (λ ts. register_class_method ts class_name (some method)))
  set_current_func (some method)
  second_pass_only (do text ← lift (generate_function_decl (some method)); emit text)
  pure is_virtual

-- the lines around the block of a virtual method
unfoldable pub virtual_entry : Text → Text
virtual_entry name =
    lit " {\n    struct " ++ (name ++ (lit "* this = (struct " ++ (name ++ lit "*)this_param;\n")))

-- `generateParentConstructorCall`; the list of arguments is read unchecked.
unfoldable pub parent_constructor_call : Option (Text × Args) → Exec Text
parent_constructor_call none = pure []
parent_constructor_call (some (parent, no_args)) = crash
parent_constructor_call (some (parent, arg e rest)) = do
  texts ← visit_args (arg e rest)
  indent ← indent_level
  pure (
      indent
      ++ (generate_function_call (parent ++ (lit "_" ++ parent)) (lit "&(this->parent)" ∷ texts)
          ++ lit ";\n"))

unfoldable pub set_vtable : Text → LangType → List Function → Text
set_vtable name type virtuals =
    if is_empty virtuals
    then []
    else if has_parent type
    then lit "    (this->parent).vtable = &" ++ (name ++ lit "_vtable;\n")
    else lit "    this->vtable = &" ++ (name ++ lit "_vtable;\n")

-- A constructor up to its block.
unfoldable pub begin_constructor :
    Text → LangType → List Declarator → Option (Text × Args) → Exec (Unit {0})
unfolding parent_constructor_call set_vtable
begin_constructor class_name type params parent = do
  fields ← all_declared params
  let constructor : Function = record {
    name = class_name ++ (lit "_" ++ class_name);
    params = this_param type ∷ fields;
    return_type = simple_type void;
    is_static = false;
    is_virtual = false;
  }
  first_pass_only (update_types (λ ts. register_class_constructor ts class_name (some constructor)))
  set_current_func (some constructor)
  second_pass_only do
    text ← lift (generate_function_decl (some constructor))
    emit (text ++ lit " {\n")
    call ← parent_constructor_call parent
    emit call
    types ← gets (λ s. s.types)
    virtuals ← lift (get_all_virtual_methods types class_name)
    emit (set_vtable class_name type virtuals)
