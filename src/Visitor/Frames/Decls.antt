-- ===== src/Visitor/Frames/Decls.antt =====
-- The declarations (src/ast/TranspilerVisitor.cpp), as steps that keep the scopes around.
use jb_transpiler.Base.{Text, Bool, Option, none, some, List, Result}
use jb_transpiler.Syntax.{TypeSpec}
use jb_transpiler.Syntax.Tree.{
  Declarator, Expr, Args, no_args, arg, StructDecl, ClassMembers, Stmts,
}
use jb_transpiler.Types.LangType.{LangType}
use jb_transpiler.Types.Registry.{TypeSystem}
use jb_transpiler.Visitor.Declarations.{
  update_types, declared, all_declared, resolve, get_struct_from_code, set_parent,
  get_class_from_code, initialized, visit_var_decl, visit_struct_decl, visit_typedef, get_function,
  class_struct, begin_class, begin_function,
}
use jb_transpiler.Visitor.Members.{
  decide_virtual, begin_method, parent_constructor_call, begin_constructor,
}
use jb_transpiler.Visitor.Keeps.{Keeps}
use jb_transpiler.Visitor.Keeps.Parts.{writing_rules}
use jb_transpiler.Visitor.Keeps.Writing.{visit_expr-Keeps, visit_args-Keeps}
use jb_transpiler.Visitor.Frames.{KeepsScopes, KeepsScopes-Writes, KeepsScopes-IsFrame}
use jb_transpiler.Visitor.Frames.Tables.{
  first_pass_only-Keeps, second_pass_only-Keeps, set_types-Keeps, add_class_name-Keeps,
  set_current_func-Keeps, add_variable-Keeps, register_global-Keeps,
}

pub ruleset scope_rules = (
  writing_rules, KeepsScopes-IsFrame, KeepsScopes-Writes, first_pass_only-Keeps,
  second_pass_only-Keeps, set_types-Keeps, add_class_name-Keeps, set_current_func-Keeps,
  add_variable-Keeps, register_global-Keeps, visit_expr-Keeps, visit_args-Keeps,
)

pub update_types-Keeps : (f : TypeSystem → Result TypeSystem) → Keeps KeepsScopes (update_types f)
unfolding update_types
update_types-Keeps f = search scope_rules depth 14

pub declared-Keeps : (d : Declarator) → Keeps KeepsScopes (declared d)
unfolding declared
declared-Keeps d = search scope_rules depth 14

pub all_declared-Keeps : (ds : List Declarator) → Keeps KeepsScopes (all_declared ds)
unfolding all_declared
all_declared-Keeps ds = search scope_rules depth 14

pub resolve-Keeps : (spec : Option TypeSpec) → Keeps KeepsScopes (resolve spec)
unfolding resolve
resolve-Keeps spec = search scope_rules depth 14

pub ruleset declaring_rules =
    (scope_rules, update_types-Keeps, declared-Keeps, all_declared-Keeps, resolve-Keeps)

pub get_struct_from_code-Keeps : (d : StructDecl) → Keeps KeepsScopes (get_struct_from_code d)
unfolding get_struct_from_code
get_struct_from_code-Keeps d = search declaring_rules depth 14

pub set_parent-Keeps :
    (name : Text) (parent : Option Text) → Keeps KeepsScopes (set_parent name parent)
unfolding set_parent
set_parent-Keeps name none = search scope_rules
set_parent-Keeps name (some parent) = search scope_rules depth 14

pub get_class_from_code-Keeps :
    (name : Text) (parent : Option Text) (ms : ClassMembers)
    → Keeps KeepsScopes (get_class_from_code name parent ms)
unfolding get_class_from_code
get_class_from_code-Keeps name parent ms = search (declaring_rules, set_parent-Keeps) depth 14

pub initialized-Keeps :
    (name : Text) (type : LangType) (e : Option Expr) → Keeps KeepsScopes (initialized name type e)
unfolding initialized
initialized-Keeps name type none = search scope_rules depth 14
initialized-Keeps name type (some e) = search scope_rules depth 20

pub visit_var_decl-Keeps :
    (d : Declarator) (e : Option Expr) → Keeps KeepsScopes (visit_var_decl d e)
unfolding visit_var_decl
visit_var_decl-Keeps d e = search (declaring_rules, initialized-Keeps) depth 14

pub visit_struct_decl-Keeps : (d : StructDecl) → Keeps KeepsScopes (visit_struct_decl d)
unfolding visit_struct_decl
visit_struct_decl-Keeps d = search (declaring_rules, get_struct_from_code-Keeps) depth 14

pub visit_typedef-Keeps :
    (name : Text) (type : LangType) → Keeps KeepsScopes (visit_typedef name type)
unfolding visit_typedef
visit_typedef-Keeps name type = search declaring_rules depth 14

pub get_function-Keeps :
    (spec : TypeSpec) (name : Text) (params : List Declarator)
    → Keeps KeepsScopes (get_function spec name params)
unfolding get_function
get_function-Keeps spec name params = search declaring_rules depth 14

pub class_struct-Keeps :
    (name : Text) (type : LangType) → Keeps KeepsScopes (class_struct name type)
unfolding class_struct
class_struct-Keeps name type = search scope_rules depth 14

pub begin_class-Keeps :
    (name : Text) (parent : Option Text) (ms : ClassMembers)
    → Keeps KeepsScopes (begin_class name parent ms)
unfolding begin_class
begin_class-Keeps name parent ms =
    search (scope_rules, get_class_from_code-Keeps, class_struct-Keeps) depth 14

pub decide_virtual-Keeps :
    (type : LangType) (name text : Text) → Keeps KeepsScopes (decide_virtual type name text)
unfolding decide_virtual
decide_virtual-Keeps type name text = search scope_rules depth 14

pub begin_method-Keeps :
    (class_name : Text) (type : LangType) (marked : Bool) (spec : TypeSpec) (name : Text)
    (params : List Declarator) (body : Stmts)
    → Keeps KeepsScopes (begin_method class_name type marked spec name params body)
unfolding begin_method
begin_method-Keeps class_name type marked spec name params body =
    search (declaring_rules, decide_virtual-Keeps) depth 20

pub parent_constructor_call-Keeps :
    (parent : Option (Text × Args)) → Keeps KeepsScopes (parent_constructor_call parent)
unfolding parent_constructor_call
parent_constructor_call-Keeps none = search scope_rules
parent_constructor_call-Keeps (some (parent, no_args)) = search scope_rules
parent_constructor_call-Keeps (some (parent, arg e rest)) = search scope_rules depth 14

pub begin_constructor-Keeps :
    (class_name : Text) (type : LangType) (params : List Declarator) (parent : Option (Text × Args))
    → Keeps KeepsScopes (begin_constructor class_name type params parent)
unfolding begin_constructor
begin_constructor-Keeps class_name type params parent =
    search (declaring_rules, parent_constructor_call-Keeps) depth 20

pub begin_function-Keeps :
    (spec : TypeSpec) (name : Text) (params : List Declarator)
    → Keeps KeepsScopes (begin_function spec name params)
unfolding begin_function
begin_function-Keeps spec name params = search (declaring_rules, get_function-Keeps) depth 14

pub ruleset declaration_rules = (
  declaring_rules, visit_var_decl-Keeps, visit_struct_decl-Keeps, visit_typedef-Keeps,
  get_struct_from_code-Keeps, begin_class-Keeps, begin_method-Keeps, begin_constructor-Keeps,
  begin_function-Keeps,
)
