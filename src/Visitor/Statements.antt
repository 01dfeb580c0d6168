-- ===== src/Visitor/Statements.antt =====
-- The visitors of statements, blocks and class members (src/ast/TranspilerVisitor.cpp).
use jb_transpiler.Base.{
  Text, lit, true, false, Option, none, some, List, [], ◌∷◌, ◌++◌, if◌then◌else◌,
}
use jb_transpiler.Base.Map.{Map}
use jb_transpiler.Syntax.Tree.{
  Expr, ForInit, for_var, for_expr, for_none, Stmt, function_decl, var_decl, spawn_stmt,
  return_stmt, expr_stmt, block, struct_decl, class_decl, if_stmt, if_else_stmt, while_stmt,
  for_stmt, typedef_spec, typedef_struct, Stmts, no_stmts, stmt, ClassMembers, no_members,
  class_field, class_method, class_constructor,
}
use jb_transpiler.Types.LangType.{LangType}
use jb_transpiler.Types.LangType.Render.{type_to_string}
use jb_transpiler.Symbols.{Variable, enter_scope, exit_scope, get_current_scope_symbols}
use jb_transpiler.CodeGen.{generate_scope_entry, generate_scope_exit, generate_return}
use jb_transpiler.Visitor.{
  Exec, pure, ◌>>=◌, ◌>>◌, crash, lift, gets, emit, skip, indent_level, set_symbols,
  set_add_ref_counts,
}
use jb_transpiler.Visitor.Expressions.{visit_expr}
use jb_transpiler.Visitor.Steps.{
  as_pointer, find_pointer, emit_inc_ref, emit_dec_ref, null_text, when_some,
}
use jb_transpiler.Visitor.Declarations.{
  second_pass_only, first_pass_only, declared, resolve, set_current_func, add_variable,
  get_struct_from_code, visit_var_decl, visit_struct_decl, visit_typedef, begin_function,
  begin_class,
}
use jb_transpiler.Visitor.Members.{begin_method, virtual_entry, begin_constructor}

-- `generateDecRef` for each pointer of a scope, in the order of the names
unfoldable pub dec_scope : Text → Map Variable → Exec (Unit {0})
dec_scope indent [] = skip
dec_scope indent ((name, var) ∷ vars) = do
  when_some (as_pointer (some var)) (emit_dec_ref indent)
  dec_scope indent vars

unfoldable pub dec_current_scope : Text → Exec (Unit {0})
unfolding dec_scope
dec_current_scope indent = do
  symbols ← gets (λ s. s.symbols)
  dec_scope indent (get_current_scope_symbols symbols)

unfoldable pub enter : Exec (Unit {0})
enter = do symbols ← gets (λ s. s.symbols); set_symbols (enter_scope symbols)

unfoldable pub leave : Exec (Unit {0})
leave = do symbols ← gets (λ s. s.symbols); set_symbols (exit_scope symbols)

-- `visitBlock` between entering and leaving the scope; returned is the indentation of its brace.
unfoldable pub inside_block : Exec (Unit {0}) → Exec Text
inside_block body = do
  second_pass_only (emit generate_scope_entry)
  indent ← indent_level
  body
  second_pass_only (dec_current_scope indent)
  pure indent

-- `visitBlock` around the visits of its statements
unfoldable pub in_block : Exec (Unit {0}) → Exec (Unit {0})
in_block body = do
  enter
  indent ← inside_block body
  leave
  second_pass_only (emit (indent ++ generate_scope_exit))

-- A visit with `addRefCounts` off.
unfoldable pub uncounted : Expr → Exec Text
uncounted e = do set_add_ref_counts false; text ← visit_expr e; set_add_ref_counts true; pure text

-- A `return` without an expression visits a null tree.
unfoldable pub visit_return : Option Expr → Exec (Unit {0})
visit_return none = crash
visit_return (some e) = do
  text ← uncounted e
  returned ← find_pointer text
  indent ← indent_level
  second_pass_only do
    when_some returned (emit_inc_ref indent null_text)
    dec_current_scope indent
    emit (indent ++ generate_return text)

unfoldable pub visit_expr_stmt : Expr → Exec (Unit {0})
visit_expr_stmt e = do
  text ← visit_expr e
  indent ← indent_level
  second_pass_only (emit (indent ++ (text ++ lit ";\n")))

-- `if (` or `while (`, the condition and `) {`
unfoldable pub print_condition : Text → Expr → Exec (Unit {0})
print_condition head e = do
  indent ← indent_level
  emit (indent ++ head)
  text ← visit_expr e
  emit (text ++ lit ") {\n")

unfoldable pub visit_condition : Text → Expr → Exec (Unit {0})
visit_condition head e = do
  set_add_ref_counts false
  print_condition head e
  set_add_ref_counts true

unfoldable pub emit_initial : Option Expr → Exec (Unit {0})
emit_initial none = skip
emit_initial (some e) = do text ← visit_expr e; emit (lit " = " ++ text)

unfoldable pub visit_for_init : ForInit → Exec (Unit {0})
unfolding emit_initial
visit_for_init (for_var d e) = do
  (name, type) ← declared d
  text ← lift (type_to_string type)
  emit (text ++ (lit " " ++ name))
  emit_initial e
  add_variable name type
visit_for_init (for_expr e) = do text ← visit_expr e; emit text
visit_for_init for_none = skip

abbrev pub present : Option Expr → List Expr → List Expr
present none es = es
present (some e) es = e ∷ es

-- `ctx->expression()`: the condition and the step, as far as they are there
abbrev pub for_exprs : Option Expr → Option Expr → List Expr
for_exprs condition step = present condition (present step [])

-- What is printed as the condition is the first expression, and as the step the second.
unfoldable pub visit_for_exprs : List Expr → Exec (Unit {0})
visit_for_exprs [] = emit (lit "; ")
visit_for_exprs (e ∷ []) = do text ← uncounted e; emit (text ++ lit "; ")
visit_for_exprs (e ∷ step ∷ rest) = do
  text ← uncounted e
  emit (text ++ lit "; ")
  text' ← visit_expr step
  emit text'

-- `visitForStmt` up to the body
unfoldable pub begin_for : ForInit → Option Expr → Option Expr → Exec (Unit {0})
unfolding visit_for_init visit_for_exprs
begin_for i condition step = do
  indent ← indent_level
  emit (indent ++ lit "for (")
  visit_for_init i
  emit (lit "; ")
  visit_for_exprs (for_exprs condition step)
  emit (lit ") ")
  emit (lit "{\n")

unfoldable pub end_for : Exec (Unit {0})
end_for = do indent ← indent_level; emit (indent ++ lit "}\n")

unfoldable mutual
  pub visit_stmt : Stmt → Exec (Unit {0})
  visit_stmt (function_decl spec name params body) = do
    begin_function spec name params
    second_pass_only (in_block (visit_stmts body))
    set_current_func none
  visit_stmt (var_decl d e) = visit_var_decl d e
  visit_stmt (spawn_stmt e) = skip
  visit_stmt (return_stmt e) = visit_return e
  visit_stmt (expr_stmt e) = visit_expr_stmt e
  visit_stmt (block body) = in_block (visit_stmts body)
  visit_stmt (struct_decl d) = visit_struct_decl d
  visit_stmt (class_decl name parent members) = do
    type ← begin_class name parent members
    visit_members name type members
  visit_stmt (if_stmt e s) =
      second_pass_only do visit_condition (lit "if (") e; visit_stmt s; emit (lit "}\n")
  visit_stmt (if_else_stmt e s t) = second_pass_only do
    visit_condition (lit "if (") e
    visit_stmt s
    emit (lit "}\n")
    indent ← indent_level
    emit (indent ++ lit "else {\n")
    visit_stmt t
    emit (lit "}\n")
  visit_stmt (while_stmt e s) =
      second_pass_only do visit_condition (lit "while (") e; visit_stmt s; emit (lit "}\n")
  visit_stmt (for_stmt i condition step s) =
      first_pass_only do begin_for i condition step; visit_stmt s; end_for
  visit_stmt (typedef_spec spec name) = do type ← resolve (some spec); visit_typedef name type
  visit_stmt (typedef_struct d name) = do type ← get_struct_from_code d; visit_typedef name type

  pub visit_stmts : Stmts → Exec (Unit {0})
  visit_stmts no_stmts = skip
  visit_stmts (stmt s rest) = do visit_stmt s; visit_stmts rest

  -- the loop of `visitClassDecl` over the members
  pub visit_members : Text → LangType → ClassMembers → Exec (Unit {0})
  visit_members class_name type no_members = skip
  visit_members class_name type (class_field d rest) = visit_members class_name type rest
  visit_members class_name type (class_method marked spec name params body rest) = do
    is_virtual ← begin_method class_name type marked spec name params body
    if is_virtual
        then second_pass_only
            (do emit (virtual_entry class_name); in_block (visit_stmts body); emit (lit "}\n\n"))
        else in_block (visit_stmts body)
    set_current_func none
    visit_members class_name type rest
  visit_members class_name type (class_constructor name params parent body rest) = do
    begin_constructor class_name type params parent
    in_block (visit_stmts body)
    second_pass_only (emit (lit "}\n\n"))
    set_current_func none
    visit_members class_name type rest
