-- ===== src/Visitor/Frames/Stmts.antt =====
-- The visits of statements (src/ast/TranspilerVisitor.cpp) keep the scopes around.
use jb_transpiler.Base.{Text, refl, Option, none, some, List, [], ◌∷◌, true, false}
use jb_transpiler.Syntax.Tree.{
  Expr, ForInit, for_var, for_expr, for_none, Stmt, function_decl, var_decl, spawn_stmt,
  return_stmt, expr_stmt, block, struct_decl, class_decl, if_stmt, if_else_stmt, while_stmt,
  for_stmt, typedef_spec, typedef_struct, Stmts, no_stmts, stmt, ClassMembers, no_members,
  class_field, class_method, class_constructor,
}
use jb_transpiler.Types.LangType.{LangType}
use jb_transpiler.Visitor.{Visitor, pure, ◌>>=◌, ◌>>◌, set_add_ref_counts}
use jb_transpiler.Visitor.Expressions.{visit_expr}
use jb_transpiler.Visitor.Statements.{
  uncounted, print_condition, visit_condition, visit_return, visit_expr_stmt, emit_initial,
  visit_for_init, visit_for_exprs, begin_for, end_for, visit_stmt, visit_stmts, visit_members,
}
use jb_transpiler.Visitor.Keeps.{Keeps, keeps_rules, leads, bind-ok}
use jb_transpiler.Visitor.Keeps.Writing.{visit_expr-Keeps}
use jb_transpiler.Visitor.Frames.{
  OnlyWrites, OnlyWrites-Writes, OnlyWrites-IsFrame, KeepsScopes, OnlyWrites-KeepsScopes,
}
use jb_transpiler.Visitor.Frames.Blocks.{dec_current_scope-Keeps, in_block-Keeps}
use jb_transpiler.Visitor.Frames.Decls.{scope_rules, declaration_rules}

-- Counting is off during a step that only writes, and on afterwards.
counted_again :
    (s t : Visitor)
    → OnlyWrites (record s { add_ref_counts = false }) t
    → KeepsScopes s (record t { add_ref_counts = true })
counted_again s t w =
    let k = OnlyWrites-KeepsScopes (record s { add_ref_counts = false }) t w in
    record {
      outer = k.outer;
      depth = k.depth;
      use_ref_counts = k.use_ref_counts;
      first_pass = k.first_pass;
      add_ref_counts = λ h. refl;
      output = k.output;
      temp_var_counter = k.temp_var_counter;
    }

uncounted-Keeps : (e : Expr) → Keeps KeepsScopes (uncounted e)
unfolding uncounted set_add_ref_counts pure ◌>>=◌ ◌>>◌
uncounted-Keeps e = record {
  at = λ s s' b h.
      let (text, t, visited, last) =
        bind-ok (visit_expr e) (λ text. set_add_ref_counts true >> pure text)
          (record s { add_ref_counts = false }) s' b h in
      leads KeepsScopes s (record t { add_ref_counts = true }) s' b text
        (counted_again s t (
          (visit_expr-Keeps OnlyWrites-Writes e).at (record s { add_ref_counts = false }) t text
            visited))
        last;
}

print_condition-Keeps : (head : Text) (e : Expr) → Keeps OnlyWrites (print_condition head e)
unfolding print_condition
print_condition-Keeps head e =
    search (keeps_rules, OnlyWrites-Writes, OnlyWrites-IsFrame, visit_expr-Keeps) depth 14

visit_condition-Keeps : (head : Text) (e : Expr) → Keeps KeepsScopes (visit_condition head e)
unfolding visit_condition set_add_ref_counts pure ◌>>=◌ ◌>>◌
visit_condition-Keeps head e = record {
  at = λ s s' b h.
      let (u, t, visited, last) =
        bind-ok (print_condition head e) (λ _. set_add_ref_counts true)
          (record s { add_ref_counts = false }) s' b h in
      leads KeepsScopes s (record t { add_ref_counts = true }) s' b tt
        (counted_again s t
          ((print_condition-Keeps head e).at (record s { add_ref_counts = false }) t u visited))
        last;
}

ruleset statement_rules = (
  declaration_rules, uncounted-Keeps, visit_condition-Keeps, dec_current_scope-Keeps,
  in_block-Keeps,
)

visit_return-Keeps : (e : Option Expr) → Keeps KeepsScopes (visit_return e)
unfolding visit_return
visit_return-Keeps none = search scope_rules
visit_return-Keeps (some e) = search statement_rules depth 14

visit_expr_stmt-Keeps : (e : Expr) → Keeps KeepsScopes (visit_expr_stmt e)
unfolding visit_expr_stmt
visit_expr_stmt-Keeps e = search statement_rules depth 14

emit_initial-Keeps : (e : Option Expr) → Keeps KeepsScopes (emit_initial e)
unfolding emit_initial
emit_initial-Keeps none = search scope_rules
emit_initial-Keeps (some e) = search scope_rules

visit_for_init-Keeps : (i : ForInit) → Keeps KeepsScopes (visit_for_init i)
unfolding visit_for_init
visit_for_init-Keeps (for_var d e) = search (statement_rules, emit_initial-Keeps) depth 14
visit_for_init-Keeps (for_expr e) = search statement_rules
visit_for_init-Keeps for_none = search statement_rules

visit_for_exprs-Keeps : (es : List Expr) → Keeps KeepsScopes (visit_for_exprs es)
unfolding visit_for_exprs
visit_for_exprs-Keeps [] = search statement_rules
visit_for_exprs-Keeps (e ∷ []) = search statement_rules
visit_for_exprs-Keeps (e ∷ step ∷ rest) = search statement_rules depth 14

begin_for-Keeps :
    (i : ForInit) (condition step : Option Expr) → Keeps KeepsScopes (begin_for i condition step)
unfolding begin_for
begin_for-Keeps i condition step =
    search (statement_rules, visit_for_init-Keeps, visit_for_exprs-Keeps) depth 14

end_for-Keeps : Keeps KeepsScopes end_for
unfolding end_for
end_for-Keeps = search statement_rules

ruleset visiting_rules =
    (statement_rules, visit_return-Keeps, visit_expr_stmt-Keeps, begin_for-Keeps, end_for-Keeps)

mutual
  unfolding visit_stmt visit_stmts visit_members

  pub visit_stmt-Keeps : (s : Stmt) → Keeps KeepsScopes (visit_stmt s)
  visit_stmt-Keeps (function_decl spec name params body) =
      let k = visit_stmts-Keeps body in search visiting_rules depth 14
  visit_stmt-Keeps (var_decl d e) = search visiting_rules
  visit_stmt-Keeps (spawn_stmt e) = search visiting_rules
  visit_stmt-Keeps (return_stmt e) = search visiting_rules
  visit_stmt-Keeps (expr_stmt e) = search visiting_rules
  visit_stmt-Keeps (block body) = let k = visit_stmts-Keeps body in search visiting_rules
  visit_stmt-Keeps (struct_decl d) = search visiting_rules
  visit_stmt-Keeps (class_decl name parent members) =
      search (visiting_rules, visit_members-Keeps members) depth 14
  visit_stmt-Keeps (if_stmt e s) = let k = visit_stmt-Keeps s in search visiting_rules depth 14
  visit_stmt-Keeps (if_else_stmt e s t) =
      let k = visit_stmt-Keeps s in let l = visit_stmt-Keeps t in search visiting_rules depth 14
  visit_stmt-Keeps (while_stmt e s) = let k = visit_stmt-Keeps s in search visiting_rules depth 14
  visit_stmt-Keeps (for_stmt i condition step s) =
      let k = visit_stmt-Keeps s in search visiting_rules depth 14
  visit_stmt-Keeps (typedef_spec spec name) = search visiting_rules
  visit_stmt-Keeps (typedef_struct d name) = search visiting_rules

  pub visit_stmts-Keeps : (body : Stmts) → Keeps KeepsScopes (visit_stmts body)
  visit_stmts-Keeps no_stmts = search visiting_rules
  visit_stmts-Keeps (stmt s rest) =
      let k = visit_stmt-Keeps s in let l = visit_stmts-Keeps rest in search visiting_rules

  visit_members-Keeps :
      (members : ClassMembers) (class_name : Text) (type : LangType)
      → Keeps KeepsScopes (visit_members class_name type members)
  visit_members-Keeps no_members class_name type = search visiting_rules
  visit_members-Keeps (class_field d rest) class_name type =
      visit_members-Keeps rest class_name type
  visit_members-Keeps (class_method marked spec name params body rest) class_name type =
      let k = visit_stmts-Keeps body in
      let l = visit_members-Keeps rest class_name type in search visiting_rules depth 20
  visit_members-Keeps (class_constructor name params parent body rest) class_name type =
      let k = visit_stmts-Keeps body in
      let l = visit_members-Keeps rest class_name type in search visiting_rules depth 20
