-- ===== src/Visitor/Frames/FirstPass.antt =====
-- What the first pass does not do (src/ast/TranspilerVisitor.cpp): expressions print nothing, and the
-- bodies of functions are not visited. And what the second does not: `for` loops.
use jb_transpiler.Base.{
  Text, ◌≡◌, refl, sym, ◌∙◌, ap, Bool, true, false, Option, List, ok, none, throw, hang, terminate,
  Result, if◌then◌else◌,
}
use jb_transpiler.Syntax.{TypeSpec}
use jb_transpiler.Syntax.Tree.{
  Expr, paren, identifier, literal, member, func_call, mul_div, add_sub, compare, assign, new_type,
  new_with_constructor, pointer_member, address_of, dereference, array_access, method_call,
  empty_init, struct_init, post_increment, post_decrement, pre_increment, pre_decrement, Stmt,
  function_decl, var_decl, spawn_stmt, return_stmt, expr_stmt, block, struct_decl, class_decl,
  if_stmt, if_else_stmt, while_stmt, for_stmt, typedef_spec, typedef_struct, Stmts, no_stmts, stmt,
  ForInit, Declarator,
}
use jb_transpiler.Visitor.{Visitor, Exec, pure, ◌>>=◌, ◌>>◌, continue, is_first_pass, skip}
use jb_transpiler.Visitor.Expressions.{visit_expr}
use jb_transpiler.Visitor.Declarations.{
  first_pass_only, second_pass_only, begin_function, set_current_func,
}
use jb_transpiler.Visitor.Statements.{visit_stmt, visit_stmts, in_block}
use jb_transpiler.Visitor.Frames.Decls.{begin_function-Keeps}
use jb_transpiler.Visitor.Frames.Stmts.{visit_stmt-Keeps}
use jb_transpiler.Visitor.Keeps.{IsFrame, Keeps, keeps_rules, leads}

abbrev Silent : Visitor → Visitor → Type 0
Silent s t = s.first_pass ≡ true → t ≡ s

Silent-IsFrame : IsFrame Silent
Silent-IsFrame = record {
  still = λ s h. refl;
  compose = λ s t u a b h. b (ap (λ v. v.first_pass) (a h) ∙ h) ∙ a h;
}

guarded-Silent :
    (text : Text) (m : Exec Text)
    → Keeps Silent (is_first_pass >>= λ first. if first then pure text else m)
unfolding is_first_pass pure ◌>>=◌
guarded-Silent text m = record { at = λ s s' a h first. go s s' a s.first_pass first h }
  where
    go :
        (s s' : Visitor) (a : Text) (b : Bool)
        → b ≡ true
        → (if b then pure text else m) s ≡ ok (a, s')
        → s' ≡ s
    go s s' a true first h = leads (λ v w. w ≡ v) s s s' a text refl h
    go s s' a false first h = cc

ruleset silent_rules = (guarded-Silent, keeps_rules, Silent-IsFrame)

visit_expr-Keeps : (e : Expr) → Keeps Silent (visit_expr e)
unfolding visit_expr
visit_expr-Keeps (paren e) = let k = visit_expr-Keeps e in search silent_rules
visit_expr-Keeps (identifier name) = search silent_rules
visit_expr-Keeps (literal text) = search silent_rules
visit_expr-Keeps (member e name) = let k = visit_expr-Keeps e in search silent_rules
visit_expr-Keeps (func_call name args) = search silent_rules
visit_expr-Keeps (mul_div a op b) =
    let k = visit_expr-Keeps a in let l = visit_expr-Keeps b in search silent_rules
visit_expr-Keeps (add_sub a op b) =
    let k = visit_expr-Keeps a in let l = visit_expr-Keeps b in search silent_rules
visit_expr-Keeps (compare a op b) =
    let k = visit_expr-Keeps a in let l = visit_expr-Keeps b in search silent_rules
visit_expr-Keeps (assign a b) = search silent_rules
visit_expr-Keeps (new_type spec) = search silent_rules
visit_expr-Keeps (new_with_constructor name args) = search silent_rules
visit_expr-Keeps (pointer_member e name) = search silent_rules
visit_expr-Keeps (address_of e) = let k = visit_expr-Keeps e in search silent_rules
visit_expr-Keeps (dereference e) = let k = visit_expr-Keeps e in search silent_rules
visit_expr-Keeps (array_access a i) =
    let k = visit_expr-Keeps a in let l = visit_expr-Keeps i in search silent_rules
visit_expr-Keeps (method_call e name args) = search silent_rules
visit_expr-Keeps empty_init = search silent_rules
visit_expr-Keeps (struct_init inits) = search silent_rules depth 14
visit_expr-Keeps (post_increment e) = let k = visit_expr-Keeps e in search silent_rules
visit_expr-Keeps (post_decrement e) = let k = visit_expr-Keeps e in search silent_rules
visit_expr-Keeps (pre_increment e) = let k = visit_expr-Keeps e in search silent_rules
visit_expr-Keeps (pre_decrement e) = let k = visit_expr-Keeps e in search silent_rules

-- In the first pass the visit of an expression, where it returns, changes nothing at all: it prints
-- no text and takes no temporary.
pub visit_expr-first_pass :
    (e : Expr) (s s' : Visitor) (text : Text)
    → s.first_pass ≡ true
    → visit_expr e s ≡ ok (text, s')
    → s' ≡ s
visit_expr-first_pass e s s' text first h = (visit_expr-Keeps e).at s s' text h first

skips_body :
    (body : Exec (Unit {0})) (t : Visitor)
    → t.first_pass ≡ true
    → (second_pass_only body >> set_current_func none) t ≡ set_current_func none t
unfolding second_pass_only is_first_pass skip ◌>>=◌ ◌>>◌
skips_body body t first = rw first

-- In the first pass the body of a function is not visited: functions with the same head and any
-- bodies lead to the same result, so nothing that a body declares is registered then.
pub visit_stmt-function_decl :
    (spec : TypeSpec) (name : Text) (params : List Declarator) (body body' : Stmts) (s : Visitor)
    → s.first_pass ≡ true
    → visit_stmt (function_decl spec name params body) s
      ≡ visit_stmt (function_decl spec name params body') s
unfolding visit_stmt ◌>>=◌ ◌>>◌
visit_stmt-function_decl spec name params body body' s first =
    go (begin_function spec name params s) refl
  where
    go :
        (r : Result (Unit {0} × Visitor))
        → begin_function spec name params s ≡ r
        → continue r (λ _. second_pass_only (in_block (visit_stmts body)) >> set_current_func none)
          ≡ continue r
              (λ _. second_pass_only (in_block (visit_stmts body')) >> set_current_func none)
    go (ok (u, t)) e =
        let same = ((begin_function-Keeps spec name params).at s t u e).first_pass ∙ first in
        skips_body (in_block (visit_stmts body)) t same
        ∙ sym (skips_body (in_block (visit_stmts body')) t same)
    go (throw x) e = refl
    go hang e = refl
    go terminate e = refl

for_stmt-skipped :
    (i : ForInit) (condition step : Option Expr) (body : Stmt) (s : Visitor)
    → s.first_pass ≡ false
    → visit_stmt (for_stmt i condition step body) s ≡ ok (tt, s)
unfolding visit_stmt first_pass_only is_first_pass skip ◌>>=◌
for_stmt-skipped i condition step body s second = rw second

-- the statements that are no `for` loops
unfoldable pub without_loops : Stmts → Stmts
without_loops no_stmts = no_stmts
without_loops (stmt (for_stmt i condition step body) rest) = without_loops rest
without_loops (stmt st rest) = stmt st (without_loops rest)

after_stmt :
    (st : Stmt) (rest rest' : Stmts) (s : Visitor)
    → s.first_pass ≡ false
    → ((t : Visitor) → t.first_pass ≡ false → visit_stmts rest t ≡ visit_stmts rest' t)
    → visit_stmts (stmt st rest) s ≡ visit_stmts (stmt st rest') s
unfolding visit_stmts ◌>>=◌ ◌>>◌
after_stmt st rest rest' s second same = go (visit_stmt st s) refl
  where
    go :
        (r : Result (Unit {0} × Visitor))
        → visit_stmt st s ≡ r
        → continue r (λ _. visit_stmts rest) ≡ continue r (λ _. visit_stmts rest')
    go (ok (u, t)) e = same t (((visit_stmt-Keeps st).at s t u e).first_pass ∙ second)
    go (throw x) e = refl
    go hang e = refl
    go terminate e = refl

after_loop :
    (i : ForInit) (condition step : Option Expr) (body : Stmt) (rest rest' : Stmts) (s : Visitor)
    → s.first_pass ≡ false
    → visit_stmts rest s ≡ visit_stmts rest' s
    → visit_stmts (stmt (for_stmt i condition step body) rest) s ≡ visit_stmts rest' s
unfolding visit_stmts ◌>>=◌ ◌>>◌
after_loop i condition step body rest rest' s second same =
    rw (for_stmt-skipped i condition step body s second) same

-- In the second pass, which prints the program, the visit of a list of statements is the visit of the
-- list without its `for` loops: they are neither printed nor visited.
pub visit_stmts-without_loops :
    (body : Stmts) (s : Visitor)
    → s.first_pass ≡ false
    → visit_stmts body s ≡ visit_stmts (without_loops body) s
unfolding without_loops
visit_stmts-without_loops no_stmts s second = refl
visit_stmts-without_loops (stmt (for_stmt i condition step body) rest) s second =
    after_loop i condition step body rest (without_loops rest) s second
      (visit_stmts-without_loops rest s second)
visit_stmts-without_loops (stmt (function_decl spec name params body) rest) s second =
    after_stmt (function_decl spec name params body) rest (without_loops rest) s second
      (visit_stmts-without_loops rest)
visit_stmts-without_loops (stmt (var_decl d e) rest) s second =
    after_stmt (var_decl d e) rest (without_loops rest) s second (visit_stmts-without_loops rest)
visit_stmts-without_loops (stmt (spawn_stmt e) rest) s second =
    after_stmt (spawn_stmt e) rest (without_loops rest) s second (visit_stmts-without_loops rest)
visit_stmts-without_loops (stmt (return_stmt e) rest) s second =
    after_stmt (return_stmt e) rest (without_loops rest) s second (visit_stmts-without_loops rest)
visit_stmts-without_loops (stmt (expr_stmt e) rest) s second =
    after_stmt (expr_stmt e) rest (without_loops rest) s second (visit_stmts-without_loops rest)
visit_stmts-without_loops (stmt (block body) rest) s second =
    after_stmt (block body) rest (without_loops rest) s second (visit_stmts-without_loops rest)
visit_stmts-without_loops (stmt (struct_decl d) rest) s second =
    after_stmt (struct_decl d) rest (without_loops rest) s second (visit_stmts-without_loops rest)
visit_stmts-without_loops (stmt (class_decl name parent ms) rest) s second =
    after_stmt (class_decl name parent ms) rest (without_loops rest) s second
      (visit_stmts-without_loops rest)
visit_stmts-without_loops (stmt (if_stmt e a) rest) s second =
    after_stmt (if_stmt e a) rest (without_loops rest) s second (visit_stmts-without_loops rest)
visit_stmts-without_loops (stmt (if_else_stmt e a b) rest) s second =
    after_stmt (if_else_stmt e a b) rest (without_loops rest) s second
      (visit_stmts-without_loops rest)
visit_stmts-without_loops (stmt (while_stmt e a) rest) s second =
    after_stmt (while_stmt e a) rest (without_loops rest) s second (visit_stmts-without_loops rest)
visit_stmts-without_loops (stmt (typedef_spec spec name) rest) s second =
    after_stmt (typedef_spec spec name) rest (without_loops rest) s second
      (visit_stmts-without_loops rest)
visit_stmts-without_loops (stmt (typedef_struct d name) rest) s second =
    after_stmt (typedef_struct d name) rest (without_loops rest) s second
      (visit_stmts-without_loops rest)
