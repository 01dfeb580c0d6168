-- ===== src/Visitor/Frames/Printed/Returns.antt =====
-- What `visitReturnStmt` of src/ast/TranspilerVisitor.cpp prints.
use jb_transpiler.Base.{
  Text, ◌≡◌, sym, ◌∙◌, ap, Bool, true, false, some, ◌++◌, ok, subst, ok-injective, if◌then◌else◌,
}
use jb_transpiler.Symbols.{SymbolTable, get_indent_level, lookup_symbol, get_current_scope_symbols}
use jb_transpiler.CodeGen.{generate_return}
use jb_transpiler.Syntax.Tree.{Expr, return_stmt}
use jb_transpiler.Visitor.{
  Visitor, Exec, continue, pure, ◌>>=◌, ◌>>◌, emit, skip, is_first_pass, indent_level,
  find_variable, set_add_ref_counts,
}
use jb_transpiler.Visitor.Expressions.{visit_expr}
use jb_transpiler.Visitor.Steps.{as_pointer, find_pointer, emit_inc_ref, null_text, when_some}
use jb_transpiler.Visitor.Declarations.{second_pass_only}
use jb_transpiler.Visitor.Statements.{dec_current_scope, uncounted, visit_return, visit_stmt}
use jb_transpiler.Visitor.Keeps.{bind-ok}
use jb_transpiler.Visitor.Frames.Exprs.{visit_expr-OnlyWrites}
use jb_transpiler.Visitor.Frames.Printed.{
  dec_lines, inc_line, printed, printed_twice, inc_step, dec_run,
}

-- What `return` prints after its expression, which was rendered as `text`.
unfoldable pub return_lines : Bool → SymbolTable → Text → Text
return_lines counts symbols text =
    let indent = get_indent_level symbols in
    inc_line counts indent (lookup_symbol symbols text)
    ++ (dec_lines counts indent (get_current_scope_symbols symbols)
        ++ (indent ++ generate_return text))

return_tail : Text → Exec (Unit {0})
return_tail text = do
  returned ← find_pointer text
  indent ← indent_level
  second_pass_only do
    when_some returned (emit_inc_ref indent null_text)
    dec_current_scope indent
    emit (indent ++ generate_return text)

return_tail_lem :
    (text : Text) (t : Visitor)
    → t.first_pass ≡ false
    → return_tail text t ≡ ok (tt, printed (return_lines t.use_ref_counts t.symbols text) t)
unfolding return_tail return_lines find_pointer find_variable indent_level second_pass_only
    is_first_pass emit pure ◌>>=◌ ◌>>◌
return_tail_lem text t first =
    let indent = get_indent_level t.symbols in
    let found = lookup_symbol t.symbols text in
    let inc = inc_line t.use_ref_counts indent found in
    let decs = dec_lines t.use_ref_counts indent (get_current_scope_symbols t.symbols) in
    let last = indent ++ generate_return text in
    let m =
      when_some (as_pointer found) (emit_inc_ref indent null_text)
      >> (dec_current_scope indent >> emit last) in
    ap (λ b. (if b then skip else m) t) first
    ∙ inc_step indent found (dec_current_scope indent >> emit last) t
    ∙ ap (λ r. continue r (λ _. emit last)) (dec_run indent (printed inc t))
    ∙ ap (λ x. ok (tt, x))
        (printed_twice decs last (printed inc t) ∙ printed_twice inc (decs ++ last) t)

-- In the second pass a `return`, where it returns, visits its expression with the counting of its
-- arguments off, which is on afterwards, and prints after what that prints: for the returned variable,
-- if it is a pointer, the indentation and, where the allocator counts references, a call that takes a
-- reference to it; then for each pointer of the innermost scope, and of no other, the indentation and,
-- where the allocator counts references, a call that gives its reference back; then the statement
-- with the text of the expression.
pub visit_stmt-return_stmt :
    (e : Expr) (s s' : Visitor) (u : Unit {0})
    → s.first_pass ≡ false
    → visit_stmt (return_stmt (some e)) s ≡ ok (u, s')
    → (text : Text) × (t : Visitor) × (visit_expr e (record s { add_ref_counts = false })
        ≡ ok (text, t))
      × (s'
          ≡ printed
              (return_lines s.use_ref_counts s.symbols text)
              (record t { add_ref_counts = true }))
unfolding visit_stmt visit_return uncounted set_add_ref_counts return_tail ◌>>◌ ◌>>=◌ pure
visit_stmt-return_stmt e s s' u first h =
    let (text, t1, un, rest) = bind-ok (uncounted e) return_tail s s' u h in
    let s0 = record s { add_ref_counts = false } in
    let (text0, t, ev, fin) =
      bind-ok (visit_expr e) (λ x. set_add_ref_counts true >> pure x) s0 t1 text un in
    let w = visit_expr-OnlyWrites e s0 t text0 ev in
    let t' = record t { add_ref_counts = true } in
    let tail =
      subst (λ (p : Text × Visitor). return_tail p.0 p.1 ≡ ok (u, s')) (sym (ok-injective fin))
        rest in
    let lines : return_lines t.use_ref_counts t.symbols text0
        ≡ return_lines s.use_ref_counts s.symbols text0 =
      ap (λ c. return_lines c t.symbols text0) w.use_ref_counts
      ∙ ap (λ y. return_lines s.use_ref_counts y text0) w.symbols in
    (
      text0,
      t,
      ev,
      ap (λ (p : Unit {0} × Visitor). p.1)
            (ok-injective (sym tail ∙ return_tail_lem text0 t' (w.first_pass ∙ first)))
          ∙ ap (λ x. printed x t') lines,
    )
