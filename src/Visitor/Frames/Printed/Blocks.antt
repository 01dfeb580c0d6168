-- ===== src/Visitor/Frames/Printed/Blocks.antt =====
-- What `visitBlock` of src/ast/TranspilerVisitor.cpp prints.
use jb_transpiler.Base.{Text, ◌≡◌, refl, sym, ◌∙◌, ap, false, ◌++◌, ok, subst, ok-injective}
use jb_transpiler.Symbols.{enter_scope, exit_scope, get_indent_level, get_current_scope_symbols}
use jb_transpiler.CodeGen.{generate_scope_entry, generate_scope_exit}
use jb_transpiler.Syntax.Tree.{block, Stmts}
use jb_transpiler.Visitor.{
  Visitor, Exec, pure, ◌>>=◌, ◌>>◌, gets, emit, skip, is_first_pass, indent_level, set_symbols,
}
use jb_transpiler.Visitor.Declarations.{second_pass_only}
use jb_transpiler.Visitor.Statements.{
  dec_current_scope, enter, leave, inside_block, in_block, visit_stmt, visit_stmts,
}
use jb_transpiler.Visitor.Keeps.{bind-ok}
use jb_transpiler.Visitor.Frames.Stmts.{visit_stmts-Keeps}
use jb_transpiler.Visitor.Frames.Printed.{dec_lines, printed, printed_twice, dec_then}

inside_run :
    (m : Exec (Unit {0})) (s : Visitor)
    → s.first_pass ≡ false
    → inside_block m s
      ≡ (m >>= λ _.
            second_pass_only (dec_current_scope (get_indent_level s.symbols))
            >> pure (get_indent_level s.symbols))
          (printed generate_scope_entry s)
unfolding inside_block second_pass_only is_first_pass indent_level emit skip ◌>>◌ ◌>>=◌
inside_run m s first = rw first refl

leave_run :
    (text : Text) (t : Visitor)
    → t.first_pass ≡ false
    → (leave >> second_pass_only (emit text)) t
      ≡ ok (tt, printed text (record t { symbols = exit_scope t.symbols }))
unfolding leave second_pass_only is_first_pass set_symbols gets emit skip ◌>>◌ ◌>>=◌
leave_run text t first = rw first refl

-- In the second pass a block, where it returns, prints a brace, what its statements print, then for
-- each pointer that its own scope has at its end the indentation and, where the allocator counts
-- references, a call that gives its reference back, and a brace; and it leaves the scope.
pub visit_stmt-block_printed :
    (body : Stmts) (s s' : Visitor) (u : Unit {0})
    → s.first_pass ≡ false
    → visit_stmt (block body) s ≡ ok (u, s')
    → (t : Visitor) × (visit_stmts body
          (printed generate_scope_entry (record s { symbols = enter_scope s.symbols }))
        ≡ ok (tt, t))
      × (s' ≡ (
          let indent = get_indent_level (enter_scope s.symbols) in
          printed
            (dec_lines t.use_ref_counts indent (get_current_scope_symbols t.symbols)
              ++ (indent ++ generate_scope_exit))
            (record t { symbols = exit_scope t.symbols })))
unfolding visit_stmt in_block enter set_symbols gets ◌>>◌ ◌>>=◌ pure
visit_stmt-block_printed body s s' u first h =
    let entered = record s { symbols = enter_scope s.symbols } in
    let indent = get_indent_level (enter_scope s.symbols) in
    let m = visit_stmts body in
    let (indent1, t1, inside, after) =
      bind-ok (inside_block m) (λ i. leave >> second_pass_only (emit (i ++ generate_scope_exit)))
        entered s' u h in
    let (u0, t, ran, fin) =
      bind-ok m (λ _. second_pass_only (dec_current_scope indent) >> pure indent)
        (printed generate_scope_entry entered) t1 indent1
        (sym (inside_run m entered first) ∙ inside) in
    let kept = (visit_stmts-Keeps body).at (printed generate_scope_entry entered) t u0 ran in
    let second : t.first_pass ≡ false = kept.first_pass ∙ first in
    let decs = dec_lines t.use_ref_counts indent (get_current_scope_symbols t.symbols) in
    let gave : ok (indent, printed decs t) ≡ ok (indent1, t1) =
      sym (dec_then indent (pure indent) t second) ∙ fin in
    let last =
      subst
        (λ (p : Text × Visitor).
          (leave >> second_pass_only (emit (p.0 ++ generate_scope_exit))) p.1 ≡ ok (u, s'))
        (sym (ok-injective gave)) after in
    (
      t,
      ran,
      ap (λ (p : Unit {0} × Visitor). p.1)
            (ok-injective
              (sym last ∙ leave_run (indent ++ generate_scope_exit) (printed decs t) second))
          ∙ printed_twice decs (indent ++ generate_scope_exit)
              (record t { symbols = exit_scope t.symbols }),
    )
