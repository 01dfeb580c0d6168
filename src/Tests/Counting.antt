-- ===== src/Tests/Counting.antt =====
-- What a block and a `return` print for the pointers of nested scopes.
use jb_transpiler.Base.{Text, lit, ◌≡◌, refl, true, false, some, [], ◌∷◌, ◌++◌, ok, ◌==◌}
use jb_transpiler.Base.Map.{find}
use jb_transpiler.Types.LangType.{LangType, simple_type, set_pointer, int}
use jb_transpiler.Symbols.{
  SymbolTable, empty_table, plain_variable, enter_scope, exit_scope, get_indent_level,
  lookup_symbol, lookup_scopes, get_current_scope_symbols,
}
use jb_transpiler.CodeGen.{
  generate_scope_entry, generate_scope_exit, generate_return, generate_inc_ref, generate_dec_ref,
}
use jb_transpiler.Syntax.Tree.{Expr, identifier, dereference, return_stmt}
use jb_transpiler.Visitor.{
  Visitor, pure, ◌>>=◌, ◌>>◌, gets, emit, skip, is_first_pass, indent_level, find_variable,
  set_add_ref_counts,
}
use jb_transpiler.Visitor.Expressions.{visit_expr}
use jb_transpiler.Visitor.Steps.{find_pointer, emit_inc_ref, emit_dec_ref, when_some}
use jb_transpiler.Visitor.Declarations.{second_pass_only}
use jb_transpiler.Visitor.Statements.{
  dec_scope, dec_current_scope, uncounted, visit_return, visit_stmt, visit_stmts,
}
use jb_transpiler.Visitor.Frames.Printed.Returns.{return_lines, visit_stmt-return_stmt}
use jb_transpiler.Visitor.Frames.Printed.Blocks.{visit_stmt-block_printed}
use jb_transpiler.Visitor.Frames.Printed.{printed, dec_lines}
use jb_transpiler.Tests.Inputs.{printing, visitor_or, body, after_block}
use jb_transpiler.Tests.Runs.{runs}

abbrev pointer_type : LangType
pointer_type = set_pointer true (simple_type int)

-- `p` in the innermost scope, `q` in the one around it, and the global scope
abbrev three_scopes : SymbolTable
three_scopes = record empty_table {
  scopes =
      ((lit "p", plain_variable (lit "p") pointer_type) ∷ [])
      ∷ ((lit "q", plain_variable (lit "q") pointer_type) ∷ [])
      ∷ []
      ∷ [];
}

abbrev nested : Visitor
nested = record printing { symbols = three_scopes }

-- `*p`
abbrev content : Expr
content = dereference (identifier (lit "p"))

abbrev returned : Visitor
returned = visitor_or nested (visit_stmt (return_stmt (some content)) nested)

-- `p` is given back before `*p` is read, and `q` is not given back.
return_run :
    (visit_stmt (return_stmt (some content)) nested ≡ ok (tt, returned))
    × (returned.output ≡ lit "            runtime_dec_ref_count(p, 0);\n            return *p;\n")
unfolding lit ◌==◌ visit_stmt visit_return uncounted visit_expr dec_scope dec_current_scope
    find_pointer emit_inc_ref emit_dec_ref when_some second_pass_only pure ◌>>=◌ ◌>>◌ gets emit skip
    is_first_pass indent_level find_variable set_add_ref_counts lookup_symbol lookup_scopes
    get_current_scope_symbols get_indent_level generate_return generate_dec_ref generate_inc_ref
    find
return_run = (refl, refl)

visit_stmt-return_stmt_example :
    (text : Text) × (t : Visitor) × (visit_expr content (record nested { add_ref_counts = false })
      ≡ ok (text, t))
    × (returned
        ≡ printed (return_lines true three_scopes text) (record t { add_ref_counts = true }))
visit_stmt-return_stmt_example = visit_stmt-return_stmt content nested returned tt refl return_run.0

visit_stmt-block_printed_example :
    (t : Visitor) × (visit_stmts body
        (printed generate_scope_entry (record printing { symbols = enter_scope printing.symbols }))
      ≡ ok (tt, t))
    × (after_block
        ≡ printed
            (dec_lines t.use_ref_counts
                (get_indent_level (enter_scope printing.symbols))
                (get_current_scope_symbols t.symbols)
              ++ (get_indent_level (enter_scope printing.symbols) ++ generate_scope_exit))
            (record t { symbols = exit_scope t.symbols }))
visit_stmt-block_printed_example = visit_stmt-block_printed body printing after_block tt refl runs.2
