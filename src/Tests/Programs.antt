-- ===== src/Tests/Programs.antt =====
-- The theorems on the visits, applied to a small program.
use jb_transpiler.Types.Hierarchy.Rooted.{IsRooted}
use jb_transpiler.Types.Hierarchy.Subclass.{Ancestor}
use jb_transpiler.Visitor.Frames.Classes.{
  get_class_from_code-IsRooted, get_class_from_code-Ancestor,
}
use jb_transpiler.Tests.Samples.{animal, dog, animal_type, one_class-IsRooted}
use jb_transpiler.Base.{ne_of_eq-false, Text, lit, ◌≡◌, refl, true, false, none, [], ◌++◌, length}
use jb_transpiler.Syntax.{int_spec}
use jb_transpiler.Syntax.Tree.{
  function_decl, block, expr_stmt, for_stmt, for_none, Stmts, no_stmts, stmt,
}
use jb_transpiler.Visitor.{Visitor, new_visitor}
use jb_transpiler.Visitor.Statements.{visit_stmt, visit_stmts}
use jb_transpiler.Visitor.Frames.{OnlyWrites, KeepsScopes}
use jb_transpiler.Visitor.Frames.Exprs.{visit_expr-OnlyWrites}
use jb_transpiler.Visitor.Frames.FirstPass.{
  visit_expr-first_pass, visit_stmt-function_decl, without_loops, visit_stmts-without_loops,
}
use jb_transpiler.Visitor.Frames.Scopes.{visit_stmt-KeepsScopes, visit_stmt-block}
use jb_transpiler.Visitor.Frames.Whole.{Passes, registrations, transpile_lem}
use jb_transpiler.Tests.Inputs.{
  program, program_text, printing, visitor_or, value_or, body, after_block, call, called,
  knowing_animals, one_field, declared_dog, declared_loop,
}
use jb_transpiler.Tests.Runs.{runs}

transpile_lem_example :
    (t : Visitor) × (printed : Text) × Passes false program t
    × (length t.symbols.scopes ≡ 1)
    × (t.output ≡ lit "#include \"runtime.h\"\n" ++ printed)
    × (program_text
        ≡ t.output
          ++ (lit "int main() {\n    runtime_init();\n"
              ++ (registrations t.symbols.global_vars
                  ++ lit "    main_();\n    runtime_shutdown();\n}\n")))
transpile_lem_example = transpile_lem false program program_text runs.0

visit_stmt-KeepsScopes_example : KeepsScopes printing after_block
visit_stmt-KeepsScopes_example = visit_stmt-KeepsScopes (block body) printing after_block tt runs.2

visit_stmt-block_example : after_block.symbols.scopes ≡ printing.symbols.scopes
visit_stmt-block_example = visit_stmt-block body printing after_block tt runs.2

visit_expr-OnlyWrites_example : OnlyWrites printing (visitor_or printing called)
visit_expr-OnlyWrites_example =
    visit_expr-OnlyWrites call printing (visitor_or printing called) (value_or [] called) runs.3

visit_expr-first_pass_example : new_visitor true ≡ new_visitor true
visit_expr-first_pass_example =
    visit_expr-first_pass call (new_visitor true) (new_visitor true) [] refl runs.4

visit_stmt-function_decl_example :
    visit_stmt (function_decl int_spec (lit "f") [] body) (new_visitor true)
    ≡ visit_stmt (function_decl int_spec (lit "f") [] no_stmts) (new_visitor true)
visit_stmt-function_decl_example =
    visit_stmt-function_decl int_spec (lit "f") [] body no_stmts (new_visitor true) refl

-- `for (; ; ) f(count);` before the statements of `body`
abbrev looping : Stmts
looping = stmt (for_stmt for_none none none (expr_stmt call)) body

visit_stmts-without_loops_example :
    visit_stmts looping printing ≡ visit_stmts (without_loops looping) printing
visit_stmts-without_loops_example = visit_stmts-without_loops looping printing refl

get_class_from_code-IsRooted_example :
    IsRooted (visitor_or knowing_animals declared_dog).types.classes
get_class_from_code-IsRooted_example =
    get_class_from_code-IsRooted dog animal one_field knowing_animals
      (visitor_or knowing_animals declared_dog) (value_or animal_type declared_dog)
      one_class-IsRooted runs.7 (ne_of_eq-false dog animal runs.8) refl runs.5

get_class_from_code-Ancestor_example :
    Ancestor (visitor_or knowing_animals declared_loop).types.classes dog dog
unfolding lit
get_class_from_code-Ancestor_example =
    get_class_from_code-Ancestor dog one_field knowing_animals
      (visitor_or knowing_animals declared_loop) (value_or animal_type declared_loop) refl refl
      runs.6
