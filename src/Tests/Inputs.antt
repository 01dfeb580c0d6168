-- ===== src/Tests/Inputs.antt =====
-- The programs and states that the visitors are run on.
use jb_transpiler.Tests.Samples.{animal, dog, one_class}
use Prim.Native.String.{String}
use jb_transpiler.Base.{Text, lit, true, false, none, some, [], Result, ok}
use jb_transpiler.Syntax.{int_spec, pointer}
use jb_transpiler.Syntax.Tree.{
  class_decl, class_method, class_field, no_members, ClassMembers, plain, Expr, identifier, literal,
  add_sub, func_call, no_args, arg, function_decl, var_decl, return_stmt, block, expr_stmt, Stmts,
  no_stmts, stmt, Program,
}
use jb_transpiler.Types.LangType.{LangType}
use jb_transpiler.Visitor.{Visitor, new_visitor}
use jb_transpiler.Visitor.Expressions.{visit_expr}
use jb_transpiler.Visitor.Statements.{visit_stmt}
use jb_transpiler.Visitor.Program.{transpile}
use jb_transpiler.Visitor.Declarations.{get_class_from_code}

-- `int* count; int main() { return 0; }`
abbrev pub program : Program
program = record {
  directives = [];
  statements = stmt (var_decl (plain (pointer int_spec) (lit "count")) none) (
      stmt
        (function_decl int_spec (lit "main") []
          (stmt (return_stmt (some (literal (lit "0")))) no_stmts))
        no_stmts);
}

abbrev pub text_of : Result Text → Text
text_of (ok text) = text
text_of _ = []

abbrev pub program_text : Text
program_text = text_of (transpile false program)

-- `return number;`
abbrev pub returning : String → Stmts
returning number = stmt (return_stmt (some (literal (lit number)))) no_stmts

-- `class Animal { virtual int speak() { return 1; } } class Dog : Animal { int speak() { return 2; } }`
abbrev pub two_classes : Program
two_classes = record {
  directives = [];
  statements =
      stmt
        (class_decl animal none
          (class_method true int_spec (lit "speak") [] (returning "1") no_members))
        (stmt
          (class_decl dog (some animal)
            (class_method false int_spec (lit "speak") [] (returning "2") no_members))
          no_stmts);
}

abbrev pub printing : Visitor
printing = record (new_visitor true) { first_pass = false }

abbrev pub visitor_or : {A : Type 0} → Visitor → Result (A × Visitor) → Visitor
visitor_or d (ok (a, s)) = s
visitor_or d _ = d

abbrev pub value_or : {A : Type 0} → A → Result (A × Visitor) → A
value_or d (ok (a, s)) = a
value_or d _ = d

-- `{ int count; count + 1; }`
abbrev pub body : Stmts
body =
    stmt (var_decl (plain int_spec (lit "count")) none)
      (stmt (expr_stmt (add_sub (identifier (lit "count")) (lit "+") (literal (lit "1")))) no_stmts)

abbrev pub after_block : Visitor
after_block = visitor_or printing (visit_stmt (block body) printing)

-- `f(count)`
abbrev pub call : Expr
call = func_call (lit "f") (arg (identifier (lit "count")) no_args)

abbrev pub called : Result (Text × Visitor)
called = visit_expr call printing

abbrev pub knowing_animals : Visitor
knowing_animals = record (new_visitor true) { types = one_class }

abbrev pub one_field : ClassMembers
one_field = class_field (plain int_spec (lit "legs")) no_members

abbrev pub declared_dog : Result (LangType × Visitor)
declared_dog = get_class_from_code dog (some animal) one_field knowing_animals

abbrev pub declared_loop : Result (LangType × Visitor)
declared_loop = get_class_from_code dog (some dog) one_field knowing_animals
