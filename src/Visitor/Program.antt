-- ===== src/Visitor/Program.antt =====
-- `visitProgram` and `visitPreprocessorDirective` (src/ast/TranspilerVisitor.cpp): the two passes.
use jb_transpiler.Base.{
  Text, lit, Bool, true, false, Option, none, some, List, [], ◌∷◌, ◌++◌, Result, ok, throw, hang,
  terminate, if◌then◌else◌, is_empty,
}
use jb_transpiler.Base.Set
use jb_transpiler.Syntax.Tree.{
  Stmts, no_stmts, stmt, Directive, include_directive, define_directive, Program,
}
use jb_transpiler.Types.LangType.{Fields, Function}
use jb_transpiler.Types.Registry.{register_define, get_class_methods}
use jb_transpiler.Types.Hierarchy.{get_all_virtual_methods}
use jb_transpiler.Types.VTable.{generate_vtable_struct, generate_vtable_instance}
use jb_transpiler.CodeGen.{generate_function_decl}
use jb_transpiler.Visitor.{
  Visitor, new_visitor, Exec, pure, ◌>>=◌, ◌>>◌, lift, gets, modify, emit, skip, set_types,
}
use jb_transpiler.Visitor.Statements.{visit_stmt}

abbrev define_value : Option Text → Text
define_value none = []
define_value (some value) = value

unfoldable pub visit_directive : Directive → Exec (Unit {0})
visit_directive (include_directive file) = emit (lit "#include" ++ file)
visit_directive (define_directive name value) = do
  types ← gets (λ s. s.types)
  set_types (register_define types name (define_value value))
  emit (lit "#define " ++ (name ++ (lit " " ++ (define_value value ++ lit "\n"))))

unfoldable pub visit_directives : List Directive → Exec (Unit {0})
unfolding visit_directive
visit_directives [] = skip
visit_directives (d ∷ ds) = do visit_directive d; emit (lit "\n"); visit_directives ds

-- one pass over the statements of the program
unfoldable pub visit_top : Stmts → Exec (Unit {0})
visit_top no_stmts = skip
visit_top (stmt s rest) = do visit_stmt s; emit (lit "\n"); visit_top rest

-- The declaration of a method that is not in `declaredMethods`, which is passed on.
unfoldable pub declare_method : List Text → Function → Exec (List Text)
declare_method done m = if Set.contains m.name done then pure done else (do
  text ← lift (generate_function_decl (some m))
  emit (text ++ lit ";\n")
  pure (Set.insert m.name done))

-- the loop over `allVirtuals`
unfoldable pub declare_virtuals : List Text → List Function → Exec (List Text)
declare_virtuals done [] = pure done
declare_virtuals done (m ∷ ms) = do done' ← declare_method done m; declare_virtuals done' ms

-- the loop over `classMethods`
unfoldable pub declare_methods : List Text → List Function → Exec (List Text)
declare_methods done [] = pure done
declare_methods done (m ∷ ms) = do
  done' ← (if m.is_virtual then declare_method done m else pure done)
  declare_methods done' ms

unfoldable pub declare_classes : List Text → List Text → Exec (Unit {0})
declare_classes done [] = skip
declare_classes done (c ∷ cs) = do
  types ← gets (λ s. s.types)
  virtuals ← lift (get_all_virtual_methods types c)
  done' ← declare_virtuals done virtuals
  done'' ← declare_methods done' (get_class_methods types c)
  declare_classes done'' cs

unfoldable pub emit_instances : List Text → Exec (Unit {0})
emit_instances [] = skip
emit_instances (c ∷ cs) = do
  types ← gets (λ s. s.types)
  virtuals ← lift (get_all_virtual_methods types c)
  if is_empty virtuals then skip else (do text ← lift (generate_vtable_instance types c); emit text)
  emit_instances cs

-- the calls that register the globals
unfoldable pub root_lines : Fields → Text
root_lines [] = []
root_lines ((name, type) ∷ globals) =
    lit "    runtime_register_root(&" ++ (name ++ (lit ");\n" ++ root_lines globals))

unfoldable pub set_first_pass : Bool → Exec (Unit {0})
set_first_pass b = modify (λ s. record s { first_pass = b })

-- between the passes: the table type, the declarations and the tables
unfoldable pub emit_tables : Exec (Unit {0})
emit_tables = do
  types ← gets (λ s. s.types)
  vtable ← lift (generate_vtable_struct types)
  emit vtable
  names ← gets (λ s. s.class_names)
  declare_classes [] names
  emit (lit "\n")
  emit_instances names

-- `main`, which registers the global pointers as roots
unfoldable pub main_text : Fields → Text
unfolding root_lines
main_text globals =
    lit "int main() {\n    runtime_init();\n"
    ++ (root_lines globals ++ lit "    main_();\n    runtime_shutdown();\n}\n")

unfoldable pub emit_main : Exec (Unit {0})
emit_main = do globals ← gets (λ s. s.symbols.global_vars); emit (main_text globals)

-- `visitProgram` between its first line of output and `main`
unfoldable pub both_passes : Program → Exec (Unit {0})
unfolding visit_directives set_first_pass
both_passes p = do
  visit_directives p.directives
  set_first_pass true
  visit_top p.statements
  emit_tables
  set_first_pass false
  visit_top p.statements

unfoldable pub visit_program : Program → Exec (Unit {0})
visit_program p = do emit (lit "#include \"runtime.h\"\n"); both_passes p; emit_main

abbrev pub output_of : Result (Unit {0} × Visitor) → Result Text
output_of (ok (_, s)) = ok s.output
output_of (throw e) = throw e
output_of hang = hang
output_of terminate = terminate

-- The C text of a program; `use_ref_counts` says that the allocator counts references.
unfoldable pub transpile : Bool → Program → Result Text
unfolding visit_program
transpile use_ref_counts p = output_of (visit_program p (new_visitor use_ref_counts))
