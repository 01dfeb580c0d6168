-- ===== src/Visitor/Frames/Whole.antt =====
-- What the translation of a program prints around what its statements print, and the scopes at the
-- end (`visitProgram` of src/ast/TranspilerVisitor.cpp).
use jb_transpiler.Base.{
  Text, lit, ◌≡◌, refl, sym, ◌∙◌, ap, Bool, true, false, [], ◌∷◌, ◌++◌, Result, ok, throw, hang,
  terminate, ok-injective, append_assoc, length,
}
use jb_transpiler.Types.LangType.{Fields}
use jb_transpiler.Syntax.Tree.{Program}
use jb_transpiler.Visitor.{Visitor, new_visitor, ◌>>=◌, ◌>>◌, continue, gets, emit, modify}
use jb_transpiler.Visitor.Program.{
  visit_directives, visit_top, emit_tables, main_text, root_lines, emit_main, both_passes,
  visit_program, output_of, transpile, set_first_pass,
}
use jb_transpiler.Visitor.Keeps.{bind-ok}
use jb_transpiler.Visitor.Frames.Depth.{both_passes-Keeps}

-- the state in which the passes start
abbrev pub started : Bool → Visitor
started use_ref_counts = record (new_visitor use_ref_counts) {
  output = lit "#include \"runtime.h\"\n";
}

-- A line for each global pointer, in their order.
unfoldable pub registrations : Fields → Text
registrations [] = []
registrations ((name, type) ∷ globals) =
    (lit "    runtime_register_root(&" ++ (name ++ lit ");\n")) ++ registrations globals

root_lines_lem : (globals : Fields) → root_lines globals ≡ registrations globals
unfolding root_lines registrations
root_lines_lem [] = refl
root_lines_lem ((name, type) ∷ globals) =
    let before = lit "    runtime_register_root(&" in
    let after = lit ");\n" in
    ap (λ r. before ++ (name ++ (after ++ r))) (root_lines_lem globals)
    ∙ ap (λ r. before ++ r) (sym (append_assoc name after (registrations globals)))
    ∙ sym (append_assoc before (name ++ after) (registrations globals))

-- The passes over a program, from the `#include` of the runtime to the state `t`.
pub record Passes (use_ref_counts : Bool) (p : Program) (t : Visitor) : Type 0 where
  pub start : Visitor
  pub first : Visitor
  pub tables : Visitor
  pub runs_directives : visit_directives p.directives (started use_ref_counts) ≡ ok (tt, start)
  pub runs_first : visit_top p.statements (record start { first_pass = true }) ≡ ok (tt, first)
  pub runs_tables : emit_tables first ≡ ok (tt, tables)
  pub runs_second : visit_top p.statements (record tables { first_pass = false }) ≡ ok (tt, t)

both_passes-Passes :
    (c : Bool) (p : Program) (t : Visitor) (u : Unit {0})
    → both_passes p (started c) ≡ ok (u, t)
    → Passes c p t
unfolding both_passes set_first_pass modify ◌>>◌ ◌>>=◌
both_passes-Passes c p t u h =
    let second = λ (_ : Unit {0}). set_first_pass false >> visit_top p.statements in
    let after = λ (_ : Unit {0}). emit_tables >>= second in
    let (_, d, run_d, rest) =
      bind-ok (visit_directives p.directives)
        (λ _. set_first_pass true >> visit_top p.statements >>= after) (started c) t u h in
    let (_, f, run_f, rest') =
      bind-ok (visit_top p.statements) after (record d { first_pass = true }) t u rest in
    let (_, v, run_v, last) = bind-ok emit_tables second f t u rest' in
    record {
      start = d;
      first = f;
      tables = v;
      runs_directives = run_d;
      runs_first = run_f;
      runs_tables = run_v;
      runs_second = last;
    }

-- Where a program is translated, its directives, its statements in the first pass, the tables, and its
-- statements in the second pass were visited one after the other, each from the state that the one
-- before left, and returned; one scope is open then, the global one as at the start. What they wrote
-- is the `#include` of the runtime, which was there before them, and then what they printed. The C
-- text is all that, followed by a `main` that starts the runtime, registers each global pointer which
-- the passes found, in their order, calls the program's own `main_` and stops the runtime, and by
-- nothing else.
pub transpile_lem :
    (use_ref_counts : Bool) (p : Program) (text : Text)
    → transpile use_ref_counts p ≡ ok text
    → (t : Visitor) × (printed : Text) × Passes use_ref_counts p t
      × (length t.symbols.scopes ≡ 1)
      × (t.output ≡ lit "#include \"runtime.h\"\n" ++ printed)
      × (text
          ≡ t.output
            ++ (lit "int main() {\n    runtime_init();\n"
                ++ (registrations t.symbols.global_vars
                    ++ lit "    main_();\n    runtime_shutdown();\n}\n")))
unfolding transpile visit_program emit ◌>>◌ ◌>>=◌ emit_main gets main_text
transpile_lem c p text h = go (both_passes p (started c)) refl h
  where
    go :
        (r : Result (Unit {0} × Visitor))
        → both_passes p (started c) ≡ r
        → output_of (continue r (λ _. emit_main)) ≡ ok text
        → (t : Visitor) × (printed : Text) × Passes c p t
          × (length t.symbols.scopes ≡ 1)
          × (t.output ≡ lit "#include \"runtime.h\"\n" ++ printed)
          × (text
              ≡ t.output
                ++ (lit "int main() {\n    runtime_init();\n"
                    ++ (registrations t.symbols.global_vars
                        ++ lit "    main_();\n    runtime_shutdown();\n}\n")))
    go (ok (u, t)) e k =
        let kept = (both_passes-Keeps p).at (started c) t u e in
        let (printed, grown) = kept.output in
        (
          t,
          printed,
          both_passes-Passes c p t u e,
          kept.depth,
          grown,
          sym (ok-injective k)
              ∙ ap
                  (λ r.
                    t.output
                    ++ (lit "int main() {\n    runtime_init();\n"
                        ++ (r ++ lit "    main_();\n    runtime_shutdown();\n}\n")))
                  (root_lines_lem t.symbols.global_vars),
        )
    go (throw x) e k = cc
    go hang e k = cc
    go terminate e k = cc
