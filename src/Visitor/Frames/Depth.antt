-- ===== src/Visitor/Frames/Depth.antt =====
-- The number of scopes and the output across whole passes over a program (`visitProgram` of
-- src/ast/TranspilerVisitor.cpp).
use jb_transpiler.Base.{Text, ◌≡◌, refl, ◌∙◌, Bool, List, [], ◌∷◌, length}
use jb_transpiler.Types.LangType.{Function}
use jb_transpiler.Syntax.Tree.{
  Stmts, no_stmts, stmt, Directive, include_directive, define_directive, Program,
}
use jb_transpiler.Visitor.{Visitor, Exec, pure, modify}
use jb_transpiler.Visitor.Program.{
  visit_directive, visit_directives, visit_top, declare_method, declare_virtuals, declare_methods,
  declare_classes, emit_instances, emit_tables, both_passes, set_first_pass,
}
use jb_transpiler.Visitor.Keeps.{IsFrame, Writes, Keeps, keeps_rules, leads}
use jb_transpiler.Visitor.Frames.{Grows, Grows-still, Grows-compose, KeepsScopes}
use jb_transpiler.Visitor.Frames.Tables.{set_types-Keeps}
use jb_transpiler.Visitor.Frames.Stmts.{visit_stmt-Keeps}

-- As many scopes as before, and more output.
pub record KeepsDepth (s t : Visitor) : Type 0 where
  pub depth : length t.symbols.scopes ≡ length s.symbols.scopes
  pub output : Grows s t

KeepsDepth-IsFrame : IsFrame KeepsDepth
KeepsDepth-IsFrame = record {
  still = λ s. record { depth = refl; output = Grows-still s };
  compose = λ s t u a b. record {
    depth = b.depth ∙ a.depth;
    output = Grows-compose s t u a.output b.output;
  };
}

KeepsDepth-Writes : Writes KeepsDepth
KeepsDepth-Writes = record {
  frame = KeepsDepth-IsFrame;
  output = λ s text. record { depth = refl; output = (text, refl) };
  counter = λ s. record { depth = refl; output = Grows-still s };
}

weaken : {A : Type 0} (m : Exec A) → Keeps KeepsScopes m → Keeps KeepsDepth m
weaken m k = record {
  at = λ s s' a h. let w = k.at s s' a h in record { depth = w.depth; output = w.output };
}

ruleset depth_rules = (keeps_rules, KeepsDepth-IsFrame, KeepsDepth-Writes)

visit_directive-Keeps : (d : Directive) → Keeps KeepsDepth (visit_directive d)
unfolding visit_directive
visit_directive-Keeps (include_directive file) = search depth_rules
visit_directive-Keeps (define_directive name value) =
    search (depth_rules, weaken, set_types-Keeps) depth 14

visit_directives-Keeps : (ds : List Directive) → Keeps KeepsDepth (visit_directives ds)
unfolding visit_directives
visit_directives-Keeps [] = search depth_rules
visit_directives-Keeps (d ∷ ds) =
    let k = visit_directives-Keeps ds in search (depth_rules, visit_directive-Keeps) depth 14

visit_top-Keeps : (body : Stmts) → Keeps KeepsDepth (visit_top body)
unfolding visit_top
visit_top-Keeps no_stmts = search depth_rules
visit_top-Keeps (stmt s rest) =
    let k = visit_top-Keeps rest in search (depth_rules, weaken, visit_stmt-Keeps) depth 14

declare_method-Keeps : (done : List Text) (m : Function) → Keeps KeepsDepth (declare_method done m)
unfolding declare_method
declare_method-Keeps done m = search depth_rules depth 14

declare_virtuals-Keeps :
    (methods : List Function) (done : List Text) → Keeps KeepsDepth (declare_virtuals done methods)
unfolding declare_virtuals
declare_virtuals-Keeps [] done = search depth_rules
declare_virtuals-Keeps (m ∷ ms) done =
    search (depth_rules, declare_method-Keeps, declare_virtuals-Keeps ms) depth 14

declare_methods-Keeps :
    (methods : List Function) (done : List Text) → Keeps KeepsDepth (declare_methods done methods)
unfolding declare_methods
declare_methods-Keeps [] done = search depth_rules
declare_methods-Keeps (m ∷ ms) done =
    search (depth_rules, declare_method-Keeps, declare_methods-Keeps ms) depth 14

declare_classes-Keeps : (names done : List Text) → Keeps KeepsDepth (declare_classes done names)
unfolding declare_classes
declare_classes-Keeps [] done = search depth_rules
declare_classes-Keeps (c ∷ cs) done =
    search (depth_rules, declare_virtuals-Keeps, declare_methods-Keeps, declare_classes-Keeps cs)
      depth 14

emit_instances-Keeps : (names : List Text) → Keeps KeepsDepth (emit_instances names)
unfolding emit_instances
emit_instances-Keeps [] = search depth_rules
emit_instances-Keeps (c ∷ cs) = let k = emit_instances-Keeps cs in search depth_rules depth 14

emit_tables-Keeps : Keeps KeepsDepth emit_tables
unfolding emit_tables
emit_tables-Keeps = search (depth_rules, declare_classes-Keeps, emit_instances-Keeps) depth 14

set_first_pass-Keeps : (b : Bool) → Keeps KeepsDepth (set_first_pass b)
unfolding set_first_pass modify pure
set_first_pass-Keeps b = record {
  at = λ s s' u h.
      leads KeepsDepth s (record s { first_pass = b }) s' u tt
        (record { depth = refl; output = Grows-still s }) h;
}

pub both_passes-Keeps : (p : Program) → Keeps KeepsDepth (both_passes p)
unfolding both_passes
both_passes-Keeps p =
    search
      (
        depth_rules, visit_directives-Keeps, set_first_pass-Keeps, visit_top-Keeps,
        emit_tables-Keeps,
      )
      depth 14
