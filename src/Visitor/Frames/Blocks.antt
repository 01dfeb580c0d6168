-- ===== src/Visitor/Frames/Blocks.antt =====
-- Entering and leaving scopes, and the counts at their end (src/ast/TranspilerVisitor.cpp), as steps
-- that keep the scopes around.
use jb_transpiler.Base.{Text, ◌≡◌, ◌∙◌, ap, [], ◌∷◌, ◌++◌, ok, arith, length}
use jb_transpiler.Base.Map.{Map}
use jb_transpiler.Symbols.{Variable, enter_scope, exit_scope}
use jb_transpiler.Visitor.{Visitor, Exec, ◌>>=◌, ◌>>◌, gets, emit, set_symbols}
use jb_transpiler.Visitor.Declarations.{second_pass_only}
use jb_transpiler.Visitor.Statements.{
  dec_scope, dec_current_scope, enter, leave, inside_block, in_block,
}
use jb_transpiler.CodeGen.{generate_scope_exit}
use jb_transpiler.Visitor.Keeps.{Writes, Keeps, keeps_rules, bind-ok, Keeps-emit}
use jb_transpiler.Visitor.Keeps.Parts.{emit_dec_ref-Keeps}
use jb_transpiler.Visitor.Frames.{
  Grows-compose, OnlyWrites-IsFrame, OnlyWrites, OnlyWrites-Writes, KeepsScopes, KeepsScopes-Writes,
  KeepsScopes-IsFrame,
}
use jb_transpiler.Visitor.Frames.Tables.{second_pass_only-Keeps}

dec_scope-Keeps :
    {R : Visitor → Visitor → Type 0}
    → Writes R
    → (indent : Text) (vars : Map Variable) → Keeps R (dec_scope indent vars)
unfolding dec_scope
dec_scope-Keeps w indent [] = search (keeps_rules, w.frame)
dec_scope-Keeps w indent ((name, var) ∷ vars) =
    let rest = dec_scope-Keeps w indent vars in search (keeps_rules, w.frame, emit_dec_ref-Keeps)

pub dec_current_scope-Keeps :
    {R : Visitor → Visitor → Type 0}
    → Writes R
    → (indent : Text) → Keeps R (dec_current_scope indent)
unfolding dec_current_scope
dec_current_scope-Keeps w indent = search (keeps_rules, w.frame, dec_scope-Keeps w) depth 14

inside_block-Keeps :
    (m : Exec (Unit {0})) → Keeps KeepsScopes m → Keeps KeepsScopes (inside_block m)
unfolding inside_block
inside_block-Keeps m k =
    search
      (
        keeps_rules,
        KeepsScopes-IsFrame,
        KeepsScopes-Writes,
        second_pass_only-Keeps KeepsScopes-IsFrame,
        dec_current_scope-Keeps KeepsScopes-Writes,
      )
      depth 14

-- the record for a block whose scopes are restored
around :
    (s t s' : Visitor)
    → KeepsScopes (record s { symbols = enter_scope s.symbols }) t
    → OnlyWrites (record t { symbols = exit_scope t.symbols }) s'
    → s'.symbols.scopes ≡ s.symbols.scopes
    → KeepsScopes s s'
unfolding exit_scope
around s t s' body last same = record {
  outer = rw same;
  depth = ap length same;
  use_ref_counts = last.use_ref_counts ∙ body.use_ref_counts;
  first_pass = last.first_pass ∙ body.first_pass;
  add_ref_counts = λ h. last.add_ref_counts ∙ body.add_ref_counts h;
  output = Grows-compose s t s' body.output last.output;
  temp_var_counter = omega (arith, body.temp_var_counter, last.temp_var_counter);
}

-- Where a block returns, the scopes are those from before it, whatever its statements did to the
-- innermost one.
pub in_block-restores :
    (m : Exec (Unit {0})) (s s' : Visitor) (b : Unit {0})
    → Keeps KeepsScopes m
    → in_block m s ≡ ok (b, s')
    → (s'.symbols.scopes ≡ s.symbols.scopes) × KeepsScopes s s'
unfolding in_block enter leave set_symbols gets enter_scope exit_scope ◌>>=◌ ◌>>◌
in_block-restores m s s' b k h =
    let (indent, t, inside, after) =
      bind-ok (inside_block m)
        (λ indent. leave >> second_pass_only (emit (indent ++ generate_scope_exit)))
        (record s { symbols = enter_scope s.symbols }) s' b h in
    let body =
      (inside_block-Keeps m k).at (record s { symbols = enter_scope s.symbols }) t indent inside in
    let last =
      (second_pass_only-Keeps OnlyWrites-IsFrame (emit (indent ++ generate_scope_exit))
          (Keeps-emit OnlyWrites-Writes (indent ++ generate_scope_exit))).at
        (record t { symbols = exit_scope t.symbols }) s' b after in
    let same = ap (λ symbols. symbols.scopes) last.symbols ∙ body.outer in
    (same, around s t s' body last same)

pub in_block-Keeps : (m : Exec (Unit {0})) → Keeps KeepsScopes m → Keeps KeepsScopes (in_block m)
in_block-Keeps m k = record { at = λ s s' b h. (in_block-restores m s s' b k h).1 }
