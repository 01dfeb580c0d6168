-- ===== src/Visitor/Frames/Printed.antt =====
-- The counts that blocks and `return` print (`visitBlock` and `visitReturnStmt` of
-- src/ast/TranspilerVisitor.cpp).
pub mod Blocks
pub mod Returns
use jb_transpiler.Base.{
  Text, ◌≡◌, refl, sym, ◌∙◌, ap, Bool, true, false, Option, none, some, [], ◌∷◌, ◌++◌, ok,
  append_assoc, append-nil, subst, ok-injective, if◌then◌else◌,
}
use jb_transpiler.Base.Map.{Map}
use jb_transpiler.Symbols.{
  SymbolTable, Variable, enter_scope, exit_scope, get_indent_level, lookup_symbol,
  get_current_scope_symbols,
}
use jb_transpiler.Types.LangType.{is_pointer}
use jb_transpiler.CodeGen.{
  generate_scope_entry, generate_scope_exit, generate_return, generate_inc_ref, generate_dec_ref,
}
use jb_transpiler.Syntax.Tree.{Expr, block, return_stmt, Stmts}
use jb_transpiler.Visitor.{
  Visitor, Exec, continue, pure, ◌>>=◌, ◌>>◌, gets, emit, skip, is_first_pass, indent_level,
  find_variable, set_symbols, set_add_ref_counts,
}
use jb_transpiler.Visitor.Expressions.{visit_expr}
use jb_transpiler.Visitor.Steps.{
  as_pointer, find_pointer, emit_inc_ref, emit_dec_ref, null_text, when_some,
}
use jb_transpiler.Visitor.Declarations.{second_pass_only}
use jb_transpiler.Visitor.Statements.{
  dec_scope, dec_current_scope, enter, leave, inside_block, in_block, uncounted, visit_return,
  visit_stmt, visit_stmts,
}
use jb_transpiler.Visitor.Keeps.{bind-ok}
use jb_transpiler.Visitor.Frames.Exprs.{visit_expr-OnlyWrites}
use jb_transpiler.Visitor.Frames.Stmts.{visit_stmts-Keeps}

-- For each of these variables that is a pointer the indentation and, where references are counted, a
-- call that gives its reference back.
unfoldable pub dec_lines : Bool → Text → Map Variable → Text
dec_lines counts indent [] = []
dec_lines counts indent ((name, var) ∷ vars) =
    (if is_pointer var.type then indent ++ generate_dec_ref counts var else [])
    ++ dec_lines counts indent vars

-- For a variable that is a pointer the indentation and, where references are counted, a call that
-- takes a reference to it.
unfoldable pub inc_line : Bool → Text → Option Variable → Text
inc_line counts indent none = []
inc_line counts indent (some var) =
    if is_pointer var.type then indent ++ generate_inc_ref counts var null_text else []

abbrev pub printed : Text → Visitor → Visitor
printed text s = record s { output = s.output ++ text }

pub printed_twice : (a b : Text) (s : Visitor) → printed b (printed a s) ≡ printed (a ++ b) s
printed_twice a b s = ap (λ o. record s { output = o }) (append_assoc s.output a b)

pub printed-nil : (s : Visitor) → printed [] s ≡ s
printed-nil s = ap (λ o. record s { output = o }) (append-nil s.output)

dec_step :
    (indent : Text) (var : Variable) (k : Exec (Unit {0})) (s : Visitor) (b : Bool)
    → (when_some (if b then some var else none) (emit_dec_ref indent) >> k) s
      ≡ k (printed (if b then indent ++ generate_dec_ref s.use_ref_counts var else []) s)
unfolding ◌>>◌ ◌>>=◌ when_some emit_dec_ref gets emit skip
dec_step indent var k s true = refl
dec_step indent var k s false = ap k (sym (printed-nil s))

dec_scope_lem :
    (indent : Text) (vars : Map Variable) (s : Visitor)
    → dec_scope indent vars s ≡ ok (tt, printed (dec_lines s.use_ref_counts indent vars) s)
unfolding dec_scope dec_lines skip
dec_scope_lem indent [] s = ap (λ t. ok (tt, t)) (sym (printed-nil s))
dec_scope_lem indent ((name, var) ∷ vars) s =
    let line =
      if is_pointer var.type then indent ++ generate_dec_ref s.use_ref_counts var else [] in
    dec_step indent var (dec_scope indent vars) s (is_pointer var.type)
    ∙ dec_scope_lem indent vars (printed line s)
    ∙ ap (λ t. ok (tt, t)) (printed_twice line (dec_lines s.use_ref_counts indent vars) s)

pub inc_step :
    (indent : Text) (found : Option Variable) (k : Exec (Unit {0})) (s : Visitor)
    → (when_some (as_pointer found) (emit_inc_ref indent null_text) >> k) s
      ≡ k (printed (inc_line s.use_ref_counts indent found) s)
unfolding ◌>>◌ ◌>>=◌ when_some emit_inc_ref gets emit skip inc_line
inc_step indent none k s = ap k (sym (printed-nil s))
inc_step indent (some var) k s = go (is_pointer var.type)
  where
    go :
        (b : Bool)
        → (when_some (if b then some var else none) (emit_inc_ref indent null_text) >> k) s
          ≡ k (
              printed
                (if b then indent ++ generate_inc_ref s.use_ref_counts var null_text else [])
                s)
    go true = refl
    go false = ap k (sym (printed-nil s))

pub second_pass :
    (m : Exec (Unit {0})) (s : Visitor) → s.first_pass ≡ false → second_pass_only m s ≡ m s
unfolding second_pass_only is_first_pass ◌>>=◌
second_pass m s e = rw e refl

pub dec_run :
    (indent : Text) (s : Visitor)
    → dec_current_scope indent s
      ≡ ok (tt, printed (dec_lines s.use_ref_counts indent (get_current_scope_symbols s.symbols)) s)
unfolding dec_current_scope ◌>>=◌ gets
dec_run indent s = dec_scope_lem indent (get_current_scope_symbols s.symbols) s

pub dec_then :
    {B : Type 0} (indent : Text) (k : Exec B) (s : Visitor)
    → s.first_pass ≡ false
    → (second_pass_only (dec_current_scope indent) >> k) s
      ≡ k (printed (dec_lines s.use_ref_counts indent (get_current_scope_symbols s.symbols)) s)
unfolding ◌>>◌ ◌>>=◌
dec_then indent k s first =
    ap (λ r. continue r (λ _. k))
      (second_pass (dec_current_scope indent) s first ∙ dec_run indent s)
