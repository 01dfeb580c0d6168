-- ===== src/Visitor/Frames/Tables.antt =====
-- Changes of the tables and of the innermost scope, and steps of one pass
-- (src/ast/TranspilerVisitor.cpp), as steps that keep the scopes around.
use jb_transpiler.Base.{
  Text, ◌≡◌, refl, Bool, true, false, ◌&&◌, Option, List, [], ◌∷◌, ◌++◌, ok, arith, Result,
  if◌then◌else◌, throw, hang, terminate,
}
use jb_transpiler.Types.LangType.{LangType, Function, is_pointer}
use jb_transpiler.Types.Registry.{TypeSystem}
use jb_transpiler.Symbols.{SymbolTable, exit_scope, add_symbol, is_global_scope}
use jb_transpiler.Symbols.Scopes.{add_symbol-outer}
use jb_transpiler.Visitor.{
  Visitor, Exec, pure, ◌>>=◌, ◌>>◌, lift, gets, set_symbols, set_types, add_class_name,
  is_first_pass, skip,
}
use jb_transpiler.Visitor.Declarations.{
  first_pass_only, second_pass_only, set_current_func, add_variable, register_global,
}
use jb_transpiler.Visitor.Keeps.{
  IsFrame, Keeps, leads, Keeps-bind, Keeps-if, Keeps-skip, Keeps-is_first_pass,
}
use jb_transpiler.Visitor.Frames.{Grows-still, KeepsScopes, KeepsScopes-IsFrame}

module _ {R : Visitor → Visitor → Type 0} where
  pub second_pass_only-Keeps :
      IsFrame R → (m : Exec (Unit {0})) → Keeps R m → Keeps R (second_pass_only m)
  unfolding second_pass_only
  second_pass_only-Keeps fr m k =
      Keeps-bind is_first_pass (λ first. if first then skip else m) fr (Keeps-is_first_pass fr)
        (λ first. Keeps-if first skip m (λ _. Keeps-skip fr) (λ _. k))

  pub first_pass_only-Keeps :
      IsFrame R → (m : Exec (Unit {0})) → Keeps R m → Keeps R (first_pass_only m)
  unfolding first_pass_only
  first_pass_only-Keeps fr m k =
      Keeps-bind is_first_pass (λ first. if first then m else skip) fr (Keeps-is_first_pass fr)
        (λ first. Keeps-if first m skip (λ _. k) (λ _. Keeps-skip fr))

-- a change of tables that leaves the scopes
same_scopes :
    (s : Visitor) (symbols : SymbolTable) (types : TypeSystem) (class_names : List Text)
    → symbols.scopes ≡ s.symbols.scopes
    → KeepsScopes s (record s { symbols = symbols; types = types; class_names = class_names })
unfolding exit_scope
same_scopes s symbols types names e = record {
  outer = rw e;
  depth = rw e;
  use_ref_counts = refl;
  first_pass = refl;
  add_ref_counts = λ h. h;
  output = Grows-still s;
  temp_var_counter = omega arith;
}

pub set_types-Keeps : (types : TypeSystem) → Keeps KeepsScopes (set_types types)
unfolding set_types pure
set_types-Keeps types = record {
  at = λ s s' b h.
      leads KeepsScopes s (record s { types = types }) s' b tt
        (same_scopes s s.symbols types s.class_names refl) h;
}

pub add_class_name-Keeps : (name : Text) → Keeps KeepsScopes (add_class_name name)
unfolding add_class_name pure
add_class_name-Keeps name = record {
  at = λ s s' b h.
      leads KeepsScopes s (record s { class_names = s.class_names ++ name ∷ [] }) s' b tt
        (same_scopes s s.symbols s.types (s.class_names ++ name ∷ []) refl) h;
}

pub set_current_func-Keeps : (func : Option Function) → Keeps KeepsScopes (set_current_func func)
unfolding set_current_func set_symbols gets pure ◌>>=◌ ◌>>◌
set_current_func-Keeps func = record {
  at = λ s s' b h.
      leads KeepsScopes s (record s { symbols = record s.symbols { current_func = func } }) s' b tt
        (same_scopes s (record s.symbols { current_func = func }) s.types s.class_names refl) h;
}

pub add_variable-Keeps :
    (name : Text) (type : LangType) → Keeps KeepsScopes (add_variable name type)
unfolding add_variable set_symbols gets lift pure ◌>>=◌ ◌>>◌
add_variable-Keeps name type = record {
  at = λ s s' b h. go s s' b (add_symbol s.symbols name type) refl h;
}
  where
    go :
        (s s' : Visitor) (b : Unit {0}) (r : Result SymbolTable)
        → add_symbol s.symbols name type ≡ r
        → (lift r >>= set_symbols) s ≡ ok (b, s')
        → KeepsScopes s s'
    go s s' b (ok symbols) e h =
        let (outer, depth) = add_symbol-outer s.symbols symbols name type e in
        leads KeepsScopes s (record s { symbols = symbols }) s' b tt
          (record {
            outer = outer;
            depth = depth;
            use_ref_counts = refl;
            first_pass = refl;
            add_ref_counts = λ h. h;
            output = Grows-still s;
            temp_var_counter = omega arith;
          })
          h
    go s s' b (throw x) e h = cc
    go s s' b hang e h = cc
    go s s' b terminate e h = cc

set_symbols-Keeps :
    (s s' : Visitor) (symbols : SymbolTable) (b : Unit {0})
    → symbols.scopes ≡ s.symbols.scopes
    → set_symbols symbols s ≡ ok (b, s')
    → KeepsScopes s s'
unfolding set_symbols pure
set_symbols-Keeps s s' symbols b e h =
    leads KeepsScopes s (record s { symbols = symbols }) s' b tt
      (same_scopes s symbols s.types s.class_names e) h

pub register_global-Keeps :
    (name : Text) (type : LangType) → Keeps KeepsScopes (register_global name type)
unfolding register_global first_pass_only gets is_first_pass skip ◌>>=◌ pure
register_global-Keeps name type = record {
  at = λ s s' b h.
      go s s' b (is_global_scope s.symbols && is_pointer type)
        (record s.symbols { global_vars = s.symbols.global_vars ++ (name, type) ∷ [] }) refl h;
}
  where
    go :
        (s s' : Visitor) (b : Unit {0}) (global : Bool) (symbols : SymbolTable)
        → symbols.scopes ≡ s.symbols.scopes
        → (if global then first_pass_only (set_symbols symbols) else skip) s ≡ ok (b, s')
        → KeepsScopes s s'
    go s s' b true symbols e h = by_pass s s' b s.first_pass symbols e h
      where
        by_pass :
            (s s' : Visitor) (b : Unit {0}) (first : Bool) (symbols : SymbolTable)
            → symbols.scopes ≡ s.symbols.scopes
            → (if first then set_symbols symbols else skip) s ≡ ok (b, s')
            → KeepsScopes s s'
        by_pass s s' b true symbols e h = set_symbols-Keeps s s' symbols b e h
        by_pass s s' b false symbols e h =
            leads KeepsScopes s s s' b tt (KeepsScopes-IsFrame.still s) h
    go s s' b false symbols e h = leads KeepsScopes s s s' b tt (KeepsScopes-IsFrame.still s) h
