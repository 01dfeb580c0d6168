-- ===== src/Symbols/Scopes.antt =====
-- Lookup, shadowing and the restoring of scopes (include/jblang/types/SymbolTable.h).
use jb_transpiler.Base.{
  Text, ◌==◌, ◌≡◌, refl, some, List, [], ◌∷◌, arith, Result, ok, ◌>>=◌, if◌then◌else◌, ok-injective,
  length,
}
use jb_transpiler.Base.Map.{Map, find, insert}
use jb_transpiler.Base.Map.Laws.{find-insert}
use jb_transpiler.Types.LangType.{LangType, Fields}
use jb_transpiler.Symbols.{
  Variable, plain_variable, SymbolTable, enter_scope, exit_scope, add_symbol, lookup_symbol,
  with_scopes, add_to,
}

inserted :
    (st : SymbolTable) (scope : Map Variable) (scopes : List (Map Variable)) (name j : Text)
    (type : LangType)
    → lookup_symbol (record st { scopes = insert name (plain_variable name type) scope ∷ scopes }) j
      ≡ (if name == j
          then some (plain_variable name type)
          else lookup_symbol (record st { scopes = scope ∷ scopes }) j)
unfolding lookup_symbol
inserted st scope scopes name j type =
    ground (arith, find-insert name j (plain_variable name type) scope)

-- After `addSymbol`, the name means the new variable, which hides any other of that name, and every
-- other name means what it meant.
pub lookup_symbol-add_symbol :
    (st st' : SymbolTable) (name j : Text) (type : LangType)
    → add_symbol st name type ≡ ok st'
    → lookup_symbol st' j
      ≡ (if name == j then some (plain_variable name type) else lookup_symbol st j)
unfolding add_symbol
lookup_symbol-add_symbol st st' name j type h = go st.scopes h
  where
    go :
        (scopes : List (Map Variable))
        → with_scopes st (add_to name (plain_variable name type) scopes) ≡ ok st'
        → lookup_symbol st' j ≡ (
            if name == j
            then some (plain_variable name type)
            else lookup_symbol (record st { scopes = scopes }) j)
    go [] h = cc
    go (scope ∷ scopes) h = rw (← ok-injective h) (inserted st scope scopes name j type)

-- A new scope hides nothing.
pub lookup_symbol-enter_scope :
    (st : SymbolTable) (j : Text) → lookup_symbol (enter_scope st) j ≡ lookup_symbol st j
unfolding lookup_symbol enter_scope find
lookup_symbol-enter_scope st j = refl

-- The declarations of a block, one after the other.
unfoldable pub add_symbols : SymbolTable → Fields → Result SymbolTable
add_symbols st [] = ok st
add_symbols st ((name, type) ∷ vars) = add_symbol st name type >>= λ st'. add_symbols st' vars

add_symbol-innermost :
    (st : SymbolTable) (scope : Map Variable) (name : Text) (type : LangType)
    → add_symbol (record st { scopes = scope ∷ st.scopes }) name type
      ≡ ok (record st { scopes = insert name (plain_variable name type) scope ∷ st.scopes })
unfolding add_symbol
add_symbol-innermost st scope name type = refl

restores :
    (st : SymbolTable) (scope : Map Variable) (vars : Fields) (st' : SymbolTable)
    → add_symbols (record st { scopes = scope ∷ st.scopes }) vars ≡ ok st'
    → exit_scope st' ≡ st
unfolding add_symbols exit_scope
restores st scope [] st' h = ground arith
restores st scope ((name, type) ∷ vars) st' h =
    restores st (insert name (plain_variable name type) scope) vars st'
      (rw (add_symbol-innermost st scope name type) at h)

-- Leaving a scope restores the table exactly, whatever the block declared, names of the outer
-- scopes included.
pub exit_scope-add_symbols :
    (st st' : SymbolTable) (vars : Fields)
    → add_symbols (enter_scope st) vars ≡ ok st'
    → exit_scope st' ≡ st
unfolding enter_scope
exit_scope-add_symbols st st' vars h = restores st [] vars st' h

-- A declaration changes the innermost scope only.
pub add_symbol-outer :
    (st st' : SymbolTable) (name : Text) (type : LangType)
    → add_symbol st name type ≡ ok st'
    → ((exit_scope st').scopes ≡ (exit_scope st).scopes) × (length st'.scopes ≡ length st.scopes)
unfolding add_symbol exit_scope
add_symbol-outer st st' name type h = go st.scopes h
  where
    go :
        (scopes : List (Map Variable))
        → with_scopes st (add_to name (plain_variable name type) scopes) ≡ ok st'
        → ((exit_scope st').scopes ≡ (exit_scope (record st { scopes = scopes })).scopes)
          × (length st'.scopes ≡ length scopes)
    go [] h = cc
    go (scope ∷ scopes) h = rw (← ok-injective h) (refl, refl)
