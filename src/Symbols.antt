-- ===== src/Symbols.antt =====
-- include/jblang/types/SymbolTable.h: the scopes, innermost first, each a map from names to
-- variables.
pub mod Scopes
use Prim.Native.Nat.{suc}
use jb_transpiler.Base.{
  ℕ, zero, ◌*◌, Text, lit, ◌==◌, Bool, true, false, Option, none, some, List, [], ◌∷◌, Result, ok,
  throw, compiler_error, other, if◌then◌else◌, length, eqb, ◌>>=◌,
}
use jb_transpiler.Base.Map.{Map, find, insert}
use jb_transpiler.Types.LangType.{LangType, Fields, Function}

pub record Variable : Type 0 where
  pub name : Text
  pub type : LangType
  pub struct_name : Text
  pub field_name : Text

abbrev pub plain_variable : Text → LangType → Variable
plain_variable name type = record { name = name; type = type; struct_name = []; field_name = [] }

pub record SymbolTable : Type 0 where
  pub scopes : List (Map Variable)
  pub global_vars : Fields
  pub current_func : Option Function

-- the constructor opens the global scope
abbrev pub empty_table : SymbolTable
empty_table = record { scopes = [] ∷ []; global_vars = []; current_func = none }

unfoldable pub enter_scope : SymbolTable → SymbolTable
enter_scope st = record st { scopes = [] ∷ st.scopes }

abbrev pop : List (Map Variable) → List (Map Variable)
pop [] = []
pop (scope ∷ scopes) = scopes

unfoldable pub exit_scope : SymbolTable → SymbolTable
exit_scope st = record st { scopes = pop st.scopes }

abbrev pub spaces : ℕ → Text
spaces zero = []
spaces (suc n) = b' ' ∷ spaces n

unfoldable pub get_indent_level : SymbolTable → Text
get_indent_level st = spaces (length st.scopes * 4)

abbrev pub add_to : Text → Variable → List (Map Variable) → Result (List (Map Variable))
add_to name var [] = throw (compiler_error other (lit "No active scope"))
add_to name var (scope ∷ scopes) = ok (insert name var scope ∷ scopes)

abbrev pub with_scopes : SymbolTable → Result (List (Map Variable)) → Result SymbolTable
with_scopes st r = r >>= λ scopes. ok (record st { scopes = scopes })

-- The program calls it with the default names only.
unfoldable pub add_symbol : SymbolTable → Text → LangType → Result SymbolTable
add_symbol st name type = with_scopes st (add_to name (plain_variable name type) st.scopes)

unfoldable pub lookup_scopes : Text → List (Map Variable) → Option Variable
lookup_scopes name [] = none
lookup_scopes name (scope ∷ scopes) = elim (find name scope) [
  | some var ↦ some var
  | none ↦ lookup_scopes name scopes
]

unfoldable pub lookup_params : Text → Fields → Option Variable
lookup_params name [] = none
lookup_params name ((param, type) ∷ params) =
    if param == name then some (plain_variable name type) else lookup_params name params

abbrev pub params_of : Option Function → Fields
params_of none = []
params_of (some func) = func.params

unfoldable pub lookup_symbol : SymbolTable → Text → Option Variable
unfolding lookup_scopes lookup_params
lookup_symbol st name = elim (lookup_scopes name st.scopes) [
  | some var ↦ some var
  | none ↦ lookup_params name (params_of st.current_func)
]

abbrev innermost : List (Map Variable) → Map Variable
innermost [] = []
innermost (scope ∷ scopes) = scope

unfoldable pub get_current_scope_symbols : SymbolTable → Map Variable
get_current_scope_symbols st = innermost st.scopes

unfoldable pub is_global_scope : SymbolTable → Bool
is_global_scope st = eqb (length st.scopes) 1
