-- ===== src/Visitor.antt =====
-- class `TranspilerVisitor` (include/jblang/ast/TranspilerVisitor.h): its state, and actions that
-- read and change it and may throw. `m_codeGen` is the flag that it was made with, and `m_output`
-- the text written so far. What an action wrote before it threw is dropped with the action: an
-- exception ends the translation, and the only handlers stand around calls that write nothing.
pub mod Declarators
pub mod Methods
pub mod Steps
pub mod Expressions
pub mod Declarations
pub mod Members
pub mod Statements
pub mod Program
pub mod Keeps
pub mod Frames
use jb_transpiler.Base.{
  ℕ, Text, Bool, true, false, Option, none, some, List, [], ◌∷◌, ◌++◌, Result, ok, throw, hang,
  terminate, Exception, if◌then◌else◌,
}
use jb_transpiler.Symbols.{SymbolTable, Variable, empty_table, get_indent_level, lookup_symbol}
use jb_transpiler.Types.Registry.{TypeSystem, empty}

pub record Visitor : Type 0 where
  pub use_ref_counts : Bool
  pub symbols : SymbolTable
  pub types : TypeSystem
  pub first_pass : Bool
  pub output : Text
  pub temp_var_counter : ℕ
  pub add_ref_counts : Bool
  pub class_names : List Text

-- The constructor leaves `m_first_pass` unset; `visitProgram` sets it before it is read.
abbrev pub new_visitor : Bool → Visitor
new_visitor use_ref_counts = record {
  use_ref_counts = use_ref_counts;
  symbols = empty_table;
  types = empty;
  first_pass = true;
  output = [];
  temp_var_counter = 0;
  add_ref_counts = true;
  class_names = [];
}

abbrev pub Exec : Type 0 → Type 0
Exec A = Visitor → Result (A × Visitor)

unfoldable pub pure : {A : Type 0} → A → Exec A
pure a s = ok (a, s)

abbrev pub continue : {A B : Type 0} → Result (A × Visitor) → (A → Exec B) → Result (B × Visitor)
continue (ok (a, s)) f = f a s
continue (throw e) f = throw e
continue hang f = hang
continue terminate f = terminate

infixl 5 ◌>>=◌ ◌>>◌
unfoldable pub ◌>>=◌ : {A B : Type 0} → Exec A → (A → Exec B) → Exec B
◌>>=◌ m f s = continue (m s) f

unfoldable pub ◌>>◌ : {B : Type 0} → Exec (Unit {0}) → Exec B → Exec B
m >> k = m >>= λ _. k

unfoldable pub raise : {A : Type 0} → Exception → Exec A
raise e s = throw e

-- a null tree is visited
unfoldable pub crash : {A : Type 0} → Exec A
crash s = terminate

abbrev attach : {A : Type 0} → Visitor → Result A → Result (A × Visitor)
attach s (ok a) = ok (a, s)
attach s (throw e) = throw e
attach s hang = hang
attach s terminate = terminate

-- a step that reads nothing and writes nothing
unfoldable pub lift : {A : Type 0} → Result A → Exec A
lift r s = attach s r

unfoldable pub gets : {A : Type 0} → (Visitor → A) → Exec A
gets f s = ok (f s, s)

unfoldable pub modify : (Visitor → Visitor) → Exec (Unit {0})
modify f s = ok (tt, f s)

-- `m_output << text`
unfoldable pub emit : Text → Exec (Unit {0})
emit text s = ok (tt, record s { output = s.output ++ text })

unfoldable pub skip : Exec (Unit {0})
skip s = ok (tt, s)

unfoldable pub is_first_pass : Exec Bool
is_first_pass s = ok (s.first_pass, s)

unfoldable pub indent_level : Exec Text
indent_level s = ok (get_indent_level s.symbols, s)

unfoldable pub find_variable : Text → Exec (Option Variable)
find_variable name s = ok (lookup_symbol s.symbols name, s)

unfoldable pub set_add_ref_counts : Bool → Exec (Unit {0})
set_add_ref_counts b s = ok (tt, record s { add_ref_counts = b })

unfoldable pub set_symbols : SymbolTable → Exec (Unit {0})
set_symbols st s = ok (tt, record s { symbols = st })

unfoldable pub set_types : TypeSystem → Exec (Unit {0})
set_types ts s = ok (tt, record s { types = ts })

unfoldable pub add_class_name : Text → Exec (Unit {0})
add_class_name name s = ok (tt, record s { class_names = s.class_names ++ name ∷ [] })
