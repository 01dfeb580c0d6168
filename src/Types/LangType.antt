-- ===== src/Types/LangType.antt =====
-- class `Type` (include/jblang/types/TypeSystem.h) and its rendering as C
-- (src/types/TypeSystem.cpp), with `Function`.
pub mod Render
use jb_transpiler.Base.{Text, Bool, true, false, List, [], ◌∷◌, ◌≡◌, refl, ap, is_empty, not}
use jb_transpiler.Base.Number.{ℤ}

pub data BaseType : Type 0 where
  void int string bool struct class no_type : BaseType

pub BaseType-discrete : Discrete BaseType
BaseType-discrete = hlevel

pub record ArrayInfo : Type 0 where
  pub is_array : Bool
  pub sizes : List ℤ
  pub name : Text

-- A type holds its members, so the two are declared together. The fields stand in the order of
-- the class.
mutual
  pub data LangType : Type 0 where
    lang_type :
        (array_info : ArrayInfo) (base : BaseType) (is_pointer is_const : Bool)
        (struct_name parent_class : Text) (has_virtual_methods : Bool) (struct_members : Members)
        → LangType

  pub data Members : Type 0 where
    nil : Members
    cons : Text → LangType → Members → Members

abbrev pub Fields : Type 0
Fields = List (Text × LangType)

unfoldable pub to_list : Members → Fields
to_list nil = []
to_list (cons name type ms) = (name, type) ∷ to_list ms

unfoldable pub of_list : Fields → Members
of_list [] = nil
of_list ((name, type) ∷ fs) = cons name type (of_list fs)

pub to_list-of_list : (fs : Fields) → to_list (of_list fs) ≡ fs
unfolding to_list of_list
to_list-of_list [] = refl
to_list-of_list ((name, type) ∷ fs) = ap (λ r. (name, type) ∷ r) (to_list-of_list fs)

-- the accessors
abbrev pub array_info : LangType → ArrayInfo
array_info (lang_type a b p c s q v ms) = a

abbrev pub base_type : LangType → BaseType
base_type (lang_type a b p c s q v ms) = b

abbrev pub is_pointer : LangType → Bool
is_pointer (lang_type a b p c s q v ms) = p

abbrev pub is_const : LangType → Bool
is_const (lang_type a b p c s q v ms) = c

-- `getStructName` and `getClassName` read the same field.
abbrev pub struct_name : LangType → Text
struct_name (lang_type a b p c s q v ms) = s

abbrev pub parent_class : LangType → Text
parent_class (lang_type a b p c s q v ms) = q

unfoldable pub struct_members : LangType → Fields
struct_members (lang_type a b p c s q v ms) = to_list ms

abbrev pub is_array : LangType → Bool
is_array t = (array_info t).is_array

abbrev pub array_name : LangType → Text
array_name t = (array_info t).name

abbrev pub array_sizes : LangType → List ℤ
array_sizes t = (array_info t).sizes

abbrev is_struct_base : BaseType → Bool
is_struct_base struct = true
is_struct_base _ = false

abbrev is_class_base : BaseType → Bool
is_class_base class = true
is_class_base _ = false

abbrev pub is_struct : LangType → Bool
is_struct t = is_struct_base (base_type t)

abbrev pub is_class : LangType → Bool
is_class t = is_class_base (base_type t)

abbrev pub has_parent : LangType → Bool
has_parent t = not (is_empty (parent_class t))

abbrev no_array : ArrayInfo
no_array = record { is_array = false; sizes = []; name = [] }

-- the constructors `Type(base, isPointer)` and `Type(base)`
abbrev pub make_type : BaseType → Bool → LangType
make_type base pointer = lang_type no_array base pointer false [] [] false nil

abbrev pub simple_type : BaseType → LangType
simple_type base = make_type base false

-- the setters
abbrev pub set_pointer : Bool → LangType → LangType
set_pointer p' (lang_type a b p c s q v ms) = lang_type a b p' c s q v ms

abbrev pub set_array : Text → List ℤ → LangType → LangType
set_array name sizes (lang_type a b p c s q v ms) =
    lang_type (record { is_array = true; sizes = sizes; name = name }) b p c s q v ms

abbrev pub set_struct : Text → LangType → LangType
set_struct s' (lang_type a b p c s q v ms) = lang_type a b p c s' q v ms

abbrev pub set_parent_class : Text → LangType → LangType
set_parent_class q' (lang_type a b p c s q v ms) = lang_type a b p c s q' v ms

unfoldable pub set_struct_members : Fields → LangType → LangType
set_struct_members fs (lang_type a b p c s q v ms) = lang_type a b p c s q v (of_list fs)

-- What `getStructMembers` returns is what `setStructMembers` stored.
pub struct_members-set :
    (fs : Fields) (t : LangType) → struct_members (set_struct_members fs t) ≡ fs
unfolding struct_members set_struct_members
struct_members-set fs (lang_type a b p c s q v ms) = to_list-of_list fs

pub parent_class-set_struct_members :
    (fs : Fields) (t : LangType) → parent_class (set_struct_members fs t) ≡ parent_class t
unfolding set_struct_members
parent_class-set_struct_members fs (lang_type a b p c s q v ms) = refl

pub record Function : Type 0 where
  pub name : Text
  pub params : Fields
  pub return_type : LangType
  pub is_static : Bool
  pub is_virtual : Bool
