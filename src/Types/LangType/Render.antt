-- ===== src/Types/LangType/Render.antt =====
-- `baseTypeToString`, `Type::toString`, `outputVariable` and `Function::getSignature`
-- (src/types/TypeSystem.cpp).
use jb_transpiler.Base.{
  Text, lit, ◌==◌, Bool, true, false, ◌||◌, List, [], ◌∷◌, ◌++◌, Result, ok, throw, ◌>>=◌,
  if◌then◌else◌, compiler_error, type_error,
}
use jb_transpiler.Base.Number.{ℤ, to_string}
use jb_transpiler.Types.LangType.{
  BaseType, void, int, string, bool, struct, class, no_type, ArrayInfo, LangType, Fields, Function,
  array_info, base_type, is_pointer, struct_name, is_struct, is_class, is_array,
}

unfoldable pub base_type_to_string : BaseType → Result Text
base_type_to_string void = ok (lit "void")
base_type_to_string int = ok (lit "int")
base_type_to_string string = ok (lit "char*")
base_type_to_string bool = ok (lit "bool")
base_type_to_string struct = ok (lit "struct")
base_type_to_string class = ok (lit "struct")
base_type_to_string no_type = throw (compiler_error type_error (lit "unknown base type"))

-- `"[" + std::to_string(size) + "]"` for each size
unfoldable pub dimensions : List ℤ → Text
dimensions [] = []
dimensions (n ∷ sizes) = lit "[" ++ (to_string n ++ (lit "]" ++ dimensions sizes))

abbrev array_suffix : ArrayInfo → Text
array_suffix a = if a.is_array then lit " " ++ (a.name ++ dimensions a.sizes) else []

abbrev head_text : LangType → Result Text
head_text t =
    if is_struct t || is_class t
    then ok (lit "struct " ++ struct_name t)
    else base_type_to_string (base_type t)

unfoldable pub type_to_string : LangType → Result Text
unfolding base_type_to_string dimensions
type_to_string t = do
  str ← head_text t
  ok (str ++ (array_suffix (array_info t) ++ (if is_pointer t then lit "*" else [])))

unfoldable pub output_variable : LangType → Text → Result Text
unfolding type_to_string
output_variable t name = do
  str ← type_to_string t
  ok (if is_array t then str else str ++ (lit " " ++ name))

abbrev separator : Bool → Text
separator first = if first then [] else lit ", "

signature_params : Bool → Fields → Result Text
unfolding output_variable
signature_params first [] = ok []
signature_params first ((name, type) ∷ ps) = do
  param ← output_variable type name
  rest ← signature_params false ps
  ok (separator first ++ (param ++ rest))

unfoldable pub c_name : Text → Text
c_name name = if name == lit "main" then lit "main_" else name

unfoldable pub get_signature : Function → Result Text
unfolding signature_params c_name
get_signature f = do
  ret ← type_to_string f.return_type
  ps ← signature_params true f.params
  ok (ret ++ (lit " " ++ (c_name f.name ++ (lit "(" ++ (ps ++ lit ")")))))
