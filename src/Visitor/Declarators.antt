-- ===== src/Visitor/Declarators.antt =====
-- `getArrayFromCode` of src/ast/TranspilerVisitor.cpp, and the loops that read parameters,
-- members and fields.
use jb_transpiler.Base.{Text, lit, ◌++◌, some, List, [], ◌∷◌, Result, ok, ◌>>=◌}
use jb_transpiler.Base.Number.{ℤ, stoi}
use jb_transpiler.Syntax.Tree.{
  ArraySize, size_integer, size_identifier, ArrayDecl, Declarator, plain, array,
}
use jb_transpiler.Types.LangType.{LangType, Fields, set_array, array_name}
use jb_transpiler.Types.LangType.Render.{type_to_string}
use jb_transpiler.Types.Registry.{TypeSystem, get_define_value}
use jb_transpiler.Types.Resolve.{resolve_type_from_context}

array_size : TypeSystem → ArraySize → Result ℤ
array_size ts (size_identifier name) = stoi (get_define_value ts name)
array_size ts (size_integer digits) = stoi digits

array_sizes_of : TypeSystem → List ArraySize → Result (List ℤ)
unfolding array_size
array_sizes_of ts [] = ok []
array_sizes_of ts (size ∷ sizes) = do
  n ← array_size ts size
  rest ← array_sizes_of ts sizes
  ok (n ∷ rest)

unfoldable pub get_array_from_code : TypeSystem → ArrayDecl → Result LangType
unfolding array_sizes_of
get_array_from_code ts decl = do
  type ← resolve_type_from_context ts (some decl.spec)
  sizes ← array_sizes_of ts decl.sizes
  ok (set_array decl.name sizes type)

-- the name and the type of a parameter, variable, member or field
unfoldable pub get_declared : TypeSystem → Declarator → Result (Text × LangType)
unfolding get_array_from_code
get_declared ts (array decl) = do type ← get_array_from_code ts decl; ok (array_name type, type)
get_declared ts (plain spec name) = do
  type ← resolve_type_from_context ts (some spec)
  ok (name, type)

unfoldable pub get_all_declared : TypeSystem → List Declarator → Result Fields
unfolding get_declared
get_all_declared ts [] = ok []
get_all_declared ts (d ∷ ds) = do
  first ← get_declared ts d
  rest ← get_all_declared ts ds
  ok (first ∷ rest)

-- the lines of the fields of a class
unfoldable pub field_lines : Fields → Result Text
field_lines [] = ok []
field_lines ((name, type) ∷ fields) = do
  text ← type_to_string type
  rest ← field_lines fields
  ok (lit "    " ++ (text ++ (lit " " ++ (name ++ (lit ";\n" ++ rest)))))
