-- ===== src/CodeGen.antt =====
-- class `CCodeGenerator` (src/codegen/CCodeGenerator.cpp, with the default arguments of
-- include/jblang/codegen/CCodeGenerator.h). `m_useRefCounts` is the argument `use_ref_counts`.
use jb_transpiler.Base.{
  Text, lit, ◌==◌, Bool, true, false, ◌&&◌, Option, none, some, List, [], ◌∷◌, ◌++◌, Result, ok,
  throw, ◌>>=◌, runtime_error, if◌then◌else◌, is_empty,
}
use jb_transpiler.Types.LangType.{
  LangType, Fields, Function, base_type, struct_name, struct_members, is_struct, is_class, is_array,
  is_pointer, array_sizes,
}
use jb_transpiler.Types.LangType.Render.{
  base_type_to_string, type_to_string, dimensions, output_variable, get_signature,
}
use jb_transpiler.Symbols.{Variable}

-- the parameters after the first, which a virtual method takes as `this_param`
virtual_params : Fields → Result Text
virtual_params [] = ok []
virtual_params ((name, type) ∷ params) = do
  text ← type_to_string type
  rest ← virtual_params params
  ok (lit ", " ++ (text ++ (lit " " ++ (name ++ rest))))

abbrev tail : Fields → Fields
tail [] = []
tail (p ∷ ps) = ps

unfoldable pub generate_virtual_decl : Function → Result Text
unfolding virtual_params
generate_virtual_decl func = do
  ret ← type_to_string func.return_type
  params ← virtual_params (tail func.params)
  ok (ret ++ (lit " " ++ (func.name ++ (lit "(void* this_param" ++ (params ++ lit ")")))))

unfoldable pub generate_function_decl : Option Function → Result Text
unfolding generate_virtual_decl
generate_function_decl none =
    throw (runtime_error (lit "Cannot generate declaration for null function"))
generate_function_decl (some func) =
    if func.is_virtual then generate_virtual_decl func else get_signature func

unfoldable pub generate_var_decl : Text → LangType → Text → Result Text
generate_var_decl name type initializer = do
  variable ← output_variable type name
  ok (variable ++ (initializer ++ lit ";\n"))

array_member : Text → LangType → Result Text
array_member name type = do
  base ←
      if is_struct type
      then ok (lit "struct " ++ struct_name type)
      else base_type_to_string (base_type type)
  ok (
      base
      ++ ((if is_pointer type then lit "*" else [])
          ++ (lit " " ++ (name ++ dimensions (array_sizes type)))))

plain_member : Text → LangType → Result Text
plain_member name type = do text ← type_to_string type; ok (text ++ (lit " " ++ name))

struct_lines : Fields → Result Text
unfolding array_member plain_member
struct_lines [] = ok []
struct_lines ((name, type) ∷ members) = do
  member ← if is_array type then array_member name type else plain_member name type
  rest ← struct_lines members
  ok (lit "\t" ++ (member ++ (lit ";\n" ++ rest)))

unfoldable pub generate_struct_decl : Text → LangType → Result Text
unfolding struct_lines
generate_struct_decl name type = do
  members ← struct_lines (struct_members type)
  ok (lit "struct " ++ (name ++ (lit " {\n" ++ (members ++ lit "}"))))

unfoldable pub generate_type_def : Text → LangType → Result Text
unfolding generate_struct_decl
generate_type_def name type = do
  definition ←
      if is_struct type then generate_struct_decl (struct_name type) type else type_to_string type
  ok (lit "typedef " ++ (definition ++ (lit " " ++ (name ++ lit ";\n"))))

call_args : Bool → List Text → Text
call_args first [] = []
call_args first (arg ∷ args) = (if first then [] else lit ", ") ++ (arg ++ call_args false args)

unfoldable pub generate_function_call : Text → List Text → Text
unfolding call_args
generate_function_call name args = name ++ (lit "(" ++ (call_args true args ++ lit ")"))

unfoldable pub generate_return : Text → Text
generate_return value = lit "return " ++ (value ++ lit ";\n")

unfoldable pub generate_scope_entry : Text
generate_scope_entry = lit "{\n"

unfoldable pub generate_scope_exit : Text
generate_scope_exit = lit "}\n"

unfoldable pub generate_alloc : LangType → Result Text
generate_alloc type = do
  text ← type_to_string type
  ok (lit "runtime_alloc(sizeof(" ++ (text ++ lit "))"))

unfoldable pub generate_inc_ref : Bool → Variable → Text → Text
generate_inc_ref use_ref_counts var other =
    if use_ref_counts
    then lit "runtime_inc_ref_count(" ++ (var.name ++ (lit ", " ++ (other ++ lit ");\n")))
    else []

abbrev field_offset : Variable → Text
field_offset var =
    if is_empty var.field_name
    then lit "0"
    else lit "offsetof(" ++ (var.struct_name ++ (lit ", " ++ (var.field_name ++ lit ")")))

unfoldable pub generate_dec_ref : Bool → Variable → Text
generate_dec_ref use_ref_counts var =
    if use_ref_counts
    then lit "runtime_dec_ref_count("
      ++ (var.name ++ (lit ", " ++ (field_offset var ++ lit ");\n")))
    else []

unfoldable pub generate_cast : Text → LangType → LangType → Text
generate_cast expr from to =
    if (is_pointer from && is_pointer to) && (is_class from && is_class to)
    then (if struct_name from == struct_name to
        then expr
        else lit "&((" ++ (expr ++ lit ")->parent)"))
    else expr
