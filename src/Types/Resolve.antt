-- ===== src/Types/Resolve.antt =====
-- From the text of a type to the type: `translateType` (src/types/TypeSystem.cpp), and
-- `resolveTypeFromContext` (src/ast/TranspilerVisitor.cpp), which calls it.
pub mod Pointers
pub mod Keywords
use Prim.Native.Nat.{suc, ◌-◌}
use jb_transpiler.Base.{
  ℕ, Text, lit, ◌==◌, Bool, true, false, Option, none, some, List, [], ◌∷◌, ◌++◌, Result, ok, throw,
  ◌>>=◌, runtime_error, if◌then◌else◌, ltb, find_byte, take, drop, is_some, is_empty,
  ends_with_byte, drop_last,
}
use jb_transpiler.Base.Number.{ℤ, pos, negsuc, stoi}
use jb_transpiler.Base.Map.{find}
use jb_transpiler.Types.LangType.{
  LangType, void, int, string, bool, simple_type, make_type, set_pointer, set_array,
}
use jb_transpiler.Types.Registry.{TypeSystem}
use jb_transpiler.Syntax.{TypeSpec, type_spec_text}

abbrev first_found : Option LangType → Option LangType → Option LangType → Option LangType
first_found (some t) structs classes = some t
first_found none (some t) classes = some t
first_found none none classes = classes

-- the registered types: typedefs, then structs, then classes
unfoldable pub find_registered : TypeSystem → Text → Option LangType
find_registered ts name =
    first_found (find name ts.typedefs) (find name ts.structs) (find name ts.classes)

unfoldable pub find_base : TypeSystem → Text → Option LangType
unfolding find_registered
find_base ts base =
    if base == lit "void"
    then some (simple_type void)
    else if base == lit "int"
    then some (simple_type int)
    else if base == lit "string"
    then some (make_type string true)
    else if base == lit "bool"
    then some (simple_type bool)
    else find_registered ts base

-- `substr(arrayStart + 1, arrayEnd - arrayStart - 1)`; the length wraps where the brackets stand
-- in the wrong order, and then reaches to the end.
unfoldable pub size_text : Text → ℕ → ℕ → Text
size_text s start end =
    if ltb start end then take (end - start - 1) (drop (suc start) s) else drop (suc start) s

-- `size` is read, and may be refused, but it does not reach the type.
unfoldable pub array_of : Text → LangType → ℕ → Option ℕ → Result LangType
unfolding size_text
array_of s type start none = throw (runtime_error (lit "Invalid array type: " ++ s))
array_of s type start (some end) = do
  size ← let digits = size_text s start end in (if is_empty digits then ok (pos 0) else stoi digits)
  ok (set_array (lit "james_fix") (negsuc 0 ∷ []) type)

unfoldable pub with_array : Text → LangType → Option ℕ → Result LangType
unfolding array_of
with_array s type none = ok type
with_array s type (some start) = array_of s type start (find_byte b']' s)

unfoldable pub with_pointer : Bool → LangType → LangType
with_pointer p type = if p then set_pointer true type else type

unfoldable pub or_unknown : Text → Option LangType → Result LangType
or_unknown s none = throw (runtime_error (lit "Unknown type: " ++ s))
or_unknown s (some type) = ok type

-- `baseType`, by the places of the first star and the first bracket
abbrev pub base_text : Text → Option ℕ → Option ℕ → Text
base_text s (some star) bracket = take star s
base_text s none (some bracket) = take bracket s
base_text s none none = s

unfoldable pub translate_at : TypeSystem → Text → Option ℕ → Option ℕ → Result LangType
unfolding find_base with_array with_pointer or_unknown
translate_at ts s star bracket = or_unknown s (find_base ts (base_text s star bracket)) >>= λ type.
    with_array s (with_pointer (is_some star) type) bracket

unfoldable pub translate_type : TypeSystem → Text → Result LangType
unfolding translate_at
translate_type ts s = translate_at ts s (find_byte b'*' s) (find_byte b'[' s)

-- the branch of `resolveTypeFromContext` for a text that begins with `struct`
resolve_struct : TypeSystem → Text → Result LangType
resolve_struct ts name =
    if ends_with_byte b'*' name
    then (translate_type ts (drop_last name) >>= λ type. ok (set_pointer true type))
    else translate_type ts name

unfoldable pub resolve_type_text : TypeSystem → Text → Result LangType
unfolding resolve_struct
resolve_type_text ts text =
    if take 6 text == lit "struct" then resolve_struct ts (drop 6 text) else translate_type ts text

-- A missing specification means `void`.
unfoldable pub resolve_type_from_context : TypeSystem → Option TypeSpec → Result LangType
unfolding resolve_type_text
resolve_type_from_context ts none = ok (simple_type void)
resolve_type_from_context ts (some spec) = resolve_type_text ts (type_spec_text spec)
