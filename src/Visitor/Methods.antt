-- ===== src/Visitor/Methods.antt =====
-- How a member after `->` is found (src/ast/TranspilerVisitor.cpp): `resolveFieldAccess`, and the
-- searches of `visitPointerMemberExpr` and `visitMethodCallExpr` for a method.
use jb_transpiler.Base.{
  ℕ, zero, suc, Text, lit, ◌==◌, Bool, true, false, Option, none, some, List, [], ◌∷◌, ◌++◌, Result,
  ok, throw, hang, ◌>>=◌, compiler_error, name_error, if◌then◌else◌, find_byte, before_byte,
  is_some, drop,
}
use jb_transpiler.Types.LangType.{
  Fields, Function, struct_members, has_parent, parent_class, is_class, struct_name,
}
use jb_transpiler.Types.Registry.{TypeSystem, get_class_methods}
use jb_transpiler.Types.Resolve.{translate_type}
use jb_transpiler.Symbols.{Variable}

unfoldable pub has_field : Text → Fields → Bool
has_field name [] = false
has_field name ((field, type) ∷ fields) = if field == name then true else has_field name fields

-- `resolveFieldAccess`
unfoldable pub resolve_field_access : TypeSystem → Text → Text → Result Text
unfolding has_field
resolve_field_access ts field_name class_name = do
  type ← translate_type ts class_name
  if has_field field_name (struct_members type)
      then ok (lit "this->" ++ field_name)
      else if has_parent type
      then ok (lit "this->parent." ++ field_name)
      else throw (compiler_error name_error (lit "Field not found: " ++ field_name))

-- `try { … } catch (...) { fall through }`, around what only throws
abbrev pub attempt : {A : Type 0} → Result A → Option A
attempt (ok a) = some a
attempt _ = none

-- The first handler of `visitPointerMemberExpr`, for `this`: the class is what stands before the
-- first underscore of the function's name.
unfoldable pub this_access : TypeSystem → Option Function → Text → Option Text
unfolding resolve_field_access
this_access ts none field_name = none
this_access ts (some func) field_name =
    if is_some (find_byte b'_' func.name)
    then attempt (do
      let class_name = before_byte b'_' func.name
      type ← translate_type ts class_name
      if is_class type
          then resolve_field_access ts field_name class_name
          else throw (compiler_error name_error []))
    else none

-- The loop over the methods: the first one that is virtual, or that has the member's name.
unfoldable pub method_access : Text → Text → Text → List Function → Option Text
method_access class_name name base [] = none
method_access class_name name base (m ∷ ms) =
    if m.is_virtual
    then some (lit "VIRTUAL_CALL:" ++ (name ++ (lit ":" ++ base)))
    else if m.name == class_name ++ (lit "_" ++ name)
    then some (lit "METHOD_CALL:" ++ (class_name ++ (lit "_" ++ (name ++ (lit ":" ++ base)))))
    else method_access class_name name base ms

-- `fieldAccess.replace(0, 4, base)`
abbrev replace_this : Text → Option Text → Option Text
replace_this base none = none
replace_this base (some access) = some (base ++ drop 4 access)

abbrev or_else : {A : Type 0} → Option A → Option A → Option A
or_else none b = b
or_else (some a) b = some a

-- The second part of `visitPointerMemberExpr`, for a variable of a class type.
unfoldable pub variable_access : TypeSystem → Option Variable → Text → Text → Option Text
unfolding method_access resolve_field_access
variable_access ts none base name = none
variable_access ts (some var) base name =
    if is_class var.type
    then or_else
        (method_access (struct_name var.type) name base
          (get_class_methods ts (struct_name var.type)))
        (replace_this base (attempt (resolve_field_access ts name (struct_name var.type))))
    else none

-- All of `visitPointerMemberExpr` after its base was visited.
unfoldable pub pointer_access : TypeSystem → Option Function → Option Variable → Text → Text → Text
unfolding this_access variable_access
pointer_access ts func var base name =
    let of_this = if base == lit "this" then this_access ts func name else none in
    elim (or_else of_this (variable_access ts var base name)) [
      | some access ↦ access
      | none ↦ base ++ (lit "->" ++ name)
    ]

-- A method that the loop of `visitMethodCallExpr` found, with the class that it was found in.
pub record Found : Type 0 where
  pub full_name : Text
  pub is_virtual : Bool
  pub current_class : Text

unfoldable pub find_method : Text → Text → List Function → Option Found
find_method current method_name [] = none
find_method current method_name (m ∷ ms) =
    if m.name == current ++ (lit "_" ++ method_name)
    then some (record { full_name = m.name; is_virtual = m.is_virtual; current_class = current })
    else find_method current method_name ms

unfoldable pub method_loop : ℕ → TypeSystem → Text → Text → Text → Result Found
unfolding find_method
method_loop zero ts class_name current method_name = hang
method_loop (suc fuel) ts class_name current method_name =
    elim (find_method current method_name (get_class_methods ts current)) [
      | some found ↦ ok found
      | none ↦ translate_type ts current >>= λ type.
          (let rest = method_loop fuel ts class_name (parent_class type) method_name in
            if has_parent type
            then rest
            else throw (
                compiler_error name_error
                  (lit "Method not found: " ++ (method_name ++ (lit " in class " ++ class_name)))))
    ]
