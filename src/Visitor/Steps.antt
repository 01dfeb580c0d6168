-- ===== src/Visitor/Steps.antt =====
-- The steps between the visits of the parts of an expression (src/ast/TranspilerVisitor.cpp):
-- reference counts, casts, temporaries, and the texts of calls.
use jb_transpiler.Base.{
  ◌+◌, Text, lit, ◌==◌, Bool, true, false, Option, none, some, List, [], ◌∷◌, ◌++◌, Result, ok,
  compiler_error, name_error, type_error, if◌then◌else◌, before_arrow,
}
use jb_transpiler.Base.Number.{pos, to_string}
use jb_transpiler.Types.LangType.{
  Function, is_pointer, is_class, struct_name, has_parent, set_pointer,
}
use jb_transpiler.Types.Registry.{get_class_constructor}
use jb_transpiler.Types.Hierarchy.{is_compatible, rounds}
use jb_transpiler.Types.Resolve.{translate_type}
use jb_transpiler.Symbols.{Variable}
use jb_transpiler.CodeGen.{
  generate_cast, generate_inc_ref, generate_dec_ref, generate_alloc, generate_var_decl,
  generate_function_call,
}
use jb_transpiler.Visitor.{
  Exec, pure, ◌>>=◌, ◌>>◌, raise, lift, gets, modify, emit, skip, indent_level, find_variable,
}
use jb_transpiler.Visitor.Methods.{method_loop, Found}

-- a variable that was found and is a pointer
abbrev pub as_pointer : Option Variable → Option Variable
as_pointer none = none
as_pointer (some var) = if is_pointer var.type then some var else none

unfoldable pub find_pointer : Text → Exec (Option Variable)
find_pointer name = do var ← find_variable name; pure (as_pointer var)

-- `m_output << indentLevel << m_codeGen->generateIncRef(var, other)`, and `generateDecRef`
unfoldable pub emit_inc_ref : Text → Text → Variable → Exec (Unit {0})
emit_inc_ref indent other var = do
  counts ← gets (λ s. s.use_ref_counts)
  emit (indent ++ generate_inc_ref counts var other)

unfoldable pub emit_dec_ref : Text → Variable → Exec (Unit {0})
emit_dec_ref indent var = do
  counts ← gets (λ s. s.use_ref_counts)
  emit (indent ++ generate_dec_ref counts var)

abbrev pub null_text : Text
null_text = lit "NULL"

unfoldable pub by_option : {A B : Type 0} → Option A → B → (A → B) → B
by_option none b f = b
by_option (some a) b f = f a

unfoldable pub when_some : {A : Type 0} → Option A → (A → Exec (Unit {0})) → Exec (Unit {0})
when_some none f = skip
when_some (some a) f = f a

-- The cast of the right side, where both sides are variables and the types are compatible.
unfoldable pub cast_between : Option Variable → Option Variable → Text → Exec Text
cast_between (some from) (some to) text = do
  types ← gets (λ s. s.types)
  compatible ← lift (is_compatible types from.type to.type)
  pure (if compatible then generate_cast text from.type to.type else text)
cast_between _ _ text = pure text

-- The new reference that an assignment makes: held by a structure where the left side has an arrow.
unfoldable pub inc_assigned : Text → Text → Variable → Exec (Unit {0})
inc_assigned indent left from =
    by_option (before_arrow left) (emit_inc_ref indent null_text from) λ target.
      find_pointer target >>= λ holder. when_some holder (λ to. emit_inc_ref indent to.name from)

unfoldable pub assign_texts : Text → Text → Exec Text
unfolding inc_assigned
assign_texts left right = do
  left_var ← find_variable left
  right_var ← find_variable right
  right' ← cast_between right_var left_var right
  indent ← indent_level
  assigned_from ← find_pointer right'
  when_some assigned_from (inc_assigned indent left)
  overwritten ← find_pointer left
  when_some overwritten (emit_dec_ref indent)
  pure (left ++ (lit " = " ++ right'))

-- The loop's body after one argument was visited: the reference that the call holds to it.
unfoldable pub inc_argument : Text → Text → Exec Bool
inc_argument indent text = do
  found ← find_pointer text
  counted ← gets (λ s. s.add_ref_counts)
  by_option (if counted then found else none) (pure false)
      λ var. emit_inc_ref indent null_text var >> pure true

-- What one argument adds to the code after the call.
unfoldable pub dec_argument : Text → Text → Exec Text
dec_argument indent text = do
  found ← find_pointer text
  counts ← gets (λ s. s.use_ref_counts)
  by_option found (pure []) (λ var. pure (indent ++ generate_dec_ref counts var))

unfoldable pub fresh_temp : Exec Text
fresh_temp = do
  n ← gets (λ s. s.temp_var_counter)
  modify (λ s. record s { temp_var_counter = s.temp_var_counter + 1 })
  pure (lit "temp_" ++ to_string (pos n))

unfoldable pub no_constructor : Text → Option Function → Result Function
no_constructor name none =
    Result.throw (compiler_error name_error (lit "No constructor for class: " ++ name))
no_constructor name (some func) = ok func

-- `visitNewWithConstructorExpr` up to the arguments: the constructor and the temporary variable.
unfoldable pub begin_new : Text → Exec (Function × Text)
unfolding fresh_temp no_constructor
begin_new name = do
  types ← gets (λ s. s.types)
  constructor ← lift (no_constructor name (get_class_constructor types name))
  temp ← fresh_temp
  indent ← indent_level
  type ← lift (translate_type types name)
  alloc ← lift (generate_alloc type)
  declaration ← lift (generate_var_decl temp (set_pointer true type) (lit " = " ++ alloc))
  emit (indent ++ declaration)
  pure (constructor, temp)

unfoldable pub end_new : Function → Text → List Text → Exec Text
end_new constructor temp args = do
  indent ← indent_level
  emit (indent ++ (generate_function_call constructor.name (temp ∷ args) ++ lit ";\n"))
  pure temp

-- `visitMethodCallExpr` after its object was visited, up to the arguments.
unfoldable pub find_called : Text → Text → Exec (Variable × Found)
find_called object method_name = do
  found ← find_variable object
  var ← by_option found (raise (compiler_error name_error (lit "Unknown object: " ++ object))) pure
  if is_class var.type
      then skip
      else raise (compiler_error type_error (lit "Method call on non-class type"))
  types ← gets (λ s. s.types)
  method ←
      lift
        (method_loop (rounds types) types (struct_name var.type) (struct_name var.type) method_name)
  pure (var, method)

unfoldable pub comma_args : List Text → Text
comma_args [] = []
comma_args (text ∷ texts) = lit ", " ++ (text ++ comma_args texts)

-- The call, once the arguments were visited.
unfoldable pub call_text : Text → Text → Variable → Found → List Text → Exec Text
unfolding comma_args
call_text object method_name var found args =
    if found.is_virtual
    then (do
      types ← gets (λ s. s.types)
      type ← lift (translate_type types (struct_name var.type))
      pure (
          (if has_parent type then object ++ lit "->parent.vtable" else object ++ lit "->vtable")
          ++ (lit "->" ++ (method_name ++ (lit "(" ++ (object ++ (comma_args args ++ lit ")")))))))
    else pure (
        generate_function_call found.full_name (
          (if found.current_class == struct_name var.type
            then object
            else lit "&((" ++ (object ++ lit ")->parent)"))
          ∷ args))

-- `initializer->expression()->getText()` is looked up, and not visited.
unfoldable pub initializer_text : Text → Text → Text → Exec Text
initializer_text indent name value = do
  found ← find_pointer value
  when_some found (emit_inc_ref indent null_text)
  pure (indent ++ (lit "." ++ (name ++ (lit " = " ++ (value ++ lit ",\n")))))

unfoldable pub after_call : Text → Text → List Text → Bool → Text → Text
after_call indent name args pointer_args decs =
    indent
    ++ (generate_function_call name args ++ ((if pointer_args then lit ";\n" else []) ++ decs))
