-- ===== src/Visitor/Expressions.antt =====
-- The visitors of expressions (src/ast/TranspilerVisitor.cpp). Each returns the C text of the
-- expression; what has to happen before it is written to the output.
pub mod Calls
use Prim.Native.Nat.{suc}
use jb_transpiler.Base.{
  ℕ, ◌+◌, Text, lit, ◌==◌, Bool, true, false, ◌&&◌, ◌||◌, not, Option, none, some, List, [], ◌∷◌,
  ◌++◌, Result, ok, compiler_error, name_error, type_error, if◌then◌else◌, before_arrow,
  starts_with,
}
use jb_transpiler.Base.Number.{pos, to_string}
use jb_transpiler.Syntax.Tokens.{expr_text}
use jb_transpiler.Syntax.Tree.{
  Expr, paren, identifier, literal, member, func_call, mul_div, add_sub, compare, assign, new_type,
  new_with_constructor, pointer_member, address_of, dereference, array_access, method_call,
  empty_init, struct_init, post_increment, post_decrement, pre_increment, pre_decrement, Args,
  no_args, arg, Inits, last_init, init,
}
use jb_transpiler.Types.LangType.{
  LangType, Function, is_pointer, is_class, struct_name, has_parent, set_pointer,
}
use jb_transpiler.Types.Registry.{get_class_constructor}
use jb_transpiler.Types.Hierarchy.{is_compatible, rounds}
use jb_transpiler.Types.Resolve.{translate_type, resolve_type_from_context}
use jb_transpiler.Symbols.{Variable}
use jb_transpiler.CodeGen.{
  generate_cast, generate_inc_ref, generate_dec_ref, generate_alloc, generate_var_decl,
  generate_function_call,
}
use jb_transpiler.Visitor.{
  Visitor, Exec, pure, ◌>>=◌, ◌>>◌, raise, crash, lift, gets, modify, emit, skip, is_first_pass,
  indent_level, find_variable,
}
use jb_transpiler.Visitor.Methods.{pointer_access, method_loop, Found}
use jb_transpiler.Visitor.Expressions.Calls.{call_object, virtual_method_name}
use jb_transpiler.Visitor.Steps.{
  as_pointer, find_pointer, emit_inc_ref, emit_dec_ref, null_text, by_option, when_some,
  cast_between, inc_assigned, assign_texts, inc_argument, dec_argument, fresh_temp, no_constructor,
  begin_new, end_new, find_called, comma_args, call_text, initializer_text, after_call,
}

unfoldable mutual
  pub visit_expr : Expr → Exec Text
  visit_expr (paren e) = do text ← visit_expr e; pure (lit "(" ++ (text ++ lit ")"))
  visit_expr (identifier name) = pure name
  visit_expr (literal text) = pure text
  visit_expr (member e name) = do base ← visit_expr e; pure (base ++ (lit "." ++ name))
  visit_expr (func_call name args) = is_first_pass >>= λ first. if first then pure [] else do
    indent ← indent_level
    if starts_with (lit "VIRTUAL_CALL:") name
        then (do
          let object = call_object 13 name
          texts ← visit_virtual_args args
          pure (
              indent
              ++ (object
                  ++ (lit "->vtable->"
                      ++ (virtual_method_name name
                          ++ (lit "(" ++ (object ++ (texts ++ lit ")"))))))))
        else (do
          (texts, pointer_args) ← visit_call_args indent args
          counted ← gets (λ s. s.add_ref_counts)
          decs ← if counted then visit_dec_args indent args else pure []
          pure (
              after_call indent name
                (if starts_with (lit "METHOD_CALL:") name
                  then call_object 12 name ∷ texts
                  else texts)
                pointer_args decs))
  visit_expr (mul_div a op b) = do
    left ← visit_expr a
    right ← visit_expr b
    pure (left ++ (lit " " ++ (op ++ (lit " " ++ right))))
  visit_expr (add_sub a op b) = do
    left ← visit_expr a
    right ← visit_expr b
    pure (left ++ (lit " " ++ (op ++ (lit " " ++ right))))
  visit_expr (compare a op b) = do
    left ← visit_expr a
    right ← visit_expr b
    pure (left ++ (lit " " ++ (op ++ (lit " " ++ right))))
  visit_expr (assign a b) = is_first_pass >>= λ first.
      if first
      then pure []
      else do left ← visit_expr a; right ← visit_expr b; assign_texts left right
  visit_expr (new_type spec) = do
    types ← gets (λ s. s.types)
    type ← lift (resolve_type_from_context types (some spec))
    lift (generate_alloc type)
  visit_expr (new_with_constructor name args) = is_first_pass >>= λ first.
      if first then pure [] else do
        (constructor, temp) ← begin_new name
        texts ← visit_args args
        end_new constructor temp texts
  visit_expr (pointer_member e name) = is_first_pass >>= λ first. if first then pure [] else do
    base ← visit_expr e
    var ← find_variable base
    types ← gets (λ s. s.types)
    func ← gets (λ s. s.symbols.current_func)
    pure (pointer_access types func var base name)
  visit_expr (address_of e) = do text ← visit_expr e; pure (lit "&" ++ text)
  visit_expr (dereference e) = do text ← visit_expr e; pure (lit "*" ++ text)
  visit_expr (array_access a i) = do
    array ← visit_expr a
    index ← visit_expr i
    pure (array ++ (lit "[" ++ (index ++ lit "]")))
  visit_expr (method_call e name args) = is_first_pass >>= λ first. if first then pure [] else do
    object ← visit_expr e
    (var, found) ← find_called object name
    texts ← visit_args args
    call_text object name var found texts
  visit_expr empty_init = crash
  visit_expr (struct_init inits) = do
    indent ← indent_level
    code ← (is_first_pass >>= λ first. if first then pure [] else visit_inits indent inits)
    pure (lit "{\n" ++ (code ++ (indent ++ lit "}")))
  visit_expr (post_increment e) = do text ← visit_expr e; pure (text ++ lit "++")
  visit_expr (post_decrement e) = do text ← visit_expr e; pure (text ++ lit "--")
  visit_expr (pre_increment e) = do text ← visit_expr e; pure (lit "++" ++ text)
  visit_expr (pre_decrement e) = do text ← visit_expr e; pure (lit "--" ++ text)

  pub visit_args : Args → Exec (List Text)
  visit_args no_args = pure []
  visit_args (arg e rest) = do text ← visit_expr e; texts ← visit_args rest; pure (text ∷ texts)

  pub visit_virtual_args : Args → Exec Text
  visit_virtual_args no_args = pure []
  visit_virtual_args (arg e rest) = do
    text ← visit_expr e
    texts ← visit_virtual_args rest
    pure (lit ", " ++ (text ++ texts))

  pub visit_call_args : Text → Args → Exec (List Text × Bool)
  visit_call_args indent no_args = pure ([], false)
  visit_call_args indent (arg e rest) = do
    text ← visit_expr e
    counted ← inc_argument indent text
    (texts, more) ← visit_call_args indent rest
    pure (text ∷ texts, counted || more)

  pub visit_dec_args : Text → Args → Exec Text
  visit_dec_args indent no_args = pure []
  visit_dec_args indent (arg e rest) = do
    text ← visit_expr e
    dec ← dec_argument indent text
    decs ← visit_dec_args indent rest
    pure (dec ++ decs)

  pub visit_inits : Text → Inits → Exec Text
  visit_inits indent (last_init name e comma) = initializer_text indent name (expr_text e)
  visit_inits indent (init name e rest) = do
    code ← initializer_text indent name (expr_text e)
    codes ← visit_inits indent rest
    pure (code ++ codes)
