-- ===== src/Tests/Names.antt =====
-- The theorems on names, types, numbers and scopes, applied to examples.
use jb_transpiler.Base.{
  lit, ◌≡◌, refl, true, some, [], ◌∷◌, ◌++◌, ◌==◌, ok, throw, runtime_error, find_byte, arith,
  text_lt,
}
use jb_transpiler.Base.Number.{negsuc, to_string, stoi, stoi-to_string}
use jb_transpiler.Base.Map.{find, insert}
use jb_transpiler.Syntax.{named, no_keyword, struct_keyword, class_keyword}
use jb_transpiler.Types.LangType.{int, simple_type, set_pointer}
use jb_transpiler.Types.Hierarchy.{base_name}
use jb_transpiler.Types.Hierarchy.Names.{method_name, base_name-method_name}
use jb_transpiler.Types.Resolve.{
  translate_type, resolve_type_from_context, translate_at, find_base, or_unknown, with_array,
  with_pointer, find_registered,
}
use jb_transpiler.Types.Resolve.Keywords.{
  stars, resolve_type_from_context_named, resolve_type_from_context_class,
}
use jb_transpiler.Symbols.{
  SymbolTable, plain_variable, empty_table, enter_scope, exit_scope, add_symbol,
}
use jb_transpiler.Symbols.Scopes.{add_symbols, exit_scope-add_symbols}
use jb_transpiler.Types.Registry.{TypeSystem}
use jb_transpiler.Tests.Samples.{dog, dog_type, zoo, legs}

base_name-method_name_example : base_name (method_name dog (lit "speak_up")) ≡ lit "speak_up"
unfolding lit find_byte
base_name-method_name_example = base_name-method_name dog (lit "speak_up") refl

resolve_type_from_context_named_example :
    (resolve_type_from_context zoo (some (stars 2 (named no_keyword (lit "int"))))
      ≡ ok (set_pointer true (simple_type int)))
    × (resolve_type_from_context zoo (some (stars 2 (named struct_keyword (lit "int"))))
        ≡ ok (set_pointer true (simple_type int)))
unfolding lit find_byte translate_type translate_at find_base or_unknown with_array with_pointer
    ◌==◌
resolve_type_from_context_named_example =
    resolve_type_from_context_named zoo 2 (lit "int") (simple_type int) refl refl refl refl

-- A class named `structure` is registered.
abbrev with_structure : TypeSystem
with_structure = record zoo { classes = (lit "structure", dog_type) ∷ [] }

resolve_type_from_context_class_example :
    resolve_type_from_context zoo (some (named class_keyword dog))
    ≡ throw (runtime_error (lit "Unknown type: " ++ (lit "class" ++ dog)))
unfolding lit find_byte find_registered find insert ◌==◌ text_lt
resolve_type_from_context_class_example = resolve_type_from_context_class zoo dog refl refl refl

stoi-to_string_example : stoi (to_string (negsuc 41)) ≡ ok (negsuc 41)
stoi-to_string_example = stoi-to_string (negsuc 41) (omega arith)

abbrev one_local : SymbolTable
one_local = record empty_table {
  scopes = insert dog (plain_variable dog (simple_type int)) [] ∷ [];
}

abbrev inner : SymbolTable
inner = record one_local {
  scopes =
      insert (lit "legs") (plain_variable (lit "legs") (simple_type int)) [] ∷ one_local.scopes;
}

exit_scope-add_symbols_example : exit_scope inner ≡ one_local
unfolding add_symbols add_symbol enter_scope
exit_scope-add_symbols_example = exit_scope-add_symbols one_local inner legs refl
