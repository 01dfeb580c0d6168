-- ===== src/Tests/Runs.antt =====
-- Runs of the visitors on small programs.
use jb_transpiler.Tests.Samples.{animal, dog, animal_type, one_class}
use jb_transpiler.Base.Set
use jb_transpiler.Base.{lit, ◌≡◌, refl, true, false, none, [], ok}
use jb_transpiler.Syntax.Tree.{block}
use jb_transpiler.Visitor.{new_visitor}
use jb_transpiler.Visitor.Expressions.{visit_expr}
use jb_transpiler.Visitor.Statements.{visit_stmt, visit_stmts}
use jb_transpiler.Visitor.Program.{
  declare_virtuals, declare_method, both_passes, main_text, transpile, visit_program,
}
use jb_transpiler.Base.{
  ◌==◌, text_lt, find_byte, after_byte, before_byte, ends_with_byte, drop_last, starts_with,
  before_arrow, has_infix,
}
use jb_transpiler.Base.Map.{find, insert}
use jb_transpiler.Base.Number.{to_string, stoi}
use jb_transpiler.CodeGen.{
  generate_virtual_decl, generate_function_decl, generate_var_decl, generate_struct_decl,
  generate_type_def, generate_function_call, generate_return, generate_scope_entry,
  generate_scope_exit, generate_alloc, generate_inc_ref, generate_dec_ref, generate_cast,
}
use jb_transpiler.Symbols.{
  enter_scope, exit_scope, get_indent_level, add_symbol, lookup_scopes, lookup_params,
  lookup_symbol, get_current_scope_symbols, is_global_scope,
}
use jb_transpiler.Syntax.{keyword_text, type_spec_text}
use jb_transpiler.Syntax.Tokens.{
  method_text, expr_text, args_text, more_args_text, inits_text, stmt_text, stmts_text,
  class_members_text,
}
use jb_transpiler.Types.Hierarchy.{
  base_name, is_subclass_loop, is_subclass_of, all_members_rec, get_all_class_members,
  get_virtual_methods, has_virtual_methods, add_virtual, add_virtuals, all_virtuals_loop,
  get_all_virtual_methods, find_by_base_name, implementation_loop, find_method_implementation,
  is_compatible,
}
use jb_transpiler.Types.LangType.{to_list, of_list, struct_members, set_struct_members}
use jb_transpiler.Types.LangType.Render.{
  base_type_to_string, dimensions, type_to_string, output_variable, c_name, get_signature,
}
use jb_transpiler.Types.Registry.{
  register_struct, set_members_of_struct, register_type_def, register_function, register_class,
  set_class_members_found, set_class_members, get_class_methods, register_class_method,
  register_class_constructor, get_class_constructor, set_class_parent_found, set_class_parent,
  get_define_value, register_define,
}
use jb_transpiler.Types.Registry.Classes.{declare_derived}
use jb_transpiler.Types.Resolve.{
  find_registered, find_base, size_text, array_of, with_array, with_pointer, or_unknown,
  translate_at, translate_type, resolve_type_text, resolve_type_from_context,
}
use jb_transpiler.Types.VTable.{
  add_slots, collect_slots, slot_lines, generate_vtable_struct, instance_entries, instance_text,
  generate_vtable_instance,
}
use jb_transpiler.Visitor.{
  pure, ◌>>=◌, ◌>>◌, raise, crash, lift, gets, modify, emit, skip, is_first_pass, indent_level,
  find_variable, set_add_ref_counts, set_symbols, set_types, add_class_name,
}
use jb_transpiler.Visitor.Declarations.{
  second_pass_only, first_pass_only, update_types, declared, all_declared, resolve,
  get_struct_from_code, set_parent, fields_of, get_class_from_code, set_current_func, add_variable,
  register_global, initialized, visit_var_decl, visit_struct_decl, visit_typedef, get_function,
  class_struct, begin_class, begin_function,
}
use jb_transpiler.Visitor.Declarators.{
  get_array_from_code, get_declared, get_all_declared, field_lines,
}
use jb_transpiler.Visitor.Expressions.{
  visit_args, visit_virtual_args, visit_call_args, visit_dec_args, visit_inits,
}
use jb_transpiler.Visitor.Expressions.Calls.{call_object, virtual_method_name}
use jb_transpiler.Visitor.Members.{
  overrides, decide_virtual, begin_method, virtual_entry, parent_constructor_call, set_vtable,
  begin_constructor,
}
use jb_transpiler.Visitor.Methods.{
  has_field, resolve_field_access, this_access, method_access, variable_access, pointer_access,
  find_method, method_loop,
}
use jb_transpiler.Visitor.Program.{
  visit_directive, visit_directives, visit_top, declare_methods, declare_classes, emit_instances,
  set_first_pass, emit_tables, emit_main,
}
use jb_transpiler.Visitor.Statements.{
  dec_scope, dec_current_scope, enter, leave, inside_block, in_block, uncounted, visit_return,
  visit_expr_stmt, print_condition, visit_condition, emit_initial, visit_for_init, visit_for_exprs,
  begin_for, end_for, visit_members,
}
use jb_transpiler.Visitor.Steps.{
  find_pointer, emit_inc_ref, emit_dec_ref, by_option, when_some, cast_between, inc_assigned,
  assign_texts, inc_argument, dec_argument, fresh_temp, no_constructor, begin_new, end_new,
  find_called, comma_args, call_text, initializer_text, after_call,
}
use jb_transpiler.Tests.Inputs.{
  program, program_text, two_classes, printing, visitor_or, value_or, body, after_block, call,
  called, knowing_animals, declared_dog, declared_loop,
}

-- what the visitors return
pub runs :
    (transpile false program ≡ ok program_text)
    × (transpile false two_classes
        ≡ ok (
            lit
              "#include \"runtime.h\"\n\n\nstruct vtable {\n    void (*speak)(void* this);\n};\n\nint Animal_speak(void* this_param);\nint Dog_speak(void* this_param);\n\nstatic struct vtable Animal_vtable = {\n    .speak = Animal_speak,\n};\n\nstatic struct vtable Dog_vtable = {\n    .speak = Dog_speak,\n};\n\nstruct Animal {\n    struct vtable* vtable;\n};\n\nint Animal_speak(void* this_param) {\n    struct Animal* this = (struct Animal*)this_param;\n{\n        return 1;\n        }\n}\n\n\nstruct Dog {\n    struct Animal parent;\n};\n\nint Dog_speak(void* this_param) {\n    struct Dog* this = (struct Dog*)this_param;\n{\n        return 2;\n        }\n}\n\n\nint main() {\n    runtime_init();\n    main_();\n    runtime_shutdown();\n}\n"))
    × (visit_stmt (block body) printing ≡ ok (tt, after_block))
    × (called ≡ ok (value_or [] called, visitor_or printing called))
    × (visit_expr call (new_visitor true) ≡ ok ([], new_visitor true))
    × (declared_dog
        ≡ ok (value_or animal_type declared_dog, visitor_or knowing_animals declared_dog))
    × (declared_loop
        ≡ ok (value_or animal_type declared_loop, visitor_or knowing_animals declared_loop))
    × (find dog one_class.classes ≡ none)
    × ((dog == animal) ≡ false)
unfolding lit ◌==◌ text_lt find_byte after_byte before_byte ends_with_byte drop_last starts_with
    before_arrow has_infix find insert to_string stoi generate_virtual_decl generate_function_decl
    generate_var_decl generate_struct_decl generate_type_def generate_function_call generate_return
    generate_scope_entry generate_scope_exit generate_alloc generate_inc_ref generate_dec_ref
    generate_cast enter_scope exit_scope get_indent_level add_symbol lookup_scopes lookup_params
    lookup_symbol get_current_scope_symbols is_global_scope keyword_text type_spec_text method_text
    expr_text args_text more_args_text inits_text stmt_text stmts_text class_members_text base_name
    is_subclass_loop is_subclass_of all_members_rec get_all_class_members get_virtual_methods
    has_virtual_methods add_virtual add_virtuals all_virtuals_loop get_all_virtual_methods
    find_by_base_name implementation_loop find_method_implementation is_compatible to_list of_list
    struct_members set_struct_members base_type_to_string dimensions type_to_string output_variable
    c_name get_signature register_struct set_members_of_struct register_type_def register_function
    register_class set_class_members_found set_class_members get_class_methods register_class_method
    register_class_constructor get_class_constructor set_class_parent_found set_class_parent
    get_define_value register_define declare_derived find_registered find_base size_text array_of
    with_array with_pointer or_unknown translate_at translate_type resolve_type_text
    resolve_type_from_context add_slots collect_slots slot_lines generate_vtable_struct
    instance_entries instance_text generate_vtable_instance pure ◌>>=◌ ◌>>◌ raise crash lift gets
    modify emit skip is_first_pass indent_level find_variable set_add_ref_counts set_symbols
    set_types add_class_name second_pass_only first_pass_only update_types declared all_declared
    resolve get_struct_from_code set_parent fields_of get_class_from_code set_current_func
    add_variable register_global initialized visit_var_decl visit_struct_decl visit_typedef
    get_function class_struct begin_class begin_function get_array_from_code get_declared
    get_all_declared field_lines visit_expr visit_args visit_virtual_args visit_call_args
    visit_dec_args visit_inits call_object virtual_method_name overrides decide_virtual begin_method
    virtual_entry parent_constructor_call set_vtable begin_constructor has_field
    resolve_field_access this_access method_access variable_access pointer_access find_method
    method_loop visit_directive visit_directives visit_top declare_methods declare_classes
    emit_instances set_first_pass emit_tables main_text emit_main both_passes visit_program
    transpile dec_scope dec_current_scope enter leave inside_block in_block uncounted visit_return
    visit_expr_stmt print_condition visit_condition emit_initial visit_for_init visit_for_exprs
    begin_for end_for visit_stmt visit_stmts visit_members find_pointer emit_inc_ref emit_dec_ref
    by_option when_some cast_between inc_assigned assign_texts inc_argument dec_argument fresh_temp
    no_constructor begin_new end_new find_called comma_args call_text initializer_text after_call
    Set.contains Set.insert declare_virtuals declare_method
runs = (refl, refl, refl, refl, refl, refl, refl, refl, refl)
