-- ===== src/Syntax/Tokens.antt =====
-- `getText` of the parse tree: its tokens, with nothing between them (grammar/JBLang.g4).
use jb_transpiler.Base.{Text, lit, Bool, List, [], ◌∷◌, ◌++◌, Option, none, some, if◌then◌else◌}
use jb_transpiler.Syntax.{TypeSpec, type_spec_text}
use jb_transpiler.Syntax.Tree.{
  ArraySize, size_integer, size_identifier, Declarator, plain, array, Expr, paren, identifier,
  literal, member, func_call, mul_div, add_sub, compare, assign, new_type, new_with_constructor,
  pointer_member, address_of, dereference, array_access, method_call, empty_init, struct_init,
  post_increment, post_decrement, pre_increment, pre_decrement, Args, no_args, arg, Inits,
  last_init, init, StructDecl, ForInit, for_var, for_expr, for_none, Stmt, function_decl, var_decl,
  spawn_stmt, return_stmt, expr_stmt, block, struct_decl, class_decl, if_stmt, if_else_stmt,
  while_stmt, for_stmt, typedef_spec, typedef_struct, Stmts, no_stmts, stmt, ClassMembers,
  no_members, class_field, class_method, class_constructor,
}

size_text : List ArraySize → Text
size_text [] = []
size_text (size_integer n ∷ sizes) = lit "[" ++ (n ++ (lit "]" ++ size_text sizes))
size_text (size_identifier n ∷ sizes) = lit "[" ++ (n ++ (lit "]" ++ size_text sizes))

declarator_text : Declarator → Text
unfolding size_text
declarator_text (plain spec name) = type_spec_text spec ++ name
declarator_text (array a) = type_spec_text a.spec ++ (a.name ++ size_text a.sizes)

params_text : Bool → List Declarator → Text
unfolding declarator_text
params_text first [] = []
params_text first (d ∷ ds) =
    (if first then [] else lit ",") ++ (declarator_text d ++ params_text Bool.false ds)

members_text : List Declarator → Text
unfolding declarator_text
members_text [] = []
members_text (d ∷ ds) = declarator_text d ++ (lit ";" ++ members_text ds)

unfoldable mutual
  pub expr_text : Expr → Text
  expr_text (paren e) = lit "(" ++ (expr_text e ++ lit ")")
  expr_text (identifier name) = name
  expr_text (literal text) = text
  expr_text (member e name) = expr_text e ++ (lit "." ++ name)
  expr_text (func_call name args) = name ++ (lit "(" ++ (args_text args ++ lit ")"))
  expr_text (mul_div a op b) = expr_text a ++ (op ++ expr_text b)
  expr_text (add_sub a op b) = expr_text a ++ (op ++ expr_text b)
  expr_text (compare a op b) = expr_text a ++ (op ++ expr_text b)
  expr_text (assign a b) = expr_text a ++ (lit "=" ++ expr_text b)
  expr_text (new_type spec) = lit "new" ++ type_spec_text spec
  expr_text (new_with_constructor name args) =
      lit "new" ++ (name ++ (lit "(" ++ (args_text args ++ lit ")")))
  expr_text (pointer_member e name) = expr_text e ++ (lit "->" ++ name)
  expr_text (address_of e) = lit "&" ++ expr_text e
  expr_text (dereference e) = lit "*" ++ expr_text e
  expr_text (array_access a i) = expr_text a ++ (lit "[" ++ (expr_text i ++ lit "]"))
  expr_text (method_call e name args) =
      expr_text e ++ (lit "->" ++ (name ++ (lit "(" ++ (args_text args ++ lit ")"))))
  expr_text empty_init = lit "{}"
  expr_text (struct_init inits) = lit "{" ++ (inits_text inits ++ lit "}")
  expr_text (post_increment e) = expr_text e ++ lit "++"
  expr_text (post_decrement e) = expr_text e ++ lit "--"
  expr_text (pre_increment e) = lit "++" ++ expr_text e
  expr_text (pre_decrement e) = lit "--" ++ expr_text e

  pub args_text : Args → Text
  args_text no_args = []
  args_text (arg e rest) = expr_text e ++ more_args_text rest

  pub more_args_text : Args → Text
  more_args_text no_args = []
  more_args_text (arg e rest) = lit "," ++ (expr_text e ++ more_args_text rest)

  pub inits_text : Inits → Text
  inits_text (last_init name e comma) =
      lit "." ++ (name ++ (lit "=" ++ (expr_text e ++ (if comma then lit "," else []))))
  inits_text (init name e rest) =
      lit "." ++ (name ++ (lit "=" ++ (expr_text e ++ (lit "," ++ inits_text rest))))

optional_text : Text → Option Expr → Text
optional_text before none = []
optional_text before (some e) = before ++ expr_text e

struct_text : StructDecl → Text
unfolding members_text
struct_text d = lit "struct" ++ (d.name ++ (lit "{" ++ (members_text d.members ++ lit "}")))

for_init_text : ForInit → Text
unfolding declarator_text optional_text
for_init_text (for_var d e) = declarator_text d ++ (optional_text (lit "=") e ++ lit ";")
for_init_text (for_expr e) = expr_text e ++ lit ";"
for_init_text for_none = lit ";"

parent_text : Option Text → Text
parent_text none = []
parent_text (some name) = lit ":" ++ name

parent_call_text : Option (Text × Args) → Text
parent_call_text none = []
parent_call_text (some (name, args)) = lit ":" ++ (name ++ (lit "(" ++ (args_text args ++ lit ")")))

method_head : Bool → TypeSpec → Text → List Declarator → Text
unfolding params_text
method_head is_virtual spec name params =
    (if is_virtual then lit "virtual" else [])
    ++ (type_spec_text spec ++ (name ++ (lit "(" ++ (params_text Bool.true params ++ lit ")"))))

unfoldable mutual
  unfolding members_text params_text declarator_text struct_text for_init_text parent_text
      parent_call_text method_head optional_text

  pub stmt_text : Stmt → Text
  stmt_text (function_decl spec name params body) =
      method_head Bool.false spec name params ++ (lit "{" ++ (stmts_text body ++ lit "}"))
  stmt_text (var_decl d e) = declarator_text d ++ (optional_text (lit "=") e ++ lit ";")
  stmt_text (spawn_stmt e) = lit "spawn" ++ (expr_text e ++ lit ";")
  stmt_text (return_stmt e) = lit "return" ++ (optional_text [] e ++ lit ";")
  stmt_text (expr_stmt e) = expr_text e ++ lit ";"
  stmt_text (block body) = lit "{" ++ (stmts_text body ++ lit "}")
  stmt_text (struct_decl d) = struct_text d
  stmt_text (class_decl name parent members) =
      lit "class"
      ++ (name ++ (parent_text parent ++ (lit "{" ++ (class_members_text members ++ lit "}"))))
  stmt_text (if_stmt e s) = lit "if(" ++ (expr_text e ++ (lit ")" ++ stmt_text s))
  stmt_text (if_else_stmt e s t) =
      lit "if(" ++ (expr_text e ++ (lit ")" ++ (stmt_text s ++ (lit "else" ++ stmt_text t))))
  stmt_text (while_stmt e s) = lit "while(" ++ (expr_text e ++ (lit ")" ++ stmt_text s))
  stmt_text (for_stmt i condition step s) =
      lit "for("
      ++ (for_init_text i
          ++ (optional_text [] condition
              ++ (lit ";" ++ (optional_text [] step ++ (lit ")" ++ stmt_text s)))))
  stmt_text (typedef_spec spec name) = lit "typedef" ++ (type_spec_text spec ++ (name ++ lit ";"))
  stmt_text (typedef_struct d name) = lit "typedef" ++ (struct_text d ++ (name ++ lit ";"))

  pub stmts_text : Stmts → Text
  stmts_text no_stmts = []
  stmts_text (stmt s rest) = stmt_text s ++ stmts_text rest

  pub class_members_text : ClassMembers → Text
  class_members_text no_members = []
  class_members_text (class_field d rest) =
      declarator_text d ++ (lit ";" ++ class_members_text rest)
  class_members_text (class_method is_virtual spec name params body rest) =
      method_head is_virtual spec name params
      ++ (lit "{" ++ (stmts_text body ++ (lit "}" ++ class_members_text rest)))
  class_members_text (class_constructor name params parent body rest) =
      name
      ++ (lit "("
          ++ (params_text Bool.true params
              ++ (lit ")"
                  ++ (parent_call_text parent
                      ++ (lit "{" ++ (stmts_text body ++ (lit "}" ++ class_members_text rest)))))))

-- `getText` of a `ClassMethod`
unfoldable pub method_text : Bool → TypeSpec → Text → List Declarator → Stmts → Text
unfolding method_head
method_text is_virtual spec name params body =
    method_head is_virtual spec name params ++ (lit "{" ++ (stmts_text body ++ lit "}"))
