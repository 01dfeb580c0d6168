-- ===== src/Syntax/Tree.antt =====
-- The parse tree of grammar/JBLang.g4: declarations, expressions, statements and programs. A list
-- that the grammar lets be absent is empty. The rules that the parser never takes, since an earlier
-- alternative of the same text is chosen (`VarExpr`, `LiteralExpr`), have no constructor.
use jb_transpiler.Base.{Text, Bool, List, Option}
use jb_transpiler.Syntax.{TypeSpec}

-- arraySize: INTEGER or IDENTIFIER
pub data ArraySize : Type 0 where
  size_integer size_identifier : Text → ArraySize

pub record ArrayDecl : Type 0 where
  pub spec : TypeSpec
  pub name : Text
  pub sizes : List ArraySize

-- `(typeSpec IDENTIFIER) | arrayDecl`, of parameters, variables, members and fields
pub data Declarator : Type 0 where
  plain : TypeSpec → Text → Declarator
  array : ArrayDecl → Declarator

-- The operators are kept as their texts, and so are the literals.
mutual
  pub data Expr : Type 0 where
    paren : Expr → Expr
    identifier : Text → Expr
    literal : Text → Expr
    member : Expr → Text → Expr
    func_call : Text → Args → Expr
    mul_div : Expr → Text → Expr → Expr
    add_sub : Expr → Text → Expr → Expr
    compare : Expr → Text → Expr → Expr
    assign : Expr → Expr → Expr
    new_type : TypeSpec → Expr
    new_with_constructor : Text → Args → Expr
    pointer_member : Expr → Text → Expr
    address_of : Expr → Expr
    dereference : Expr → Expr
    array_access : Expr → Expr → Expr
    method_call : Expr → Text → Args → Expr
    empty_init : Expr
    struct_init : Inits → Expr
    post_increment : Expr → Expr
    post_decrement : Expr → Expr
    pre_increment : Expr → Expr
    pre_decrement : Expr → Expr

  pub data Args : Type 0 where
    no_args : Args
    arg : Expr → Args → Args

  -- The last initializer says whether a comma stands after it.
  pub data Inits : Type 0 where
    last_init : Text → Expr → Bool → Inits
    init : Text → Expr → Inits → Inits

pub record StructDecl : Type 0 where
  pub name : Text
  pub members : List Declarator

pub data ForInit : Type 0 where
  for_var : Declarator → Option Expr → ForInit
  for_expr : Expr → ForInit
  for_none : ForInit

-- A `for` statement has two optional expressions, its condition and its step.
mutual
  pub data Stmt : Type 0 where
    function_decl : TypeSpec → Text → List Declarator → Stmts → Stmt
    var_decl : Declarator → Option Expr → Stmt
    spawn_stmt : Expr → Stmt
    return_stmt : Option Expr → Stmt
    expr_stmt : Expr → Stmt
    block : Stmts → Stmt
    struct_decl : StructDecl → Stmt
    class_decl : Text → Option Text → ClassMembers → Stmt
    if_stmt : Expr → Stmt → Stmt
    if_else_stmt : Expr → Stmt → Stmt → Stmt
    while_stmt : Expr → Stmt → Stmt
    for_stmt : ForInit → Option Expr → Option Expr → Stmt → Stmt
    typedef_spec : TypeSpec → Text → Stmt
    typedef_struct : StructDecl → Text → Stmt

  pub data Stmts : Type 0 where
    no_stmts : Stmts
    stmt : Stmt → Stmts → Stmts

  pub data ClassMembers : Type 0 where
    no_members : ClassMembers
    class_field : Declarator → ClassMembers → ClassMembers
    class_method : Bool → TypeSpec → Text → List Declarator → Stmts → ClassMembers → ClassMembers
    class_constructor :
        Text → List Declarator → Option (Text × Args) → Stmts → ClassMembers → ClassMembers

pub data Directive : Type 0 where
  include_directive : Text → Directive
  define_directive : Text → Option Text → Directive

pub record Program : Type 0 where
  pub directives : List Directive
  pub statements : Stmts
