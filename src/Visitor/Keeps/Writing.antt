-- ===== src/Visitor/Keeps/Writing.antt =====
-- The visitors of expressions write to the output and count temporaries, and change nothing else.
use jb_transpiler.Base.{Text}
use jb_transpiler.Syntax.Tree.{
  Expr, paren, identifier, literal, member, func_call, mul_div, add_sub, compare, assign, new_type,
  new_with_constructor, pointer_member, address_of, dereference, array_access, method_call,
  empty_init, struct_init, post_increment, post_decrement, pre_increment, pre_decrement, Args,
  no_args, arg, Inits, last_init, init,
}
use jb_transpiler.Visitor.{Visitor}
use jb_transpiler.Visitor.Expressions.{
  visit_expr, visit_args, visit_virtual_args, visit_call_args, visit_dec_args, visit_inits,
}
use jb_transpiler.Visitor.Keeps.Parts.{writing_rules}
use jb_transpiler.Visitor.Keeps.{Writes, Keeps, keeps_rules, Keeps-crash}

module _ {R : Visitor → Visitor → Type 0} (w : Writes R) where
  call-Keeps :
      (name : Text) (args : Args)
      → Keeps R (visit_virtual_args args)
      → ((indent : Text) → Keeps R (visit_call_args indent args))
      → ((indent : Text) → Keeps R (visit_dec_args indent args))
      → Keeps R (visit_expr (func_call name args))
  unfolding visit_expr
  call-Keeps name args h hc hd = search (writing_rules, w.frame, hc, hd) depth 14

  assign-Keeps :
      (a b : Expr)
      → Keeps R (visit_expr a)
      → Keeps R (visit_expr b)
      → Keeps R (visit_expr (assign a b))
  unfolding visit_expr
  assign-Keeps a b ha hb = search (writing_rules, w.frame) depth 14

  new-Keeps :
      (name : Text) (args : Args)
      → Keeps R (visit_args args)
      → Keeps R (visit_expr (new_with_constructor name args))
  unfolding visit_expr
  new-Keeps name args h = search (writing_rules, w.frame) depth 14

  pointer_member-Keeps :
      (e : Expr) (name : Text)
      → Keeps R (visit_expr e)
      → Keeps R (visit_expr (pointer_member e name))
  unfolding visit_expr
  pointer_member-Keeps e name h = search (writing_rules, w.frame) depth 14

  method_call-Keeps :
      (e : Expr) (name : Text) (args : Args)
      → Keeps R (visit_expr e)
      → Keeps R (visit_args args)
      → Keeps R (visit_expr (method_call e name args))
  unfolding visit_expr
  method_call-Keeps e name args he ha = search (writing_rules, w.frame) depth 14

  struct_init-Keeps :
      (inits : Inits)
      → ((indent : Text) → Keeps R (visit_inits indent inits))
      → Keeps R (visit_expr (struct_init inits))
  unfolding visit_expr
  struct_init-Keeps inits h = search (writing_rules, w.frame, h) depth 14

  call_args-Keeps :
      (e : Expr) (rest : Args) (indent : Text)
      → Keeps R (visit_expr e)
      → Keeps R (visit_call_args indent rest)
      → Keeps R (visit_call_args indent (arg e rest))
  unfolding visit_call_args
  call_args-Keeps e rest indent he h = search (writing_rules, w.frame) depth 14

  dec_args-Keeps :
      (e : Expr) (rest : Args) (indent : Text)
      → Keeps R (visit_expr e)
      → Keeps R (visit_dec_args indent rest)
      → Keeps R (visit_dec_args indent (arg e rest))
  unfolding visit_dec_args
  dec_args-Keeps e rest indent he h = search (writing_rules, w.frame) depth 14

  inits-Keeps :
      (name : Text) (e : Expr) (rest : Inits) (indent : Text)
      → Keeps R (visit_inits indent rest)
      → Keeps R (visit_inits indent (init name e rest))
  unfolding visit_inits
  inits-Keeps name e rest indent h = search (writing_rules, w.frame) depth 14

  mutual
    unfolding visit_expr visit_args visit_virtual_args visit_call_args visit_dec_args visit_inits

    pub visit_expr-Keeps : (e : Expr) → Keeps R (visit_expr e)
    visit_expr-Keeps (paren e) = search (keeps_rules, w.frame, visit_expr-Keeps e) depth 14
    visit_expr-Keeps (identifier name) = search (keeps_rules, w.frame)
    visit_expr-Keeps (literal text) = search (keeps_rules, w.frame)
    visit_expr-Keeps (member e name) = search (keeps_rules, w.frame, visit_expr-Keeps e) depth 14
    visit_expr-Keeps (func_call name args) =
        call-Keeps name args (visit_virtual_args-Keeps args) (visit_call_args-Keeps args)
          (visit_dec_args-Keeps args)
    visit_expr-Keeps (mul_div a op b) =
        search (keeps_rules, w.frame, visit_expr-Keeps a, visit_expr-Keeps b) depth 14
    visit_expr-Keeps (add_sub a op b) =
        search (keeps_rules, w.frame, visit_expr-Keeps a, visit_expr-Keeps b) depth 14
    visit_expr-Keeps (compare a op b) =
        search (keeps_rules, w.frame, visit_expr-Keeps a, visit_expr-Keeps b) depth 14
    visit_expr-Keeps (assign a b) = assign-Keeps a b (visit_expr-Keeps a) (visit_expr-Keeps b)
    visit_expr-Keeps (new_type spec) = search (keeps_rules, w.frame)
    visit_expr-Keeps (new_with_constructor name args) = new-Keeps name args (visit_args-Keeps args)
    visit_expr-Keeps (pointer_member e name) = pointer_member-Keeps e name (visit_expr-Keeps e)
    visit_expr-Keeps (address_of e) = search (keeps_rules, w.frame, visit_expr-Keeps e) depth 14
    visit_expr-Keeps (dereference e) = search (keeps_rules, w.frame, visit_expr-Keeps e) depth 14
    visit_expr-Keeps (array_access a i) =
        search (keeps_rules, w.frame, visit_expr-Keeps a, visit_expr-Keeps i) depth 14
    visit_expr-Keeps (method_call e name args) =
        method_call-Keeps e name args (visit_expr-Keeps e) (visit_args-Keeps args)
    visit_expr-Keeps empty_init = Keeps-crash
    visit_expr-Keeps (struct_init inits) = struct_init-Keeps inits (visit_inits-Keeps inits)
    visit_expr-Keeps (post_increment e) = search (keeps_rules, w.frame, visit_expr-Keeps e) depth 14
    visit_expr-Keeps (post_decrement e) = search (keeps_rules, w.frame, visit_expr-Keeps e) depth 14
    visit_expr-Keeps (pre_increment e) = search (keeps_rules, w.frame, visit_expr-Keeps e) depth 14
    visit_expr-Keeps (pre_decrement e) = search (keeps_rules, w.frame, visit_expr-Keeps e) depth 14

    pub visit_args-Keeps : (es : Args) → Keeps R (visit_args es)
    visit_args-Keeps no_args = search (keeps_rules, w.frame)
    visit_args-Keeps (arg e rest) =
        search (keeps_rules, w.frame, visit_expr-Keeps e, visit_args-Keeps rest) depth 14

    visit_virtual_args-Keeps : (es : Args) → Keeps R (visit_virtual_args es)
    visit_virtual_args-Keeps no_args = search (keeps_rules, w.frame)
    visit_virtual_args-Keeps (arg e rest) =
        search (keeps_rules, w.frame, visit_expr-Keeps e, visit_virtual_args-Keeps rest) depth 14

    visit_call_args-Keeps : (es : Args) (indent : Text) → Keeps R (visit_call_args indent es)
    visit_call_args-Keeps no_args indent = search (keeps_rules, w.frame)
    visit_call_args-Keeps (arg e rest) indent =
        call_args-Keeps e rest indent (visit_expr-Keeps e) (visit_call_args-Keeps rest indent)

    visit_dec_args-Keeps : (es : Args) (indent : Text) → Keeps R (visit_dec_args indent es)
    visit_dec_args-Keeps no_args indent = search (keeps_rules, w.frame)
    visit_dec_args-Keeps (arg e rest) indent =
        dec_args-Keeps e rest indent (visit_expr-Keeps e) (visit_dec_args-Keeps rest indent)

    visit_inits-Keeps : (es : Inits) (indent : Text) → Keeps R (visit_inits indent es)
    visit_inits-Keeps (last_init name e comma) indent = search writing_rules depth 14
    visit_inits-Keeps (init name e rest) indent =
        inits-Keeps name e rest indent (visit_inits-Keeps rest indent)
