-- ===== src/Visitor/Frames/Exprs.antt =====
-- What the visit of an expression changes (src/ast/TranspilerVisitor.cpp).
use jb_transpiler.Base.{Text, ◌≡◌, ok}
use jb_transpiler.Syntax.Tree.{Expr}
use jb_transpiler.Visitor.{Visitor}
use jb_transpiler.Visitor.Expressions.{visit_expr}
use jb_transpiler.Visitor.Keeps.Writing.{visit_expr-Keeps}
use jb_transpiler.Visitor.Frames.{OnlyWrites, OnlyWrites-Writes}

-- The visit of an expression, where it returns, changes nothing but the output, to which it appends,
-- and the count of temporaries, which it may raise: scopes, types and flags are as they were.
pub visit_expr-OnlyWrites :
    (e : Expr) (s s' : Visitor) (text : Text) → visit_expr e s ≡ ok (text, s') → OnlyWrites s s'
visit_expr-OnlyWrites e s s' text h = (visit_expr-Keeps OnlyWrites-Writes e).at s s' text h
