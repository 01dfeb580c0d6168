-- ===== src/Visitor/Frames/Scopes.antt =====
-- The scopes and the output across the visits of statements (src/ast/TranspilerVisitor.cpp).
use jb_transpiler.Base.{◌≡◌, ok}
use jb_transpiler.Syntax.Tree.{Stmt, block, Stmts}
use jb_transpiler.Visitor.{Visitor}
use jb_transpiler.Visitor.Statements.{visit_stmt, visit_stmts}
use jb_transpiler.Visitor.Frames.{KeepsScopes}
use jb_transpiler.Visitor.Frames.Blocks.{in_block-restores}
use jb_transpiler.Visitor.Frames.Stmts.{visit_stmt-Keeps, visit_stmts-Keeps}

-- The visit of a statement, in either pass, where it returns: every scope but the innermost one is
-- as it was, there are as many scopes as before, the pass and the kind of allocator are the same,
-- the output has only been appended to, the count of temporaries has not fallen, and counting of
-- references, which conditions and `return` switch off, is on again if it was on.
pub visit_stmt-KeepsScopes :
    (st : Stmt) (s s' : Visitor) (u : Unit {0}) → visit_stmt st s ≡ ok (u, s') → KeepsScopes s s'
visit_stmt-KeepsScopes st s s' u h = (visit_stmt-Keeps st).at s s' u h

-- After the visit of a block, where it returns, the scopes are exactly those from before it: what
-- the block declared is gone, and no variable of an outer scope was lost or changed.
pub visit_stmt-block :
    (body : Stmts) (s s' : Visitor) (u : Unit {0})
    → visit_stmt (block body) s ≡ ok (u, s')
    → s'.symbols.scopes ≡ s.symbols.scopes
unfolding visit_stmt
visit_stmt-block body s s' u h =
    (in_block-restores (visit_stmts body) s s' u (visit_stmts-Keeps body) h).0
