-- ===== src/Lib.antt =====
-- jb_transpiler: the transpiler of src/ and the runtime of runtime/ as a library of definitions and
-- theorems. A program of the language of grammar/JBLang.g4 is read into a parse tree, visited twice,
-- and printed as C, which is compiled and linked with a runtime that has one of three allocators.
--
-- Parts, and the files that model them:
-- - Base: texts as lists of bytes (`Bytes`: std::string), maps and sets in the order of their keys
--   (`Map`, `Set`: std::map, std::set), numbers of arrays (`Number`: std::stoi, std::to_string), and
--   results that may be exceptions (`Errors`: include/jblang/core/CompilerError.h).
-- - Syntax: the parse tree of grammar/JBLang.g4 (`Tree`) and getText of its trees (`Tokens`). The
--   parser is generated and not modelled: a tree is the input of the model.
-- - Types: class Type and its rendering (`LangType`, `LangType/Render`), the maps of TypeSystem and the
--   operations on them (`Registry`), the walks along parent classes (`Hierarchy`), the tables of
--   virtual methods (`VTable`), and the types that texts name (`Resolve`): include/jblang/types/
--   TypeSystem.h and src/types/TypeSystem.cpp, with resolveTypeFromContext of
--   src/ast/TranspilerVisitor.cpp.
-- - Symbols: include/jblang/types/SymbolTable.h.
-- - CodeGen: src/codegen/CCodeGenerator.cpp.
-- - Visitor: src/ast/TranspilerVisitor.cpp. The record Visitor is the state of TranspilerVisitor with
--   the output written so far; an action on it (Exec) may throw. `Methods` finds members and methods,
--   `Steps` and `Expressions` are the visitors of expressions, `Declarations` and `Members` those of
--   declarations up to their blocks, `Statements` those of statements, `Program` the two passes.
--   `Keeps` has the rules by which a relation between the state before and after an action is
--   proved, `Frames` the relations and what they say of the visitors; its `Printed` is about the counts
--   that blocks and `return` print.
-- - Runtime: `Machine` has pointers, size_t and stores of headers. `MarkSweep` and its `Collector` are
--   runtime/src/mark_sweep_allocator.c; `Linked`, `Zipper` and `Remove` represent its doubly linked
--   list by a list of blocks, `Find`, `Reach`, `Mark` and `Marking` treat the mark phase, `Sweep` the
--   sweep, `Collect`, `Alloc` and `Shutdown` the functions that it offers, `Listed` the
--   headers that its list leads to, `Session` runs of calls.
--   `RefCount` is runtime/src/reference_count_allocator.c: `Counted` and `Release` follow the counts,
--   `Balance` and `Stored` compare them with the references there are, `Lower`, `Drop` and `Raise` do
--   so before and after each function, `Program` and `Accounts` in a run of calls, `Progress` and
--   `Cycles` say what a program may rely on. `Simple` is runtime/src/simple_allocator.c,
--   `Interface` runtime/src/runtime.c with runtime/include/allocator_interface.h, and `Allocators` the
--   three tables of functions.
-- - Driver: src/main.cpp, with how it ends in `Exits`.
-- - Tests: sample hierarchies, programs and heaps, to which the theorems are applied.
--
-- How the parts interact: the visitors keep a symbol table and a type system, register what they meet
-- in the first pass, and call the code generator for every piece of text; the tables of virtual
-- methods are printed between the passes from what the first one registered. The driver runs both
-- passes and the commands that build the runtime; the printed main starts the runtime, registers the
-- global pointers as roots of the collector, and stops it; the printed code calls runtime.c, which
-- calls the allocator that it was built with.
--
-- Conventions. Function names are those of the source in snake case; a part of a function that is a
-- definition of its own says so in its comment. A null shared pointer is `none`. What is undefined
-- behaviour on a null tree is the result `terminate`, and so is an exception that leaves isCompatible,
-- which is noexcept. The loops along parent classes get one round more than there are classes
-- (`rounds`); without an end in these rounds the result is `hang`. They are enough where the hierarchy
-- is well formed, IsRooted: every parent is a class and no chain of parents is longer than the number
-- of classes. Where it is not, the loops of the source may run for ever. The loops along the list of
-- headers, and the depth of the recursions of mark and of dec_ref_count, get rounds too: one more than
-- there are blocks, or headers with a positive count, is enough. size_t is a number below 2 ^ 64 with
-- its wrap-around written out; the sizes of the headers are those of a machine with 8-byte words.
-- Addresses that malloc answers, the words of the memory outside the headers, and stack frames are
-- arguments. A dereference of what is not allocated is the outcome `fault`.
--
-- Not modelled: the generated lexer and parser, the debugging prints of visitProgram and of the
-- runtime, runtime_print_stats, the choice of the allocator by the preprocessor in
-- runtime/src/allocator_impl.c, the overflow of a reference count, words that mark reads across the
-- end of a block, and the functions that nothing calls: generateClassMethodBodies, getClassNames,
-- getCommonType and getBaseFileName.
pub mod Base
pub mod Syntax
pub mod Types
pub mod Symbols
pub mod CodeGen
pub mod Visitor
pub mod Runtime
pub mod Driver
pub mod Tests
