-- ===== src/Visitor/Expressions/Calls.antt =====
-- The names `METHOD_CALL:m:o` and `VIRTUAL_CALL:m:o` that `visitFunctionCall` takes apart
-- (src/ast/TranspilerVisitor.cpp).
use Prim.Native.Nat.{suc}
use jb_transpiler.Base.{ℕ, Text, Option, none, some, find_byte, take, drop}

-- `substr(secondColon + 1)`, where `npos + 1` is 0
abbrev after_second : Text → Text → Option ℕ → Text
after_second name rest none = name
after_second name rest (some j) = drop (suc j) rest

abbrev after_first : Text → ℕ → Text → Option ℕ → Text
after_first name start rest none = drop start name
after_first name start rest (some i) =
    after_second name (drop (suc i) rest) (find_byte b':' (drop (suc i) rest))

-- `objName`: what follows the second colon from `start` on. Where there is no first one, the search
-- for the second begins anew, and finds the colon just before `start`.
unfoldable pub call_object : ℕ → Text → Text
call_object start name = after_first name start (drop start name) (find_byte b':' (drop start name))

abbrev up_to : Text → Option ℕ → Text
up_to rest none = rest
up_to rest (some i) = take i rest

-- `methodName` of a virtual call
unfoldable pub virtual_method_name : Text → Text
virtual_method_name name = up_to (drop 13 name) (find_byte b':' (drop 13 name))
