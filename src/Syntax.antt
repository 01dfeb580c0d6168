-- ===== src/Syntax.antt =====
-- The parse tree of grammar/JBLang.g4: the part of it that a type is written in. `getText` joins
-- the tokens of a tree with nothing between them.
pub mod Tree
pub mod Tokens
use jb_transpiler.Base.{Text, lit, ◌++◌}

pub data Keyword : Type 0 where
  no_keyword struct_keyword class_keyword : Keyword

-- typeSpec
pub data TypeSpec : Type 0 where
  void_spec int_spec bool_spec string_spec : TypeSpec
  named : Keyword → Text → TypeSpec
  pointer : TypeSpec → TypeSpec

unfoldable pub keyword_text : Keyword → Text
keyword_text no_keyword = lit ""
keyword_text struct_keyword = lit "struct"
keyword_text class_keyword = lit "class"

unfoldable pub type_spec_text : TypeSpec → Text
unfolding keyword_text
type_spec_text void_spec = lit "void"
type_spec_text int_spec = lit "int"
type_spec_text bool_spec = lit "bool"
type_spec_text string_spec = lit "string"
type_spec_text (named keyword id) = keyword_text keyword ++ id
type_spec_text (pointer spec) = type_spec_text spec ++ lit "*"
