-- ===== src/Visitor/Keeps/Parts.antt =====
-- What the parts of the visitors of expressions change: the output and the count of temporaries.
use jb_transpiler.Base.{Text, Option, none, some, List}
use jb_transpiler.Types.LangType.{Function}
use jb_transpiler.Symbols.{Variable}
use jb_transpiler.Visitor.{Visitor}
use jb_transpiler.Visitor.Steps.{
  find_pointer, emit_inc_ref, emit_dec_ref, cast_between, inc_assigned, assign_texts, inc_argument,
  dec_argument, fresh_temp, begin_new, end_new, find_called, call_text, initializer_text,
}
use jb_transpiler.Visitor.Methods.{Found}
use jb_transpiler.Visitor.Keeps.{
  IsFrame, Writes, Keeps, keeps_rules, Keeps-count, Keeps-bind, Keeps-if, Keeps-is_first_pass,
  Keeps-pure, Keeps-crash,
}

module _ {R : Visitor → Visitor → Type 0} (w : Writes R) where
  pub find_pointer-Keeps : (name : Text) → Keeps R (find_pointer name)
  unfolding find_pointer
  find_pointer-Keeps name = search (keeps_rules, w.frame)

  pub emit_inc_ref-Keeps :
      (indent other : Text) (var : Variable) → Keeps R (emit_inc_ref indent other var)
  unfolding emit_inc_ref
  emit_inc_ref-Keeps indent other var = search (keeps_rules, w, w.frame)

  pub emit_dec_ref-Keeps : (indent : Text) (var : Variable) → Keeps R (emit_dec_ref indent var)
  unfolding emit_dec_ref
  emit_dec_ref-Keeps indent var = search (keeps_rules, w, w.frame)

  pub cast_between-Keeps :
      (from to : Option Variable) (text : Text) → Keeps R (cast_between from to text)
  unfolding cast_between
  cast_between-Keeps none to text = search (keeps_rules, w.frame)
  cast_between-Keeps (some from) none text = search (keeps_rules, w.frame)
  cast_between-Keeps (some from) (some to) text = search (keeps_rules, w.frame)

  pub inc_assigned-Keeps :
      (indent left : Text) (from : Variable) → Keeps R (inc_assigned indent left from)
  unfolding inc_assigned
  inc_assigned-Keeps indent left from =
      search (keeps_rules, w.frame, emit_inc_ref-Keeps, find_pointer-Keeps)

  pub assign_texts-Keeps : (left right : Text) → Keeps R (assign_texts left right)
  unfolding assign_texts
  assign_texts-Keeps left right =
      search
        (
          keeps_rules, w.frame, inc_assigned-Keeps, emit_dec_ref-Keeps, find_pointer-Keeps,
          cast_between-Keeps,
        )
        depth 14

  pub inc_argument-Keeps : (indent text : Text) → Keeps R (inc_argument indent text)
  unfolding inc_argument
  inc_argument-Keeps indent text =
      search (keeps_rules, w.frame, emit_inc_ref-Keeps, find_pointer-Keeps)

  pub dec_argument-Keeps : (indent text : Text) → Keeps R (dec_argument indent text)
  unfolding dec_argument
  dec_argument-Keeps indent text = search (keeps_rules, w.frame, find_pointer-Keeps)

  pub fresh_temp-Keeps : Keeps R fresh_temp
  unfolding fresh_temp
  fresh_temp-Keeps = search (keeps_rules, w, w.frame, Keeps-count)

  pub begin_new-Keeps : (name : Text) → Keeps R (begin_new name)
  unfolding begin_new
  begin_new-Keeps name = search (keeps_rules, w, w.frame, fresh_temp-Keeps) depth 14

  pub end_new-Keeps :
      (constructor : Function) (temp : Text) (args : List Text)
      → Keeps R (end_new constructor temp args)
  unfolding end_new
  end_new-Keeps constructor temp args = search (keeps_rules, w, w.frame)

  pub find_called-Keeps : (object name : Text) → Keeps R (find_called object name)
  unfolding find_called
  find_called-Keeps object name = search (keeps_rules, w.frame) depth 14

  pub call_text-Keeps :
      (object name : Text) (var : Variable) (found : Found) (args : List Text)
      → Keeps R (call_text object name var found args)
  unfolding call_text
  call_text-Keeps object name var found args = search (keeps_rules, w.frame)

  pub initializer_text-Keeps :
      (indent name value : Text) → Keeps R (initializer_text indent name value)
  unfolding initializer_text
  initializer_text-Keeps indent name value =
      search (keeps_rules, w.frame, emit_inc_ref-Keeps, find_pointer-Keeps)

  pub ruleset writing_rules = (
    keeps_rules, find_pointer-Keeps, emit_inc_ref-Keeps, emit_dec_ref-Keeps, cast_between-Keeps,
    assign_texts-Keeps, inc_argument-Keeps, dec_argument-Keeps, begin_new-Keeps, end_new-Keeps,
    find_called-Keeps, call_text-Keeps, initializer_text-Keeps,
  )
