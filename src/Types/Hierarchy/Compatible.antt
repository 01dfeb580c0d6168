-- ===== src/Types/Hierarchy/Compatible.antt =====
-- `isCompatible` (include/jblang/types/TypeSystem.h) between pointers to classes.
use jb_transpiler.Base.{
  Text, lit, ◌==◌, eq_iff, ◌≡◌, ◌⊎◌, ◌↔◌, inl, inr, refl, sym, ◌∙◌, ap, Bool, true, false, ◌∷◌, [],
  ◌++◌, ok, if◌then◌else◌, drop, drop_last, drop_last-concat, no_except, Bool-cases, ne_of_eq-false,
}
use jb_transpiler.Types.LangType.{
  LangType, lang_type, void, int, string, bool, struct, class, no_type, is_class, is_pointer,
  is_array, struct_name,
}
use jb_transpiler.Types.LangType.Render.{type_to_string}
use jb_transpiler.Types.Registry.{TypeSystem}
use jb_transpiler.Types.Hierarchy.{is_compatible, is_subclass_of}
use jb_transpiler.Types.Hierarchy.Rooted.{IsRooted}
use jb_transpiler.Types.Hierarchy.Subclass.{Ancestor, is_subclass_of_decides}

abbrev pub IsClassPointer : LangType → Type 0
IsClassPointer t = (is_class t ≡ true) × (is_pointer t ≡ true) × (is_array t ≡ false)

abbrev pointer_text : Text → Text
pointer_text name = (lit "struct " ++ name) ++ b'*' ∷ []

type_to_string-IsClassPointer :
    (t : LangType) → IsClassPointer t → type_to_string t ≡ ok (pointer_text (struct_name t))
unfolding type_to_string lit
type_to_string-IsClassPointer (lang_type a class p c s q v ms) (k, e, f) = rw (e, f)
type_to_string-IsClassPointer (lang_type a void p c s q v ms) (k, e, f) = cc
type_to_string-IsClassPointer (lang_type a int p c s q v ms) (k, e, f) = cc
type_to_string-IsClassPointer (lang_type a string p c s q v ms) (k, e, f) = cc
type_to_string-IsClassPointer (lang_type a bool p c s q v ms) (k, e, f) = cc
type_to_string-IsClassPointer (lang_type a struct p c s q v ms) (k, e, f) = cc
type_to_string-IsClassPointer (lang_type a no_type p c s q v ms) (k, e, f) = cc

pointer_text-injective : (a b : Text) → pointer_text a ≡ pointer_text b → a ≡ b
unfolding lit
pointer_text-injective a b h = ap (drop 7) (
    sym (drop_last-concat b'*' (lit "struct " ++ a))
    ∙ ap drop_last h
    ∙ drop_last-concat b'*' (lit "struct " ++ b))

-- In a well-formed hierarchy a pointer to one class is compatible with a pointer to another exactly
-- if the classes are the same or the second is an ancestor of the first; the test always ends, with
-- no exception.
pub is_compatible_lem :
    (ts : TypeSystem) (from to : LangType)
    → IsRooted ts.classes
    → IsClassPointer from
    → IsClassPointer to
    → (b : Bool) × (is_compatible ts from to ≡ ok b)
      × ((b ≡ true) ↔ (
          (struct_name from ≡ struct_name to)
          ⊎ Ancestor ts.classes (struct_name from) (struct_name to)))
unfolding is_compatible
is_compatible_lem ts from to rooted f t =
    rw
      (type_to_string-IsClassPointer from f, type_to_string-IsClassPointer to t, f.0, f.1, t.0, t.1)
      (decided (Bool-cases (pointer_text (struct_name from) == pointer_text (struct_name to))))
  where
    decided :
        (((pointer_text (struct_name from) == pointer_text (struct_name to)) ≡ true)
          ⊎ ((pointer_text (struct_name from) == pointer_text (struct_name to)) ≡ false))
        → (b : Bool) × (no_except (
              if pointer_text (struct_name from) == pointer_text (struct_name to)
              then ok true
              else is_subclass_of ts (struct_name from) (struct_name to))
            ≡ ok b)
          × ((b ≡ true) ↔ (
              (struct_name from ≡ struct_name to)
              ⊎ Ancestor ts.classes (struct_name from) (struct_name to)))
    decided (inl same) = (
      true,
      rw same,
      (
        λ e. inl (
            pointer_text-injective (struct_name from) (struct_name to)
              ((eq_iff (pointer_text (struct_name from)) (pointer_text (struct_name to))).0 same)),
        λ e. refl,
      ),
    )
    decided (inr other) =
        let (b, ends, iff) = is_subclass_of_decides ts (struct_name from) (struct_name to) rooted in
        (b, rw (other, ends), (λ e. inr (iff.0 e), by_case iff))
      where
        by_case :
            {b : Bool}
            → ((b ≡ true) ↔ Ancestor ts.classes (struct_name from) (struct_name to))
            → (struct_name from ≡ struct_name to)
              ⊎ Ancestor ts.classes (struct_name from) (struct_name to)
            → b ≡ true
        by_case iff (inr a) = iff.1 a
        by_case iff (inl e) = absurd (
            ne_of_eq-false (pointer_text (struct_name from)) (pointer_text (struct_name to)) other
              (ap pointer_text e))
