-- ===== src/Types/Resolve/Keywords.antt =====
-- What `resolveTypeFromContext` (src/ast/TranspilerVisitor.cpp) makes of stars and keywords.
use jb_transpiler.Base.{
  ℕ, zero, suc, append-nil, Text, Lacks, lit, ◌==◌, ◌≡◌, ◌∙◌, refl, sym, ap, true, false, none,
  some, [], ◌∷◌, ◌++◌, append_assoc, arith, ok, throw, runtime_error, find_byte, Lacks-append, take,
  ends_with_byte-concat, drop_last-concat, ends_with_byte-Lacks,
}
use jb_transpiler.Types.LangType.{LangType, lang_type, set_pointer}
use jb_transpiler.Types.Registry.{TypeSystem}
use jb_transpiler.Types.Resolve.{
  find_base, find_registered, or_unknown, translate_type, resolve_struct, resolve_type_text,
  resolve_type_from_context,
}
use jb_transpiler.Types.Resolve.Pointers.{translate_type_plain, translate_type_pointer}
use jb_transpiler.Syntax.{
  TypeSpec, named, pointer, no_keyword, struct_keyword, class_keyword, type_spec_text,
}

-- `spec*…*`, with `n` stars
abbrev pub stars : ℕ → TypeSpec → TypeSpec
stars zero spec = spec
stars (suc n) spec = pointer (stars n spec)

abbrev star_text : ℕ → Text
star_text zero = []
star_text (suc n) = b'*' ∷ star_text n

star_text-concat : (n : ℕ) → star_text n ++ b'*' ∷ [] ≡ star_text (suc n)
star_text-concat zero = refl
star_text-concat (suc n) = ap (λ r. b'*' ∷ r) (star_text-concat n)

type_spec_text-stars :
    (n : ℕ) (spec : TypeSpec) → type_spec_text (stars n spec) ≡ type_spec_text spec ++ star_text n
unfolding type_spec_text lit
type_spec_text-stars zero spec = sym (append-nil (type_spec_text spec))
type_spec_text-stars (suc n) spec =
    ap (λ r. r ++ b'*' ∷ []) (type_spec_text-stars n spec)
    ∙ append_assoc (type_spec_text spec) (star_text n) (b'*' ∷ [])
    ∙ ap (λ r. type_spec_text spec ++ r) (star_text-concat n)

star_text-Lacks : (n : ℕ) → Lacks b'[' (star_text n)
unfolding find_byte
star_text-Lacks zero = refl
star_text-Lacks (suc n) = ground (arith, star_text-Lacks n)

-- The type with a pointer for any number of stars but none.
abbrev pub starred : ℕ → LangType → LangType
starred zero type = type
starred (suc n) type = set_pointer true type

translate_type_stars :
    (ts : TypeSystem) (n : ℕ) (id : Text) (type : LangType)
    → Lacks b'[' id
    → Lacks b'*' id
    → translate_type ts id ≡ ok type
    → translate_type ts (id ++ star_text n) ≡ ok (starred n type)
translate_type_stars ts zero id type nb ns h = rw (append-nil id) h
translate_type_stars ts (suc n) id type nb ns h =
    translate_type_pointer ts id (star_text n) type nb ns (star_text-Lacks n) h

set_pointer-starred :
    (n : ℕ) (type : LangType) → set_pointer true (starred n type) ≡ set_pointer true type
set_pointer-starred zero (lang_type a b p c s q v ms) = refl
set_pointer-starred (suc n) (lang_type a b p c s q v ms) = refl

resolve_struct_stars :
    (ts : TypeSystem) (n : ℕ) (id : Text) (type : LangType)
    → Lacks b'[' id
    → Lacks b'*' id
    → translate_type ts id ≡ ok type
    → resolve_struct ts (id ++ star_text n) ≡ ok (starred n type)
resolve_struct_stars ts zero id type nb ns h =
    unfold resolve_struct in rw (append-nil id) (rw (ends_with_byte-Lacks b'*' id ns) h)
resolve_struct_stars ts (suc n) id type nb ns h =
    unfold resolve_struct in
    rw (← star_text-concat n) (
      rw (← append_assoc id (star_text n) (b'*' ∷ [])) (
        rw (ends_with_byte-concat b'*' (id ++ star_text n)) (
          rw (drop_last-concat b'*' (id ++ star_text n))
            (rw (translate_type_stars ts n id type nb ns h) (ap ok (set_pointer-starred n type))))))

resolve_other_text :
    (ts : TypeSystem) (s : Text)
    → (take 6 s == lit "struct") ≡ false
    → resolve_type_text ts s ≡ translate_type ts s
unfolding resolve_type_text
resolve_other_text ts s e = rw e

resolve_struct_text :
    (ts : TypeSystem) (s : Text) → resolve_type_text ts (lit "struct" ++ s) ≡ resolve_struct ts s
unfolding resolve_type_text lit ◌==◌
resolve_struct_text ts s = refl

-- A name that resolves does so with any number of stars, and with `struct` before it: with a star
-- to the type made a pointer. The name must not begin with `struct` itself.
pub resolve_type_from_context_named :
    (ts : TypeSystem) (n : ℕ) (id : Text) (type : LangType)
    → Lacks b'[' id
    → Lacks b'*' id
    → (take 6 (id ++ star_text n) == lit "struct") ≡ false
    → translate_type ts id ≡ ok type
    → (resolve_type_from_context ts (some (stars n (named no_keyword id))) ≡ ok (starred n type))
      × (resolve_type_from_context ts (some (stars n (named struct_keyword id)))
          ≡ ok (starred n type))
unfolding resolve_type_from_context
resolve_type_from_context_named ts n id type nb ns other h = (
  rw (type_spec_text-stars n (named no_keyword id)) (
      unfold type_spec_text lit in
      resolve_other_text ts (id ++ star_text n) other ∙ translate_type_stars ts n id type nb ns h),
  rw (type_spec_text-stars n (named struct_keyword id)) (
      unfold type_spec_text in
      rw (append_assoc (lit "struct") id (star_text n))
        (resolve_struct_text ts (id ++ star_text n) ∙ resolve_struct_stars ts n id type nb ns h)),
)

find_base_class :
    (ts : TypeSystem) (id : Text)
    → find_base ts (lit "class" ++ id) ≡ find_registered ts (lit "class" ++ id)
unfolding find_base lit ◌==◌
find_base_class ts id = refl

-- `class` before a name becomes a part of the name that is looked up, so that the name of a class
-- is unknown there.
pub resolve_type_from_context_class :
    (ts : TypeSystem) (id : Text)
    → Lacks b'[' id
    → Lacks b'*' id
    → find_registered ts (lit "class" ++ id) ≡ none
    → resolve_type_from_context ts (some (named class_keyword id))
      ≡ throw (runtime_error (lit "Unknown type: " ++ (lit "class" ++ id)))
unfolding resolve_type_from_context type_spec_text
resolve_type_from_context_class ts id nb ns absent =
    resolve_other_text ts (lit "class" ++ id) (unfold lit ◌==◌ in refl)
    ∙ translate_type_plain ts (lit "class" ++ id)
        (Lacks-append b'[' (lit "class") id (unfold lit find_byte in refl) nb)
        (Lacks-append b'*' (lit "class") id (unfold lit find_byte in refl) ns)
    ∙ ap (or_unknown (lit "class" ++ id)) (find_base_class ts id ∙ absent)
    ∙ (unfold or_unknown in refl)
