-- ===== src/Types/Resolve/Pointers.antt =====
-- What `translateType` (src/types/TypeSystem.cpp) makes of the text of a pointer type.
use jb_transpiler.Base.{
  Text, Lacks, ◌≡◌, ◌∙◌, refl, sym, ap₂, true, Option, ◌∷◌, ◌++◌, arith, Result, ok, throw, ◌>>=◌,
  find_byte, find_byte-append, Lacks-append, take-append, hang, terminate,
}
use jb_transpiler.Types.LangType.{LangType, set_pointer}
use jb_transpiler.Types.Registry.{TypeSystem}
use jb_transpiler.Types.Resolve.{
  find_base, or_unknown, with_pointer, with_array, translate_at, translate_type,
}

bind-ok : (m : Result LangType) → (m >>= λ t. ok t) ≡ m
bind-ok (ok t) = refl
bind-ok (throw e) = refl
bind-ok hang = refl
bind-ok terminate = refl

-- A text with no bracket and no star is looked up as it is.
pub translate_type_plain :
    (ts : TypeSystem) (s : Text)
    → Lacks b'[' s
    → Lacks b'*' s
    → translate_type ts s ≡ or_unknown s (find_base ts s)
translate_type_plain ts s nb ns =
    unfold translate_type in
    ap₂ (translate_at ts s) ns nb
    ∙ (unfold with_array with_pointer in bind-ok (or_unknown s (find_base ts s)))

translate_type_star :
    (ts : TypeSystem) (s rest : Text)
    → Lacks b'[' s
    → Lacks b'*' s
    → Lacks b'[' rest
    → translate_type ts (s ++ b'*' ∷ rest)
      ≡ (or_unknown (s ++ b'*' ∷ rest) (find_base ts s) >>= λ type. ok (set_pointer true type))
translate_type_star ts s rest nb ns nr =
    unfold translate_type in
    ap₂ (translate_at ts (s ++ b'*' ∷ rest)) (find_byte-append b'*' s rest ns)
      (Lacks-append b'[' s (b'*' ∷ rest) nb (unfold find_byte in ground (arith, nr)))
    ∙ (unfold with_array with_pointer in rw (take-append s b'*' rest))

-- A pointer type resolves to the type that its base resolves to, made a pointer; stars after the
-- first change nothing.
pub translate_type_pointer :
    (ts : TypeSystem) (s rest : Text) (type : LangType)
    → Lacks b'[' s
    → Lacks b'*' s
    → Lacks b'[' rest
    → translate_type ts s ≡ ok type
    → translate_type ts (s ++ b'*' ∷ rest) ≡ ok (set_pointer true type)
translate_type_pointer ts s rest type nb ns nr h =
    translate_type_star ts s rest nb ns nr
    ∙ found (find_base ts s) (sym (translate_type_plain ts s nb ns) ∙ h)
  where
    found :
        (o : Option LangType)
        → or_unknown s o ≡ ok type
        → (or_unknown (s ++ b'*' ∷ rest) o >>= λ type. ok (set_pointer true type))
          ≡ ok (set_pointer true type)
    found o e = unfold or_unknown in ground arith
