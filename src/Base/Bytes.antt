-- ===== src/Base/Bytes.antt =====
-- `std::string`: a list of bytes, with the searches, slices, comparisons and conversions that the
-- program makes of it.
use Prim.Native.Nat.{ℕ, zero, suc}
use Prim.Native.Char.{code}
use Prim.Native.String.{String}
use mathlib.Core.Path.{◌≡◌, refl, ap, ◌∙◌}
use mathlib.Core.Logic.{◌≢◌, ◌↔◌, inl, inr}
use mathlib.Core.Bool.{Bool, true, false, ◌&&◌, ◌||◌}
use mathlib.Core.Option
use mathlib.Core.Option.{Option, none, some}
use mathlib.Core.List.{List, [], ◌∷◌, ◌++◌}
use native.Mathlib.Omega.{arith}
use jb_transpiler.Base.Tests.{ltb, eqb, if◌then◌else◌, Bool-cases, length}

abbrev pub Text : Type 0
Text = List ℕ

-- The bytes of a literal. Shut, so that a literal is one term in proofs.
unfoldable pub lit : String → Text
lit String.[] = []
lit (String.◌∷◌ c s) = code c ∷ lit s

infix 50 ◌==◌
unfoldable pub ◌==◌ : Text → Text → Bool
[] == [] = true
[] == (y ∷ ys) = false
(x ∷ xs) == [] = false
(x ∷ xs) == (y ∷ ys) = eqb x y && (xs == ys)

pub eq_iff : (a b : Text) → ((a == b) ≡ true) ↔ (a ≡ b)
unfolding ◌==◌
eq_iff [] [] = (λ _. refl, λ _. refl)
eq_iff [] (y ∷ ys) = ground arith
eq_iff (x ∷ xs) [] = ground arith
eq_iff (x ∷ xs) (y ∷ ys) = ground (arith, eq_iff xs ys)

pub eq_refl : (a : Text) → (a == a) ≡ true
eq_refl a = (eq_iff a a).1 refl

pub eq-false_of_ne : (a b : Text) → a ≢ b → (a == b) ≡ false
eq-false_of_ne a b h = ground (arith, eq_iff a b)

pub ne_of_eq-false : (a b : Text) → (a == b) ≡ false → a ≢ b
ne_of_eq-false a b h p = ground (arith, eq_iff a b)

-- `operator<`: lexicographic.
unfoldable pub text_lt : Text → Text → Bool
text_lt [] [] = false
text_lt [] (y ∷ ys) = true
text_lt (x ∷ xs) [] = false
text_lt (x ∷ xs) (y ∷ ys) = ltb x y || (eqb x y && text_lt xs ys)

pub lt_irrefl : (a : Text) → text_lt a a ≡ false
unfolding text_lt
lt_irrefl [] = refl
lt_irrefl (x ∷ xs) = ground (arith, lt_irrefl xs)

pub lt_trans : (a b c : Text) → text_lt a b ≡ true → text_lt b c ≡ true → text_lt a c ≡ true
unfolding text_lt
lt_trans a [] [] h k = ground arith
lt_trans [] (y ∷ ys) [] h k = ground arith
lt_trans (x ∷ xs) (y ∷ ys) [] h k = ground arith
lt_trans [] b (z ∷ zs) h k = refl
lt_trans (x ∷ xs) [] (z ∷ zs) h k = ground arith
lt_trans (x ∷ xs) (y ∷ ys) (z ∷ zs) h k = ground (arith, lt_trans xs ys zs)

pub lt_total : (a b : Text) → (a == b) ≡ false → text_lt a b ≡ false → text_lt b a ≡ true
unfolding text_lt ◌==◌
lt_total [] [] h k = ground arith
lt_total [] (y ∷ ys) h k = ground arith
lt_total (x ∷ xs) [] h k = refl
lt_total (x ∷ xs) (y ∷ ys) h k = ground (arith, lt_total xs ys)

-- `find(c)`: the first position of a byte, `none` for `npos`.
unfoldable pub find_byte : ℕ → Text → Option ℕ
find_byte c [] = none
find_byte c (x ∷ xs) = if eqb x c then some 0 else Option.map suc (find_byte c xs)

-- `substr(0, n)` and `substr(n)`; a length past the end is cut as the library cuts it.
abbrev pub take : ℕ → Text → Text
take zero xs = []
take (suc n) [] = []
take (suc n) (x ∷ xs) = x ∷ take n xs

abbrev pub drop : ℕ → Text → Text
drop zero xs = xs
drop (suc n) [] = []
drop (suc n) (x ∷ xs) = drop n xs

abbrev pub Lacks : ℕ → Text → Type 0
Lacks c s = find_byte c s ≡ none

pub Lacks-tail : (x c : ℕ) (s : Text) → Lacks c (x ∷ s) → Lacks c s
unfolding find_byte
Lacks-tail x c s h = ground arith

pub Lacks-append : (c : ℕ) (s t : Text) → Lacks c s → Lacks c t → Lacks c (s ++ t)
unfolding find_byte
Lacks-append c [] t h k = k
Lacks-append c (x ∷ s) t h k = ground (arith, Lacks-append c s t)

pub find_byte-append : (c : ℕ) (s t : Text) → Lacks c s → find_byte c (s ++ c ∷ t) ≡ some (length s)
unfolding find_byte
find_byte-append c [] t h = ground arith
find_byte-append c (x ∷ xs) t h = elim (Bool-cases (eqb x c)) [
  | inl same ↦ ground arith
  | inr other ↦ rw (other, find_byte) (ap (Option.map suc) (find_byte-append c xs t (ground arith)))
]

pub drop-append : (s : Text) (c : ℕ) (t : Text) → drop (suc (length s)) (s ++ c ∷ t) ≡ t
drop-append [] c t = refl
drop-append (x ∷ xs) c t = drop-append xs c t

pub take-append : (s : Text) (c : ℕ) (t : Text) → take (length s) (s ++ c ∷ t) ≡ s
take-append [] c t = refl
take-append (x ∷ xs) c t = ap (λ r. x ∷ r) (take-append xs c t)

-- The part after the first `c`, the whole text where there is none: `substr(find(c) + 1)`, where
-- `npos + 1` is 0.
abbrev after : Text → Option ℕ → Text
after s none = s
after s (some n) = drop (suc n) s

unfoldable pub after_byte : ℕ → Text → Text
unfolding find_byte
after_byte c s = after s (find_byte c s)

pub after_byte_none : (c : ℕ) (s : Text) → Lacks c s → after_byte c s ≡ s
unfolding after_byte
after_byte_none c s h = ap (after s) h

pub after_byte-append : (c : ℕ) (s t : Text) → Lacks c s → after_byte c (s ++ c ∷ t) ≡ t
unfolding after_byte
after_byte-append c s t h = ap (after (s ++ c ∷ t)) (find_byte-append c s t h) ∙ drop-append s c t

-- The part before the first `c`, the whole text where there is none.
abbrev before : Text → Option ℕ → Text
before s none = s
before s (some n) = take n s

unfoldable pub before_byte : ℕ → Text → Text
unfolding find_byte
before_byte c s = before s (find_byte c s)

pub before_byte_none : (c : ℕ) (s : Text) → Lacks c s → before_byte c s ≡ s
unfolding before_byte
before_byte_none c s h = ap (before s) h

pub before_byte-append : (c : ℕ) (s t : Text) → Lacks c s → before_byte c (s ++ c ∷ t) ≡ s
unfolding before_byte
before_byte-append c s t h = ap (before (s ++ c ∷ t)) (find_byte-append c s t h) ∙ take-append s c t

-- `back() == c` of a text that may be empty, and `substr(0, length() - 1)`
unfoldable pub ends_with_byte : ℕ → Text → Bool
ends_with_byte c [] = false
ends_with_byte c (x ∷ []) = eqb x c
ends_with_byte c (x ∷ y ∷ s) = ends_with_byte c (y ∷ s)

unfoldable pub drop_last : Text → Text
drop_last [] = []
drop_last (x ∷ []) = []
drop_last (x ∷ y ∷ s) = x ∷ drop_last (y ∷ s)

pub ends_with_byte-concat : (c : ℕ) (s : Text) → ends_with_byte c (s ++ c ∷ []) ≡ true
unfolding ends_with_byte
ends_with_byte-concat c [] = ground arith
ends_with_byte-concat c (x ∷ []) = ground arith
ends_with_byte-concat c (x ∷ y ∷ s) = ends_with_byte-concat c (y ∷ s)

pub drop_last-concat : (c : ℕ) (s : Text) → drop_last (s ++ c ∷ []) ≡ s
unfolding drop_last
drop_last-concat c [] = refl
drop_last-concat c (x ∷ []) = refl
drop_last-concat c (x ∷ y ∷ s) = ap (λ r. x ∷ r) (drop_last-concat c (y ∷ s))

-- A text that lacks a byte does not end with it.
pub ends_with_byte-Lacks : (c : ℕ) (s : Text) → Lacks c s → ends_with_byte c s ≡ false
unfolding ends_with_byte find_byte
ends_with_byte-Lacks c [] h = refl
ends_with_byte-Lacks c (x ∷ []) h = ground arith
ends_with_byte-Lacks c (x ∷ y ∷ s) h = ends_with_byte-Lacks c (y ∷ s) (Lacks-tail x c (y ∷ s) h)

-- `find(prefix) == 0`
unfoldable pub starts_with : Text → Text → Bool
starts_with [] s = true
starts_with (p ∷ ps) [] = false
starts_with (p ∷ ps) (x ∷ s) = eqb p x && starts_with ps s

-- `substr(0, find("->"))`, `none` where there is no arrow
unfoldable pub before_arrow : Text → Option Text
before_arrow [] = none
before_arrow (x ∷ []) = none
before_arrow (x ∷ y ∷ s) =
    if eqb x b'-' && eqb y b'>' then some [] else Option.map (λ r. x ∷ r) (before_arrow (y ∷ s))

-- `find(t) != npos`
unfoldable pub has_infix : Text → Text → Bool
has_infix t [] = starts_with t []
has_infix t (x ∷ s) = starts_with t (x ∷ s) || has_infix t s
