-- ===== src/Base/Number.antt =====
-- `int`: its decimal text (`std::to_string`) and the number that a text begins with
-- (`std::stoi`).
use Prim.Native.Nat.{ℕ, zero, suc, ◌+◌, ◌-◌, ◌*◌, ◌/◌, ◌%◌, ◌^◌, ◌≤◌, ◌<◌}
use mathlib.Core.Path.{◌≡◌}
use mathlib.Core.Logic.{inl, inr}
use mathlib.Core.Bool.{Bool, true, false, ◌&&◌, ◌||◌}
use mathlib.Core.List.{[], ◌∷◌, ◌++◌}
use native.Mathlib.Omega.{arith}
use jb_transpiler.Base.Tests.{ltb, leb, eqb, if◌then◌else◌, Bool-cases}
use jb_transpiler.Base.Bytes.{Text}
use jb_transpiler.Base.Errors.{Result, ok, throw, invalid_argument, out_of_range}

-- `negsuc n` is -(n + 1).
pub data ℤ : Type 0 where
  pos : ℕ → ℤ
  negsuc : ℕ → ℤ

abbrev pub int_limit : ℕ
int_limit = 2 ^ 31

-- The first argument is the number of digits that there is room for.
decimal : ℕ → ℕ → Text
decimal zero n = []
decimal (suc room) n =
    let high = decimal room (n / 10) in
    if ltb n 10 then (48 + n) ∷ [] else high ++ (48 + n % 10) ∷ []

unfoldable pub to_string : ℤ → Text
unfolding decimal
to_string (pos n) = decimal (suc n) n
to_string (negsuc n) = b'-' ∷ decimal (suc (suc n)) (suc n)

is_digit : ℕ → Bool
is_digit c = leb 48 c && leb c 57

-- ' ', and '\t' to '\r'
is_space : ℕ → Bool
is_space c = eqb c 32 || (leb 9 c && leb c 13)

read_digits : ℕ → Text → ℕ
unfolding is_digit
read_digits acc [] = acc
read_digits acc (c ∷ s) =
    let rest = read_digits (acc * 10 + (c - 48)) s in if is_digit c then rest else acc

skip_space : Text → Text
unfolding is_space
skip_space [] = []
skip_space (c ∷ s) = if is_space c then skip_space s else c ∷ s

begins_digit : Text → Bool
unfolding is_digit
begins_digit [] = false
begins_digit (c ∷ s) = is_digit c

abbrev negate : ℕ → ℤ
negate zero = pos 0
negate (suc n) = negsuc n

in_range : Bool → ℕ → Result ℤ
in_range true n = if leb n int_limit then ok (negate n) else throw out_of_range
in_range false n = if ltb n int_limit then ok (pos n) else throw out_of_range

read_unsigned : Bool → Text → Result ℤ
unfolding begins_digit read_digits in_range
read_unsigned minus s =
    if begins_digit s then in_range minus (read_digits 0 s) else throw invalid_argument

read_signed : Text → Result ℤ
unfolding read_unsigned
read_signed [] = throw invalid_argument
read_signed (c ∷ s) =
    if eqb c b'-'
    then read_unsigned true s
    else if eqb c b'+'
    then read_unsigned false s
    else read_unsigned false (c ∷ s)

unfoldable pub stoi : Text → Result ℤ
unfolding skip_space read_signed
stoi s = read_signed (skip_space s)

abbrev Digits : Text → Type 0
Digits [] = Unit
Digits (c ∷ s) = (48 ≤ c) × (c ≤ 57) × Digits s

Digits-concat : (s : Text) (c : ℕ) → 48 ≤ c → c ≤ 57 → Digits s → Digits (s ++ c ∷ [])
Digits-concat [] c l h d = (l, h, tt)
Digits-concat (x ∷ s) c l h d = (d.0, d.1, Digits-concat s c l h d.2)

decimal-Digits : (room n : ℕ) → Digits (decimal room n)
unfolding decimal
decimal-Digits zero n = tt
decimal-Digits (suc room) n =
    ground
      (arith, decimal-Digits room (n / 10), Digits-concat (decimal room (n / 10)) (48 + n % 10))

read_digits-concat :
    (acc : ℕ) (s : Text) (d : ℕ)
    → d < 10
    → Digits s
    → read_digits acc (s ++ (48 + d) ∷ []) ≡ read_digits acc s * 10 + d
unfolding read_digits
read_digits-concat acc [] d l h = ground arith
read_digits-concat acc (x ∷ s) d l h = ground (arith, read_digits-concat (acc * 10 + (x - 48)) s d)

read_digits-decimal : (room n : ℕ) → n < room → read_digits 0 (decimal room n) ≡ n
unfolding decimal
read_digits-decimal zero n h = absurd (omega arith)
read_digits-decimal (suc room) n h = elim (Bool-cases (ltb n 10)) [
  | inl small ↦ rw small (unfold read_digits in ground arith)
  | inr big ↦ rw big (
      ground (
        arith,
        read_digits-concat 0 (decimal room (n / 10)) (n % 10),
        decimal-Digits room (n / 10),
        read_digits-decimal room (n / 10),
      ))
]

begins_digit-concat :
    (s : Text) (d : ℕ) → d < 10 → Digits s → begins_digit (s ++ (48 + d) ∷ []) ≡ true
unfolding begins_digit
begins_digit-concat [] d l h = ground arith
begins_digit-concat (c ∷ s) d l h = ground arith

begins_digit-decimal : (room n : ℕ) → begins_digit (decimal (suc room) n) ≡ true
unfolding decimal
begins_digit-decimal room n = elim (Bool-cases (ltb n 10)) [
  | inl small ↦ rw small (begins_digit-concat [] n (ground arith) tt)
  | inr big ↦ rw big (
      begins_digit-concat (decimal room (n / 10)) (n % 10) (omega arith)
        (decimal-Digits room (n / 10)))
]

stoi-digits : (s : Text) → begins_digit s ≡ true → stoi s ≡ in_range false (read_digits 0 s)
unfolding stoi
stoi-digits [] h = cc
stoi-digits (c ∷ s) h = ground arith

stoi-minus : (s : Text) → begins_digit s ≡ true → stoi (b'-' ∷ s) ≡ in_range true (read_digits 0 s)
unfolding stoi
stoi-minus s h = ground arith

abbrev pub IsInt : ℤ → Type 0
IsInt (pos n) = n < int_limit
IsInt (negsuc n) = n < int_limit

-- Reading back what was written gives the number, for every `int`.
pub stoi-to_string : (z : ℤ) → IsInt z → stoi (to_string z) ≡ ok z
unfolding to_string
stoi-to_string (pos n) h =
    rw (stoi-digits (decimal (suc n) n) (begins_digit-decimal n n))
      (rw (read_digits-decimal (suc n) n (omega arith)) (unfold in_range in ground arith))
stoi-to_string (negsuc n) h =
    rw (stoi-minus (decimal (suc (suc n)) (suc n)) (begins_digit-decimal (suc n) (suc n))) (
      rw (read_digits-decimal (suc (suc n)) (suc n) (omega arith))
        (unfold in_range in ground arith))
