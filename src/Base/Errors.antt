-- ===== src/Base/Errors.antt =====
-- `CompilerError` (include/jblang/core/CompilerError.h) and what else the program throws; a
-- function that may throw, or whose loop may not end, returns a `Result`.
use mathlib.Core.Path.{◌≡◌, refl, ap}
use mathlib.Core.Bool.{Bool, true, false}
use jb_transpiler.Base.Bytes.{Text}

pub data ErrorType : Type 0 where
  type_error name_error syntax_error reference_error other : ErrorType

-- The two constructors that the program calls leave `line` and `column` at -1, so they carry no
-- information and are left out.
pub data Exception : Type 0 where
  compiler_error : ErrorType → Text → Exception
  runtime_error : Text → Exception
  invalid_argument out_of_range : Exception

-- `hang`: the rounds that a loop was given did not suffice. A theorem about termination says that
-- this is not the result. `terminate`: an exception left a function that is marked `noexcept`.
pub data Result {ℓ} (A : Type ℓ) : Type ℓ where
  ok : A → Result A
  throw : Exception → Result A
  hang terminate : Result A

infixl 5 ◌>>=◌
abbrev pub ◌>>=◌ {κ ℓ} : {A : Type κ} {B : Type ℓ} → Result A → (A → Result B) → Result B
throw e >>= next = throw e
hang >>= next = hang
terminate >>= next = terminate
ok a >>= next = next a

abbrev pub no_except {ℓ} : {A : Type ℓ} → Result A → Result A
no_except (ok a) = ok a
no_except (throw e) = terminate
no_except hang = hang
no_except terminate = terminate

abbrev pub is_ok {ℓ} : {A : Type ℓ} → Result A → Bool
is_ok (ok a) = true
is_ok _ = false

-- A step that was followed by another and gave a value has given one itself.
pub step_value {κ ℓ} :
    {A : Type κ} {B : Type ℓ} {b : B} (r : Result A) (next : A → Result B)
    → (r >>= next) ≡ ok b
    → (a : A) × (next a ≡ ok b) × (r ≡ ok a)
step_value (throw e) next h = cc
step_value hang next h = cc
step_value terminate next h = cc
step_value (ok a) next h = (a, h, refl)

pub ok-injective {ℓ} : {A : Type ℓ} {a b : A} → ok a ≡ ok b → a ≡ b
ok-injective {A} {a} h = ap (value a) h
  where
    value : A → Result A → A
    value d (ok x) = x
    value d _ = d
