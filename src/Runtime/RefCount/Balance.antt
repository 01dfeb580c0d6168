-- ===== src/Runtime/RefCount/Balance.antt =====
-- When counts are right: each is the number of the references that the program holds and of those
-- that live headers have registered.
use jb_transpiler.Base.{
  ℕ, suc, ◌+◌, ◌<◌, ◌≡◌, ◌≢◌, Bool, true, false, some, none, List, [], ◌∷◌, eqb, if◌then◌else◌,
}
use jb_transpiler.Base.Number.{pos}
use jb_transpiler.Runtime.Machine.{In, sub_size}
use jb_transpiler.Runtime.RefCount.{RefcountHeader, header_of}
use jb_transpiler.Runtime.RefCount.Counted.{Headers}

-- The header of a pointer without an offset.
abbrev pub owner : ℕ → ℕ
owner p = header_of (sub_size p 0)

-- How many of these pointers lead to the header at `q`.
unfoldable pub uses : ℕ → List ℕ → ℕ
uses q [] = 0
uses q (p ∷ ps) = if eqb (owner p) q then suc (uses q ps) else uses q ps

-- Headers whose release has begun are marked as dying.
abbrev pub Dying : Type 0
Dying = ℕ → Bool

abbrev pub dies : Dying → ℕ → Dying
dies d p q = if eqb p q then true else d q

abbrev pub registered_at : Headers → Dying → ℕ → List ℕ
registered_at h d x = elim (h x) [ none ↦ [] | some a ↦ if d x then [] else a.to_free ]

-- The references that the other headers have registered.
unfoldable pub stored : Headers → Dying → List ℕ → ℕ → ℕ
stored h d [] q = 0
stored h d (x ∷ l) q = uses q (registered_at h d x) + stored h d l q

-- The number of headers that are allocated and not dying.
abbrev pub lives : Headers → Dying → ℕ → Bool
lives h d x = elim (h x) [ none ↦ false | some a ↦ if d x then false else true ]

unfoldable pub alive : Headers → Dying → List ℕ → ℕ
alive h d [] = 0
alive h d (x ∷ l) = if lives h d x then suc (alive h d l) else alive h d l

abbrev pub NotNull : List ℕ → Type 0
NotNull [] = Unit
NotNull (p ∷ ps) = (p ≢ 0) × NotNull ps

abbrev pub Apart : ℕ → List ℕ → Type 0
Apart q [] = Unit
Apart q (x ∷ l) = (x ≢ q) × Apart q l

abbrev pub Distinct : List ℕ → Type 0
Distinct [] = Unit
Distinct (x ∷ l) = Apart x l × Distinct l

-- A count is the number of the references there are.
abbrev pub IsRight : Headers → Dying → List ℕ → List ℕ → ℕ → RefcountHeader → Type 0
IsRight h d l held q a = (a.count ≡ pos (uses q held + stored h d l q)) × NotNull a.to_free

-- `held` are the references of the program.
pub record Balanced (h : Headers) (d : Dying) (l held : List ℕ) : Type 0 where
  pub covers : (q : ℕ) (a : RefcountHeader) → h q ≡ some a → In q l
  pub counts : (q : ℕ) (a : RefcountHeader) → h q ≡ some a → d q ≡ false → IsRight h d l held q a
  pub present :
      (q : ℕ)
      → 0 < uses q held + stored h d l q
      → (a : RefcountHeader) × (h q ≡ some a) × (d q ≡ false)
  pub not_null : NotNull held
