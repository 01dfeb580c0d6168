-- ===== src/Runtime/Machine.antt =====
-- What the allocators of runtime/src stand on: `size_t` and pointers as numbers below 2 ^ 64, blocks
-- of memory by their addresses, `AllocatorStats` of runtime/include/runtime.h, and the ways in which
-- a call of C may end.
use jb_transpiler.Base.{
  ℕ, ◌+◌, ◌-◌, ◌≡◌, ◌≢◌, ◌⊎◌, List, [], ◌∷◌, refl, arith, false, Bool, Option, none, some, ltb, eqb,
  if◌then◌else◌,
}
use Prim.Native.Nat.{◌%◌, ◌^◌}

-- `exited`: the process called `exit`. `fault`: a null pointer or a block that is not allocated was
-- dereferenced. `hang`: a loop did not end in the rounds that it was given.
pub data Outcome {ℓ} (A : Type ℓ) : Type ℓ where
  done : A → Outcome A
  exited : ℕ → Outcome A
  fault hang : Outcome A

infixl 5 ◌>>=◌
abbrev pub ◌>>=◌ {κ ℓ} : {A : Type κ} {B : Type ℓ} → Outcome A → (A → Outcome B) → Outcome B
done a >>= next = next a
exited n >>= next = exited n
fault >>= next = fault
hang >>= next = hang

abbrev pub size_mod : ℕ
size_mod = 2 ^ 64

-- `size_t` addition and subtraction, and a pointer moved by a number of bytes
abbrev pub add_size : ℕ → ℕ → ℕ
add_size a b = (a + b) % size_mod

abbrev pub sub_size : ℕ → ℕ → ℕ
sub_size a b = (a + size_mod - b) % size_mod

abbrev pub is_null : ℕ → Bool
is_null p = eqb p 0

-- The blocks that are allocated, by their addresses.
abbrev pub Store : Type 0 → Type 0
Store A = ℕ → Option A

abbrev pub update : {A : Type 0} → Store A → ℕ → Option A → Store A
update h p v q = if eqb p q then v else h q

unfoldable pub load : {A : Type 0} → Store A → ℕ → Outcome A
load h p = elim (h p) [ none ↦ fault | some a ↦ done a ]

-- A field of a block is written.
unfoldable pub modify : {A : Type 0} → (A → A) → Store A → ℕ → Outcome (Store A)
modify f h p = elim (h p) [ none ↦ fault | some a ↦ done (update h p (some (f a))) ]

unfoldable pub free : {A : Type 0} → Store A → ℕ → Outcome (Store A)
free h p = elim (h p) [ none ↦ fault | some a ↦ done (update h p none) ]

pub is_null_of_ne : (p : ℕ) → p ≢ 0 → is_null p ≡ false
is_null_of_ne p h = ground arith

module _ {A : Type 0} (h : Store A) (p : ℕ) (a : A) where
  pub load-some : h p ≡ some a → load h p ≡ done a
  unfolding load
  load-some e = rw (e, load) refl

  pub modify-some : (f : A → A) → h p ≡ some a → modify f h p ≡ done (update h p (some (f a)))
  unfolding modify
  modify-some f e = rw (e, modify) refl

  pub free-some : h p ≡ some a → free h p ≡ done (update h p none)
  unfolding free
  free-some e = rw (e, free) refl

  pub update_self : (v : Option A) → update h p v p ≡ v
  update_self v = ground arith

-- Steps in sequence may be grouped either way.
pub bind_assoc {κ ℓ μ} :
    {A : Type κ} {B : Type ℓ} {C : Type μ} (m : Outcome A) (f : A → Outcome B) (g : B → Outcome C)
    → ((m >>= f) >>= g) ≡ (m >>= λ a. f a >>= g)
bind_assoc (done a) f g = refl
bind_assoc (exited n) f g = refl
bind_assoc fault f g = refl
bind_assoc hang f g = refl

-- Membership, in the form that proofs take apart.
abbrev pub In : {A : Type 0} → A → List A → Type 0
In a [] = ⊥
In a (x ∷ xs) = (a ≡ x) ⊎ In a xs

pub record AllocatorStats : Type 0 where
  pub total_allocations : ℕ
  pub current_bytes : ℕ
  pub peak_bytes : ℕ
  pub total_collections : ℕ

abbrev pub no_stats : AllocatorStats
no_stats = record {
  total_allocations = 0;
  current_bytes = 0;
  peak_bytes = 0;
  total_collections = 0;
}

-- The part that the three allocators share: a block of this size was allocated.
unfoldable pub count_alloc : ℕ → AllocatorStats → AllocatorStats
count_alloc size s =
    let current = add_size s.current_bytes size in
    record {
      total_allocations = add_size s.total_allocations 1;
      current_bytes = current;
      peak_bytes = if ltb s.peak_bytes current then current else s.peak_bytes;
      total_collections = s.total_collections;
    }

-- A block of this size was freed by a collection.
unfoldable pub count_free : ℕ → AllocatorStats → AllocatorStats
count_free size s = record s {
  current_bytes = sub_size s.current_bytes size;
  total_collections = add_size s.total_collections 1;
}
