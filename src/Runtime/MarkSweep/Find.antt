-- ===== src/Runtime/MarkSweep/Find.antt =====
-- is_valid_pointer and find_header on a list of blocks.
use jb_transpiler.Base.{
  ℕ, zero, suc, ◌<◌, ◌≡◌, refl, inl, inr, Option, none, some, List, [], ◌∷◌, arith, is_some, length,
  if◌then◌else◌, Bool-cases,
}
use jb_transpiler.Runtime.Machine.{done, is_null, load}
use jb_transpiler.Runtime.MarkSweep.{
  Headers, inside, valid_loop, find_loop, is_valid_pointer, find_header,
}
use jb_transpiler.Runtime.MarkSweep.Linked.{Block, In, first, Marks, Linked}

-- The first block whose payload holds this address.
pub find_block : ℕ → List Block → Option Block
find_block ptr [] = none
find_block ptr (b ∷ bs) = if inside b.at b.size ptr then some b else find_block ptr bs

-- The block that a word points into; null points into none.
unfoldable pub target : List Block → ℕ → Option Block
target bs w = if is_null w then none else find_block w bs

abbrev pub address : Option Block → ℕ
address none = 0
address (some b) = b.at

find_block-In : (ptr : ℕ) (bs : List Block) (b : Block) → find_block ptr bs ≡ some b → In b bs
unfolding find_block
find_block-In ptr [] b e = cc
find_block-In ptr (x ∷ bs) b e = elim (Bool-cases (inside x.at x.size ptr)) [
  | inl here ↦ inl (ground arith)
  | inr past ↦ inr (find_block-In ptr bs b (ground arith))
]

pub target-In : (w : ℕ) (bs : List Block) (b : Block) → target bs w ≡ some b → In b bs
unfolding target
target-In w bs b e = ground (arith, find_block-In w bs b)

module _ (h : Headers) (m : Marks) (ptr : ℕ) where
  valid_loop_lem :
      (rounds prev : ℕ) (bs : List Block)
      → length bs < rounds
      → Linked h m prev bs
      → valid_loop rounds h (first bs) ptr ≡ done (is_some (find_block ptr bs))
  unfolding valid_loop find_block load
  valid_loop_lem zero prev bs r l = absurd (omega arith)
  valid_loop_lem (suc rounds) prev [] r l = refl
  valid_loop_lem (suc rounds) prev (b ∷ bs) r l =
      ground (arith, valid_loop_lem rounds b.at bs (omega arith) l.2)

  find_loop_lem :
      (rounds prev : ℕ) (bs : List Block)
      → length bs < rounds
      → Linked h m prev bs
      → find_loop rounds h (first bs) ptr ≡ done (address (find_block ptr bs))
  unfolding find_loop find_block load
  find_loop_lem zero prev bs r l = absurd (omega arith)
  find_loop_lem (suc rounds) prev [] r l = refl
  find_loop_lem (suc rounds) prev (b ∷ bs) r l =
      ground (arith, find_loop_lem rounds b.at bs (omega arith) l.2)

  pub is_valid_pointer_lem :
      (rounds prev : ℕ) (bs : List Block)
      → length bs < rounds
      → Linked h m prev bs
      → is_valid_pointer rounds h (first bs) ptr ≡ done (is_some (target bs ptr))
  unfolding is_valid_pointer target
  is_valid_pointer_lem rounds prev bs r l = ground (arith, valid_loop_lem rounds prev bs r l)

  pub find_header_lem :
      (rounds prev : ℕ) (bs : List Block)
      → length bs < rounds
      → Linked h m prev bs
      → find_header rounds h (first bs) ptr ≡ done (address (target bs ptr))
  unfolding find_header target
  find_header_lem rounds prev bs r l = ground (arith, find_loop_lem rounds prev bs r l)
