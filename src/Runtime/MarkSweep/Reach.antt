-- ===== src/Runtime/MarkSweep/Reach.antt =====
-- What a conservative collector takes for reachable, and the marks before and after a visit.
use jb_transpiler.Base.{
  ℕ, zero, suc, ◌+◌, ◌-◌, ◌≤◌, ◌<◌, ◌≡◌, inl, inr, true, false, some, List, [], ◌∷◌, arith, ltb,
  if◌then◌else◌, Bool-cases, ap,
}
use jb_transpiler.Runtime.Machine.{add_size}
use jb_transpiler.Runtime.MarkSweep.{word_size, header_size}
use jb_transpiler.Runtime.MarkSweep.Linked.{Block, In, Marks, set_mark}
use jb_transpiler.Runtime.MarkSweep.Find.{target}

-- The words from `p` up to `end`, at most so many.
unfoldable pub words : (ℕ → ℕ) → ℕ → ℕ → ℕ → List ℕ
words word zero p end = []
words word (suc left) p end = if ltb p end then word p ∷ words word left (p + word_size) end else []

unfoldable pub range_words : (ℕ → ℕ) → ℕ → ℕ → List ℕ
range_words word p end = words word (suc (end - p)) p end

-- The words of a block's payload.
unfoldable pub block_words : (ℕ → ℕ) → Block → List ℕ
block_words word b = range_words word (add_size b.at header_size) (add_size b.at b.size)

-- A block is reachable if a root points into it, or a word of a reachable block does.
pub data Reach (word : ℕ → ℕ) (bs : List Block) (roots : List ℕ) : Block → Type 0 where
  root : (w : ℕ) (b : Block) → In w roots → target bs w ≡ some b → Reach word bs roots b
  via :
      (a b : Block) (w : ℕ)
      → Reach word bs roots a
      → In w (block_words word a)
      → target bs w ≡ some b
      → Reach word bs roots b

-- The number of blocks without a mark.
unfoldable pub unmarked : Marks → List Block → ℕ
unmarked m [] = 0
unmarked m (b ∷ bs) = if m b.at then unmarked m bs else suc (unmarked m bs)

abbrev pub Grows : Marks → Marks → Type 0
Grows m n = (p : ℕ) → m p ≡ true → n p ≡ true

pub unmarked-Grows : (m n : Marks) (bs : List Block) → Grows m n → unmarked n bs ≤ unmarked m bs
unfolding unmarked
unmarked-Grows m n [] g = omega arith
unmarked-Grows m n (b ∷ bs) g = ground (arith, g b.at, unmarked-Grows m n bs g)

pub Grows-set_mark : (m : Marks) (p : ℕ) → Grows m (set_mark m p true)
Grows-set_mark m p q e = ground arith

pub unmarked-set_mark :
    (m : Marks) (b : Block) (bs : List Block)
    → In b bs
    → m b.at ≡ false
    → unmarked (set_mark m b.at true) bs < unmarked m bs
unfolding unmarked
unmarked-set_mark m b [] i e = elim i [ ]
unmarked-set_mark m b (x ∷ bs) (inl p) e = ground (
  arith,
  unmarked-Grows m (set_mark m b.at true) bs (Grows-set_mark m b.at),
  ap (λ (c : Block). c.at) p,
)
unmarked-set_mark m b (x ∷ bs) (inr i) e = ground (arith, unmarked-set_mark m b bs i e)

module _ (word : ℕ → ℕ) (bs : List Block) (roots : List ℕ) where
  -- A visit only adds marks; what it marked is reachable, and all that it points into is marked.
  pub record Visited (m n : Marks) : Type 0 where
    pub grows : Grows m n
    pub closed :
        (b c : Block) (w : ℕ)
        → In b bs
        → n b.at ≡ true
        → m b.at ≡ false
        → In w (block_words word b)
        → target bs w ≡ some c
        → n c.at ≡ true
    pub sound : (b : Block) → In b bs → n b.at ≡ true → m b.at ≡ false → Reach word bs roots b

  pub Visited-refl : (m : Marks) → Visited m m
  Visited-refl m = record {
    grows = λ p e. e;
    closed = λ b c w i y n _ _. cc;
    sound = λ b i y n. absurd (let e : true ≡ false = cc in cc);
  }

  pub Visited-trans : (m n o : Marks) → Visited m n → Visited n o → Visited m o
  Visited-trans m n o f g = record {
    grows = λ p e. g.grows p (f.grows p e);
    closed = λ b c w i y z k t. elim (Bool-cases (n b.at)) [
      | inl old ↦ g.grows c.at (f.closed b c w i old z k t)
      | inr new ↦ g.closed b c w i y new k t
    ];
    sound = λ b i y z. elim (Bool-cases (n b.at)) [
      | inl old ↦ f.sound b i old z
      | inr new ↦ g.sound b i y new
    ];
  }
