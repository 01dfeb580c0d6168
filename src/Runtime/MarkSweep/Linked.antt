-- ===== src/Runtime/MarkSweep/Linked.antt =====
-- The doubly linked list of headers as a list of blocks.
use jb_transpiler.Base.{
  ℕ, ◌≡◌, refl, ◌≢◌, inl, inr, Bool, some, List, [], ◌∷◌, arith, eqb, if◌then◌else◌,
}
use jb_transpiler.Runtime.Machine.{update}
pub use jb_transpiler.Runtime.Machine.{In}
use jb_transpiler.Runtime.MarkSweep.{MsHeader, Headers}

pub record Block : Type 0 where
  pub at : ℕ
  pub size : ℕ

-- The address of the first block, or null.
abbrev pub first : List Block → ℕ
first [] = 0
first (b ∷ bs) = b.at

-- The marks of the blocks, by their addresses.
abbrev pub Marks : Type 0
Marks = ℕ → Bool

abbrev pub set_mark : Marks → ℕ → Bool → Marks
set_mark m p v q = if eqb p q then v else m q

abbrev pub header_of : Marks → Block → ℕ → ℕ → MsHeader
header_of m b next prev = record { marked = m b.at; size = b.size; next = next; prev = prev }

-- The headers of the blocks are linked in this order, the first one back to `prev`.
abbrev pub Linked : Headers → Marks → ℕ → List Block → Type 0
Linked h m prev [] = Unit
Linked h m prev (b ∷ bs) =
    (h b.at ≡ some (header_of m b (first bs) prev)) × (b.at ≢ 0) × Linked h m b.at bs

module _ (h : Headers) where
  pub Linked-In :
      (m : Marks) (b : Block) (prev : ℕ) (bs : List Block)
      → Linked h m prev bs
      → In b bs
      → (next : ℕ) × (back : ℕ) × (h b.at ≡ some (header_of m b next back)) × (b.at ≢ 0)
  Linked-In m b prev [] l i = elim i [ ]
  Linked-In m b prev (x ∷ bs) l (inl e) = (first bs, prev, ground arith, ground arith)
  Linked-In m b prev (x ∷ bs) l (inr i) = Linked-In m b x.at bs l.2 i

  -- Two blocks of one list with one address are the same.
  pub at-injective :
      (m : Marks) (b c : Block) (prev : ℕ) (bs : List Block)
      → Linked h m prev bs
      → In b bs
      → In c bs
      → b.at ≡ c.at
      → b ≡ c
  at-injective m b c prev bs l i j e =
      let (nb, pb, hb, _) = Linked-In m b prev bs l i in
      let (nc, pc, hc, _) = Linked-In m c prev bs l j in ground arith

  -- A mark is written into the header of any block.
  pub Linked-set_mark :
      (m : Marks) (p : ℕ) (v : Bool) (a : MsHeader) (prev : ℕ) (bs : List Block)
      → h p ≡ some a
      → Linked h m prev bs
      → Linked (update h p (some (record a { marked = v }))) (set_mark m p v) prev bs
  Linked-set_mark m p v a prev [] e l = tt
  Linked-set_mark m p v a prev (b ∷ bs) e l =
      (ground arith, l.1, Linked-set_mark m p v a b.at bs e l.2)

  -- Marks that agree on the blocks are as good.
  pub Linked-agree :
      (m n : Marks) (prev : ℕ) (bs : List Block)
      → ((b : Block) → In b bs → m b.at ≡ n b.at)
      → Linked h m prev bs
      → Linked h n prev bs
  Linked-agree m n prev [] e l = tt
  Linked-agree m n prev (b ∷ bs) e l =
      (ground (arith, e b (inl refl)), l.1, Linked-agree m n b.at bs (λ c i. e c (inr i)) l.2)
