-- ===== src/Runtime/MarkSweep/Zipper.antt =====
-- The list of headers around a header: the blocks before it, the nearest first, and those from it
-- on. Headers have addresses of their own, so a write into one leaves the others.
use jb_transpiler.Base.{
  ℕ, ◌≡◌, refl, sym, ap, ◌∙◌, ◌≢◌, inl, inr, Option, some, List, [], ◌∷◌, arith,
}
use jb_transpiler.Runtime.Machine.{update}
use jb_transpiler.Runtime.MarkSweep.{MsHeader, Headers}
use jb_transpiler.Runtime.MarkSweep.Linked.{Block, In, first, Marks, header_of, Linked}

-- The blocks before are linked in this order from the last one on, whose next one is `next`.
abbrev pub Back : Headers → Marks → ℕ → List Block → Type 0
Back h m next [] = Unit
Back h m next (b ∷ before) =
    (h b.at ≡ some (header_of m b next (first before))) × (b.at ≢ 0) × Back h m b.at before

-- The whole list.
abbrev pub onto : List Block → List Block → List Block
onto [] rest = rest
onto (b ∷ before) rest = onto before (b ∷ rest)

abbrev pub Fresh : ℕ → List Block → Type 0
Fresh p [] = Unit
Fresh p (b ∷ bs) = (b.at ≢ p) × Fresh p bs

abbrev pub Distinct : List Block → Type 0
Distinct [] = Unit
Distinct (b ∷ bs) = Fresh b.at bs × Distinct bs

abbrev pub Apart : List Block → List Block → Type 0
Apart [] rest = Unit
Apart (b ∷ before) rest = Fresh b.at rest × Apart before rest

pub Linked-onto :
    (h : Headers) (m : Marks) (before rest : List Block)
    → Back h m (first rest) before
    → Linked h m (first before) rest
    → Linked h m 0 (onto before rest)
Linked-onto h m [] rest k l = l
Linked-onto h m (b ∷ before) rest k l = Linked-onto h m before (b ∷ rest) k.2 (k.0, k.1, l)

pub first-onto :
    (before : List Block) (b : Block) (xs ys : List Block)
    → first (onto before (b ∷ xs)) ≡ first (onto before (b ∷ ys))
first-onto [] b xs ys = refl
first-onto (c ∷ before) b xs ys = first-onto before c (b ∷ xs) (b ∷ ys)

pub Linked-update :
    (h : Headers) (m : Marks) (p : ℕ) (v : Option MsHeader) (prev : ℕ) (bs : List Block)
    → Fresh p bs
    → Linked h m prev bs
    → Linked (update h p v) m prev bs
Linked-update h m p v prev [] f l = tt
Linked-update h m p v prev (b ∷ bs) f l = (ground arith, l.1, Linked-update h m p v b.at bs f.1 l.2)

pub Back-update :
    (h : Headers) (m : Marks) (p : ℕ) (v : Option MsHeader) (next : ℕ) (bs : List Block)
    → Fresh p bs
    → Back h m next bs
    → Back (update h p v) m next bs
Back-update h m p v next [] f l = tt
Back-update h m p v next (b ∷ bs) f l = (ground arith, l.1, Back-update h m p v b.at bs f.1 l.2)

pub Apart-head :
    (b : Block) (before rest : List Block)
    → Apart before (b ∷ rest)
    → Fresh b.at before × Apart before rest
Apart-head b [] rest a = (tt, tt)
Apart-head b (c ∷ before) rest a =
    let (f, g) = Apart-head b before rest a.1 in ((λ e. a.0.0 (sym e), f), (a.0.1, g))

pub Fresh-In : (p : ℕ) (b : Block) (bs : List Block) → Fresh p bs → In b bs → b.at ≢ p
Fresh-In p b [] f i = elim i [ ]
Fresh-In p b (x ∷ bs) f (inl e) = λ q. f.0 (ap (λ (c : Block). c.at) (sym e) ∙ q)
Fresh-In p b (x ∷ bs) f (inr i) = Fresh-In p b bs f.1 i
