-- ===== src/Runtime/MarkSweep/Listed.antt =====
-- The headers that the list of runtime/src/mark_sweep_allocator.c leads to, and the block that is
-- given back to it.
use jb_transpiler.Base.{
  ℕ, ◌+◌, ◌<◌, ◌≡◌, ◌≢◌, ◌⊎◌, ◌↔◌, inl, inr, refl, ap, sym, ◌∙◌, subst, some, none, List, [], ◌∷◌,
  arith, length, suc,
}
use jb_transpiler.Runtime.Machine.{done, size_mod, add_size}
use jb_transpiler.Runtime.MarkSweep.{MsHeader, Headers, MarkSweep, header_size}
use jb_transpiler.Runtime.MarkSweep.Collector.{ms_dealloc}
use jb_transpiler.Runtime.MarkSweep.Linked.{Block, In, first, Marks, header_of, Linked, Linked-In}
use jb_transpiler.Runtime.MarkSweep.Zipper.{onto}
use jb_transpiler.Runtime.MarkSweep.Collect.{Holds}
use jb_transpiler.Runtime.MarkSweep.Shutdown.{ms_dealloc_lem}

-- From `current` on, the list has the header at `p`.
pub data Listed (h : Headers) : ℕ → ℕ → Type 0 where
  here : {p : ℕ} → p ≢ 0 → Listed h p p
  later :
      {current p : ℕ} (a : MsHeader)
      → current ≢ 0
      → h current ≡ some a
      → Listed h a.next p
      → Listed h current p

Listed-onto :
    (h : Headers) (m : Marks) (prev current p : ℕ) (before bs : List Block)
    → Listed h current p
    → current ≡ first bs
    → Linked h m prev bs
    → (front : List Block) × (b : Block) × (rest : List Block) × (onto before bs
        ≡ onto front (b ∷ rest))
      × (b.at ≡ p)
Listed-onto h m prev current p before [] (here n) e l = absurd (n e)
Listed-onto h m prev current p before (b ∷ bs) (here n) e l = (before, b, bs, refl, sym e)
Listed-onto h m prev current p before [] (later a n f r) e l = absurd (n e)
Listed-onto h m prev current p before (b ∷ bs) (later a n f r) e l =
    let same : a ≡ header_of m b (first bs) prev =
      let both : some a ≡ some (header_of m b (first bs) prev) = sym f ∙ ap h e ∙ l.0 in cc in
    Listed-onto h m b.at a.next p (b ∷ before) bs r (ap (λ (x : MsHeader). x.next) same) l.2

In-parts :
    (x : Block) (before rest : List Block) → In x (onto before rest) → In x before ⊎ In x rest
In-parts x [] rest i = inr i
In-parts x (b ∷ before) rest i = elim (In-parts x before (b ∷ rest) i) [
  | inl j ↦ inl (inr j)
  | inr j ↦ elim j [ inl e ↦ inl (inl e) | inr k ↦ inr k ]
]

In-onto : (x : Block) (before rest : List Block) → In x before ⊎ In x rest → In x (onto before rest)
In-onto x [] rest (inl i) = absurd i
In-onto x [] rest (inr i) = i
In-onto x (b ∷ before) rest (inl i) = elim i [
  | inl e ↦ In-onto x before (b ∷ rest) (inr (inl e))
  | inr j ↦ In-onto x before (b ∷ rest) (inl j)
]
In-onto x (b ∷ before) rest (inr i) = In-onto x before (b ∷ rest) (inr (inr i))

length-onto : (before rest : List Block) → length (onto before rest) ≡ length before + length rest
length-onto [] rest = omega arith
length-onto (b ∷ before) rest = omega (arith, length-onto before (b ∷ rest))

In-more :
    (x b : Block) (before rest : List Block)
    → In x (onto before rest)
    → In x (onto before (b ∷ rest))
In-more x b before rest i =
    In-onto x before (b ∷ rest)
      (elim (In-parts x before rest i) [ inl j ↦ inl j | inr j ↦ inr (inr j) ])

In-others :
    (x b : Block) (before rest : List Block)
    → In x (onto before (b ∷ rest))
    → (x ≡ b) ⊎ In x (onto before rest)
In-others x b before rest i = elim (In-parts x before (b ∷ rest) i) [
  | inl j ↦ inr (In-onto x before rest (inl j))
  | inr j ↦ elim j [ inl e ↦ inl e | inr k ↦ inr (In-onto x before rest (inr k)) ]
]

-- Where the allocator holds blocks, the block of a header that the list leads to, and that does not
-- reach past 2 ^ 64, can be given back: the call returns, the header is freed, and the allocator
-- holds exactly the blocks at other addresses, one fewer than before.
pub ms_dealloc-Listed :
    (st : MarkSweep) (p : ℕ) (bs : List Block)
    → Holds st bs
    → Listed st.headers st.allocation_list p
    → p + header_size < size_mod
    → (st' : MarkSweep) × (live : List Block) × (ms_dealloc (add_size p header_size) st ≡ done st')
      × Holds st' live
      × ((x : Block) → In x live ↔ (In x bs × (x.at ≢ p)))
      × (suc (length live) ≡ length bs)
      × (st'.headers p ≡ none)
ms_dealloc-Listed st p bs v i lt =
    let (front, b, rest, split, at) =
      Listed-onto st.headers v.marks 0 st.allocation_list p [] bs i v.list v.linked in
    let (st', f, w, gone) =
      ms_dealloc_lem st b front rest (subst (λ x. Holds st x) split v)
        (subst (λ x. x + header_size < size_mod) (sym at) lt) in
    let freed = subst (λ x. st'.headers x ≡ none) at gone in
    (
      st',
      onto front rest,
      subst (λ x. ms_dealloc (add_size x header_size) st ≡ done st') at f,
      w,
      λ x. (
        λ j.
            let (_, _, there, _) = Linked-In st'.headers w.marks x 0 (onto front rest) w.linked j in
            (
              subst (λ y. In x y) (sym split) (In-more x b front rest j),
              λ q. (let none_there = ap st'.headers q ∙ freed in cc),
            ),
        λ (j, n). elim (In-others x b front rest (subst (λ y. In x y) split j)) [
          | inl e ↦ absurd (n (ap (λ (y : Block). y.at) e ∙ at))
          | inr k ↦ k
        ],
      ),
      omega (arith, ap length split, length-onto front rest, length-onto front (b ∷ rest)),
      freed,
    )
