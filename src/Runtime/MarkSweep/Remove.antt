-- ===== src/Runtime/MarkSweep/Remove.antt =====
-- remove_allocation takes a header out of the doubly linked list.
use jb_transpiler.Base.{ℕ, ◌≡◌, refl, ap, ◌∙◌, some, none, List, [], ◌∷◌, arith}
use jb_transpiler.Runtime.Machine.{done, update, is_null_of_ne, load-some, modify-some}
use jb_transpiler.Runtime.MarkSweep.{
  MsHeader, Headers, MarkSweep, unlink_next, unlink_prev, remove_allocation,
}
use jb_transpiler.Runtime.MarkSweep.Linked.{Block, first, Marks, header_of, Linked}
use jb_transpiler.Runtime.MarkSweep.Zipper.{
  Back, onto, Distinct, Apart, first-onto, Linked-update, Back-update, Apart-head,
}

-- Nothing is allocated where nothing was.
abbrev pub OnlyFrees : Headers → Headers → Type 0
OnlyFrees h k = (p : ℕ) → h p ≡ none → k p ≡ none

OnlyFrees-update :
    (h : Headers) (p : ℕ) (a b : MsHeader) → h p ≡ some a → OnlyFrees h (update h p (some b))
OnlyFrees-update h p a b e q f = ground arith

module _ (st : MarkSweep) (m : Marks) (b : Block) where
  pub unlink_next_lem :
      (before rest : List Block)
      → st.allocation_list ≡ first (onto before (b ∷ rest))
      → Distinct before
      → Apart before (b ∷ rest)
      → Back st.headers m b.at before
      → Linked st.headers m (first before) (b ∷ rest)
      → (h : Headers) × (unlink_next b.at st
          ≡ done (record st { headers = h; allocation_list = first (onto before rest) }))
        × Back h m (first rest) before
        × Linked h m (first before) (b ∷ rest)
        × OnlyFrees st.headers h
  unfolding unlink_next
  unlink_next_lem [] rest e d a k l =
      (st.headers, rw (load-some st.headers b.at _ l.0) refl, tt, l, λ p f. f)
  unlink_next_lem (c ∷ before) rest e d a k l =
      let h = update st.headers c.at (some (header_of m c (first rest) (first before))) in
      (
        h,
        rw
            (
              load-some st.headers b.at _ l.0,
              is_null_of_ne c.at k.1,
              modify-some st.headers c.at _ (λ (x : MsHeader). record x { next = first rest }) k.0,
            )
            (ap (λ (p : ℕ). done (record st { headers = h; allocation_list = p }))
              (e ∙ first-onto before c (b ∷ rest) rest)),
        (ground arith, k.1, Back-update st.headers m c.at _ c.at before d.0 k.2),
        Linked-update st.headers m c.at _ c.at (b ∷ rest) a.0 l,
        OnlyFrees-update st.headers c.at _ _ k.0,
      )

  pub unlink_prev_lem :
      (before rest : List Block)
      → Distinct (b ∷ rest)
      → Apart before (b ∷ rest)
      → Back st.headers m (first rest) before
      → Linked st.headers m (first before) (b ∷ rest)
      → (h : Headers) × (a : MsHeader) × (unlink_prev b.at st ≡ done (record st { headers = h }))
        × (h b.at ≡ some a)
        × (a.size ≡ b.size)
        × Back h m (first rest) before
        × Linked h m (first before) rest
        × OnlyFrees st.headers h
  unfolding unlink_prev
  unlink_prev_lem before [] d a k l =
      (st.headers, _, rw (load-some st.headers b.at _ l.0) refl, l.0, refl, k, tt, λ p f. f)
  unlink_prev_lem before (c ∷ rest) d a k l =
      let h = update st.headers c.at (some (header_of m c (first rest) (first before))) in
      let (far, apart) = Apart-head c before rest (Apart-head b before (c ∷ rest) a).1 in
      (
        h,
        header_of m b c.at (first before),
        rw
            (
              load-some st.headers b.at _ l.0,
              is_null_of_ne c.at l.2.1,
              modify-some st.headers c.at _ (λ (x : MsHeader). record x { prev = first before })
                  l.2.0,
            )
            refl,
        ground arith,
        refl,
        Back-update st.headers m c.at _ c.at before far k,
        (ground arith, l.2.1, Linked-update st.headers m c.at _ c.at rest d.1.0 l.2.2),
        OnlyFrees-update st.headers c.at _ _ l.2.0,
      )

-- The blocks before and after a header are what is left, in their order.
pub remove_allocation_lem :
    (st : MarkSweep) (m : Marks) (b : Block) (before rest : List Block)
    → st.allocation_list ≡ first (onto before (b ∷ rest))
    → Distinct before
    → Distinct (b ∷ rest)
    → Apart before (b ∷ rest)
    → Back st.headers m b.at before
    → Linked st.headers m (first before) (b ∷ rest)
    → (h : Headers) × (a : MsHeader) × (remove_allocation b.at st
        ≡ done (record st { headers = h; allocation_list = first (onto before rest) }))
      × (h b.at ≡ some a)
      × (a.size ≡ b.size)
      × Back h m (first rest) before
      × Linked h m (first before) rest
      × OnlyFrees st.headers h
unfolding remove_allocation
remove_allocation_lem st m b before rest e d d' a k l =
    let (h1, f1, k1, l1, o1) = unlink_next_lem st m b before rest e d a k l in
    let st1 = record st { headers = h1; allocation_list = first (onto before rest) } in
    let (h2, c, f2, g2, z, k2, l2, o2) = unlink_prev_lem st1 m b before rest d' a k1 l1 in
    (h2, c, rw f1 f2, g2, z, k2, l2, λ p f. o2 p (o1 p f))
