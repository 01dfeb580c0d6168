-- ===== src/Runtime/MarkSweep/Shutdown.antt =====
-- ms_dealloc takes one block out, and ms_shutdown all of them.
use jb_transpiler.Base.{
  ℕ, zero, suc, ◌+◌, ◌<◌, ◌≡◌, ◌≢◌, inl, inr, refl, ap, sym, ◌∙◌, subst, some, none, List, [], ◌∷◌,
  arith, length,
}
use jb_transpiler.Runtime.Machine.{
  done, size_mod, add_size, sub_size, is_null, is_null_of_ne, load-some, free-some, update_self,
  update,
}
use jb_transpiler.Runtime.MarkSweep.{MsHeader, Headers, MarkSweep, header_size}
use jb_transpiler.Runtime.MarkSweep.Collector.{free_all, ms_dealloc, ms_shutdown}
use jb_transpiler.Runtime.MarkSweep.Linked.{Block, In, first, Marks, header_of, Linked}
use jb_transpiler.Runtime.MarkSweep.Zipper.{
  Back, onto, Fresh, Distinct, Apart, Apart-head, Linked-onto, Linked-update, Back-update,
}
use jb_transpiler.Runtime.MarkSweep.Remove.{OnlyFrees, remove_allocation_lem}
use jb_transpiler.Runtime.MarkSweep.Collect.{total, Sized, Holds, collect_garbage_lem}

-- A list that is linked is linked around each of its blocks.
unzip :
    (h : Headers) (m : Marks) (before rest : List Block)
    → Linked h m 0 (onto before rest)
    → Back h m (first rest) before × Linked h m (first before) rest
unzip h m [] rest l = (tt, l)
unzip h m (b ∷ before) rest l =
    let (k, l') = unzip h m before (b ∷ rest) l in ((l'.0, l'.1, k), l'.2)

Distinct-parts :
    (before rest : List Block)
    → Distinct (onto before rest)
    → Distinct before × Distinct rest × Apart before rest
Distinct-parts [] rest d = (tt, d, tt)
Distinct-parts (b ∷ before) rest d =
    let (x, y, z) = Distinct-parts before (b ∷ rest) d in
    let (f, g) = Apart-head b before rest z in ((f, x), y.1, (y.0, g))

Apart-cons :
    (b : Block) (before rest : List Block)
    → Fresh b.at before
    → Apart before rest
    → Apart before (b ∷ rest)
Apart-cons b [] rest f a = tt
Apart-cons b (c ∷ before) rest f a = ((λ e. f.0 (sym e), a.0), Apart-cons b before rest f.1 a.1)

Distinct-onto :
    (before rest : List Block)
    → Distinct before
    → Distinct rest
    → Apart before rest
    → Distinct (onto before rest)
Distinct-onto [] rest x y z = y
Distinct-onto (b ∷ before) rest x y z =
    Distinct-onto before (b ∷ rest) x.1 (z.0, y) (Apart-cons b before rest x.0 z.1)

Sized-parts : (before rest : List Block) → Sized (onto before rest) → Sized before × Sized rest
Sized-parts [] rest s = (tt, s)
Sized-parts (b ∷ before) rest s = let (x, y) = Sized-parts before (b ∷ rest) s in ((y.0, x), y.1)

Sized-onto : (before rest : List Block) → Sized before → Sized rest → Sized (onto before rest)
Sized-onto [] rest x y = y
Sized-onto (b ∷ before) rest x y = Sized-onto before (b ∷ rest) x.1 (x.0, y)

total-onto : (before rest : List Block) → total (onto before rest) ≡ total before + total rest
unfolding total
total-onto [] rest = omega arith
total-onto (b ∷ before) rest = omega (arith, total-onto before (b ∷ rest))

header_of_payload :
    (p : ℕ) → p + header_size < size_mod → sub_size (add_size p header_size) header_size ≡ p
header_of_payload p lt = omega arith

-- The block at this address leaves the list and is freed; the others stay in their order.
pub ms_dealloc_lem :
    (st : MarkSweep) (b : Block) (before rest : List Block)
    → Holds st (onto before (b ∷ rest))
    → b.at + header_size < size_mod
    → (st' : MarkSweep) × (ms_dealloc (add_size b.at header_size) st ≡ done st')
      × Holds st' (onto before rest)
      × (st'.headers b.at ≡ none)
unfolding ms_dealloc total
ms_dealloc_lem st b before rest v lt =
    let (k, l) = unzip st.headers v.marks before (b ∷ rest) v.linked in
    let (d, d', a) = Distinct-parts before (b ∷ rest) v.distinct in
    let (s, s') = Sized-parts before (b ∷ rest) v.sized in
    let (far, apart) = Apart-head b before rest a in
    let (h, c, f, g, z, k', l', o) =
      remove_allocation_lem st v.marks b before rest v.list d d' a k l in
    (
      record st {
        headers = update h b.at none;
        allocation_list = first (onto before rest);
        stats = record st.stats { current_bytes = sub_size st.stats.current_bytes c.size };
      },
      rw
          (
            is_null_of_ne (add_size b.at header_size) (omega arith),
            header_of_payload b.at lt,
            f,
            load-some h b.at c g,
            free-some h b.at c g,
          )
          refl,
      record {
        marks = v.marks;
        list = refl;
        linked =
            Linked-onto (update h b.at none) v.marks before rest
              (Back-update h v.marks b.at none (first rest) before far k')
              (Linked-update h v.marks b.at none (first before) rest d'.0 l');
        distinct = Distinct-onto before rest d d'.1 apart;
        sized = Sized-onto before rest s s'.1;
        counted =
            omega (arith, v.counted, s'.0, z, total-onto before rest, total-onto before (b ∷ rest));
      },
      update_self h b.at c none,
    )

free_all_step :
    (rounds : ℕ) (st : MarkSweep) (p : ℕ) (a : MsHeader)
    → st.allocation_list ≡ p
    → st.headers p ≡ some a
    → p ≢ 0
    → free_all (suc rounds) st
      ≡ free_all rounds (record st { headers = update st.headers p none; allocation_list = a.next })
unfolding free_all
free_all_step rounds st p a e f nonnull =
    let list = st.allocation_list in
    let here = subst (λ q. st.headers q ≡ some a) (sym e) f in
    subst
      (λ q.
        free_all (suc rounds) st
        ≡ free_all rounds
            (record st { headers = update st.headers q none; allocation_list = a.next }))
      e
      (rw
        (
          is_null_of_ne list (λ q. nonnull (sym e ∙ q)),
          load-some st.headers list a here,
          free-some st.headers list a here,
        )
        refl)

free_all_lem :
    (rounds : ℕ) (st : MarkSweep) (m : Marks) (prev : ℕ) (bs : List Block)
    → length bs < rounds
    → st.allocation_list ≡ first bs
    → Distinct bs
    → Linked st.headers m prev bs
    → (st' : MarkSweep) × (free_all rounds st ≡ done st')
      × (st'.allocation_list ≡ 0)
      × ((b : Block) → In b bs → st'.headers b.at ≡ none)
      × OnlyFrees st.headers st'.headers
unfolding free_all
free_all_lem zero st m prev bs r e d l = absurd (omega arith)
free_all_lem (suc rounds) st m prev [] r e d l =
    (st, rw (ap is_null e) refl, e, λ b i. absurd i, λ p n. n)
free_all_lem (suc rounds) st m prev (b ∷ bs) r e d l =
    let h = update st.headers b.at none in
    let st1 = record st { headers = h; allocation_list = first bs } in
    let (st', f, empty, gone, o) =
      free_all_lem rounds st1 m b.at bs (omega arith) refl d.1
        (Linked-update st.headers m b.at none b.at bs d.0 l.2) in
    (
      st',
      free_all_step rounds st b.at (header_of m b (first bs) prev) e l.0 l.1 ∙ f,
      empty,
      λ c i. elim i [
        | inl q ↦
            ap (λ (x : Block). st'.headers x.at) q
            ∙ o b.at (update_self st.headers b.at (header_of m b (first bs) prev) none)
        | inr j ↦ gone c j
      ],
      λ p n. o p (ground arith),
    )

-- A shutdown frees every block that the allocator holds.
pub ms_shutdown_lem :
    (word : ℕ → ℕ) (rounds stack_top : ℕ) (st : MarkSweep) (bs : List Block)
    → length bs < rounds
    → Holds st bs
    → (st' : MarkSweep) × (ms_shutdown word rounds stack_top st ≡ done st')
      × (st'.allocation_list ≡ 0)
      × ((b : Block) → In b bs → st'.headers b.at ≡ none)
unfolding ms_shutdown
ms_shutdown_lem word rounds stack_top st bs r v =
    let (st1, live, f, c) = collect_garbage_lem word rounds stack_top st bs r v in
    let (st', g, empty, gone, o) =
      free_all_lem rounds st1 c.holds.marks 0 live (omega (arith, c.fewer)) c.holds.list
        c.holds.distinct c.holds.linked in
    (st', rw f g, empty, λ b i. elim (c.freed b i) [ inl j ↦ gone b j | inr e ↦ o b.at e ])
