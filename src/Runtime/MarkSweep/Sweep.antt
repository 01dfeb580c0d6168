-- ===== src/Runtime/MarkSweep/Sweep.antt =====
-- sweep_phase frees the blocks without a mark, and leaves the others linked in their order.
use jb_transpiler.Base.{
  ℕ, zero, suc, ◌<◌, ◌≡◌, ◌↔◌, refl, ap, sym, ◌∙◌, subst, inl, inr, true, false, none, List, [],
  ◌∷◌, arith, if◌then◌else◌, length, Bool-cases,
}
use jb_transpiler.Runtime.Machine.{
  done, update, is_null_of_ne, load-some, free-some, update_self, AllocatorStats, count_free,
}
use jb_transpiler.Runtime.MarkSweep.{Headers, MarkSweep}
use jb_transpiler.Runtime.MarkSweep.Collector.{sweep_header, sweep_loop, sweep_phase}
use jb_transpiler.Runtime.MarkSweep.Linked.{Block, In, first, Marks, Linked}
use jb_transpiler.Runtime.MarkSweep.Zipper.{
  Back, onto, Fresh, Distinct, Apart, Linked-onto, Linked-update, Back-update, Apart-head,
}
use jb_transpiler.Runtime.MarkSweep.Remove.{OnlyFrees, remove_allocation_lem}

-- The blocks with a mark.
unfoldable pub kept : Marks → List Block → List Block
kept m [] = []
kept m (b ∷ bs) = if m b.at then b ∷ kept m bs else kept m bs

-- The counts after the others are freed.
unfoldable pub swept : Marks → List Block → AllocatorStats → AllocatorStats
swept m [] s = s
swept m (b ∷ bs) s = swept m bs (if m b.at then s else count_free b.size s)

pub In-kept :
    (m : Marks) (b : Block) (bs : List Block) → In b (kept m bs) ↔ (In b bs × (m b.at ≡ true))
unfolding kept
In-kept m b [] = (λ i. absurd i, λ i. absurd i.0)
In-kept m b (x ∷ bs) =
    let (into, out) = In-kept m b bs in
    elim (Bool-cases (m x.at)) [
      | inl y ↦ rw y (
        λ i. elim i [
          | inl e ↦ (inl e, ap (λ (c : Block). m c.at) e ∙ y)
          | inr j ↦ (inr (into j).0, (into j).1)
        ],
        λ (i, z). elim i [ inl e ↦ inl e | inr j ↦ inr (out (j, z)) ],
      )
      | inr n ↦ rw n (
        λ i. (inr (into i).0, (into i).1),
        λ (i, z). elim i [
          | inl e ↦ absurd (let f : true ≡ false = sym z ∙ ap (λ (c : Block). m c.at) e ∙ n in cc)
          | inr j ↦ out (j, z)
        ],
      )
    ]

Fresh-kept : (m : Marks) (p : ℕ) (bs : List Block) → Fresh p bs → Fresh p (kept m bs)
unfolding kept
Fresh-kept m p [] f = tt
Fresh-kept m p (b ∷ bs) f = ground (arith, Fresh-kept m p bs f.1)

pub Distinct-kept : (m : Marks) (bs : List Block) → Distinct bs → Distinct (kept m bs)
unfolding kept
Distinct-kept m [] d = tt
Distinct-kept m (b ∷ bs) d = ground (arith, Distinct-kept m bs d.1, Fresh-kept m b.at bs d.0)

-- A header without a mark is unlinked and freed.
sweep_header_lem :
    (st : MarkSweep) (m : Marks) (b : Block) (before rest : List Block)
    → st.allocation_list ≡ first (onto before (b ∷ rest))
    → Distinct before
    → Distinct (b ∷ rest)
    → Apart before (b ∷ rest)
    → Back st.headers m b.at before
    → Linked st.headers m (first before) (b ∷ rest)
    → (h : Headers) × (sweep_header b.at st
        ≡ done (record st {
          headers = h;
          allocation_list = first (onto before rest);
          stats = count_free b.size st.stats;
        }))
      × (h b.at ≡ none)
      × Back h m (first rest) before
      × Linked h m (first before) rest
      × OnlyFrees st.headers h
unfolding sweep_header
sweep_header_lem st m b before rest e d d' a k l =
    let st' = record st { stats = count_free b.size st.stats } in
    let (h, c, f, g, _, k', l', o) = remove_allocation_lem st' m b before rest e d d' a k l in
    let (far, _) = Apart-head b before rest a in
    (
      update h b.at none,
      rw (load-some st.headers b.at _ l.0, f, free-some h b.at c g) refl,
      update_self h b.at c none,
      Back-update h m b.at none (first rest) before far k',
      Linked-update h m b.at none (first before) rest d'.0 l',
      λ p n. ground (arith, o p n),
    )

sweep_loop_lem :
    (rounds : ℕ) (st : MarkSweep) (m : Marks) (before rest : List Block)
    → length rest < rounds
    → st.allocation_list ≡ first (onto before rest)
    → Distinct before
    → Distinct rest
    → Apart before rest
    → Back st.headers m (first rest) before
    → Linked st.headers m (first before) rest
    → (h : Headers) × (sweep_loop rounds (first rest) st
        ≡ done (record st {
          headers = h;
          allocation_list = first (onto before (kept m rest));
          stats = swept m rest st.stats;
        }))
      × Linked h m 0 (onto before (kept m rest))
      × ((b : Block) → In b rest → m b.at ≡ false → h b.at ≡ none)
      × OnlyFrees st.headers h
unfolding sweep_loop kept swept
sweep_loop_lem zero st m before rest r e d d' a k l = absurd (omega arith)
sweep_loop_lem (suc rounds) st m before [] r e d d' a k l = (
  st.headers,
  ap (λ (p : ℕ). done (record st { allocation_list = p })) e,
  Linked-onto st.headers m before [] k l,
  λ b i. absurd i,
  λ p n. n,
)
sweep_loop_lem (suc rounds) st m before (b ∷ rest) r e d d' a k l =
    let (far, apart) = Apart-head b before rest a in
    elim (Bool-cases (m b.at)) [
      | inl y ↦
          let (h, f, l', freed, o) =
            sweep_loop_lem rounds st m (b ∷ before) rest (omega arith) e (far, d) d'.1 (d'.0, apart)
              (l.0, l.1, k) l.2 in
          rw y (
            h,
            rw (is_null_of_ne b.at l.1, load-some st.headers b.at _ l.0, y) f,
            l',
            λ c i n. elim i [
              | inl q ↦
                  absurd
                    (let z : true ≡ false = sym y ∙ ap (λ (x : Block). m x.at) (sym q) ∙ n in cc)
              | inr j ↦ freed c j n
            ],
            o,
          )
      | inr n ↦
          let (h1, f1, gone, k1, l1, o1) = sweep_header_lem st m b before rest e d d' a k l in
          let st1 = record st {
            headers = h1;
            allocation_list = first (onto before rest);
            stats = count_free b.size st.stats;
          } in
          let (h, f, l', freed, o) =
            sweep_loop_lem rounds st1 m before rest (omega arith) refl d d'.1 apart k1 l1 in
          rw n (
            h,
            rw (is_null_of_ne b.at l.1, load-some st.headers b.at _ l.0, n, f1) f,
            l',
            λ c i z. elim i [
              | inl q ↦ ap (λ (x : Block). h x.at) q ∙ o b.at gone
              | inr j ↦ freed c j z
            ],
            λ p g. o p (o1 p g),
          )
    ]

pub sweep_phase_lem :
    (rounds : ℕ) (st : MarkSweep) (m : Marks) (bs : List Block)
    → length bs < rounds
    → st.allocation_list ≡ first bs
    → Distinct bs
    → Linked st.headers m 0 bs
    → (h : Headers) × (sweep_phase rounds st
        ≡ done (record st {
          headers = h;
          allocation_list = first (kept m bs);
          stats = swept m bs st.stats;
        }))
      × Linked h m 0 (kept m bs)
      × ((b : Block) → In b bs → m b.at ≡ false → h b.at ≡ none)
      × OnlyFrees st.headers h
unfolding sweep_phase
sweep_phase_lem rounds st m bs r e d l =
    let (h, f, l', freed, o) = sweep_loop_lem rounds st m [] bs r e tt d tt tt l in
    (
      h,
      subst
          (λ p.
            sweep_loop rounds p st
            ≡ done (record st {
              headers = h;
              allocation_list = first (kept m bs);
              stats = swept m bs st.stats;
            }))
          (sym e) f,
      l',
      freed,
      o,
    )
