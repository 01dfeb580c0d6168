-- ===== src/Runtime/MarkSweep/Collect.antt =====
-- collect_garbage: the blocks that stay allocated are exactly the reachable ones.
use jb_transpiler.Base.{
  ℕ, ◌+◌, ◌≤◌, ◌<◌, ◌≡◌, ◌↔◌, ◌⊎◌, inl, inr, refl, none, List, [], ◌∷◌, arith, length, Bool-cases,
}
use Prim.Native.Nat.{◌%◌}
use jb_transpiler.Runtime.Machine.{done, size_mod, AllocatorStats, count_free}
use jb_transpiler.Runtime.MarkSweep.{MarkSweep}
use jb_transpiler.Runtime.MarkSweep.Collector.{collect_garbage}
use jb_transpiler.Runtime.MarkSweep.Linked.{Block, In, first, Marks, Linked}
use jb_transpiler.Runtime.MarkSweep.Zipper.{Distinct}
use jb_transpiler.Runtime.MarkSweep.Reach.{Reach}
use jb_transpiler.Runtime.MarkSweep.Marking.{root_words, mark_phase_lem}
use jb_transpiler.Runtime.MarkSweep.Sweep.{kept, swept, In-kept, Distinct-kept, sweep_phase_lem}

-- The bytes of the blocks, their headers included.
unfoldable pub total : List Block → ℕ
total [] = 0
total (b ∷ bs) = b.size + total bs

abbrev pub Sized : List Block → Type 0
Sized [] = Unit
Sized (b ∷ bs) = (b.size < size_mod) × Sized bs

-- The allocator holds these blocks: its list links their headers, which have addresses of their
-- own, and it counts their bytes.
pub record Holds (st : MarkSweep) (bs : List Block) : Type 0 where
  pub marks : Marks
  pub list : st.allocation_list ≡ first bs
  pub linked : Linked st.headers marks 0 bs
  pub distinct : Distinct bs
  pub sized : Sized bs
  pub counted : st.stats.current_bytes ≡ total bs % size_mod

Sized-kept : (m : Marks) (bs : List Block) → Sized bs → Sized (kept m bs)
unfolding kept
Sized-kept m [] s = tt
Sized-kept m (b ∷ bs) s = ground (arith, Sized-kept m bs s.1)

length-kept : (m : Marks) (bs : List Block) → length (kept m bs) ≤ length bs
unfolding kept
length-kept m [] = omega arith
length-kept m (b ∷ bs) = ground (arith, length-kept m bs)

count_free-bytes :
    (size more : ℕ) (s : AllocatorStats)
    → size < size_mod
    → s.current_bytes ≡ (size + more) % size_mod
    → (count_free size s).current_bytes ≡ more % size_mod
unfolding count_free
count_free-bytes size more s b e = omega arith

-- `other` bytes stand beside the blocks that are swept.
swept-bytes :
    (m : Marks) (bs : List Block) (other : ℕ) (s : AllocatorStats)
    → Sized bs
    → s.current_bytes ≡ (other + total bs) % size_mod
    → (swept m bs s).current_bytes ≡ (other + total (kept m bs)) % size_mod
unfolding swept kept total
swept-bytes m [] other s z e = e
swept-bytes m (b ∷ bs) other s z e = elim (Bool-cases (m b.at)) [
  | inl y ↦ rw (y, swept) (omega (arith, swept-bytes m bs (other + b.size) s z.1 (omega arith)))
  | inr n ↦
      rw (n, swept)
        (swept-bytes m bs other (count_free b.size s) z.1
          (count_free-bytes b.size (other + total bs) s z.0 (omega arith)))
]

module _ (word : ℕ → ℕ) (rounds stack_top : ℕ) (st : MarkSweep) (bs : List Block) where
  -- The allocator holds exactly those of its blocks that are reachable, and the others are freed.
  pub record Collected (st' : MarkSweep) (live : List Block) : Type 0 where
    pub holds : Holds st' live
    pub exact : (b : Block) → In b live ↔ (In b bs × Reach word bs (root_words word stack_top st) b)
    pub freed : (b : Block) → In b bs → In b live ⊎ (st'.headers b.at ≡ none)
    pub fewer : length live ≤ length bs

  -- Where the allocator holds blocks and there are more rounds than blocks, a collection returns, and
  -- then exactly the blocks are held that are reachable from the words of the stack and of the
  -- registered globals; the headers of all others are freed.
  pub collect_garbage_lem :
      length bs < rounds
      → Holds st bs
      → (st' : MarkSweep) × (live : List Block) × (collect_garbage word rounds stack_top st
          ≡ done st')
        × Collected st' live
  unfolding collect_garbage
  collect_garbage_lem r v =
      let (h1, n, f1, l1, exact) =
        mark_phase_lem word rounds stack_top st v.marks bs r v.list v.linked in
      let st1 = record st { headers = h1 } in
      let (h2, f2, l2, freed, _) = sweep_phase_lem rounds st1 n bs r v.list v.distinct l1 in
      (
        record st {
          headers = h2;
          allocation_list = first (kept n bs);
          stats = swept n bs st.stats;
        },
        kept n bs,
        rw f1 f2,
        record {
          holds = record {
            marks = n;
            list = refl;
            linked = l2;
            distinct = Distinct-kept n bs v.distinct;
            sized = Sized-kept n bs v.sized;
            counted = omega (arith, v.counted, swept-bytes n bs 0 st.stats v.sized (omega arith));
          };
          exact = λ b.
              let (into, out) = In-kept n b bs in
              (
                λ i. ((into i).0, (exact b (into i).0).0 (into i).1),
                λ (i, reached). out (i, (exact b i).1 reached),
              );
          freed = λ b i. elim (Bool-cases (n b.at)) [
            | inl y ↦ inl ((In-kept n b bs).1 (i, y))
            | inr n' ↦ inr (freed b i n')
          ];
          fewer = length-kept n bs;
        },
      )
