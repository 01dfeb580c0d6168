-- ===== src/Runtime/MarkSweep/Alloc.antt =====
-- ms_alloc: where the threshold is passed, a collection follows.
use jb_transpiler.Base.{
  ℕ, suc, ◌≤◌, ◌<◌, ◌≡◌, ◌≢◌, inl, inr, refl, ap, ◌∙◌, Bool, true, false, none, List, ◌∷◌, arith,
  ltb, if◌then◌else◌, length,
}
use native.Mathlib.Decide.{dec_lt}
use jb_transpiler.Runtime.Machine.{Outcome, done, ◌>>=◌, add_size, count_alloc}
use jb_transpiler.Runtime.MarkSweep.{MarkSweep, header_size}
use jb_transpiler.Runtime.MarkSweep.Collector.{collect_garbage, ms_alloc}
use jb_transpiler.Runtime.MarkSweep.Linked.{Block, In}
use jb_transpiler.Runtime.MarkSweep.Reach.{Reach}
use jb_transpiler.Runtime.MarkSweep.Marking.{root_words}
use jb_transpiler.Runtime.MarkSweep.Collect.{Holds, Collected, collect_garbage_lem}
use jb_transpiler.Runtime.MarkSweep.Added.{new_block, counted, ms_alloc_adds}

ltb_of_le : (a b : ℕ) → b ≤ a → ltb a b ≡ false
ltb_of_le a b h = ground arith

ltb_of_lt : (a b : ℕ) → a < b → ltb a b ≡ true
ltb_of_lt a b h = ground arith

module _ (st : MarkSweep) (header bytes : ℕ) where
  -- Up to the threshold nothing is freed.
  pub ms_alloc_within :
      (word : ℕ → ℕ) (rounds stack_top : ℕ) (bs : List Block)
      → header ≢ 0
      → st.headers header ≡ none
      → Holds st bs
      → add_size st.stats.current_bytes (add_size header_size bytes) ≤ st.gc_threshold
      → (st' : MarkSweep) × (ms_alloc word rounds stack_top header bytes st
          ≡ done (add_size header header_size, st'))
        × Holds st' (new_block header bytes ∷ bs)
  unfolding count_alloc
  ms_alloc_within word rounds stack_top bs nonnull free v le =
      let (h, f, held) = ms_alloc_adds st header bytes word rounds stack_top bs nonnull free v in
      let st' = counted st header bytes (record st { headers = h; allocation_list = header }) in
      (
        st',
        f
            ∙ ap
                (λ (t : Bool).
                  (if t then collect_garbage word rounds stack_top st' else done st')
                  >>= λ (out : MarkSweep). done (add_size header header_size, out))
                (ltb_of_le _ _ le),
        held,
      )

  -- Past the threshold the reachable ones of the blocks and the new one are left.
  pub ms_alloc_beyond :
      (word : ℕ → ℕ) (rounds stack_top : ℕ) (bs : List Block)
      → header ≢ 0
      → st.headers header ≡ none
      → Holds st bs
      → st.gc_threshold < add_size st.stats.current_bytes (add_size header_size bytes)
      → suc (length bs) < rounds
      → (st' : MarkSweep) × (live : List Block) × (ms_alloc word rounds stack_top header bytes st
          ≡ done (add_size header header_size, st'))
        × Collected word rounds stack_top st (new_block header bytes ∷ bs) st' live
  unfolding count_alloc root_words
  ms_alloc_beyond word rounds stack_top bs nonnull free v lt r =
      let (h, f, held) = ms_alloc_adds st header bytes word rounds stack_top bs nonnull free v in
      let st1 = counted st header bytes (record st { headers = h; allocation_list = header }) in
      let (st', live, g, c) =
        collect_garbage_lem word rounds stack_top st1 (new_block header bytes ∷ bs) r held in
      (
        st',
        live,
        f
            ∙ ap
                (λ (t : Bool).
                  (if t then collect_garbage word rounds stack_top st1 else done st1)
                  >>= λ (out : MarkSweep). done (add_size header header_size, out))
                (ltb_of_lt _ _ lt)
            ∙ ap
                (λ (o : Outcome MarkSweep).
                  o >>= λ (out : MarkSweep). done (add_size header header_size, out))
                g,
        record { holds = c.holds; exact = c.exact; freed = c.freed; fewer = c.fewer },
      )

  -- Where the allocator holds blocks, `malloc` answers an address that is not null and not in use,
  -- and there are enough rounds, an allocation returns the address after the new header, whatever
  -- the threshold; the allocator then holds blocks among the old ones and the new one, with every
  -- reachable one of these, and at most one block more than before.
  pub ms_alloc_keeps :
      (word : ℕ → ℕ) (rounds stack_top : ℕ) (bs : List Block)
      → header ≢ 0
      → st.headers header ≡ none
      → Holds st bs
      → suc (length bs) < rounds
      → (st' : MarkSweep) × (live : List Block) × (ms_alloc word rounds stack_top header bytes st
          ≡ done (add_size header header_size, st'))
        × Holds st' live
        × (length live ≤ suc (length bs))
        × ((b : Block) → In b live → In b (new_block header bytes ∷ bs))
        × ((b : Block)
            → In b (new_block header bytes ∷ bs)
            → Reach word (new_block header bytes ∷ bs) (root_words word stack_top st) b
            → In b live)
  ms_alloc_keeps word rounds stack_top bs nonnull free v r =
      elim (dec_lt st.gc_threshold (add_size st.stats.current_bytes (add_size header_size bytes))) [
        | yes beyond ↦
            let (st', live, f, c) =
              ms_alloc_beyond word rounds stack_top bs nonnull free v beyond r in
            (
              st',
              live,
              f,
              c.holds,
              c.fewer,
              λ b i. ((c.exact b).0 i).0,
              λ b i k. (c.exact b).1 (i, k),
            )
        | no within ↦
            let (st', f, held) =
              ms_alloc_within word rounds stack_top bs nonnull free v (omega (arith, within)) in
            (st', new_block header bytes ∷ bs, f, held, omega arith, λ b i. i, λ b i k. i)
      ]

  -- An allocation at a fresh address that passes the threshold, made with enough rounds where the
  -- allocator holds blocks, returns the address of a block that it has freed, unless the new block is
  -- reachable from the words of the stack and of the globals already.
  pub ms_alloc_dangling :
      (word : ℕ → ℕ) (rounds stack_top : ℕ) (bs : List Block)
      → header ≢ 0
      → st.headers header ≡ none
      → Holds st bs
      → suc (length bs) < rounds
      → st.gc_threshold < add_size st.stats.current_bytes (add_size header_size bytes)
      → ¬ Reach word
          (new_block header bytes ∷ bs)
          (root_words word stack_top st)
          (new_block header bytes)
      → (st' : MarkSweep) × (ms_alloc word rounds stack_top header bytes st
          ≡ done (add_size header header_size, st'))
        × (st'.headers header ≡ none)
  ms_alloc_dangling word rounds stack_top bs nonnull free v r beyond unreached =
      let (st', live, f, c) = ms_alloc_beyond word rounds stack_top bs nonnull free v beyond r in
      (
        st',
        f,
        elim (c.freed (new_block header bytes) (inl refl)) [
          | inl i ↦ absurd (unreached ((c.exact (new_block header bytes)).0 i).1)
          | inr gone ↦ gone
        ],
      )
