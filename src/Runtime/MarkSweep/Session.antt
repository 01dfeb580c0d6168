-- ===== src/Runtime/MarkSweep/Session.antt =====
-- A run of the collector: the calls of a program between ms_init and ms_shutdown, with whatever the
-- program writes into its memory between them.
use jb_transpiler.Base.{
  ℕ, suc, ◌+◌, ◌≤◌, ◌<◌, ◌≡◌, ◌≢◌, refl, subst, false, none, List, [], ◌∷◌, ◌++◌, arith, length,
}
use jb_transpiler.Runtime.Machine.{done, size_mod, add_size}
use jb_transpiler.Runtime.MarkSweep.{MarkSweep, header_size, ms_register_root}
use jb_transpiler.Runtime.MarkSweep.Collector.{
  collect_garbage, ms_alloc, ms_dealloc, ms_init, ms_shutdown, ms_set_gc_threshold,
}
use jb_transpiler.Runtime.MarkSweep.Linked.{Block}
use jb_transpiler.Runtime.MarkSweep.Collect.{total, Holds, collect_garbage_lem}
use jb_transpiler.Runtime.MarkSweep.Alloc.{ms_alloc_keeps}
use jb_transpiler.Runtime.MarkSweep.Shutdown.{ms_shutdown_lem}
use jb_transpiler.Runtime.MarkSweep.Listed.{Listed, ms_dealloc-Listed}

-- The states that a program can bring the collector into after ms_init by allocations, by giving
-- back blocks that are in the list, by collections, by registering roots and by setting the
-- threshold, with the number of its allocations, of which the rounds of a call are to be more.
-- `malloc` answers an address that is not in use.
pub data Runs : ℕ → MarkSweep → Type 0 where
  start : (frame : ℕ) (st : MarkSweep) → Runs 0 (ms_init frame st)
  alloc :
      {n : ℕ} {st : MarkSweep} (word : ℕ → ℕ) (rounds stack_top header bytes p : ℕ)
      (st' : MarkSweep)
      → Runs n st
      → header ≢ 0
      → st.headers header ≡ none
      → suc n < rounds
      → ms_alloc word rounds stack_top header bytes st ≡ done (p, st')
      → Runs (suc n) st'
  dealloc :
      {n : ℕ} {st : MarkSweep} (p : ℕ) (st' : MarkSweep)
      → Runs n st
      → Listed st.headers st.allocation_list p
      → p + header_size < size_mod
      → ms_dealloc (add_size p header_size) st ≡ done st'
      → Runs n st'
  gc :
      {n : ℕ} {st : MarkSweep} (word : ℕ → ℕ) (rounds stack_top : ℕ) (st' : MarkSweep)
      → Runs n st
      → n < rounds
      → collect_garbage word rounds stack_top st ≡ done st'
      → Runs n st'
  root :
      {n : ℕ} {st : MarkSweep} (ptr : ℕ) (st' : MarkSweep)
      → Runs n st
      → ms_register_root ptr st ≡ done st'
      → Runs n st'
  threshold :
      {n : ℕ} {st : MarkSweep} (bytes : ℕ) → Runs n st → Runs n (ms_set_gc_threshold bytes st)

registered_eq :
    (ptr : ℕ) (st st' : MarkSweep)
    → ms_register_root ptr st ≡ done st'
    → record st { roots = st.roots ++ (ptr ∷ []) } ≡ st'
unfolding ms_register_root
registered_eq ptr st st' e = ground arith

-- In every state that allocations, blocks given back, collections, registered roots and thresholds
-- lead to from ms_init, as `Runs` says, the list and the byte count represent blocks, at most one for
-- each allocation.
pub Runs-Holds :
    {n : ℕ} {st : MarkSweep} → Runs n st → (bs : List Block) × Holds st bs × (length bs ≤ n)
unfolding total ms_init ms_set_gc_threshold
Runs-Holds (start frame st) = (
  [],
  record {
    marks = λ p. false;
    list = refl;
    linked = tt;
    distinct = tt;
    sized = tt;
    counted = refl;
  },
  omega arith,
)
Runs-Holds (alloc {n} {st} word rounds stack_top header bytes p st' r nonnull free enough e) =
    let (bs, v, few) = Runs-Holds r in
    let (s, live, f, held, fewer, _, _) =
      ms_alloc_keeps st header bytes word rounds stack_top bs nonnull free v (omega arith) in
    let same : s ≡ st' = cc in (live, subst (λ x. Holds x live) same held, omega arith)
Runs-Holds (dealloc {n} {st} p st' r i lt e) =
    let (bs, v, few) = Runs-Holds r in
    let (s, live, f, held, _, fewer, _) = ms_dealloc-Listed st p bs v i lt in
    let same : s ≡ st' = cc in (live, subst (λ x. Holds x live) same held, omega arith)
Runs-Holds (gc {n} {st} word rounds stack_top st' r enough e) =
    let (bs, v, few) = Runs-Holds r in
    let (s, live, f, c) = collect_garbage_lem word rounds stack_top st bs (omega arith) v in
    let same : s ≡ st' = cc in
    (live, subst (λ x. Holds x live) same c.holds, omega (arith, c.fewer))
Runs-Holds (root {n} {st} ptr st' r e) =
    let (bs, v, few) = Runs-Holds r in
    let held : Holds (record st { roots = st.roots ++ (ptr ∷ []) }) bs = record {
      marks = v.marks;
      list = v.list;
      linked = v.linked;
      distinct = v.distinct;
      sized = v.sized;
      counted = v.counted;
    } in
    (bs, subst (λ x. Holds x bs) (registered_eq ptr st st' e) held, few)
Runs-Holds (threshold bytes r) =
    let (bs, v, few) = Runs-Holds r in
    (
      bs,
      record {
        marks = v.marks;
        list = v.list;
        linked = v.linked;
        distinct = v.distinct;
        sized = v.sized;
        counted = v.counted;
      },
      few,
    )

-- From every state that allocations, blocks given back, collections, registered roots and thresholds
-- lead to from ms_init, as `Runs` says, with more rounds than allocations and one more: an allocation
-- returns, where `malloc` answers an address that is not null and not in use, with the address after
-- the header; a collection returns; and a shutdown returns, with an empty list.
pub Runs-returns :
    {n : ℕ} {st : MarkSweep} (word : ℕ → ℕ) (rounds stack_top header bytes : ℕ)
    → Runs n st
    → suc n < rounds
    → header ≢ 0
    → st.headers header ≡ none
    → ((st' : MarkSweep) × (ms_alloc word rounds stack_top header bytes st
          ≡ done (add_size header header_size, st')))
      × ((st' : MarkSweep) × (collect_garbage word rounds stack_top st ≡ done st'))
      × ((st' : MarkSweep) × (ms_shutdown word rounds stack_top st ≡ done st')
          × (st'.allocation_list ≡ 0))
Runs-returns {st} word rounds stack_top header bytes r enough nonnull free =
    let (bs, v, few) = Runs-Holds r in
    let (s, _, f, _, _, _, _) =
      ms_alloc_keeps st header bytes word rounds stack_top bs nonnull free v (omega arith) in
    let (s1, _, f1, _) = collect_garbage_lem word rounds stack_top st bs (omega arith) v in
    let (s2, f2, empty, _) = ms_shutdown_lem word rounds stack_top st bs (omega arith) v in
    ((s, f), (s1, f1), (s2, f2, empty))
