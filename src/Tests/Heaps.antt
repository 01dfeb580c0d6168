-- ===== src/Tests/Heaps.antt =====
-- Small heaps of the mark-sweep allocator.
use jb_transpiler.Base.{
  ℕ, suc, ◌↔◌, ◌≢◌, ◌≤◌, ◌≡◌, refl, Bool, true, false, some, none, List, [], ◌∷◌, arith, eqb,
  if◌then◌else◌, length,
}
use jb_transpiler.Runtime.Machine.{
  Outcome, done, ◌>>=◌, add_size, update, load, modify, free, no_stats, count_alloc, count_free,
}
use jb_transpiler.Runtime.MarkSweep.{
  MsHeader, Headers, MarkSweep, header_size, remove_allocation, unlink_next, unlink_prev, inside,
  is_valid_pointer, find_header, visit_word, scan_range, mark_header, mark, add_allocation,
}
use jb_transpiler.Runtime.MarkSweep.Collector.{
  conservative_scan_stack, clear_marks, scan_roots, mark_phase, sweep_header, sweep_loop,
  sweep_phase, collect_garbage, ms_alloc, ms_dealloc, ms_init, ms_shutdown, ms_set_gc_threshold,
}
use jb_transpiler.Runtime.MarkSweep.Linked.{Block, In}
use jb_transpiler.Runtime.MarkSweep.Reach.{words, range_words, Reach, root, via}
use jb_transpiler.Runtime.MarkSweep.Marking.{stack_words, root_words}
use jb_transpiler.Runtime.MarkSweep.Collect.{total, Holds, Collected, collect_garbage_lem}
use jb_transpiler.Runtime.MarkSweep.Added.{new_block}
use jb_transpiler.Runtime.MarkSweep.Alloc.{ms_alloc_keeps, ms_alloc_dangling}
use jb_transpiler.Runtime.MarkSweep.Listed.{Listed, here, later, ms_dealloc-Listed}
use jb_transpiler.Runtime.MarkSweep.Session.{
  Runs, start, alloc, threshold, Runs-Holds, Runs-returns,
}

-- Three blocks: the first holds a pointer into the second, and nothing points into the third.
abbrev first_block : Block
first_block = record { at = 1000; size = 48 }

abbrev second_block : Block
second_block = record { at = 2000; size = 40 }

abbrev third_block : Block
third_block = record { at = 3000; size = 40 }

abbrev three_blocks : List Block
three_blocks = first_block ∷ second_block ∷ third_block ∷ []

abbrev header : ℕ → ℕ → ℕ → MsHeader
header size next prev = record { marked = false; size = size; next = next; prev = prev }

-- The global at 500 points into the first block.
abbrev words_of : ℕ → ℕ
words_of p = if eqb p 500 then 1032 else if eqb p 1040 then 2032 else 0

abbrev three_headers : Headers
three_headers p =
    if eqb p 1000
    then some (header 48 2000 0)
    else if eqb p 2000
    then some (header 40 3000 1000)
    else if eqb p 3000
    then some (header 40 0 2000)
    else none

abbrev sample_heap : MarkSweep
sample_heap = record {
  stack_bottom = 0;
  roots = 500 ∷ [];
  gc_threshold = 100;
  allocation_list = 1000;
  stats = record no_stats { total_allocations = 3; current_bytes = 128; peak_bytes = 128 };
  headers = three_headers;
}

sample_heap-Holds : Holds sample_heap three_blocks
unfolding total
sample_heap-Holds = record {
  marks = λ p. false;
  list = refl;
  linked = ((refl, omega arith, (refl, omega arith, (refl, omega arith, tt))));
  distinct = ((omega arith, (omega arith, tt)), ((omega arith, tt), (tt, tt)));
  sized = (omega arith, (omega arith, (omega arith, tt)));
  counted = refl;
}

-- What of a heap the tests look at.
abbrev view : Outcome MarkSweep → Outcome (ℕ × Bool × Bool × Bool × ℕ)
view r = r >>= λ st. done (
  st.allocation_list,
  elim (st.headers 1000) [ none ↦ false | some a ↦ true ],
  elim (st.headers 2000) [ none ↦ false | some a ↦ true ],
  elim (st.headers 3000) [ none ↦ false | some a ↦ true ],
  st.stats.current_bytes,
)

-- The third block is freed.
collected_view :
    view (collect_garbage words_of 4 0 sample_heap) ≡ done (1000, true, true, false, 88)
unfolding collect_garbage mark_phase sweep_phase sweep_loop sweep_header remove_allocation
    unlink_next unlink_prev clear_marks scan_roots conservative_scan_stack scan_range visit_word
    mark mark_header is_valid_pointer find_header inside load modify free count_free
collected_view = refl

collect_garbage_lem_example :
    (st' : MarkSweep) × (live : List Block) × (collect_garbage words_of 4 0 sample_heap ≡ done st')
    × Collected words_of 4 0 sample_heap three_blocks st' live
collect_garbage_lem_example =
    collect_garbage_lem words_of 4 0 sample_heap three_blocks (omega arith) sample_heap-Holds

ms_alloc_keeps_example :
    (st' : MarkSweep) × (live : List Block) × (ms_alloc words_of 5 0 4000 8 sample_heap
      ≡ done (add_size 4000 header_size, st'))
    × Holds st' live
    × (length live ≤ suc (length three_blocks))
    × ((b : Block) → In b live → In b (new_block 4000 8 ∷ three_blocks))
    × ((b : Block)
        → In b (new_block 4000 8 ∷ three_blocks)
        → Reach words_of (new_block 4000 8 ∷ three_blocks) (root_words words_of 0 sample_heap) b
        → In b live)
ms_alloc_keeps_example =
    ms_alloc_keeps sample_heap 4000 8 words_of 5 0 three_blocks (omega arith) refl sample_heap-Holds
      (omega arith)

-- No block is reachable without roots.
rootless : {word : ℕ → ℕ} {bs : List Block} (b : Block) → Reach word bs [] b → ⊥
rootless b (root w _ i t) = i
rootless b (via a _ w r i t) = rootless a r

abbrev pub empty_heap : MarkSweep
empty_heap = record {
  stack_bottom = 0;
  roots = [];
  gc_threshold = 16;
  allocation_list = 0;
  stats = no_stats;
  headers = λ p. none;
}

empty_heap-Holds : Holds empty_heap []
unfolding total
empty_heap-Holds = record {
  marks = λ p. false;
  list = refl;
  linked = tt;
  distinct = tt;
  sized = tt;
  counted = refl;
}

unreached :
    ¬ Reach words_of (new_block 4000 8 ∷ []) (root_words words_of 0 empty_heap) (new_block 4000 8)
unfolding root_words stack_words range_words words
unreached r = rootless (new_block 4000 8) r

ms_alloc_dangling_example :
    (st' : MarkSweep) × (ms_alloc words_of 2 0 4000 8 empty_heap
      ≡ done (add_size 4000 header_size, st'))
    × (st'.headers 4000 ≡ none)
ms_alloc_dangling_example =
    ms_alloc_dangling empty_heap 4000 8 words_of 2 0 [] (omega arith) refl empty_heap-Holds
      (omega arith) (omega arith) unreached

-- A run of two calls: the threshold is raised, and eight bytes are allocated.
abbrev raised : MarkSweep
raised = ms_set_gc_threshold 100 (ms_init 0 empty_heap)

abbrev blank : MsHeader
blank = header 40 0 0

abbrev one_block : MarkSweep
one_block = record {
  stack_bottom = 0;
  roots = [];
  gc_threshold = 100;
  allocation_list = 4000;
  stats = record no_stats { total_allocations = 1; current_bytes = 40; peak_bytes = 40 };
  headers = update (update (λ p. none) 4000 (some blank)) 4000 (some blank);
}

allocates : ms_alloc words_of 2 0 4000 8 raised ≡ done (4032, one_block)
unfolding ms_alloc add_allocation modify count_alloc ms_init ms_set_gc_threshold
allocates = refl

no_header : raised.headers 4000 ≡ none
unfolding ms_init ms_set_gc_threshold
no_header = refl

run : Runs 1 one_block
run =
    alloc words_of 2 0 4000 8 4032 one_block (threshold 100 (start 0 empty_heap)) (omega arith)
      no_header (omega arith) allocates

Runs-Holds_example : (bs : List Block) × Holds one_block bs × (length bs ≤ 1)
Runs-Holds_example = Runs-Holds run

Runs-returns_example :
    ((st' : MarkSweep) × (ms_alloc words_of 3 0 5000 8 one_block
        ≡ done (add_size 5000 header_size, st')))
    × ((st' : MarkSweep) × (collect_garbage words_of 3 0 one_block ≡ done st'))
    × ((st' : MarkSweep) × (ms_shutdown words_of 3 0 one_block ≡ done st')
        × (st'.allocation_list ≡ 0))
Runs-returns_example = Runs-returns words_of 3 0 5000 8 run (omega arith) (omega arith) refl

second_Listed : Listed sample_heap.headers sample_heap.allocation_list 2000
second_Listed = later (header 48 2000 0) (omega arith) refl (here (omega arith))

ms_dealloc-Listed_example :
    (st' : MarkSweep) × (live : List Block) × (ms_dealloc (add_size 2000 header_size) sample_heap
      ≡ done st')
    × Holds st' live
    × ((x : Block) → In x live ↔ (In x three_blocks × (x.at ≢ 2000)))
    × (suc (length live) ≡ length three_blocks)
    × (st'.headers 2000 ≡ none)
ms_dealloc-Listed_example =
    ms_dealloc-Listed sample_heap 2000 three_blocks sample_heap-Holds second_Listed (omega arith)
