-- ===== src/Tests/Counts.antt =====
-- Small heaps of the other two allocators, and the roots of a program.
use jb_transpiler.Base.{
  ℕ, ◌<◌, ◌≡◌, refl, Bool, true, false, some, none, List, [], ◌∷◌, arith, eqb, leb, if◌then◌else◌,
}
use jb_transpiler.Base.Number.{pos}
use jb_transpiler.Runtime.Machine.{
  Outcome, done, exited, add_size, load, modify, free, no_stats, count_free,
}
use jb_transpiler.Runtime.Interface.{register_roots}
use jb_transpiler.Runtime.Allocators.{Surroundings, mark_sweep_allocator, register_roots-mark_sweep}
use jb_transpiler.Runtime.MarkSweep.{max_roots}
use jb_transpiler.Runtime.Simple.{
  Simple, simple_init, alloc_all, answered, bytes_of, alloc_all-simple_init,
}
use jb_transpiler.Runtime.RefCount.{
  RefCount, header_size, rc_alloc, dec_ref_count, dec_all, release,
}
use jb_transpiler.Runtime.RefCount.Counted.{Covers, positive_at, positives}
use jb_transpiler.Runtime.RefCount.Release.{Ends, dec_ref_count-Ends}
use jb_transpiler.Runtime.RefCount.Counts.{dec_ref_count-rc_alloc}
use jb_transpiler.Tests.Heaps.{empty_heap}

-- Two objects with one count each; the first has the second registered, and the second the first.
abbrev ring : RefCount
ring = record {
  stats = record no_stats { total_allocations = 2; current_bytes = 112; peak_bytes = 112 };
  headers = λ p.
      if eqb p 1000
      then some (record { count = pos 1; size = 56; to_free = 2048 ∷ [] })
      else if eqb p 2000
      then some (record { count = pos 1; size = 56; to_free = 1048 ∷ [] })
      else none;
}

ring_addresses : Covers (1000 ∷ 2000 ∷ []) ring.headers
ring_addresses q a e = ground arith

-- The last count of the first frees both.
abbrev left : Outcome RefCount → Bool × ℕ
left (done st) = (
  elim (st.headers 1000) [
    | none ↦ elim (st.headers 2000) [ none ↦ true | some a ↦ false ]
    | some a ↦ false
  ],
  st.stats.current_bytes,
)
left o = (false, 0)

ring_freed : left (dec_ref_count 3 1048 0 ring) ≡ (true, 0)
unfolding dec_ref_count dec_all release modify load free count_free
ring_freed = refl

few : positives (1000 ∷ 2000 ∷ []) ring.headers < 3
unfolding positives positive_at
few = omega arith

dec_ref_count-Ends_example : Ends ring.headers (dec_ref_count 3 1048 0 ring)
dec_ref_count-Ends_example = dec_ref_count-Ends (1000 ∷ 2000 ∷ []) 3 1048 0 ring ring_addresses few

abbrev pub no_objects : RefCount
no_objects = record { stats = no_stats; headers = λ p. none }

dec_ref_count-rc_alloc_example :
    (st1 st2 : RefCount) × (rc_alloc 4000 16 no_objects ≡ done (add_size 4000 header_size, st1))
    × (dec_ref_count 1 (add_size 4000 header_size) 0 st1 ≡ done st2)
    × ((q : ℕ) → st2.headers q ≡ none)
    × (st2.stats.current_bytes ≡ 0)
dec_ref_count-rc_alloc_example =
    dec_ref_count-rc_alloc 0 4000 16 no_objects (omega arith) (omega arith) (omega arith) refl
      (omega arith)

-- The second allocation is refused.
abbrev requests : List (ℕ × ℕ)
requests = (4000, 16) ∷ (0, 8) ∷ (5000, 24) ∷ []

abbrev no_blocks : Simple
no_blocks = record { stats = no_stats; blocks = λ p. none }

bytes_requested : (bytes_of requests ≡ 40) × (answered requests ≡ 2)
unfolding bytes_of answered
bytes_requested = (refl, refl)

alloc_all-simple_init_example :
    (st' : Simple) × (alloc_all requests (simple_init no_blocks) ≡ done st')
    × (st'.stats.total_allocations ≡ answered requests)
    × (st'.stats.current_bytes ≡ bytes_of requests)
    × (st'.stats.peak_bytes ≡ bytes_of requests)
alloc_all-simple_init_example =
    alloc_all-simple_init requests no_blocks (omega (arith, bytes_requested.0))
      (omega (arith, bytes_requested.1))

abbrev surroundings : Surroundings
surroundings = record {
  malloc = λ bytes. 4000;
  word = λ p. 0;
  stack_top = 0;
  frame = 0;
  rounds = 2;
}

register_roots-mark_sweep_example :
    register_roots
      (500 ∷ 508 ∷ [])
      (record { current = some (mark_sweep_allocator surroundings); heap = empty_heap })
    ≡ (if leb 2 max_roots
        then done (record {
          current = some (mark_sweep_allocator surroundings);
          heap = record empty_heap { roots = 500 ∷ 508 ∷ [] };
        })
        else exited 1)
register_roots-mark_sweep_example =
    register_roots-mark_sweep surroundings (500 ∷ 508 ∷ []) empty_heap (omega arith)
