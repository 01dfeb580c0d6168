-- ===== src/Runtime/Allocators.antt =====
-- The three implementations of the interface, and what runtime/src/runtime.c does with them.
use jb_transpiler.Base.{
  ℕ, suc, ◌+◌, ◌≤◌, ◌≡◌, inl, inr, refl, ap, ap₂, sym, ◌∙◌, true, false, none, some, lit, List, [],
  ◌∷◌, ◌++◌, append_assoc, append-nil, arith, leb, if◌then◌else◌, length, Bool-cases,
}
use jb_transpiler.Runtime.Machine.{Outcome, done, exited}
use jb_transpiler.Runtime.Interface.{
  RuntimeAllocator, Runtime, runtime_register_root, register_roots,
}
use jb_transpiler.Runtime.Simple.{Simple, simple_alloc, simple_dealloc, simple_init}
use jb_transpiler.Runtime.RefCount.{RefCount, rc_alloc, inc_ref_count, dec_ref_count, rc_init}
use jb_transpiler.Runtime.MarkSweep.{MarkSweep, max_roots, ms_register_root}
use jb_transpiler.Runtime.MarkSweep.Collector.{
  ms_alloc, ms_dealloc, collect_garbage, ms_init, ms_shutdown, ms_set_gc_threshold,
}

-- What a call meets: what `malloc` answers to a size, the words of the memory, the frames of the
-- collector and of the initialisation, and the rounds that loops are given.
pub record Surroundings : Type 0 where
  pub malloc : ℕ → ℕ
  pub word : ℕ → ℕ
  pub stack_top : ℕ
  pub frame : ℕ
  pub rounds : ℕ

length-concat : {A : Type 0} (xs : List A) (x : A) → length (xs ++ (x ∷ [])) ≡ suc (length xs)
length-concat [] x = refl
length-concat (y ∷ xs) x = ap suc (length-concat xs x)

module _ (e : Surroundings) where
  unfoldable pub simple_allocator : RuntimeAllocator Simple
  simple_allocator = record {
    name = lit "Simple Allocator";
    alloc = λ bytes s. simple_alloc (e.malloc bytes) bytes s;
    dealloc = simple_dealloc;
    gc = some (λ s. done s);
    scope_end = some (λ s. done s);
    get_stats = λ s. s.stats;
    init = simple_init;
    shutdown = λ s. done s;
    inc_ref_count = none;
    dec_ref_count = none;
    set_gc_threshold = none;
    register_root = none;
  }

  unfoldable pub reference_count_allocator : RuntimeAllocator RefCount
  reference_count_allocator = record {
    name = lit "Reference-Count GC";
    alloc = λ bytes s. rc_alloc (e.malloc bytes) bytes s;
    dealloc = λ ptr s. done s;
    gc = some (λ s. done s);
    scope_end = some (λ s. done s);
    get_stats = λ s. s.stats;
    init = rc_init;
    shutdown = λ s. done s;
    inc_ref_count = some inc_ref_count;
    dec_ref_count = some (dec_ref_count e.rounds);
    set_gc_threshold = none;
    register_root = none;
  }

  unfoldable pub mark_sweep_allocator : RuntimeAllocator MarkSweep
  mark_sweep_allocator = record {
    name = lit "Mark-Sweep GC";
    alloc = λ bytes s. ms_alloc e.word e.rounds e.stack_top (e.malloc bytes) bytes s;
    dealloc = ms_dealloc;
    gc = some (collect_garbage e.word e.rounds e.stack_top);
    scope_end = some (λ s. done s);
    get_stats = λ s. s.stats;
    init = ms_init e.frame;
    shutdown = ms_shutdown e.word e.rounds e.stack_top;
    inc_ref_count = none;
    dec_ref_count = none;
    set_gc_threshold = some (λ threshold s. done (ms_set_gc_threshold threshold s));
    register_root = some ms_register_root;
  }

  abbrev with_roots : MarkSweep → List ℕ → Outcome (Runtime MarkSweep)
  with_roots st roots =
      done (record { current = some mark_sweep_allocator; heap = record st { roots = roots } })

  -- Registering a list of globals, at most 50 roots being registered, keeps them all in their order
  -- after the old ones if the sum is at most 50, and otherwise the process exits with 1.
  pub register_roots-mark_sweep :
      (ps : List ℕ) (st : MarkSweep)
      → length st.roots ≤ max_roots
      → register_roots ps (record { current = some mark_sweep_allocator; heap = st }) ≡ (
          if leb (length st.roots + length ps) max_roots
          then with_roots st (st.roots ++ ps)
          else exited 1)
  unfolding register_roots runtime_register_root mark_sweep_allocator ms_register_root
  register_roots-mark_sweep [] st room =
      let fits : leb (length st.roots + 0) max_roots ≡ true = ground arith in
      rw fits (ap (with_roots st) (sym (append-nil st.roots)))
  register_roots-mark_sweep (p ∷ ps) st room = elim (Bool-cases (leb max_roots (length st.roots))) [
    | inl full ↦
        let over : leb (length st.roots + suc (length ps)) max_roots ≡ false = ground arith in
        rw (full, over) refl
    | inr more ↦
        let longer = length-concat st.roots p in
        rw more (
          register_roots-mark_sweep ps (record st { roots = st.roots ++ (p ∷ []) })
            (ground (arith, longer))
          ∙ ap₂
              (λ (n : ℕ) (roots : List ℕ).
                if leb n max_roots then with_roots st roots else exited 1)
              (omega (arith, longer)) (append_assoc st.roots (p ∷ []) ps))
  ]
