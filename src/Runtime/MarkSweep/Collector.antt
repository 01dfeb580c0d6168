-- ===== src/Runtime/MarkSweep/Collector.antt =====
-- The two phases of a collection and the functions that the allocator offers:
-- runtime/src/mark_sweep_allocator.c from conservative_scan_stack on.
use jb_transpiler.Base.{ℕ, zero, suc, false, some, List, [], ◌∷◌, ltb, if◌then◌else◌}
use jb_transpiler.Runtime.Machine.{
  Outcome, done, hang, ◌>>=◌, add_size, sub_size, is_null, load, modify, free, update, no_stats,
  count_alloc, count_free,
}
use jb_transpiler.Runtime.MarkSweep.{
  MsHeader, Headers, MarkSweep, header_size, add_allocation, remove_allocation, visit_word,
  scan_range, mark,
}

-- `__builtin_frame_address(0)` is the argument `stack_top`.
unfoldable pub conservative_scan_stack :
    (ℕ → ℕ) → (ℕ → Headers → Outcome Headers) → ℕ → ℕ → Headers → Outcome Headers
conservative_scan_stack word visit bottom stack_top h =
    if ltb stack_top bottom
    then scan_range word visit stack_top bottom h
    else scan_range word visit bottom stack_top h

unfoldable pub clear_marks : ℕ → ℕ → Headers → Outcome Headers
clear_marks zero current h = hang
clear_marks (suc rounds) current h =
    let rest = λ (h' : Headers). load h' current >>= λ a. clear_marks rounds a.next h' in
    if is_null current
    then done h
    else modify (λ (a : MsHeader). record a { marked = false }) h current >>= rest

unfoldable pub scan_roots :
    (ℕ → ℕ) → (ℕ → Headers → Outcome Headers) → List ℕ → Headers → Outcome Headers
scan_roots word visit [] h = done h
scan_roots word visit (r ∷ roots) h = visit (word r) h >>= scan_roots word visit roots

unfoldable pub mark_phase : (ℕ → ℕ) → ℕ → ℕ → MarkSweep → Outcome MarkSweep
mark_phase word rounds stack_top st =
    let list = st.allocation_list in
    let visit = visit_word (mark word rounds rounds list) rounds list in
    do
      h1 ← clear_marks rounds list st.headers
      h2 ← conservative_scan_stack word visit st.stack_bottom stack_top h1
      h3 ← scan_roots word visit st.roots h2
      done (record st { headers = h3 })

-- `remove_allocation(current); free(current)` with the counts before it
unfoldable pub sweep_header : ℕ → MarkSweep → Outcome MarkSweep
sweep_header current st = do
  a ← load st.headers current
  st' ← remove_allocation current (record st { stats = count_free a.size st.stats })
  h ← free st'.headers current
  done (record st' { headers = h })

unfoldable pub sweep_loop : ℕ → ℕ → MarkSweep → Outcome MarkSweep
sweep_loop zero current st = hang
sweep_loop (suc rounds) current st =
    let rest = λ (next : ℕ) (st' : MarkSweep). sweep_loop rounds next st' in
    if is_null current
    then done st
    else load st.headers current >>= λ a.
        (if a.marked then done st else sweep_header current st) >>= rest a.next

unfoldable pub sweep_phase : ℕ → MarkSweep → Outcome MarkSweep
sweep_phase rounds st = sweep_loop rounds st.allocation_list st

unfoldable pub collect_garbage : (ℕ → ℕ) → ℕ → ℕ → MarkSweep → Outcome MarkSweep
collect_garbage word rounds stack_top st =
    mark_phase word rounds stack_top st >>= sweep_phase rounds

-- `header` is what `malloc` returned.
unfoldable pub ms_alloc : (ℕ → ℕ) → ℕ → ℕ → ℕ → ℕ → MarkSweep → Outcome (ℕ × MarkSweep)
ms_alloc word rounds stack_top header bytes st =
    let total = add_size header_size bytes in
    let fresh =
      update st.headers header
        (some (record { marked = false; size = total; next = 0; prev = 0 })) in
    if is_null header then done (0, st) else do
      added ← add_allocation header (record st { headers = fresh })
      let counted = record added { stats = count_alloc total added.stats }
      st' ←
          if ltb counted.gc_threshold counted.stats.current_bytes
          then collect_garbage word rounds stack_top counted
          else done counted
      done (add_size header header_size, st')

unfoldable pub ms_dealloc : ℕ → MarkSweep → Outcome MarkSweep
ms_dealloc ptr st =
    let header = sub_size ptr header_size in
    if is_null ptr then done st else do
      st' ← remove_allocation header st
      a ← load st'.headers header
      let stats = record st'.stats { current_bytes = sub_size st'.stats.current_bytes a.size }
      h ← free st'.headers header
      done (record st' { headers = h; stats = stats })

-- The collector's own statics are set; `frame` is `__builtin_frame_address(1)`.
unfoldable pub ms_init : ℕ → MarkSweep → MarkSweep
ms_init frame st = record st { stack_bottom = frame; allocation_list = 0; stats = no_stats }

unfoldable pub free_all : ℕ → MarkSweep → Outcome MarkSweep
free_all zero st = hang
free_all (suc rounds) st =
    let rest = λ (st' : MarkSweep). free_all rounds st' in
    if is_null st.allocation_list
    then done st
    else load st.headers st.allocation_list >>= λ a. free st.headers st.allocation_list >>= λ h.
        rest (record st { headers = h; allocation_list = a.next })

unfoldable pub ms_shutdown : (ℕ → ℕ) → ℕ → ℕ → MarkSweep → Outcome MarkSweep
ms_shutdown word rounds stack_top st = collect_garbage word rounds stack_top st >>= free_all rounds

unfoldable pub ms_set_gc_threshold : ℕ → MarkSweep → MarkSweep
ms_set_gc_threshold threshold st = record st { gc_threshold = threshold }
