-- ===== src/Runtime/MarkSweep.antt =====
-- runtime/src/mark_sweep_allocator.c. The headers of the allocated blocks are a store of their own;
-- `word` is the rest of the memory, read in words of 8 bytes. The loops along the list of headers,
-- and the recursion of `mark`, get a number of rounds.
pub mod Collector
pub mod Linked
pub mod Find
pub mod Reach
pub mod Mark
pub mod Marking
pub mod Zipper
pub mod Remove
pub mod Sweep
pub mod Collect
pub mod Added
pub mod Alloc
pub mod Shutdown
pub mod Listed
pub mod Session
use jb_transpiler.Base.{
  ℕ, zero, suc, ◌+◌, ◌-◌, ◌≡◌, Bool, true, false, ◌&&◌, Option, none, some, List, [], ◌∷◌, ◌++◌,
  ltb, leb, if◌then◌else◌, length,
}
use jb_transpiler.Runtime.Machine.{
  Outcome, done, exited, fault, hang, ◌>>=◌, add_size, sub_size, is_null, Store, update, load,
  modify, free, AllocatorStats, no_stats, count_alloc, count_free,
}

pub record MsHeader : Type 0 where
  pub marked : Bool
  pub size : ℕ
  pub next : ℕ
  pub prev : ℕ

abbrev pub Headers : Type 0
Headers = Store MsHeader

-- `roots` are the first `root_index` elements of the array.
pub record MarkSweep : Type 0 where
  pub stack_bottom : ℕ
  pub roots : List ℕ
  pub gc_threshold : ℕ
  pub allocation_list : ℕ
  pub stats : AllocatorStats
  pub headers : Headers

abbrev pub max_roots : ℕ
max_roots = 50

-- `sizeof(MSHeader)` and `sizeof(void*)`
abbrev pub header_size : ℕ
header_size = 32

abbrev pub word_size : ℕ
word_size = 8

unfoldable pub ms_register_root : ℕ → MarkSweep → Outcome MarkSweep
ms_register_root ptr st =
    if leb max_roots (length st.roots)
    then exited 1
    else done (record st { roots = st.roots ++ (ptr ∷ []) })

unfoldable pub add_allocation : ℕ → MarkSweep → Outcome MarkSweep
add_allocation header st = do
  h ← modify (λ (a : MsHeader). record a { next = st.allocation_list; prev = 0 }) st.headers header
  h' ←
      if is_null st.allocation_list
      then done h
      else modify (λ (a : MsHeader). record a { prev = header }) h st.allocation_list
  done (record st { headers = h'; allocation_list = header })

-- `header->prev->next = header->next`, or the list begins with `header->next`
unfoldable pub unlink_next : ℕ → MarkSweep → Outcome MarkSweep
unlink_next header st = load st.headers header >>= λ a.
    if is_null a.prev
    then done (record st { allocation_list = a.next })
    else modify (λ (b : MsHeader). record b { next = a.next }) st.headers a.prev >>= λ h.
        done (record st { headers = h })

-- `if (header->next) header->next->prev = header->prev`
unfoldable pub unlink_prev : ℕ → MarkSweep → Outcome MarkSweep
unlink_prev header st = load st.headers header >>= λ a.
    if is_null a.next
    then done st
    else modify (λ (b : MsHeader). record b { prev = a.prev }) st.headers a.next >>= λ h.
        done (record st { headers = h })

unfoldable pub remove_allocation : ℕ → MarkSweep → Outcome MarkSweep
remove_allocation header st = do st' ← unlink_next header st; unlink_prev header st'

-- `ptr >= start && ptr < end`
unfoldable pub inside : ℕ → ℕ → ℕ → Bool
inside header size ptr =
    let start = add_size header header_size in
    leb start ptr && ltb ptr (add_size start (sub_size size header_size))

pub valid_loop : ℕ → Headers → ℕ → ℕ → Outcome Bool
valid_loop zero h current ptr = hang
valid_loop (suc rounds) h current ptr =
    if is_null current
    then done false
    else load h current >>= λ a.
        let rest = valid_loop rounds h a.next ptr in
        if inside current a.size ptr then done true else rest

unfoldable pub is_valid_pointer : ℕ → Headers → ℕ → ℕ → Outcome Bool
unfolding valid_loop
is_valid_pointer rounds h list ptr =
    if is_null ptr then done false else valid_loop rounds h list ptr

pub find_loop : ℕ → Headers → ℕ → ℕ → Outcome ℕ
find_loop zero h current ptr = hang
find_loop (suc rounds) h current ptr =
    if is_null current
    then done 0
    else load h current >>= λ a.
        let rest = find_loop rounds h a.next ptr in
        if inside current a.size ptr then done current else rest

unfoldable pub find_header : ℕ → Headers → ℕ → ℕ → Outcome ℕ
unfolding find_loop
find_header rounds h list ptr = if is_null ptr then done 0 else find_loop rounds h list ptr

-- `if (is_valid_pointer(w)) mark(w)`
unfoldable pub visit_word : (ℕ → Headers → Outcome Headers) → ℕ → ℕ → ℕ → Headers → Outcome Headers
visit_word mark rounds list w h = do
  valid ← is_valid_pointer rounds h list w
  if valid then mark w h else done h

-- `for (p = ...; p < end; ++p)` with such a visit of `*p`
pub scan_words : (ℕ → ℕ) → (ℕ → Headers → Outcome Headers) → ℕ → ℕ → ℕ → Headers → Outcome Headers
scan_words word visit zero p end h = hang
scan_words word visit (suc left) p end h =
    let rest = λ (h' : Headers). scan_words word visit left (p + word_size) end h' in
    if ltb p end then visit (word p) h >>= rest else done h

-- One round more than there are bytes.
unfoldable pub scan_range :
    (ℕ → ℕ) → (ℕ → Headers → Outcome Headers) → ℕ → ℕ → Headers → Outcome Headers
unfolding scan_words
scan_range word visit p end h = scan_words word visit (suc (end - p)) p end h

-- What `mark` does at the header that was found, its recursion given.
unfoldable pub mark_header :
    (ℕ → ℕ) → (ℕ → Headers → Outcome Headers) → ℕ → Headers → Outcome Headers
mark_header word visit header h =
    if is_null header
    then done h
    else load h header >>= λ a.
        if a.marked
        then done h
        else scan_range word visit (add_size header header_size) (add_size header a.size)
            (update h header (some (record a { marked = true })))

-- The first number bounds the depth of the recursion.
unfoldable pub mark : (ℕ → ℕ) → ℕ → ℕ → ℕ → ℕ → Headers → Outcome Headers
mark word zero rounds list ptr h = hang
mark word (suc depth) rounds list ptr h = do
  header ← find_header rounds h list ptr
  mark_header word (visit_word (mark word depth rounds list) rounds list) header h
