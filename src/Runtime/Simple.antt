-- ===== src/Runtime/Simple.antt =====
-- runtime/src/simple_allocator.c. The blocks are `malloc`'s own; the allocator keeps the counts.
use jb_transpiler.Base.{
  ℕ, suc, ◌+◌, ◌<◌, ◌≡◌, refl, some, inl, inr, Bool-cases, List, [], ◌∷◌, arith, if◌then◌else◌,
}
use jb_transpiler.Runtime.Machine.{
  Outcome, done, ◌>>=◌, size_mod, is_null, Store, update, free, AllocatorStats, no_stats,
  count_alloc,
}

-- `blocks` has the size of each block that `malloc` has given out.
pub record Simple : Type 0 where
  pub stats : AllocatorStats
  pub blocks : Store ℕ

-- `ptr` is what `malloc` returned.
unfoldable pub simple_alloc : ℕ → ℕ → Simple → Outcome (ℕ × Simple)
simple_alloc ptr bytes st =
    if is_null ptr
    then done (ptr, st)
    else done (
      ptr,
      record { stats = count_alloc bytes st.stats; blocks = update st.blocks ptr (some bytes) },
    )

unfoldable pub simple_dealloc : ℕ → Simple → Outcome Simple
simple_dealloc ptr st =
    if is_null ptr then done st else free st.blocks ptr >>= λ b. done (record st { blocks = b })

unfoldable pub simple_init : Simple → Simple
simple_init st = record st { stats = no_stats }

-- Allocations in turn, each with what `malloc` returned and its size.
unfoldable pub alloc_all : List (ℕ × ℕ) → Simple → Outcome Simple
alloc_all [] st = done st
alloc_all ((ptr, bytes) ∷ l) st = simple_alloc ptr bytes st >>= λ r. alloc_all l r.1

-- The allocations that `malloc` answered, and their bytes.
unfoldable pub answered : List (ℕ × ℕ) → ℕ
answered [] = 0
answered ((ptr, bytes) ∷ l) = if is_null ptr then answered l else suc (answered l)

unfoldable pub bytes_of : List (ℕ × ℕ) → ℕ
bytes_of [] = 0
bytes_of ((ptr, bytes) ∷ l) = if is_null ptr then bytes_of l else bytes + bytes_of l

-- From counts that add up, with room for the rest, they add up.
alloc_all-counts :
    (l : List (ℕ × ℕ)) (st : Simple)
    → st.stats.current_bytes + bytes_of l < size_mod
    → st.stats.total_allocations + answered l < size_mod
    → st.stats.peak_bytes ≡ st.stats.current_bytes
    → (st' : Simple) × (alloc_all l st ≡ done st')
      × (st'.stats.total_allocations ≡ st.stats.total_allocations + answered l)
      × (st'.stats.current_bytes ≡ st.stats.current_bytes + bytes_of l)
      × (st'.stats.peak_bytes ≡ st'.stats.current_bytes)
unfolding alloc_all simple_alloc answered bytes_of count_alloc
alloc_all-counts [] st a b e = (st, refl, omega arith, omega arith, e)
alloc_all-counts ((ptr, bytes) ∷ l) st a b e = elim (Bool-cases (is_null ptr)) [
  | inl null ↦
      let (st', f, x, y, z) = alloc_all-counts l st (ground arith) (ground arith) e in
      (st', rw null f, rw null x, rw null y, z)
  | inr found ↦
      let st1 : Simple = record {
        stats = count_alloc bytes st.stats;
        blocks = update st.blocks ptr (some bytes);
      } in
      let (st', f, x, y, z) = alloc_all-counts l st1 (ground arith) (ground arith) (ground arith) in
      (st', rw found f, rw found (ground (arith, x)), rw found (ground (arith, y)), z)
]

-- After simple_init, allocations whose bytes and number stay below 2 ^ 64 return, and leave the number
-- of those that `malloc` answered as the total, and their bytes as the current and the peak count.
pub alloc_all-simple_init :
    (l : List (ℕ × ℕ)) (st : Simple)
    → bytes_of l < size_mod
    → answered l < size_mod
    → (st' : Simple) × (alloc_all l (simple_init st) ≡ done st')
      × (st'.stats.total_allocations ≡ answered l)
      × (st'.stats.current_bytes ≡ bytes_of l)
      × (st'.stats.peak_bytes ≡ bytes_of l)
unfolding simple_init
alloc_all-simple_init l st a b =
    let (st', f, x, y, z) = alloc_all-counts l (simple_init st) (omega arith) (omega arith) refl in
    (st', f, omega arith, omega arith, omega arith)
