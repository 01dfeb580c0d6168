-- ===== src/Runtime/RefCount.antt =====
-- runtime/src/reference_count_allocator.c. `to_free` is the first `idx` elements of the array, and a
-- count stays far from the ends of `long long`.
pub mod Counted
pub mod Release
pub mod Counts
pub mod Balance
pub mod Stored
pub mod Lower
pub mod Drop
pub mod Raise
pub mod Program
pub mod Accounts
pub mod Progress
pub mod Cycles
use jb_transpiler.Base.{
  ℕ, zero, suc, ◌+◌, ◌-◌, Bool, true, false, some, List, [], ◌∷◌, ◌++◌, ltb, if◌then◌else◌, length,
}
use jb_transpiler.Base.Number.{ℤ, pos, negsuc}
use jb_transpiler.Runtime.Machine.{
  Outcome, done, fault, hang, ◌>>=◌, add_size, sub_size, is_null, Store, update, load, modify, free,
  AllocatorStats, no_stats, count_alloc, count_free,
}

pub record RefcountHeader : Type 0 where
  pub count : ℤ
  pub size : ℕ
  pub to_free : List ℕ

pub record RefCount : Type 0 where
  pub stats : AllocatorStats
  pub headers : Store RefcountHeader

-- `sizeof(RefcountHeader)`
abbrev pub header_size : ℕ
header_size = 48

-- The length of the array `to_free`.
abbrev pub max_to_free : ℕ
max_to_free = 3

abbrev pub up : ℤ → ℤ
up (pos n) = pos (suc n)
up (negsuc zero) = pos 0
up (negsuc (suc n)) = negsuc n

abbrev pub down : ℤ → ℤ
down (pos zero) = negsuc 0
down (pos (suc n)) = pos n
down (negsuc n) = negsuc (suc n)

abbrev pub is_zero : ℤ → Bool
is_zero (pos zero) = true
is_zero (pos (suc n)) = false
is_zero (negsuc n) = false

-- `header` is what `malloc` returned. It is written before the test for null.
unfoldable pub rc_alloc : ℕ → ℕ → RefCount → Outcome (ℕ × RefCount)
rc_alloc header bytes st =
    let size = add_size bytes header_size in
    if is_null header
    then fault
    else done (
      add_size header header_size,
      record {
        stats = count_alloc size st.stats;
        headers =
            update st.headers header (some (record { count = pos 1; size = size; to_free = [] }));
      },
    )

abbrev pub header_of : ℕ → ℕ
header_of ptr = sub_size ptr header_size

abbrev pub count_up : RefcountHeader → RefcountHeader
count_up a = record a { count = up a.count }

abbrev pub count_down : RefcountHeader → RefcountHeader
count_down a = record a { count = down a.count }

abbrev pub registered : ℕ → RefcountHeader → RefcountHeader
registered ptr a =
    if ltb (length a.to_free) max_to_free then record a { to_free = a.to_free ++ (ptr ∷ []) } else a

unfoldable pub inc_ref_count : ℕ → ℕ → RefCount → Outcome RefCount
inc_ref_count ptr other st =
    if is_null ptr
    then done st
    else modify count_up st.headers (header_of ptr) >>= λ h.
        if is_null other
        then done (record st { headers = h })
        else modify (registered ptr) h (header_of other) >>= λ h'. done (record st { headers = h' })

unfoldable pub dec_all : (ℕ → RefCount → Outcome RefCount) → List ℕ → RefCount → Outcome RefCount
dec_all dec [] st = done st
dec_all dec (p ∷ ps) st = dec p st >>= dec_all dec ps

-- The counts and the memory of a header that nothing refers to any more.
unfoldable pub release : ℕ → RefCount → Outcome RefCount
release header st = load st.headers header >>= λ a. free st.headers header >>= λ h.
    done (record { stats = count_free a.size st.stats; headers = h })

-- The first number bounds the depth of the recursion.
unfoldable pub dec_ref_count : ℕ → ℕ → ℕ → RefCount → Outcome RefCount
dec_ref_count zero ptr offset st = hang
dec_ref_count (suc depth) ptr offset st =
    let header = header_of (sub_size ptr offset) in
    let inner = λ (p : ℕ) (s : RefCount). dec_ref_count depth p 0 s in
    if is_null ptr
    then done st
    else modify count_down st.headers header >>= λ h. load h header >>= λ a.
        if is_zero a.count
        then dec_all inner a.to_free (record st { headers = h }) >>= release header
        else done (record st { headers = h })

unfoldable pub rc_init : RefCount → RefCount
rc_init st = record st { stats = no_stats }
