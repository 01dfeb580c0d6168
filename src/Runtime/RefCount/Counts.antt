-- ===== src/Runtime/RefCount/Counts.antt =====
-- Counts that are taken and given back.
use jb_transpiler.Base.{ℕ, suc, ◌+◌, ◌<◌, ◌≡◌, ◌≢◌, refl, some, none, [], List, arith}
use jb_transpiler.Base.Number.{pos}
use jb_transpiler.Runtime.Machine.{
  done, size_mod, add_size, sub_size, update, count_alloc, count_free, load-some, modify-some,
  free-some, update_self, is_null_of_ne,
}
use jb_transpiler.Runtime.RefCount.{
  RefcountHeader, RefCount, header_size, count_down, count_up, header_of, rc_alloc, inc_ref_count,
  dec_all, release, dec_ref_count,
}

pub payload-header :
    (p : ℕ) → p + header_size < size_mod → header_of (sub_size (add_size p header_size) 0) ≡ p
payload-header p lt = omega arith

pub plain_header : (p : ℕ) → p < size_mod → header_of (sub_size p 0) ≡ header_of p
plain_header p lt = omega arith

-- A header as rc_alloc writes it, and after its count is taken off.
abbrev counted : ℕ → ℕ → RefcountHeader
counted n size = record { count = pos n; size = size; to_free = [] }

-- What a count of one does when it is taken off a header that has nothing registered.
dec_last :
    (depth ptr offset p size : ℕ) (st : RefCount)
    → ptr ≢ 0
    → header_of (sub_size ptr offset) ≡ p
    → st.headers p ≡ some (counted 1 size)
    → dec_ref_count (suc depth) ptr offset st
      ≡ done (record {
        stats = count_free size st.stats;
        headers = update (update st.headers p (some (counted 0 size))) p none;
      })
unfolding dec_ref_count dec_all release
dec_last depth ptr offset p size st nonnull e h =
    let k = update st.headers p (some (counted 0 size)) in
    let self = update_self st.headers p (counted 1 size) (some (counted 0 size)) in
    rw
      (
        is_null_of_ne ptr nonnull,
        e,
        modify-some st.headers p (counted 1 size) count_down h,
        load-some k p (counted 0 size) self,
        load-some k p (counted 0 size) self,
        free-some k p (counted 0 size) self,
      )
      refl

-- Where `malloc` answers an address that is not null and not in use and no sum passes 2 ^ 64, an
-- allocation returns, and taking its only count off returns and leaves every header and the counted
-- bytes as they were before.
pub dec_ref_count-rc_alloc :
    (depth header bytes : ℕ) (st : RefCount)
    → header ≢ 0
    → header + header_size < size_mod
    → bytes + header_size < size_mod
    → st.headers header ≡ none
    → st.stats.current_bytes < size_mod
    → (st1 st2 : RefCount) × (rc_alloc header bytes st ≡ done (add_size header header_size, st1))
      × (dec_ref_count (suc depth) (add_size header header_size) 0 st1 ≡ done st2)
      × ((q : ℕ) → st2.headers q ≡ st.headers q)
      × (st2.stats.current_bytes ≡ st.stats.current_bytes)
unfolding rc_alloc count_alloc count_free
dec_ref_count-rc_alloc depth header bytes st nonnull room fits unused bound =
    let size = add_size bytes header_size in
    let st1 : RefCount = record {
      stats = count_alloc size st.stats;
      headers = update st.headers header (some (counted 1 size));
    } in
    let k = update st1.headers header (some (counted 0 size)) in
    (
      st1,
      record { stats = count_free size st1.stats; headers = update k header none },
      rw (is_null_of_ne header nonnull) refl,
      dec_last depth (add_size header header_size) 0 header size st1 (omega arith)
          (payload-header header room)
          (update_self st.headers header (counted 1 size) (some (counted 1 size))),
      λ q. ground arith,
      omega arith,
    )

-- A count that is taken on a live block and given back leaves every header, and the counts of the
-- allocator, as they were.
pub dec_ref_count-inc_ref_count :
    (depth ptr n size : ℕ) (to_free : List ℕ) (st : RefCount)
    → ptr ≢ 0
    → ptr < size_mod
    → st.headers (header_of ptr)
      ≡ some (record { count = pos (suc n); size = size; to_free = to_free })
    → (st1 st2 : RefCount) × (inc_ref_count ptr 0 st ≡ done st1)
      × (dec_ref_count (suc depth) ptr 0 st1 ≡ done st2)
      × ((q : ℕ) → st2.headers q ≡ st.headers q)
      × (st2.stats ≡ st.stats)
unfolding inc_ref_count dec_ref_count
dec_ref_count-inc_ref_count depth ptr n size to_free st nonnull bound h =
    let p = header_of ptr in
    let a : RefcountHeader = record { count = pos (suc n); size = size; to_free = to_free } in
    let k = update st.headers p (some (count_up a)) in
    let self = update_self st.headers p a (some (count_up a)) in
    (
      record st { headers = k },
      record st { headers = update k p (some a) },
      rw (is_null_of_ne ptr nonnull, modify-some st.headers p a count_up h) refl,
      rw
          (
            is_null_of_ne ptr nonnull,
            plain_header ptr bound,
            modify-some k p (count_up a) count_down self,
            load-some (update k p (some a)) p a (update_self k p a (some a)),
          )
          refl,
      λ q. ground arith,
      refl,
    )
