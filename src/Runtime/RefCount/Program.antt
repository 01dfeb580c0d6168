-- ===== src/Runtime/RefCount/Program.antt =====
-- The calls of a program on the reference counter, with the references that it holds.
use jb_transpiler.Base.{
  ℕ, ◌+◌, ◌<◌, ◌≡◌, ◌≢◌, refl, ap, sym, subst, inl, inr, Bool, some, none, List, [], ◌∷◌, ◌++◌,
  arith, eqb, ltb, length, if◌then◌else◌, Bool-cases,
}
use jb_transpiler.Base.Number.{pos}
use jb_transpiler.Runtime.Machine.{
  done, In, size_mod, update, add_size, count_alloc, is_null_of_ne, modify-some,
}
use jb_transpiler.Runtime.RefCount.{
  RefcountHeader, RefCount, count_up, registered, max_to_free, header_of, header_size,
  inc_ref_count, rc_alloc, rc_init, dec_ref_count,
}
use jb_transpiler.Runtime.RefCount.Counted.{Headers}
use jb_transpiler.Runtime.RefCount.Counts.{plain_header}
use jb_transpiler.Runtime.RefCount.Balance.{owner}
use jb_transpiler.Runtime.RefCount.Lower.{eq_of_eqb}

-- Whether the array of a header can take one more pointer.
abbrev pub has_room : RefcountHeader → Bool
has_room a = ltb (length a.to_free) max_to_free

-- The references that a program holds after its calls. `malloc` answers an address of `l` that is
-- not in use. A pointer that is stored belongs to the other header, unless there is no room in it.
pub data Calls (l : List ℕ) : List ℕ → RefCount → Type 0 where
  start : (st : RefCount) → ((q : ℕ) → st.headers q ≡ none) → Calls l [] (rc_init st)
  alloc :
      {held : List ℕ} {st : RefCount} (header bytes p : ℕ) (st' : RefCount)
      → Calls l held st
      → header ≢ 0
      → header + header_size < size_mod
      → In header l
      → st.headers header ≡ none
      → rc_alloc header bytes st ≡ done (p, st')
      → Calls l (p ∷ held) st'
  copy :
      {held : List ℕ} {st : RefCount} (p : ℕ) (a : RefcountHeader) (st' : RefCount)
      → Calls l held st
      → p ≢ 0
      → p < size_mod
      → st.headers (owner p) ≡ some a
      → inc_ref_count p 0 st ≡ done st'
      → Calls l (p ∷ held) st'
  store :
      {held : List ℕ} {st : RefCount} (p other : ℕ) (a b : RefcountHeader) (st' : RefCount)
      → Calls l held st
      → p ≢ 0
      → p < size_mod
      → st.headers (owner p) ≡ some a
      → other ≢ 0
      → st.headers (header_of other) ≡ some b
      → inc_ref_count p other st ≡ done st'
      → Calls l (if has_room b then held else p ∷ held) st'
  drop :
      {st : RefCount} (depth p : ℕ) (before after : List ℕ) (st' : RefCount)
      → Calls l (before ++ p ∷ after) st
      → length l < depth
      → dec_ref_count depth p 0 st ≡ done st'
      → Calls l (before ++ after) st'

pub copy_run :
    (p : ℕ) (a : RefcountHeader) (st : RefCount)
    → p ≢ 0
    → p < size_mod
    → st.headers (owner p) ≡ some a
    → inc_ref_count p 0 st
      ≡ done (record st { headers = update st.headers (owner p) (some (count_up a)) })
unfolding inc_ref_count
copy_run p a st n lt e =
    rw (is_null_of_ne p n, sym (plain_header p lt), modify-some st.headers (owner p) a count_up e)
      refl

-- The header that a pointer is registered in, when it may be the one with the raised count.
abbrev pub raised : ℕ → ℕ → RefcountHeader → RefcountHeader
raised q o b = if eqb q o then count_up b else b

pub raised_at :
    (h : Headers) (q o : ℕ) (a b : RefcountHeader)
    → h q ≡ some a
    → h o ≡ some b
    → update h q (some (count_up a)) o ≡ some (raised q o b)
raised_at h q o a b e f = elim (Bool-cases (eqb q o)) [
  | inl same ↦
      let both : h o ≡ some a = subst (λ y. h y ≡ some a) (eq_of_eqb q o same) e in
      let one : a ≡ b = ground arith in rw same (ap (λ x. some (count_up x)) one)
  | inr other ↦ rw other f
]

abbrev pub stored_in : ℕ → ℕ → RefcountHeader → RefcountHeader → RefCount → RefCount
stored_in p other a b st = record st {
  headers =
      update (update st.headers (owner p) (some (count_up a))) (header_of other)
        (some (registered p (raised (owner p) (header_of other) b)));
}

pub store_run :
    (p other : ℕ) (a b : RefcountHeader) (st : RefCount)
    → p ≢ 0
    → p < size_mod
    → st.headers (owner p) ≡ some a
    → other ≢ 0
    → st.headers (header_of other) ≡ some b
    → inc_ref_count p other st ≡ done (stored_in p other a b st)
unfolding inc_ref_count
store_run p other a b st n lt e m f =
    rw
      (
        is_null_of_ne p n,
        is_null_of_ne other m,
        sym (plain_header p lt),
        modify-some st.headers (owner p) a count_up e,
        modify-some (update st.headers (owner p) (some (count_up a))) (header_of other)
            (raised (owner p) (header_of other) b) (registered p)
            (raised_at st.headers (owner p) (header_of other) a b e f),
      )
      refl

-- The header of a new block.
abbrev pub fresh_header : ℕ → RefcountHeader
fresh_header bytes = record { count = pos 1; size = add_size bytes header_size; to_free = [] }

abbrev pub allocated : ℕ → ℕ → RefCount → RefCount
allocated header bytes st = record {
  stats = count_alloc (add_size bytes header_size) st.stats;
  headers = update st.headers header (some (fresh_header bytes));
}

pub alloc_run :
    (header bytes : ℕ) (st : RefCount)
    → header ≢ 0
    → rc_alloc header bytes st ≡ done (add_size header header_size, allocated header bytes st)
unfolding rc_alloc
alloc_run header bytes st n = rw (is_null_of_ne header n) refl
