-- ===== src/Runtime/RefCount/Accounts.antt =====
-- The counts after each call of a program.
use jb_transpiler.Base.{
  ℕ, ◌+◌, ◌≤◌, ◌<◌, ◌≡◌, ◌≢◌, refl, ap, sym, ◌∙◌, subst, inl, inr, some, none, List, [], ◌∷◌, ◌++◌,
  arith, eqb, length, if◌then◌else◌, Bool-cases,
}
use jb_transpiler.Runtime.Machine.{In, size_mod, update, add_size}
use jb_transpiler.Runtime.RefCount.{
  RefcountHeader, RefCount, is_zero, count_up, registered, header_of, header_size, rc_init,
}
use jb_transpiler.Runtime.RefCount.Counted.{Headers}
use jb_transpiler.Runtime.RefCount.Counts.{payload-header}
use jb_transpiler.Runtime.RefCount.Balance.{
  owner, uses, stored, registered_at, alive, NotNull, Distinct, Balanced,
}
use jb_transpiler.Runtime.RefCount.Stored.{uses-append}
use jb_transpiler.Runtime.RefCount.Lower.{eq_of_eqb}
use jb_transpiler.Runtime.RefCount.Drop.{
  none_dies, AllCounted, written-AllCounted, dec_ref_count_safe,
}
use jb_transpiler.Runtime.RefCount.Raise.{raised-Balanced, registered-Balanced, fresh-Balanced}
use jb_transpiler.Runtime.RefCount.Program.{
  has_room, Calls, start, alloc, copy, store, drop, raised, raised_at, fresh_header, allocated,
  stored_in, copy_run, store_run, alloc_run,
}

first-NotNull :
    (before after : List ℕ) (p : ℕ) → NotNull (before ++ p ∷ after) → NotNull (p ∷ before ++ after)
first-NotNull [] after p n = n
first-NotNull (x ∷ xs) after p n = let (m, k) = first-NotNull xs after p n.1 in (m, (n.0, k))

-- The order of the references that are held is of no account.
pub first-Balanced :
    (h : Headers) (l before after : List ℕ) (p : ℕ)
    → Balanced h none_dies l (before ++ p ∷ after)
    → Balanced h none_dies l (p ∷ before ++ after)
first-Balanced h l before after p b =
    let same : (q : ℕ) → uses q (before ++ p ∷ after) ≡ uses q (p ∷ before ++ after) = λ q. omega (
      arith,
      uses-append q before (p ∷ after),
      uses-append q before after,
      uses-append q (p ∷ []) after,
      uses-append q (p ∷ []) (before ++ after),
    ) in
    record {
      covers = b.covers;
      counts = λ q x e f. let (c, n) = b.counts q x e f in (rw (sym (same q)) c, n);
      present = λ q lt. b.present q (rw (same q) lt);
      not_null = first-NotNull before after p b.not_null;
    }

pub alive-length : (h : Headers) (l : List ℕ) → alive h none_dies l ≤ length l
unfolding alive
alive-length h [] = omega arith
alive-length h (x ∷ l) = ground (arith, alive-length h l)

allocated-Balanced :
    (l held : List ℕ) (header bytes : ℕ) (st : RefCount)
    → header ≢ 0
    → header + header_size < size_mod
    → In header l
    → st.headers header ≡ none
    → Balanced st.headers none_dies l held
    → Balanced (allocated header bytes st).headers none_dies l (add_size header header_size ∷ held)
allocated-Balanced l held header bytes st n lt i free b =
    let p = add_size header header_size in
    let at : owner p ≡ header = payload-header header lt in
    subst (λ y. Balanced (update st.headers y (some (fresh_header bytes))) none_dies l (p ∷ held))
      at
      (fresh-Balanced st.headers none_dies l p held (fresh_header bytes) (omega arith)
        (subst (λ y. In y l) (sym at) i) (ap st.headers at ∙ free) refl refl refl b)

update_same : (h : Headers) (q : ℕ) (a : RefcountHeader) → h q ≡ some a → update h q (some a) ≡ h
update_same h q a e =
    let at : (x : ℕ) → update h q (some a) x ≡ h x = λ x. elim (Bool-cases (eqb q x)) [
      | inl same ↦ rw same (sym e ∙ ap h (eq_of_eqb q x same))
      | inr other ↦ rw other refl
    ] in
    λ i x. at x i

-- What is in place when a pointer is stored.
stored-Balanced :
    (l held : List ℕ) (p other : ℕ) (a b : RefcountHeader) (h : Headers)
    → Distinct l
    → p ≢ 0
    → h (owner p) ≡ some a
    → h (header_of other) ≡ some b
    → Balanced h none_dies l held
    → Balanced
        (update
          (update h (owner p) (some (count_up a)))
          (header_of other)
          (some (registered p (raised (owner p) (header_of other) b))))
        none_dies
        l
        (if has_room b then held else p ∷ held)
stored-Balanced l held p other a b h u n e f w =
    let h1 = update h (owner p) (some (count_up a)) in
    let b1 = raised (owner p) (header_of other) b in
    let o = header_of other in
    let one = raised-Balanced h none_dies l p held u a n e refl w in
    let there = raised_at h (owner p) o a b e f in
    let as_long : has_room b1 ≡ has_room b = ground arith in
    elim (Bool-cases (has_room b)) [
      | inl room ↦
          rw room (registered-Balanced h1 none_dies l p held u o b1 there refl (as_long ∙ room) one)
      | inr full ↦
          let unchanged : registered p b1 ≡ b1 = rw (as_long ∙ full) refl in
          rw (full, unchanged, update_same h1 o b1 there) one
    ]

nothing_stored :
    (h : Headers) (l : List ℕ) (q : ℕ) → ((x : ℕ) → h x ≡ none) → stored h none_dies l q ≡ 0
unfolding stored uses
nothing_stored h [] q empty = refl
nothing_stored h (x ∷ l) q empty =
    let here : registered_at h none_dies x ≡ [] = ground (arith, empty x) in
    let none_used : uses q [] ≡ 0 = refl in
    omega (arith, ap (uses q) here, nothing_stored h l q empty)

nothing-Balanced : (h : Headers) (l : List ℕ) → ((x : ℕ) → h x ≡ none) → Balanced h none_dies l []
unfolding uses
nothing-Balanced h l empty = record {
  covers = λ q a e. absurd (let f = empty q in cc);
  counts = λ q a e f. absurd (let f = empty q in cc);
  present = λ q lt. absurd (omega (arith, nothing_stored h l q empty));
  not_null = tt;
}

raised_counted :
    (h : Headers) (l held : List ℕ) (q : ℕ) (a : RefcountHeader)
    → h q ≡ some a
    → Balanced h none_dies l held
    → AllCounted h none_dies
    → AllCounted (update h q (some (count_up a))) none_dies
raised_counted h l held q a e b m =
    let (c, _) = b.counts q a e refl in written-AllCounted h none_dies q (count_up a) (rw c refl) m

stored_counted :
    (h : Headers) (q p : ℕ) (a : RefcountHeader)
    → h q ≡ some a
    → AllCounted h none_dies
    → AllCounted (update h q (some (registered p a))) none_dies
stored_counted h q p a e m =
    let one : (registered p a).count ≡ a.count = ground arith in
    written-AllCounted h none_dies q (registered p a) (ap is_zero one ∙ m q a e refl) m

-- The counts are right and none is zero.
abbrev pub Accounted : List ℕ → List ℕ → RefCount → Type 0
Accounted l held st = Balanced st.headers none_dies l held × AllCounted st.headers none_dies

-- Where the addresses that `malloc` answers are listed once, in every state that the calls of a
-- program lead to the count of each header is the number of the references that the program holds
-- and that allocated headers have registered, each of these leads to an allocated header, and no
-- header stays allocated with a count of zero.
pub Calls-Accounted :
    {l held : List ℕ} {st : RefCount} → Distinct l → Calls l held st → Accounted l held st
unfolding rc_init
Calls-Accounted {l} u (start st empty) =
    (nothing-Balanced st.headers l empty, λ q a e f. absurd (let g = empty q in cc))
Calls-Accounted {l} u (alloc {held} {st} header bytes p st' c n lt i free e) =
    let (b, m) = Calls-Accounted u c in
    let run = alloc_run header bytes st n in
    let to : add_size header header_size ≡ p = cc in
    let same : allocated header bytes st ≡ st' = cc in
    subst (λ (s : RefCount). Accounted l (p ∷ held) s) same
      (subst (λ y. Accounted l (y ∷ held) (allocated header bytes st)) to
        (
          allocated-Balanced l held header bytes st n lt i free b,
          written-AllCounted st.headers none_dies header (fresh_header bytes) refl m,
        ))
Calls-Accounted {l} u (copy {held} {st} p a st' c n lt e r) =
    let (b, m) = Calls-Accounted u c in
    let run = copy_run p a st n lt e in
    let same : record st { headers = update st.headers (owner p) (some (count_up a)) } ≡ st' = cc in
    subst (λ (s : RefCount). Accounted l (p ∷ held) s) same
      (
        raised-Balanced st.headers none_dies l p held u a n e refl b,
        raised_counted st.headers l held (owner p) a e b m,
      )
Calls-Accounted {l} u (store {held} {st} p other a b st' c n lt e k f r) =
    let (w, m) = Calls-Accounted u c in
    let run = store_run p other a b st n lt e k f in
    let same : stored_in p other a b st ≡ st' = cc in
    let h1 = update st.headers (owner p) (some (count_up a)) in
    subst (λ (s : RefCount). Accounted l (if has_room b then held else p ∷ held) s) same
      (
        stored-Balanced l held p other a b st.headers u n e f w,
        stored_counted h1 (header_of other) p (raised (owner p) (header_of other) b)
            (raised_at st.headers (owner p) (header_of other) a b e f)
            (raised_counted st.headers l held (owner p) a e w m),
      )
Calls-Accounted {l} u (drop {st} depth p before after st' c enough r) =
    let (b, m) = Calls-Accounted u c in
    let (s, e, w, k) =
      dec_ref_count_safe l depth p (before ++ after) st u
        (first-Balanced st.headers l before after p b) m
        (omega (arith, alive-length st.headers l)) in
    let same : s ≡ st' = cc in subst (λ (x : RefCount). Accounted l (before ++ after) x) same (w, k)
