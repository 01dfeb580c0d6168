-- ===== src/Runtime/RefCount/Progress.antt =====
-- What a program that uses the reference counter may rely on: its references lead to headers, and
-- its calls return.
use jb_transpiler.Base.{
  ℕ, suc, ◌+◌, ◌-◌, ◌<◌, ◌≡◌, ◌≢◌, ap, sym, ◌∙◌, subst, inl, inr, some, List, [], ◌∷◌, ◌++◌, arith,
  length,
}
use jb_transpiler.Base.Number.{pos}
use jb_transpiler.Runtime.Machine.{done, In, size_mod}
use jb_transpiler.Runtime.RefCount.{RefcountHeader, RefCount, inc_ref_count, dec_ref_count}
use jb_transpiler.Runtime.RefCount.Counts.{plain_header}
use jb_transpiler.Runtime.RefCount.Balance.{owner, uses, stored, NotNull, Distinct, Balanced}
use jb_transpiler.Runtime.RefCount.Drop.{none_dies, dec_ref_count_safe}
use jb_transpiler.Runtime.RefCount.Program.{Calls, copy_run, store_run}
use jb_transpiler.Runtime.RefCount.Accounts.{Calls-Accounted, first-Balanced, alive-length}

uses-In : (p : ℕ) (held : List ℕ) → In p held → 0 < uses (owner p) held
unfolding uses
uses-In p [] i = absurd i
uses-In p (x ∷ held) (inl e) = ground (arith, ap owner e)
uses-In p (x ∷ held) (inr i) = ground (arith, uses-In p held i)

NotNull-In : (p : ℕ) (held : List ℕ) → NotNull held → In p held → p ≢ 0
NotNull-In p [] n i = absurd i
NotNull-In p (x ∷ held) n (inl e) = λ z. n.0 (sym e ∙ z)
NotNull-In p (x ∷ held) n (inr i) = NotNull-In p held n.1 i

In-split :
    (p : ℕ) (held : List ℕ)
    → In p held
    → (before : List ℕ) × (after : List ℕ) × (held ≡ before ++ p ∷ after)
In-split p [] i = absurd i
In-split p (x ∷ held) (inl e) = ([], held, ap (λ k. k ∷ held) (sym e))
In-split p (x ∷ held) (inr i) =
    let (before, after, s) = In-split p held i in (x ∷ before, after, ap (λ k. x ∷ k) s)

-- A reference that is held leads to a header with a positive count.
held-header :
    (l held : List ℕ) (p : ℕ) (st : RefCount)
    → Balanced st.headers none_dies l held
    → In p held
    → (a : RefcountHeader) × (n : ℕ) × (st.headers (owner p) ≡ some a) × (a.count ≡ pos (suc n))
held-header l held p st b i =
    let some_use = uses-In p held i in
    let (a, e, f) = b.present (owner p) (omega (arith, some_use)) in
    let (c, _) = b.counts (owner p) a e f in
    let total = uses (owner p) held + stored st.headers none_dies l (owner p) in
    (a, total - 1, e, c ∙ ap pos (omega (arith, some_use)))

-- In every state that the calls of a program lead to, where the addresses that `malloc` answers are
-- listed once and the rounds exceed their number, for two references that the program holds: the
-- first one leads to a header with a positive count, and copying it, storing it in the block of the
-- second one and giving it back return.
pub Calls-returns :
    {l held : List ℕ} {st : RefCount} (depth p other : ℕ)
    → Distinct l
    → Calls l held st
    → length l < depth
    → In p held
    → p < size_mod
    → In other held
    → other < size_mod
    → ((a : RefcountHeader) × (n : ℕ) × (st.headers (owner p) ≡ some a) × (a.count ≡ pos (suc n)))
      × ((st' : RefCount) × (inc_ref_count p 0 st ≡ done st'))
      × ((st' : RefCount) × (inc_ref_count p other st ≡ done st'))
      × ((st' : RefCount) × (dec_ref_count depth p 0 st ≡ done st'))
Calls-returns {l} {held} {st} depth p other u c enough i lt j lt' =
    let (b, m) = Calls-Accounted u c in
    let n = NotNull-In p held b.not_null i in
    let (a, k, e, w) = held-header l held p st b i in
    let (a', _, e', _) = held-header l held other st b j in
    let (before, after, s) = In-split p held i in
    let (st', f, _, _) =
      dec_ref_count_safe l depth p (before ++ after) st u
        (first-Balanced st.headers l before after p
          (subst (λ x. Balanced st.headers none_dies l x) s b))
        m (omega (arith, alive-length st.headers l)) in
    (
      (a, k, e, w),
      (_, copy_run p a st n lt e),
      (
        _,
        store_run p other a a' st n lt e (NotNull-In other held b.not_null j)
            (ap st.headers (sym (plain_header other lt')) ∙ e'),
      ),
      (st', f),
    )
