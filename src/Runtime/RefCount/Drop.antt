-- ===== src/Runtime/RefCount/Drop.antt =====
-- Where the counts are right, dec_ref_count never touches a block that is freed, and leaves them
-- right.
use jb_transpiler.Base.{
  ℕ, zero, suc, ◌≤◌, ◌<◌, ◌≡◌, ◌≢◌, refl, ap, sym, ◌∙◌, inl, inr, true, false, some, none, List, [],
  ◌∷◌, ◌++◌, arith, eqb, if◌then◌else◌, Bool-cases,
}
use jb_transpiler.Base.Number.{pos}
use jb_transpiler.Runtime.Machine.{
  Outcome, done, ◌>>=◌, update, count_free, is_null_of_ne, load-some, modify-some, free-some,
  update_self,
}
use jb_transpiler.Runtime.RefCount.{
  RefcountHeader, RefCount, down, is_zero, count_down, dec_all, release, dec_ref_count,
}
use jb_transpiler.Runtime.RefCount.Counted.{Headers}
use jb_transpiler.Runtime.RefCount.Balance.{owner, Dying, dies, alive, NotNull, Distinct, Balanced}
use jb_transpiler.Runtime.RefCount.Stored.{stored-down, alive-down, alive-free, alive-dies}
use jb_transpiler.Runtime.RefCount.Lower.{
  eq_of_eqb, others, held_header, lowered-Balanced, dying-Balanced, freed-Balanced,
}

zero_of : (n : ℕ) → is_zero (pos n) ≡ true → n ≡ 0
zero_of zero z = refl
zero_of (suc n) z = cc

-- A dying header is not the one that is written.
kept_at :
    (h : Headers) (d : Dying) (q z : ℕ) (a : RefcountHeader)
    → d q ≡ false
    → d z ≡ true
    → update h q (some a) z ≡ h z
kept_at h d q z a f g = elim (Bool-cases (eqb q z)) [
  | inl same ↦ absurd (let c : true ≡ false = sym g ∙ ap d (sym (eq_of_eqb q z same)) ∙ f in cc)
  | inr other ↦ ground arith
]

-- No header is left with a count of zero, but those that die.
abbrev pub AllCounted : Headers → Dying → Type 0
AllCounted h d = (q : ℕ) (a : RefcountHeader) → h q ≡ some a → d q ≡ false → is_zero a.count ≡ false

pub written-AllCounted :
    (h : Headers) (d : Dying) (p : ℕ) (a : RefcountHeader)
    → is_zero a.count ≡ false
    → AllCounted h d
    → AllCounted (update h p (some a)) d
written-AllCounted h d p a z m q x e f = elim (Bool-cases (eqb p q)) [
  | inl same ↦
      let one : a ≡ x = ground arith in ap (λ (y : RefcountHeader). is_zero y.count) (sym one) ∙ z
  | inr other ↦ m q x (ground arith) f
]

dying-AllCounted :
    (h : Headers) (d : Dying) (p : ℕ) (a : RefcountHeader)
    → AllCounted h d
    → AllCounted (update h p (some a)) (dies d p)
dying-AllCounted h d p a m q x e f = m q x (ground arith) (ground arith)

freed-AllCounted :
    (h : Headers) (d : Dying) (p : ℕ) → AllCounted h (dies d p) → AllCounted (update h p none) d
freed-AllCounted h d p m q x e f = m q x (ground arith) (ground arith)

module _ (l : List ℕ) (u : Distinct l) where
  -- What is left of a call that gives these references back: it returns, the counts are right for
  -- the others, dying headers are as they were, and no count is zero where none was.
  abbrev Drops : (RefCount → Outcome RefCount) → Dying → Dying → List ℕ → RefCount → Type 0
  Drops call c d held st =
      (st' : RefCount) × (call st ≡ done st')
      × Balanced st'.headers d l held
      × ((z : ℕ) → d z ≡ true → st'.headers z ≡ st.headers z)
      × (alive st'.headers d l ≤ alive st.headers d l)
      × (AllCounted st.headers c → AllCounted st'.headers d)

  abbrev DropsOne : (ℕ → RefCount → Outcome RefCount) → ℕ → Type 0
  DropsOne dec depth =
      (p : ℕ) (d : Dying) (held : List ℕ) (st : RefCount)
      → Balanced st.headers d l (p ∷ held)
      → alive st.headers d l < depth
      → Drops (dec p) d d held st

  dec_all-Drops :
      (dec : ℕ → RefCount → Outcome RefCount) (depth : ℕ)
      → DropsOne dec depth
      → (ps : List ℕ) (d : Dying) (held : List ℕ) (st : RefCount)
      → Balanced st.headers d l (ps ++ held)
      → alive st.headers d l < depth
      → Drops (dec_all dec ps) d d held st
  unfolding dec_all
  dec_all-Drops dec depth each [] d held st b lt = (st, refl, b, λ z e. refl, omega arith, λ m. m)
  dec_all-Drops dec depth each (p ∷ ps) d held st b lt =
      let (s1, e1, b1, k1, a1, m1) = each p d (ps ++ held) st b lt in
      let (s2, e2, b2, k2, a2, m2) = dec_all-Drops dec depth each ps d held s1 b1 (omega arith) in
      (s2, rw e1 e2, b2, λ z e. k2 z e ∙ k1 z e, omega arith, λ m. m2 (m1 m))

  dec_ref_count_step :
      (depth p : ℕ) (a : RefcountHeader) (st : RefCount)
      → p ≢ 0
      → st.headers (owner p) ≡ some a
      → dec_ref_count (suc depth) p 0 st ≡ (
          let s1 = record st { headers = update st.headers (owner p) (some (count_down a)) } in
          if is_zero (down a.count)
          then dec_all (λ (q : ℕ) (s : RefCount). dec_ref_count depth q 0 s) a.to_free s1
            >>= release (owner p)
          else done s1)
  unfolding dec_ref_count
  dec_ref_count_step depth p a st n e =
      rw
        (
          is_null_of_ne p n,
          modify-some st.headers (owner p) a count_down e,
          load-some (update st.headers (owner p) (some (count_down a))) (owner p) (count_down a)
              (update_self st.headers (owner p) a (some (count_down a))),
        )
        refl

  release_lem :
      (q : ℕ) (a : RefcountHeader) (st : RefCount)
      → st.headers q ≡ some a
      → release q st
        ≡ done (record { stats = count_free a.size st.stats; headers = update st.headers q none })
  unfolding release
  release_lem q a st e = rw (load-some st.headers q a e, free-some st.headers q a e) refl

  -- The last reference goes: what the header has registered is given back, and it is freed.
  release-Drops :
      (dec : ℕ → RefCount → Outcome RefCount) (depth p : ℕ) (a : RefcountHeader) (d : Dying)
      (held : List ℕ) (st : RefCount)
      → DropsOne dec depth
      → st.headers (owner p) ≡ some a
      → d (owner p) ≡ false
      → NotNull a.to_free
      → others st.headers d l p held ≡ 0
      → Balanced st.headers d l held
      → alive st.headers d l < suc depth
      → Drops (λ s. dec_all dec a.to_free s >>= release (owner p)) (dies d (owner p)) d held st
  release-Drops dec depth p a d held st each e f n none_left b lt =
      let h = st.headers in
      let fewer = alive-dies h d l (owner p) a (b.covers (owner p) a e) e f in
      let (s1, e1, b1, k1, a1, m1) =
        dec_all-Drops dec depth each a.to_free (dies d (owner p)) held st
          (dying-Balanced h d l p held a e f n u none_left b) (omega arith) in
      let kept : s1.headers (owner p) ≡ some a = k1 (owner p) (ground arith) ∙ e in
      (
        record { stats = count_free a.size s1.stats; headers = update s1.headers (owner p) none },
        rw e1 (release_lem (owner p) a s1 kept),
        freed-Balanced s1.headers d l p held f b1,
        λ z g. ground (arith, k1 z),
        omega (arith, alive-free s1.headers d l (owner p)),
        λ m. freed-AllCounted s1.headers d (owner p) (m1 m),
      )

  dec_ref_count-Drops :
      (depth : ℕ) → DropsOne (λ (p : ℕ) (s : RefCount). dec_ref_count depth p 0 s) depth
  dec_ref_count-Drops zero p d held st b lt = absurd (omega arith)
  dec_ref_count-Drops (suc depth) p d held st b lt =
      let h = st.headers in
      let (a, e, f, c, n) = held_header h d l p held b in
      let h1 = update h (owner p) (some (count_down a)) in
      let s1 = record st { headers = h1 } in
      let b1 = lowered-Balanced h d l p held a e c n b in
      let run = dec_ref_count_step depth p a st b.not_null.0 e in
      let dec = λ (q : ℕ) (s : RefCount). dec_ref_count depth q 0 s in
      elim (Bool-cases (is_zero (down a.count))) [
        | inl last ↦
            let none_left = zero_of (others h d l p held) (ap is_zero (sym (ap down c)) ∙ last) in
            let (s2, e2, b2, k2, a2, m2) =
              release-Drops dec depth p (count_down a) d held s1 (dec_ref_count-Drops depth)
                (update_self h (owner p) a (some (count_down a))) f n
                (omega (arith, none_left, stored-down h d l (owner p) (owner p) a e)) b1
                (omega (arith, alive-down h d l (owner p) a e)) in
            (
              s2,
              run ∙ rw last e2,
              b2,
              λ z g. k2 z g ∙ kept_at h d (owner p) z (count_down a) f g,
              omega (arith, alive-down h d l (owner p) a e),
              λ m. m2 (dying-AllCounted h d (owner p) (count_down a) m),
            )
        | inr more ↦ (
          s1,
          run ∙ rw more refl,
          b1,
          λ z g. kept_at h d (owner p) z (count_down a) f g,
          omega (arith, alive-down h d l (owner p) a e),
          λ m. written-AllCounted h d (owner p) (count_down a) more m,
        )
      ]

abbrev pub none_dies : Dying
none_dies q = false

-- Where the counts are right and none is zero, no header being released, and there are more rounds
-- than headers, giving back a reference that the program holds returns; the counts are right without
-- it, and none is zero.
pub dec_ref_count_safe :
    (l : List ℕ) (depth p : ℕ) (held : List ℕ) (st : RefCount)
    → Distinct l
    → Balanced st.headers none_dies l (p ∷ held)
    → AllCounted st.headers none_dies
    → alive st.headers none_dies l < depth
    → (st' : RefCount) × (dec_ref_count depth p 0 st ≡ done st')
      × Balanced st'.headers none_dies l held
      × AllCounted st'.headers none_dies
dec_ref_count_safe l depth p held st u b m lt =
    let (st', e, b', _, _, m') = dec_ref_count-Drops l u depth p none_dies held st b lt in
    (st', e, b', m' m)
