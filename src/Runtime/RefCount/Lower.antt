-- ===== src/Runtime/RefCount/Lower.antt =====
-- One count that is lowered, and the header that dies with its last one, where the counts are right.
use jb_transpiler.Base.{
  ℕ, suc, ◌+◌, ◌≤◌, ◌<◌, ◌≡◌, ◌≢◌, ap, sym, ◌∙◌, subst, inl, inr, true, false, some, none, List,
  ◌∷◌, ◌++◌, arith, eqb, Bool-cases,
}
use jb_transpiler.Base.Number.{pos}
use jb_transpiler.Runtime.Machine.{update}
use jb_transpiler.Runtime.RefCount.{RefcountHeader, down, count_down}
use jb_transpiler.Runtime.RefCount.Counted.{Headers}
use jb_transpiler.Runtime.RefCount.Balance.{
  owner, uses, Dying, dies, stored, NotNull, Distinct, Balanced, IsRight,
}
use jb_transpiler.Runtime.RefCount.Stored.{
  uses-append, NotNull-append, stored-dies, stored-down, stored-free,
}

pub eq_of_eqb : (a b : ℕ) → eqb a b ≡ true → a ≡ b
eq_of_eqb a b h = ground arith

pub uses-owner : (p : ℕ) (held : List ℕ) → uses (owner p) (p ∷ held) ≡ suc (uses (owner p) held)
unfolding uses
uses-owner p held = ground arith

pub uses-other : (p q : ℕ) (held : List ℕ) → owner p ≢ q → uses q (p ∷ held) ≡ uses q held
unfolding uses
uses-other p q held n = ground arith

pub uses-le : (p q : ℕ) (held : List ℕ) → uses q held ≤ uses q (p ∷ held)
unfolding uses
uses-le p q held = ground arith

-- What is right for a header that was just written.
pub IsRight-written :
    (h : Headers) (d : Dying) (l held : List ℕ) (p q : ℕ) (a x : RefcountHeader)
    → eqb p q ≡ true
    → a ≡ x
    → IsRight h d l held p a
    → IsRight h d l held q x
IsRight-written h d l held p q a x same whole r =
    subst (λ y. IsRight h d l held y x) (eq_of_eqb p q same)
      (subst (λ z. IsRight h d l held p z) whole r)

module _ (h : Headers) (d : Dying) (l : List ℕ) (p : ℕ) (held : List ℕ) where
  abbrev pub others : ℕ
  others = uses (owner p) held + stored h d l (owner p)

  -- The header of a reference that is held.
  pub held_header :
      Balanced h d l (p ∷ held)
      → (a : RefcountHeader) × (h (owner p) ≡ some a)
        × (d (owner p) ≡ false)
        × (a.count ≡ pos (suc others))
        × NotNull a.to_free
  held_header b =
      let (a, e, f) = b.present (owner p) (omega (arith, uses-owner p held)) in
      let (c, n) = b.counts (owner p) a e f in
      (a, e, f, c ∙ ap pos (omega (arith, uses-owner p held)), n)

  -- Its count is lowered.
  pub lowered-Balanced :
      (a : RefcountHeader)
      → h (owner p) ≡ some a
      → a.count ≡ pos (suc others)
      → NotNull a.to_free
      → Balanced h d l (p ∷ held)
      → Balanced (update h (owner p) (some (count_down a))) d l held
  lowered-Balanced a e c n b = record {
    covers = λ q x f. elim (Bool-cases (eqb (owner p) q)) [
      | inl same ↦ b.covers q a (subst (λ y. h y ≡ some a) (eq_of_eqb (owner p) q same) e)
      | inr other ↦ b.covers q x (ground arith)
    ];
    counts = λ q x f g. elim (Bool-cases (eqb (owner p) q)) [
      | inl same ↦
          let k = update h (owner p) (some (count_down a)) in
          IsRight-written k d l held (owner p) q (count_down a) x same (ground arith)
            (ap down c ∙ ap pos (omega (arith, stored-down h d l (owner p) (owner p) a e)), n)
      | inr other ↦
          let (c', n') = b.counts q x (ground arith) g in
          (
            c'
                ∙ ap pos (
                    omega (
                      arith,
                      uses-other p q held (ground arith),
                      stored-down h d l (owner p) q a e,
                    )),
            n',
          )
    ];
    present = λ q lt.
        let (x, f, g) =
          b.present q (omega (arith, uses-le p q held, stored-down h d l (owner p) q a e)) in
        elim (Bool-cases (eqb (owner p) q)) [
          | inl same ↦ (count_down a, ground arith, g)
          | inr other ↦ (x, ground arith, g)
        ];
    not_null = b.not_null.1;
  }

  -- With no other reference the header dies, and what it has registered is held in its place.
  pub dying-Balanced :
      (a : RefcountHeader)
      → h (owner p) ≡ some a
      → d (owner p) ≡ false
      → NotNull a.to_free
      → Distinct l
      → others ≡ 0
      → Balanced h d l held
      → Balanced h (dies d (owner p)) l (a.to_free ++ held)
  dying-Balanced a e f n u none_left b =
      let split = λ (q : ℕ). stored-dies h d l (owner p) q a u (b.covers (owner p) a e) e f in
      record {
        covers = b.covers;
        counts = λ q x g k.
            let (c, m) = b.counts q x g (ground arith) in
            (c ∙ ap pos (omega (arith, split q, uses-append q a.to_free held)), m);
        present = λ q lt.
            let some_use : 0 < uses q held + stored h d l q =
              omega (arith, split q, uses-append q a.to_free held) in
            let (x, g, k) = b.present q some_use in
            elim (Bool-cases (eqb (owner p) q)) [
              | inl same ↦ absurd (
                  let lt' : 0 < others =
                    subst (λ y. 0 < uses y held + stored h d l y) (sym (eq_of_eqb (owner p) q same))
                      some_use in
                  omega (arith, lt', none_left))
              | inr other ↦ (x, g, ground arith)
            ];
        not_null = NotNull-append a.to_free held n b.not_null;
      }

  -- The dying header is freed.
  pub freed-Balanced :
      d (owner p) ≡ false
      → Balanced h (dies d (owner p)) l held
      → Balanced (update h (owner p) none) d l held
  freed-Balanced f b = record {
    covers = λ q x g. b.covers q x (ground arith);
    counts = λ q x g k.
        let (c, m) = b.counts q x (ground arith) (ground arith) in
        (c ∙ ap pos (omega (arith, stored-free h d l (owner p) q)), m);
    present = λ q lt.
        let (x, g, k) = b.present q (omega (arith, stored-free h d l (owner p) q)) in
        (x, ground arith, ground arith);
    not_null = b.not_null;
  }
