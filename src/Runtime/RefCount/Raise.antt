-- ===== src/Runtime/RefCount/Raise.antt =====
-- A count that is raised, a pointer that is registered, and a block that is allocated, where the
-- counts are right.
use jb_transpiler.Base.{
  ℕ, ◌+◌, ◌≡◌, ◌≢◌, refl, ap, sym, ◌∙◌, subst, inl, inr, true, false, Option, some, none, List, [],
  ◌∷◌, ◌++◌, arith, eqb, ltb, length, Bool-cases,
}
use jb_transpiler.Base.Number.{pos}
use jb_transpiler.Runtime.Machine.{In, update, update_self}
use jb_transpiler.Runtime.RefCount.{RefcountHeader, up, count_up, registered, max_to_free}
use jb_transpiler.Runtime.RefCount.Counted.{Headers}
use jb_transpiler.Runtime.RefCount.Balance.{
  owner, uses, Dying, stored, NotNull, Apart, Distinct, Balanced, registered_at,
}
use jb_transpiler.Runtime.RefCount.Stored.{uses-append, NotNull-append, registered_live, Apart-In}
use jb_transpiler.Runtime.RefCount.Lower.{eq_of_eqb, IsRight-written, uses-owner, uses-other}

stored-elsewhere :
    (h : Headers) (d : Dying) (l : List ℕ) (p q : ℕ) (v : Option RefcountHeader)
    → Apart p l
    → stored (update h p v) d l q ≡ stored h d l q
unfolding stored
stored-elsewhere h d [] p q v a = refl
stored-elsewhere h d (x ∷ l) p q v a =
    let here : registered_at (update h p v) d x ≡ registered_at h d x = ground arith in
    omega (arith, ap (uses q) here, stored-elsewhere h d l p q v a.1)

-- What another header in the place of one means for the references that are stored.
stored-update :
    (h : Headers) (d : Dying) (l : List ℕ) (p q : ℕ) (a b : RefcountHeader)
    → Distinct l
    → In p l
    → h p ≡ some a
    → d p ≡ false
    → stored (update h p (some b)) d l q + uses q a.to_free ≡ stored h d l q + uses q b.to_free
unfolding stored
stored-update h d [] p q a b n i e f = absurd i
stored-update h d (x ∷ l) p q a b n (inl s) e f =
    let old = registered_live h d x a (ap h (sym s) ∙ e) (ap d (sym s) ∙ f) in
    let new =
      registered_live (update h p (some b)) d x b
        (ap (update h p (some b)) (sym s) ∙ update_self h p a (some b)) (ap d (sym s) ∙ f) in
    omega (
      arith,
      ap (uses q) old,
      ap (uses q) new,
      stored-elsewhere h d l p q (some b) (subst (λ y. Apart y l) (sym s) n.0),
    )
stored-update h d (x ∷ l) p q a b n (inr i) e f =
    let far = Apart-In p x l n.0 i in
    let here : registered_at (update h p (some b)) d x ≡ registered_at h d x = ground arith in
    omega (arith, ap (uses q) here, stored-update h d l p q a b n.1 i e f)

module _ (h : Headers) (d : Dying) (l : List ℕ) (p : ℕ) (held : List ℕ) (u : Distinct l) where
  pub raised-Balanced :
      (a : RefcountHeader)
      → p ≢ 0
      → h (owner p) ≡ some a
      → d (owner p) ≡ false
      → Balanced h d l held
      → Balanced (update h (owner p) (some (count_up a))) d l (p ∷ held)
  raised-Balanced a nonnull e f b =
      let k = update h (owner p) (some (count_up a)) in
      let same_stored =
        λ (q : ℕ). stored-update h d l (owner p) q a (count_up a) u (b.covers (owner p) a e) e f in
      record {
        covers = λ q x g. elim (Bool-cases (eqb (owner p) q)) [
          | inl same ↦ b.covers q a (subst (λ y. h y ≡ some a) (eq_of_eqb (owner p) q same) e)
          | inr other ↦ b.covers q x (ground arith)
        ];
        counts = λ q x g f'. elim (Bool-cases (eqb (owner p) q)) [
          | inl same ↦
              let (c, m) = b.counts (owner p) a e f in
              IsRight-written k d l (p ∷ held) (owner p) q (count_up a) x same (ground arith)
                (ap up c ∙ ap pos (omega (arith, uses-owner p held, same_stored (owner p))), m)
          | inr other ↦
              let (c, m) = b.counts q x (ground arith) f' in
              (c ∙ ap pos (omega (arith, uses-other p q held (ground arith), same_stored q)), m)
        ];
        present = λ q lt. elim (Bool-cases (eqb (owner p) q)) [
          | inl same ↦ (count_up a, ground arith, ap d (sym (eq_of_eqb (owner p) q same)) ∙ f)
          | inr other ↦
              let (x, g, f') =
                b.present q (omega (arith, uses-other p q held (ground arith), same_stored q)) in
              (x, ground arith, f')
        ];
        not_null = (nonnull, b.not_null);
      }

  -- A reference that is held goes to the header at `o`.
  pub registered-Balanced :
      (o : ℕ) (a : RefcountHeader)
      → h o ≡ some a
      → d o ≡ false
      → ltb (length a.to_free) max_to_free ≡ true
      → Balanced h d l (p ∷ held)
      → Balanced (update h o (some (registered p a))) d l held
  registered-Balanced o a e f room b =
      let k = update h o (some (registered p a)) in
      let longer : (registered p a).to_free ≡ a.to_free ++ (p ∷ []) = rw room refl in
      let same_count : (registered p a).count ≡ a.count = rw room refl in
      let moved : (q : ℕ) → uses q held + stored k d l q ≡ uses q (p ∷ held) + stored h d l q = λ q.
        omega (
          arith,
          stored-update h d l o q a (registered p a) u (b.covers o a e) e f,
          ap (uses q) longer,
          uses-append q a.to_free (p ∷ []),
          uses-append q (p ∷ []) held,
        ) in
      record {
        covers = λ q x g. elim (Bool-cases (eqb o q)) [
          | inl same ↦ b.covers q a (subst (λ y. h y ≡ some a) (eq_of_eqb o q same) e)
          | inr other ↦ b.covers q x (ground arith)
        ];
        counts = λ q x g f'. elim (Bool-cases (eqb o q)) [
          | inl same ↦
              let (c, m) = b.counts o a e f in
              IsRight-written k d l held o q (registered p a) x same (ground arith) (
                same_count ∙ c ∙ ap pos (sym (moved o)),
                subst NotNull (sym longer) (NotNull-append a.to_free (p ∷ []) m (b.not_null.0, tt)),
              )
          | inr other ↦
              let (c, m) = b.counts q x (ground arith) f' in (c ∙ ap pos (sym (moved q)), m)
        ];
        present = λ q lt.
            let (x, g, f') = b.present q (omega (arith, moved q)) in
            elim (Bool-cases (eqb o q)) [
              | inl same ↦ (registered p a, ground arith, f')
              | inr other ↦ (x, ground arith, f')
            ];
        not_null = b.not_null.1;
      }

-- The references that are stored when a block is allocated.
stored-fresh :
    (h : Headers) (d : Dying) (l : List ℕ) (p q : ℕ) (a : RefcountHeader)
    → h p ≡ none
    → a.to_free ≡ []
    → stored (update h p (some a)) d l q ≡ stored h d l q
unfolding stored
stored-fresh h d [] p q a e n = refl
stored-fresh h d (x ∷ l) p q a e n =
    let here : registered_at (update h p (some a)) d x ≡ registered_at h d x = ground arith in
    omega (arith, ap (uses q) here, stored-fresh h d l p q a e n)

unused_at :
    (h : Headers) (d : Dying) (l held : List ℕ) (q : ℕ)
    → h q ≡ none
    → Balanced h d l held
    → uses q held + stored h d l q ≡ 0
unused_at h d l held q e b = elim (Bool-cases (ltb 0 (uses q held + stored h d l q))) [
  | inl used ↦ absurd (let (x, g, _) = b.present q (ground arith) in cc)
  | inr free ↦ ground arith
]

-- A block at an address that is not in use, with one reference to it.
pub fresh-Balanced :
    (h : Headers) (d : Dying) (l : List ℕ) (p : ℕ) (held : List ℕ) (a : RefcountHeader)
    → p ≢ 0
    → In (owner p) l
    → h (owner p) ≡ none
    → d (owner p) ≡ false
    → a.count ≡ pos 1
    → a.to_free ≡ []
    → Balanced h d l held
    → Balanced (update h (owner p) (some a)) d l (p ∷ held)
fresh-Balanced h d l p held a nonnull i e f one empty b =
    let k = update h (owner p) (some a) in
    let unused : uses (owner p) held + stored h d l (owner p) ≡ 0 =
      unused_at h d l held (owner p) e b in
    let same_stored = λ (q : ℕ). stored-fresh h d l (owner p) q a e empty in
    record {
      covers = λ q x g. elim (Bool-cases (eqb (owner p) q)) [
        | inl same ↦ subst (λ y. In y l) (eq_of_eqb (owner p) q same) i
        | inr other ↦ b.covers q x (ground arith)
      ];
      counts = λ q x g f'. elim (Bool-cases (eqb (owner p) q)) [
        | inl same ↦ IsRight-written k d l (p ∷ held) (owner p) q a x same (ground arith) (
          one ∙ ap pos (omega (arith, unused, uses-owner p held, same_stored (owner p))),
          subst NotNull (sym empty) tt,
        )
        | inr other ↦
            let (c, m) = b.counts q x (ground arith) f' in
            (c ∙ ap pos (omega (arith, uses-other p q held (ground arith), same_stored q)), m)
      ];
      present = λ q lt. elim (Bool-cases (eqb (owner p) q)) [
        | inl same ↦ (a, ground arith, ap d (sym (eq_of_eqb (owner p) q same)) ∙ f)
        | inr other ↦
            let (x, g, f') =
              b.present q (omega (arith, uses-other p q held (ground arith), same_stored q)) in
            (x, ground arith, f')
      ];
      not_null = (nonnull, b.not_null);
    }
