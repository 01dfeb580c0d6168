-- ===== src/Types/Hierarchy/Cyclic.antt =====
-- What the walks of src/types/TypeSystem.cpp do when a class is its own ancestor: the loops of
-- `isSubclassOf` and `getAllVirtualMethods` have no test that ends them.
use jb_transpiler.Base.{
  ℕ, zero, suc, Text, ◌≡◌, ◌↔◌, ◌∙◌, refl, Bool, true, false, ok, some, arith, eq_iff, ◌==◌,
  Bool-cases, hang, inl, inr,
}
use jb_transpiler.Base.Map.{Map}
use jb_transpiler.Types.LangType.{LangType}
use jb_transpiler.Types.Registry.{TypeSystem, get_class_methods}
use jb_transpiler.Types.Hierarchy.{
  rounds, is_subclass_loop, is_subclass_of, all_virtuals_loop, Seen, add_virtuals,
}
use jb_transpiler.Types.Hierarchy.Rooted.{parent_of, Within, Within-mono, IsRooted}
use jb_transpiler.Types.Hierarchy.Subclass.{
  Ancestor, parent, above, is_subclass_loop-suc, is_subclass_of_decides,
}

Ancestor-snoc :
    (m : Map LangType) {c p : Text} (q : Text)
    → Ancestor m c p
    → parent_of m p ≡ some q
    → Ancestor m c q
Ancestor-snoc m q (parent {c} {p} e) h = above p e (parent h)
Ancestor-snoc m q (above r e a) h = above r e (Ancestor-snoc m q a h)

-- The parent of a class on a cycle is on the cycle.
pub around :
    (m : Map LangType) (c : Text)
    → Ancestor m c c
    → (q : Text) × (parent_of m c ≡ some q) × Ancestor m q q
around m c a = go c c a refl
  where
    go :
        (d e : Text)
        → Ancestor m d e
        → d ≡ e
        → (q : Text) × (parent_of m d ≡ some q) × Ancestor m q q
    go d e (parent h) same = (e, h, parent (rw same at h))
    go d e (above q h a) same = (q, h, Ancestor-snoc m q a (rw same at h))

-- Where a class is its own ancestor, the loop of `isSubclassOf` never ends for a second class that
-- is not an ancestor of the first.
pub cycle_hangs-is_subclass :
    (ts : TypeSystem) (c p : Text)
    → Ancestor ts.classes c c
    → ¬ Ancestor ts.classes c p
    → (n : ℕ) → is_subclass_loop n ts c p ≡ hang
cycle_hangs-is_subclass ts c p a foreign zero = unfold is_subclass_loop in refl
cycle_hangs-is_subclass ts c p a foreign (suc n) =
    let (q, e, again) = around ts.classes c a in
    let other : (q == p) ≡ false = elim (Bool-cases (q == p)) [
      | inl same ↦ absurd (foreign (parent (rw ((eq_iff q p).0 same) at e)))
      | inr other ↦ other
    ] in
    is_subclass_loop-suc n ts c p
    ∙ (rw (e, other) (cycle_hangs-is_subclass ts q p again (λ b. foreign (above q e b)) n))

all_virtuals_loop-suc :
    (n : ℕ) (ts : TypeSystem) (c q : Text) (s : Seen)
    → parent_of ts.classes c ≡ some q
    → all_virtuals_loop (suc n) ts c s
      ≡ all_virtuals_loop n ts q (add_virtuals s (get_class_methods ts c))
unfolding parent_of
all_virtuals_loop-suc n ts c q s e = unfold all_virtuals_loop in ground arith

-- Where a class is its own ancestor, the loop of `getAllVirtualMethods` never ends.
pub cycle_hangs-all_virtuals :
    (ts : TypeSystem) (c : Text)
    → Ancestor ts.classes c c
    → (n : ℕ) (s : Seen) → all_virtuals_loop n ts c s ≡ hang
cycle_hangs-all_virtuals ts c a zero s = unfold all_virtuals_loop in refl
cycle_hangs-all_virtuals ts c a (suc n) s =
    let (q, e, again) = around ts.classes c a in
    all_virtuals_loop-suc n ts c q s e
    ∙ cycle_hangs-all_virtuals ts q again n (add_virtuals s (get_class_methods ts c))

Within-Ancestor :
    (m : Map LangType) (n : ℕ) {c p : Text} → Ancestor m c p → Within (suc n) m c → Within n m p
Within-Ancestor m n (parent e) w = rw e at w
Within-Ancestor m zero (above q e a) w = absurd (rw e at w)
Within-Ancestor m (suc n) {p = p} (above q e a) w =
    Within-mono n (suc n) m p (omega arith) (Within-Ancestor m n a (rw e at w))

Within-acyclic : (n : ℕ) (m : Map LangType) (c : Text) → Ancestor m c c → ¬ Within n m c
Within-acyclic zero m c a w = w
Within-acyclic (suc n) m c a w = Within-acyclic n m c a (Within-Ancestor m n a w)

-- In a well-formed hierarchy no class is its own ancestor, and `isSubclassOf` says so.
pub is_subclass_of_irrefl :
    (ts : TypeSystem) (c : Text) → IsRooted ts.classes → is_subclass_of ts c c ≡ ok false
is_subclass_of_irrefl ts c r = go (is_subclass_of_decides ts c c r)
  where
    go :
        (b : Bool) × (is_subclass_of ts c c ≡ ok b) × ((b ≡ true) ↔ Ancestor ts.classes c c)
        → is_subclass_of ts c c ≡ ok false
    go (false, e, iff) = e
    go (true, e, iff) = absurd (Within-acyclic (rounds ts) ts.classes c (iff.0 refl) (r.within c))
