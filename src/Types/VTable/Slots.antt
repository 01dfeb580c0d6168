-- ===== src/Types/VTable/Slots.antt =====
-- The loop of `generateVTableInstance` (src/types/TypeSystem.cpp).
use mathlib.Core.List.{Memᴰ}
use jb_transpiler.Base.{
  Text, ◌==◌, eq_iff, eq_refl, ◌≡◌, refl, Bool, true, false, ◌||◌, some, List, [], ◌∷◌, arith, ok,
  Option-cases, Bool-cases, inl, inr,
}
use jb_transpiler.Base.Set
use jb_transpiler.Types.LangType.{Function}
use jb_transpiler.Types.Registry.{TypeSystem, get_class_methods}
use jb_transpiler.Types.Hierarchy.{base_name, find_by_base_name, find_method_implementation}
use jb_transpiler.Types.Hierarchy.Rooted.{IsRooted}
use jb_transpiler.Types.Hierarchy.Names.{Implements, here, there, find_method_implementation_lem}
use jb_transpiler.Types.Hierarchy.Virtuals.{All, Inherits, own, above}
use jb_transpiler.Types.VTable.{instance_entries}

find_by_base_name_mem :
    (m : Function) (ms : List Function)
    → Memᴰ m ms
    → (n : Text) × (find_by_base_name (base_name m.name) ms ≡ some n)
unfolding find_by_base_name
find_by_base_name_mem m [] i = elim i [ ]
find_by_base_name_mem m (k ∷ ms) (Memᴰ.head e) =
    (k.name, rw (← e) (ground (arith, eq_refl (base_name m.name))))
find_by_base_name_mem m (k ∷ ms) (Memᴰ.tail i) =
    let (n, found) = find_by_base_name_mem m ms i in
    elim (Bool-cases (base_name k.name == base_name m.name)) [
      | inl same ↦ (k.name, rw same)
      | inr other ↦ (n, rw (other, found))
    ]

-- A method that a class inherits gives it an implementation of its base name.
Inherits-Implements :
    (ts : TypeSystem) (c : Text) (m : Function)
    → Inherits ts c m
    → (n : Text) × Implements ts (base_name m.name) c n
Inherits-Implements ts c m (own t found i) =
    let (n, e) = find_by_base_name_mem m (get_class_methods ts c) i in (n, here e)
Inherits-Implements ts c m (above q e i) =
    elim (Option-cases (find_by_base_name (base_name m.name) (get_class_methods ts c))) [
      | inr (n, found) ↦ (n, here found)
      | inl absent ↦ let (n, is) = Inherits-Implements ts q m i in (n, there q absent e is)
    ]

implementation_inherited :
    (ts : TypeSystem) (c : Text) (m : Function)
    → IsRooted ts.classes
    → Inherits ts c m
    → (n : Text) × (find_method_implementation ts c (base_name m.name) ≡ ok n)
      × Implements ts (base_name m.name) c n
implementation_inherited ts c m r i =
    let (n, ends, is) = find_method_implementation_lem ts c (base_name m.name) r in
    let (k, implements) = Inherits-Implements ts c m i in
    elim is [ inl good ↦ (n, ends, good) | inr (same, nothing) ↦ absurd (nothing k implements) ]

abbrev pub AllEntries : (Text → Text → Type 0) → List (Text × Text) → Type 0
AllEntries P [] = Unit
AllEntries P ((slot, impl) ∷ es) = P slot impl × AllEntries P es

unfoldable pub has_slot : Text → List (Text × Text) → Bool
has_slot b [] = false
has_slot b ((slot, impl) ∷ es) = (slot == b) || has_slot b es

abbrev pub DistinctSlots : List (Text × Text) → Type 0
DistinctSlots [] = Unit
DistinctSlots ((slot, impl) ∷ es) = (has_slot slot es ≡ false) × DistinctSlots es

-- `b` is the base name of a virtual method of the class or of an ancestor.
abbrev pub IsSlot : TypeSystem → Text → Text → Type 0
IsSlot ts c b = (m : Function) × Inherits ts c m × (m.is_virtual ≡ true) × (base_name m.name ≡ b)

-- What the loop adds for the methods `ms`, after the slots `processed`.
pub record AreEntries (ts : TypeSystem) (c : Text) (processed : List Text) (ms : List Function)
    (es : List (Text × Text)) : Type 0 where
  pub filled : AllEntries (λ slot impl. Implements ts slot c impl × IsSlot ts c slot) es
  pub distinct : DistinctSlots es
  pub fresh : (b : Text) → has_slot b es ≡ true → Set.contains b processed ≡ false
  pub complete :
      (m : Function)
      → Memᴰ m ms
      → (Set.contains (base_name m.name) processed || has_slot (base_name m.name) es) ≡ true

nil-AreEntries :
    (ts : TypeSystem) (c : Text) (processed : List Text) → AreEntries ts c processed [] []
unfolding has_slot
nil-AreEntries ts c processed = record {
  filled = tt;
  distinct = tt;
  fresh = λ b h. cc;
  complete = λ m i. elim i [ ];
}

module _ (ts : TypeSystem) (c : Text) (processed : List Text) (m : Function)
    (ms : List Function) where
  -- A base name that was met before adds nothing.
  seen-AreEntries :
      (es : List (Text × Text))
      → Set.contains (base_name m.name) processed ≡ true
      → AreEntries ts c processed ms es
      → AreEntries ts c processed (m ∷ ms) es
  seen-AreEntries es seen a = record {
    filled = a.filled;
    distinct = a.distinct;
    fresh = a.fresh;
    complete = λ k i. of_mem k i;
  }
    where
      of_mem :
          (k : Function)
          → Memᴰ k (m ∷ ms)
          → (Set.contains (base_name k.name) processed || has_slot (base_name k.name) es) ≡ true
      of_mem k (Memᴰ.head e) = rw e (ground arith)
      of_mem k (Memᴰ.tail i) = a.complete k i

  new-AreEntries :
      (impl : Text) (es : List (Text × Text))
      → Set.contains (base_name m.name) processed ≡ false
      → Implements ts (base_name m.name) c impl
      → IsSlot ts c (base_name m.name)
      → AreEntries ts c (Set.insert (base_name m.name) processed) ms es
      → AreEntries ts c processed (m ∷ ms) ((base_name m.name, impl) ∷ es)
  unfolding has_slot
  new-AreEntries impl es new is slot a = record {
    filled = ((is, slot), a.filled);
    distinct = (not_again (has_slot (base_name m.name) es) refl, a.distinct);
    fresh = λ j h. not_before j h;
    complete = λ k i. of_mem k i;
  }
    where
      now :
          (j : Text)
          → Set.contains j (Set.insert (base_name m.name) processed)
            ≡ ((base_name m.name == j) || Set.contains j processed)
      now j = Set.contains-insert (base_name m.name) j processed

      not_again :
          (x : Bool) → has_slot (base_name m.name) es ≡ x → has_slot (base_name m.name) es ≡ false
      not_again false h = h
      not_again true h = absurd (
          ground (
            arith,
            a.fresh (base_name m.name) h,
            now (base_name m.name),
            eq_refl (base_name m.name),
          ))

      not_before :
          (j : Text)
          → has_slot j ((base_name m.name, impl) ∷ es) ≡ true
          → Set.contains j processed ≡ false
      not_before j h = elim (Bool-cases (base_name m.name == j)) [
        | inl same ↦ rw (← (eq_iff (base_name m.name) j).0 same) new
        | inr other ↦ ground (arith, now j, a.fresh j (rw (other, has_slot) at h))
      ]

      of_mem :
          (k : Function)
          → Memᴰ k (m ∷ ms)
          → (Set.contains (base_name k.name) processed
              || has_slot (base_name k.name) ((base_name m.name, impl) ∷ es))
            ≡ true
      of_mem k (Memᴰ.head e) = rw e (unfold has_slot in ground (arith, eq_refl (base_name m.name)))
      of_mem k (Memᴰ.tail i) =
          unfold has_slot in ground (arith, now (base_name k.name), a.complete k i)

module _ (ts : TypeSystem) (c : Text) (r : IsRooted ts.classes) where
  pub entries_lem :
      (ms : List Function) (processed : List Text)
      → All (λ m. Inherits ts c m × (m.is_virtual ≡ true)) ms
      → (es : List (Text × Text)) × (instance_entries ts c processed ms ≡ ok es)
        × AreEntries ts c processed ms es
  unfolding instance_entries
  entries_lem [] processed a = ([], refl, nil-AreEntries ts c processed)
  entries_lem (m ∷ ms) processed a = elim (Bool-cases (Set.contains (base_name m.name) processed)) [
    | inl seen ↦
        let (es, ends, are) = entries_lem ms processed a.1 in
        (es, rw (seen, instance_entries) ends, seen-AreEntries ts c processed m ms es seen are)
    | inr new ↦
        let (impl, found, is) = implementation_inherited ts c m r (a.0).0 in
        let (es, ends, are) = entries_lem ms (Set.insert (base_name m.name) processed) a.1 in
        (
          (base_name m.name, impl) ∷ es,
          rw (new, instance_entries) (rw (found, ends)),
          new-AreEntries ts c processed m ms impl es new is (m, (a.0).0, (a.0).1, refl) are,
        )
  ]
