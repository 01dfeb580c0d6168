-- ===== src/Types/VTable/Struct.antt =====
-- `generateVTableStruct` (src/types/TypeSystem.cpp): one slot for each base name of a virtual
-- method of any class.
use mathlib.Core.List.{Memᴰ}
use jb_transpiler.Base.{
  Text, ◌==◌, eq_iff, eq_refl, ◌≡◌, ◌⊎◌, refl, sym, lit, ◌++◌, true, some, List, [], ◌∷◌, arith, ok,
  Bool-cases, inl, inr, ap, subst, ◌∙◌,
}
use jb_transpiler.Base.Map.{Map, find}
use jb_transpiler.Base.Set
use jb_transpiler.Types.LangType.{LangType, Function}
use jb_transpiler.Types.Registry.{TypeSystem}
use jb_transpiler.Types.Hierarchy.{base_name}
use jb_transpiler.Types.Hierarchy.Rooted.{IsRooted}
use jb_transpiler.Types.Hierarchy.Virtuals.{All, has_name, Inherits, get_all_virtual_methods_lem}
use jb_transpiler.Types.VTable.{add_slots, collect_slots, slot_lines, generate_vtable_struct}
use jb_transpiler.Types.VTable.Slots.{IsSlot}
use jb_transpiler.Types.VTable.Instance.{mem_of_has_name}

add_slots-IsOrdered :
    (s : List Text) (ms : List Function) → Set.IsOrdered s → Set.IsOrdered (add_slots s ms)
unfolding add_slots
add_slots-IsOrdered s [] o = o
add_slots-IsOrdered s (m ∷ ms) o =
    add_slots-IsOrdered (Set.insert (base_name m.name) s) ms
      (Set.insert-IsOrdered (base_name m.name) s o)

add_slots_keeps :
    (s : List Text) (ms : List Function) (b : Text)
    → Set.contains b s ≡ true
    → Set.contains b (add_slots s ms) ≡ true
unfolding add_slots
add_slots_keeps s [] b h = h
add_slots_keeps s (m ∷ ms) b h =
    add_slots_keeps (Set.insert (base_name m.name) s) ms b
      (ground (arith, Set.contains-insert (base_name m.name) b s))

add_slots_has :
    (s : List Text) (ms : List Function) (m : Function)
    → Memᴰ m ms
    → Set.contains (base_name m.name) (add_slots s ms) ≡ true
unfolding add_slots
add_slots_has s [] m i = elim i [ ]
add_slots_has s (k ∷ ms) m (Memᴰ.head e) =
    add_slots_keeps (Set.insert (base_name k.name) s) ms (base_name m.name) (
      rw e (
        ground (
          arith,
          Set.contains-insert (base_name k.name) (base_name k.name) s,
          eq_refl (base_name k.name),
        )))
add_slots_has s (k ∷ ms) m (Memᴰ.tail i) = add_slots_has (Set.insert (base_name k.name) s) ms m i

-- Nothing but base names of the methods is added.
add_slots_only :
    (ts : TypeSystem) (c : Text) (s : List Text) (ms : List Function) (b : Text)
    → All (λ m. Inherits ts c m × (m.is_virtual ≡ true)) ms
    → Set.contains b (add_slots s ms) ≡ true
    → (Set.contains b s ≡ true) ⊎ IsSlot ts c b
unfolding add_slots
add_slots_only ts c s [] b a h = inl h
add_slots_only ts c s (m ∷ ms) b a h =
    elim (add_slots_only ts c (Set.insert (base_name m.name) s) ms b a.1 h) [
      | inr slot ↦ inr slot
      | inl before ↦ elim (Bool-cases (base_name m.name == b)) [
        | inl same ↦ inr (m, (a.0).0, (a.0).1, (eq_iff (base_name m.name) b).0 same)
        | inr other ↦ inl (ground (arith, Set.contains-insert (base_name m.name) b s))
      ]
    ]

abbrev IsListed : Text → Map LangType → Type 0
IsListed c classes = (t : LangType) × Memᴰ (c, t) classes

record AreSlots (ts : TypeSystem) (classes : Map LangType) (s slots : List Text) : Type 0 where
  ordered : Set.IsOrdered s → Set.IsOrdered slots
  kept : (b : Text) → Set.contains b s ≡ true → Set.contains b slots ≡ true
  complete : (c b : Text) → IsListed c classes → IsSlot ts c b → Set.contains b slots ≡ true
  only :
      (b : Text)
      → Set.contains b slots ≡ true
      → (Set.contains b s ≡ true) ⊎ ((c : Text) × IsListed c classes × IsSlot ts c b)

-- One class more.
module _ (ts : TypeSystem) (c : Text) (t : LangType) (classes : Map LangType) (s slots : List Text)
    (vs : List Function) (each : All (λ m. Inherits ts c m × (m.is_virtual ≡ true)) vs)
    (all_there : (m : Function) → Inherits ts c m → m.is_virtual ≡ true → has_name m.name vs ≡ true)
    (are : AreSlots ts classes (add_slots s vs) slots) where
  own_slot : (b : Text) → IsSlot ts c b → Set.contains b slots ≡ true
  own_slot b (m, i, v, e) =
      let (k, mem, same) = mem_of_has_name m.name vs (all_there m i v) in
      are.kept b (
        subst (λ x. Set.contains x (add_slots s vs) ≡ true) (ap base_name same ∙ e)
          (add_slots_has s vs k mem))

  cons_complete :
      (d b : Text) → IsListed d ((c, t) ∷ classes) → IsSlot ts d b → Set.contains b slots ≡ true
  cons_complete d b (u, Memᴰ.head e) slot =
      own_slot b (subst (λ x. IsSlot ts x b) (ap (λ (p : Text × LangType). p.0) e) slot)
  cons_complete d b (u, Memᴰ.tail i) slot = are.complete d b (u, i) slot

  cons_only :
      (b : Text)
      → Set.contains b slots ≡ true
      → (Set.contains b s ≡ true) ⊎ ((d : Text) × IsListed d ((c, t) ∷ classes) × IsSlot ts d b)
  cons_only b h = elim (are.only b h) [
    | inr (d, (u, i), slot) ↦ inr (d, (u, Memᴰ.tail i), slot)
    | inl before ↦ elim (add_slots_only ts c s vs b each before) [
      | inl older ↦ inl older
      | inr slot ↦ inr (c, (t, Memᴰ.head refl), slot)
    ]
  ]

  cons-AreSlots : AreSlots ts ((c, t) ∷ classes) s slots
  cons-AreSlots = record {
    ordered = λ o. are.ordered (add_slots-IsOrdered s vs o);
    kept = λ b h. are.kept b (add_slots_keeps s vs b h);
    complete = cons_complete;
    only = cons_only;
  }

collect_lem :
    (ts : TypeSystem)
    → IsRooted ts.classes
    → (classes : Map LangType) (s : List Text)
    → (slots : List Text) × (collect_slots ts classes s ≡ ok slots) × AreSlots ts classes s slots
unfolding collect_slots
collect_lem ts r [] s = (
  s,
  refl,
  record {
    ordered = λ o. o;
    kept = λ b h. h;
    complete = λ c b (t, i) slot. elim i [ ];
    only = λ b h. inl h;
  },
)
collect_lem ts r ((c, t) ∷ classes) s =
    let (vs, found, each, distinct, all_there) = get_all_virtual_methods_lem ts c r in
    let (slots, ends, are) = collect_lem ts r classes (add_slots s vs) in
    (slots, rw found ends, cons-AreSlots ts c t classes s slots vs each all_there are)

mem_of_find :
    (c : Text) (classes : Map LangType) (t : LangType)
    → find c classes ≡ some t
    → IsListed c classes
unfolding find
mem_of_find c [] t e = absurd (cc e)
mem_of_find c ((d, u) ∷ classes) t e = elim (Bool-cases (d == c)) [
  | inl same ↦ (u, Memᴰ.head (ap (λ x. (x, u)) (sym ((eq_iff d c).0 same))))
  | inr other ↦ let (v, i) = mem_of_find c classes t (rw (other, find) at e) in (v, Memᴰ.tail i)
]

-- In a well-formed hierarchy `generateVTableStruct` ends without an exception. It declares its
-- slots in ascending order, none twice; the base name of every virtual method, own or inherited,
-- of every class is a slot, and every slot is such a base name.
pub generate_vtable_struct_lem :
    (ts : TypeSystem)
    → IsRooted ts.classes
    → (slots : List Text) × (generate_vtable_struct ts
        ≡ ok (lit "struct vtable {\n" ++ (slot_lines slots ++ lit "};\n\n")))
      × Set.IsOrdered slots
      × ((c b : Text) (t : LangType)
          → find c ts.classes ≡ some t
          → IsSlot ts c b
          → Set.contains b slots ≡ true)
      × ((b : Text) → Set.contains b slots ≡ true → (c : Text) × IsSlot ts c b)
unfolding generate_vtable_struct
generate_vtable_struct_lem ts r =
    let (slots, ends, are) = collect_lem ts r ts.classes [] in
    (
      slots,
      rw ends,
      are.ordered tt,
      λ c b t found slot. are.complete c b (mem_of_find c ts.classes t found) slot,
      λ b h. some_class b (are.only b h),
    )
  where
    some_class :
        (b : Text)
        → (Set.contains b [] ≡ true) ⊎ ((c : Text) × IsListed c ts.classes × IsSlot ts c b)
        → (c : Text) × IsSlot ts c b
    some_class b (inl none_before) = absurd (unfold Set.contains in cc none_before)
    some_class b (inr (c, listed, slot)) = (c, slot)
