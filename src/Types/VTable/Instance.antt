-- ===== src/Types/VTable/Instance.antt =====
-- `generateVTableInstance` (src/types/TypeSystem.cpp): the table of one class.
use mathlib.Core.List.{Memᴰ}
use jb_transpiler.Base.{
  Text, ◌==◌, eq_iff, ◌≡◌, refl, Bool, true, false, List, [], ◌∷◌, arith, Result, ok, ◌>>=◌, subst,
  Bool-cases, inl, inr, is_empty, if◌then◌else◌, ap, ◌∙◌,
}
use jb_transpiler.Base.Set
use jb_transpiler.Types.LangType.{Function}
use jb_transpiler.Types.Registry.{TypeSystem}
use jb_transpiler.Types.Hierarchy.{base_name, get_all_virtual_methods}
use jb_transpiler.Types.Hierarchy.Rooted.{IsRooted}
use jb_transpiler.Types.Hierarchy.Names.{Implements}
use jb_transpiler.Types.Hierarchy.Virtuals.{has_name, get_all_virtual_methods_lem}
use jb_transpiler.Types.VTable.{instance_entries, instance_text, generate_vtable_instance}
use jb_transpiler.Types.VTable.Slots.{IsSlot, AllEntries, DistinctSlots, has_slot, entries_lem}

pub mem_of_has_name :
    (j : Text) (ms : List Function)
    → has_name j ms ≡ true
    → (m : Function) × Memᴰ m ms × (m.name ≡ j)
unfolding has_name
mem_of_has_name j [] h = absurd (cc h)
mem_of_has_name j (k ∷ ms) h = elim (Bool-cases (k.name == j)) [
  | inl same ↦ (k, Memᴰ.head refl, (eq_iff k.name j).0 same)
  | inr other ↦
      let (m, i, e) = mem_of_has_name j ms (rw (other, has_name) at h) in (m, Memᴰ.tail i, e)
]

write_unless :
    (x : Bool) (c : Text) (entries : Result (List (Text × Text))) (es : List (Text × Text))
    → entries ≡ ok es
    → (if x then ok [] else (entries >>= λ es. ok (instance_text c es)))
      ≡ ok (if x then [] else instance_text c es)
write_unless true c entries es e = refl
write_unless false c entries es e = rw e

-- In a well-formed hierarchy `generateVTableInstance` ends without an exception. It writes nothing
-- for a class with no virtual method, own or inherited. For any other class it writes a table
-- whose entries fill no slot twice, each with the method that implements the slot's base name for
-- the class, and every virtual method of the class or of an ancestor has its slot among them.
pub generate_vtable_instance_lem :
    (ts : TypeSystem) (c : Text)
    → IsRooted ts.classes
    → (vs : List Function) × (es : List (Text × Text)) × (get_all_virtual_methods ts c ≡ ok vs)
      × (generate_vtable_instance ts c ≡ ok (if is_empty vs then [] else instance_text c es))
      × AllEntries (λ slot impl. Implements ts slot c impl × IsSlot ts c slot) es
      × DistinctSlots es
      × ((b : Text) → IsSlot ts c b → has_slot b es ≡ true)
unfolding generate_vtable_instance
generate_vtable_instance_lem ts c r =
    let (vs, found, each, distinct, complete) = get_all_virtual_methods_lem ts c r in
    let (es, ends, are) = entries_lem ts c r vs [] each in
    (
      vs,
      es,
      found,
      rw found (write_unless (is_empty vs) c (instance_entries ts c [] vs) es ends),
      are.filled,
      are.distinct,
      λ b (m, i, v, e).
          let (k, mem, same) = mem_of_has_name m.name vs (complete m i v) in
          subst (λ x. has_slot x es ≡ true) (ap base_name same ∙ e)
            (unfold Set.contains in ground (arith, are.complete k mem)),
    )
