-- ===== src/Types/Hierarchy/Virtuals.antt =====
-- `getAllVirtualMethods` (src/types/TypeSystem.cpp) against the relation of inheriting a method.
pub mod Collect
pub mod Walk
unfoldable pub use Collect.{has_name, Distinct, All}
pub use Walk.{Inherits, own, above}
use Collect.{none_seen-IsGood}
use Walk.{loop_ends}
use jb_transpiler.Base.{Text, ◌≡◌, true, List, ok}
use jb_transpiler.Types.LangType.{Function}
use jb_transpiler.Types.Registry.{TypeSystem}
use jb_transpiler.Types.Hierarchy.{rounds, get_all_virtual_methods, none_seen}
use jb_transpiler.Types.Hierarchy.Rooted.{IsRooted}

-- In a well-formed hierarchy `getAllVirtualMethods` ends without an exception. What it returns are
-- virtual methods of the class and its ancestors, no two of one name, and every virtual method of
-- the class or of an ancestor has its name among them.
pub get_all_virtual_methods_lem :
    (ts : TypeSystem) (c : Text)
    → IsRooted ts.classes
    → (vs : List Function) × (get_all_virtual_methods ts c ≡ ok vs)
      × All (λ m. Inherits ts c m × (m.is_virtual ≡ true)) vs
      × Distinct vs
      × ((m : Function) → Inherits ts c m → m.is_virtual ≡ true → has_name m.name vs ≡ true)
unfolding get_all_virtual_methods
get_all_virtual_methods_lem ts c r =
    let Good = λ (m : Function). Inherits ts c m × (m.is_virtual ≡ true) in
    let (vs, ends, a) =
      loop_ends ts Good (rounds ts) c none_seen (λ m i v. (i, v)) (none_seen-IsGood Good)
        (r.within c) in
    (vs, ends, a.each, a.distinct, a.complete)
