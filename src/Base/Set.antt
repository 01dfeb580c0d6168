-- ===== src/Base/Set.antt =====
-- `std::set<std::string>`: texts in ascending order.
use jb_transpiler.Base.Tests.{if◌then◌else◌}
use jb_transpiler.Base.Bytes.{Text, ◌==◌, text_lt, eq_iff, lt_total, lt_trans}
use mathlib.Core.Path.{◌≡◌, refl}
use mathlib.Core.Bool.{Bool, true, false, ◌||◌}
use mathlib.Core.List.{List, [], ◌∷◌}
use native.Mathlib.Omega.{arith}

unfoldable pub contains : Text → List Text → Bool
contains k [] = false
contains k (x ∷ s) = (x == k) || contains k s

unfoldable pub insert : Text → List Text → List Text
insert k [] = k ∷ []
insert k (x ∷ s) = if x == k then x ∷ s else if text_lt k x then k ∷ x ∷ s else x ∷ insert k s

abbrev pub Above : Text → List Text → Type 0
Above k [] = Unit
Above k (x ∷ s) = (text_lt k x ≡ true) × Above k s

abbrev pub IsOrdered : List Text → Type 0
IsOrdered [] = Unit
IsOrdered (x ∷ s) = Above x s × IsOrdered s

pub contains-insert :
    (k j : Text) (s : List Text) → contains j (insert k s) ≡ ((k == j) || contains j s)
unfolding contains insert
contains-insert k j [] = refl
contains-insert k j (x ∷ s) =
    ground (arith, eq_iff k j, eq_iff x k, eq_iff x j, contains-insert k j s)

Above-insert : (i k : Text) (s : List Text) → text_lt i k ≡ true → Above i s → Above i (insert k s)
unfolding insert
Above-insert i k [] h a = (h, tt)
Above-insert i k (x ∷ s) h a = ground (arith, Above-insert i k s)

Above-trans : (i k : Text) (s : List Text) → text_lt i k ≡ true → Above k s → Above i s
Above-trans i k [] h a = tt
Above-trans i k (x ∷ s) h a = (lt_trans i k x h a.0, Above-trans i k s h a.1)

pub insert-IsOrdered : (k : Text) (s : List Text) → IsOrdered s → IsOrdered (insert k s)
unfolding insert
insert-IsOrdered k [] o = (tt, tt)
insert-IsOrdered k (x ∷ s) o = ground (
  arith,
  eq_iff x k,
  eq_iff k x,
  lt_total k x,
  insert-IsOrdered k s,
  Above-insert x k s,
  Above-trans k x s,
)
