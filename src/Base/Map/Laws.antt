-- ===== src/Base/Map/Laws.antt =====
-- Lookup after insertion, and that insertion keeps the order.
use jb_transpiler.Base.Tests.{if◌then◌else◌, length}
use jb_transpiler.Base.Bytes.{Text, ◌==◌, text_lt, eq_iff, eq_refl, lt_total, lt_trans}
use jb_transpiler.Base.Map.{Map, find, insert, Above, IsOrdered}
use Prim.Native.Nat.{suc, ◌≤◌}
use mathlib.Core.Path.{◌≡◌, refl}
use mathlib.Core.Logic.{◌≢◌}
use mathlib.Core.Bool.{true}
use mathlib.Core.Option.{none, some}
use mathlib.Core.List.{[], ◌∷◌}
use native.Mathlib.Omega.{arith}

module _ {ℓ} {V : Type ℓ} where
  pub find-insert :
      (k j : Text) (v : V) (m : Map V)
      → find j (insert k v m) ≡ (if k == j then some v else find j m)
  unfolding find insert
  find-insert k j v [] = refl
  find-insert k j v ((i, w) ∷ m) =
      ground (arith, eq_iff k j, eq_iff i k, eq_iff i j, find-insert k j v m)

  pub find-insert_self : (k : Text) (v : V) (m : Map V) → find k (insert k v m) ≡ some v
  find-insert_self k v m = simp (find-insert, eq_refl)

  pub find-insert_ne : (k j : Text) (v : V) (m : Map V) → k ≢ j → find j (insert k v m) ≡ find j m
  find-insert_ne k j v m h = ground (arith, find-insert k j v m, eq_iff k j)

  Above-insert :
      (i k : Text) (v : V) (m : Map V) → text_lt i k ≡ true → Above i m → Above i (insert k v m)
  unfolding insert
  Above-insert i k v [] h a = (h, tt)
  Above-insert i k v ((j, w) ∷ m) h a = ground (arith, Above-insert i k v m)

  Above-trans : (i k : Text) (m : Map V) → text_lt i k ≡ true → Above k m → Above i m
  Above-trans i k [] h a = tt
  Above-trans i k ((j, w) ∷ m) h a = (lt_trans i k j h a.0, Above-trans i k m h a.1)

  pub insert-IsOrdered : (k : Text) (v : V) (m : Map V) → IsOrdered m → IsOrdered (insert k v m)
  unfolding insert
  insert-IsOrdered k v [] o = (tt, tt)
  insert-IsOrdered k v ((j, w) ∷ m) o = ground (
    arith,
    eq_iff j k,
    lt_total k j,
    eq_iff k j,
    insert-IsOrdered k v m,
    Above-insert j k v m,
    Above-trans k j m,
  )

  -- A key that the map lacks makes it one entry longer; any other leaves its length.
  pub length-insert_new :
      (k : Text) (v : V) (m : Map V) → find k m ≡ none → length (insert k v m) ≡ suc (length m)
  unfolding find insert
  length-insert_new k v [] h = refl
  length-insert_new k v ((j, w) ∷ m) h = ground (arith, length-insert_new k v m)

  pub length-insert_le : (k : Text) (v : V) (m : Map V) → length m ≤ length (insert k v m)
  unfolding insert
  length-insert_le k v [] = omega arith
  length-insert_le k v ((j, w) ∷ m) = ground (arith, length-insert_le k v m)

  -- The last of two entries under one key counts.
  pub insert-insert : (k : Text) (v w : V) (m : Map V) → insert k w (insert k v m) ≡ insert k w m
  unfolding insert
  insert-insert k v w [] = ground (arith, eq_refl k)
  insert-insert k v w ((j, x) ∷ m) = ground (arith, eq_refl k, insert-insert k v w m)
