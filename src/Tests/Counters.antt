-- ===== src/Tests/Counters.antt =====
-- A program that stores one object in another and gives both back.
use jb_transpiler.Base.{ℕ, suc, ◌≡◌, refl, inl, inr, some, none, List, [], ◌∷◌, arith}
use jb_transpiler.Base.Number.{pos}
use jb_transpiler.Runtime.Machine.{Outcome, done, load, modify, free, count_free}
use jb_transpiler.Runtime.RefCount.{
  RefcountHeader, RefCount, rc_init, inc_ref_count, dec_ref_count, dec_all, release,
}
use jb_transpiler.Runtime.RefCount.Balance.{owner, Distinct}
use jb_transpiler.Runtime.RefCount.Program.{
  Calls, start, alloc, store, drop, allocated, stored_in, fresh_header, alloc_run, store_run,
}
use jb_transpiler.Runtime.RefCount.Accounts.{Accounted, Calls-Accounted}
use jb_transpiler.Runtime.RefCount.Progress.{Calls-returns}
use jb_transpiler.Runtime.RefCount.Cycles.{IsAcyclic, Calls-freed}
use jb_transpiler.Tests.Counts.{no_objects}

-- What `malloc` answers.
abbrev places : List ℕ
places = 1000 ∷ 2000 ∷ []

places-Distinct : Distinct places
places-Distinct = ((omega arith, tt), (tt, tt))

abbrev result : Outcome RefCount → RefCount
result (done st) = st
result o = no_objects

abbrev outer : RefCount
outer = allocated 1000 8 no_objects

abbrev both : RefCount
both = allocated 2000 16 outer

-- 2048 is stored in the block at 1048.
abbrev linked : RefCount
linked = stored_in 2048 1048 (fresh_header 16) (fresh_header 8) both

abbrev one_given : RefCount
one_given = result (dec_ref_count 3 2048 0 linked)

abbrev all_given : RefCount
all_given = result (dec_ref_count 3 1048 0 one_given)

both_calls : Calls places (2048 ∷ 1048 ∷ []) both
unfolding rc_init
both_calls =
    alloc 2000 16 2048 both
      (alloc 1000 8 1048 outer (start no_objects (λ q. refl)) (omega arith) (omega arith) (inl refl)
        refl (alloc_run 1000 8 no_objects (omega arith)))
      (omega arith) (omega arith) (inr (inl refl)) refl (alloc_run 2000 16 outer (omega arith))

linked_calls : Calls places (2048 ∷ 1048 ∷ []) linked
linked_calls =
    store 2048 1048 (fresh_header 16) (fresh_header 8) linked both_calls (omega arith) (omega arith)
      refl (omega arith) refl
      (store_run 2048 1048 (fresh_header 16) (fresh_header 8) both (omega arith) (omega arith) refl
        (omega arith) refl)

one_calls : Calls places (1048 ∷ []) one_given
unfolding dec_ref_count dec_all release modify load free count_free
one_calls = drop 3 2048 [] (1048 ∷ []) one_given linked_calls (omega arith) refl

all_calls : Calls places [] all_given
unfolding dec_ref_count dec_all release modify load free count_free
all_calls = drop 3 1048 [] [] all_given one_calls (omega arith) refl

Calls-Accounted_example : Accounted places (2048 ∷ 1048 ∷ []) linked
Calls-Accounted_example = Calls-Accounted places-Distinct linked_calls

Calls-returns_example :
    ((a : RefcountHeader) × (n : ℕ) × (linked.headers (owner 2048) ≡ some a)
      × (a.count ≡ pos (suc n)))
    × ((st' : RefCount) × (inc_ref_count 2048 0 linked ≡ done st'))
    × ((st' : RefCount) × (inc_ref_count 2048 1048 linked ≡ done st'))
    × ((st' : RefCount) × (dec_ref_count 3 2048 0 linked ≡ done st'))
Calls-returns_example =
    Calls-returns 3 2048 1048 places-Distinct linked_calls (omega arith) (inl refl) (omega arith)
      (inr (inl refl)) (omega arith)

nothing_left : IsAcyclic (λ q. q) all_given.headers
unfolding dec_ref_count dec_all release modify load free count_free
nothing_left x a p e i = ground arith

Calls-freed_example : all_given.headers 1000 ≡ none
Calls-freed_example = Calls-freed (λ q. q) places-Distinct all_calls nothing_left 1000
