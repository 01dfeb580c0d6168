-- ===== src/Types/Hierarchy/Virtuals/Collect.antt =====
-- The body of the loop of `getAllVirtualMethods`: one class's methods join those seen so far.
use mathlib.Core.List.{Memᴰ}
use jb_transpiler.Base.{
  Text, ◌≡◌, ◌==◌, eq_iff, eq_refl, Bool, true, false, ◌&&◌, ◌||◌, not, List, [], ◌∷◌, ◌++◌, arith,
  Bool-cases, inl, inr, refl,
}
use jb_transpiler.Base.Set
use jb_transpiler.Types.LangType.{Function}
use jb_transpiler.Types.Hierarchy.{Seen, add_virtual, add_virtuals, none_seen}

unfoldable pub has_name : Text → List Function → Bool
has_name j [] = false
has_name j (m ∷ ms) = (m.name == j) || has_name j ms

abbrev pub All : (Function → Type 0) → List Function → Type 0
All P [] = Unit
All P (m ∷ ms) = P m × All P ms

-- No two of the methods have one name.
abbrev pub Distinct : List Function → Type 0
Distinct [] = Unit
Distinct (m ∷ ms) = (has_name m.name ms ≡ false) × Distinct ms

pub has_name-append :
    (j : Text) (ms ns : List Function) → has_name j (ms ++ ns) ≡ (has_name j ms || has_name j ns)
unfolding has_name
has_name-append j [] ns = refl
has_name-append j (m ∷ ms) ns = ground (arith, has_name-append j ms ns)

All-concat :
    (P : Function → Type 0) (ms : List Function) (m : Function)
    → P m
    → All P ms
    → All P (ms ++ m ∷ [])
All-concat P [] m p a = (p, tt)
All-concat P (n ∷ ms) m p a = (a.0, All-concat P ms m p a.1)

Distinct-concat :
    (ms : List Function) (m : Function)
    → has_name m.name ms ≡ false
    → Distinct ms
    → Distinct (ms ++ m ∷ [])
unfolding has_name
Distinct-concat [] m new d = (refl, tt)
Distinct-concat (n ∷ ms) m new d = ground (
  arith,
  has_name-append n.name ms (m ∷ []),
  eq_iff n.name m.name,
  eq_iff m.name n.name,
  Distinct-concat ms m,
)

-- What the loop keeps of `allVirtuals` and `seenMethods`.
pub record IsGood (P : Function → Type 0) (s : Seen) : Type 0 where
  pub agree : (j : Text) → Set.contains j s.names ≡ has_name j s.virtuals
  pub each : All P s.virtuals
  pub distinct : Distinct s.virtuals

pub none_seen-IsGood : (P : Function → Type 0) → IsGood P none_seen
unfolding has_name Set.contains
none_seen-IsGood P = record { agree = λ j. refl; each = tt; distinct = tt }

add_new :
    (s : Seen) (m : Function)
    → m.is_virtual && not (Set.contains m.name s.names) ≡ true
    → add_virtual s m
      ≡ record { virtuals = s.virtuals ++ m ∷ []; names = Set.insert m.name s.names }
unfolding add_virtual
add_new s m h = rw h

add_old :
    (s : Seen) (m : Function)
    → m.is_virtual && not (Set.contains m.name s.names) ≡ false
    → add_virtual s m ≡ s
unfolding add_virtual
add_old s m h = rw h

module _ (P : Function → Type 0) (s : Seen) (m : Function) where
  appended-IsGood :
      P m
      → has_name m.name s.virtuals ≡ false
      → IsGood P s
      → IsGood P (record { virtuals = s.virtuals ++ m ∷ []; names = Set.insert m.name s.names })
  appended-IsGood p new g = record {
    agree = λ j. agree_at j;
    each = All-concat P s.virtuals m p g.each;
    distinct = Distinct-concat s.virtuals m new g.distinct;
  }
    where
      agree_at :
          (j : Text)
          → Set.contains j (Set.insert m.name s.names) ≡ has_name j (s.virtuals ++ m ∷ [])
      agree_at j =
          unfold has_name in
          ground (
            arith,
            g.agree j,
            Set.contains-insert m.name j s.names,
            has_name-append j s.virtuals (m ∷ []),
          )

  add_virtual-IsGood : (m.is_virtual ≡ true → P m) → IsGood P s → IsGood P (add_virtual s m)
  add_virtual-IsGood p g = elim (Bool-cases (m.is_virtual && not (Set.contains m.name s.names))) [
    | inl new ↦
        rw (add_new s m new) (appended-IsGood (p (ground arith)) (ground (arith, g.agree m.name)) g)
    | inr old ↦ rw (add_old s m old) g
  ]

pub add_virtuals-IsGood :
    (P : Function → Type 0) (s : Seen) (ms : List Function)
    → ((m : Function) → Memᴰ m ms → m.is_virtual ≡ true → P m)
    → IsGood P s
    → IsGood P (add_virtuals s ms)
unfolding add_virtuals
add_virtuals-IsGood P s [] p g = g
add_virtuals-IsGood P s (m ∷ ms) p g =
    add_virtuals-IsGood P (add_virtual s m) ms (λ n i. p n (Memᴰ.tail i))
      (add_virtual-IsGood P s m (p m (Memᴰ.head refl)) g)

-- The names after the methods of one class: those before, and those of its virtual methods.
add_virtual-has_name :
    (P : Function → Type 0) (s : Seen) (m : Function) (j : Text)
    → IsGood P s
    → has_name j (add_virtual s m).virtuals
      ≡ (has_name j s.virtuals || (m.is_virtual && (m.name == j)))
unfolding add_virtual has_name
add_virtual-has_name P s m j g =
    ground (arith, g.agree m.name, eq_iff m.name j, has_name-append j s.virtuals (m ∷ []))

pub add_virtuals_keeps :
    (s : Seen) (ms : List Function) (j : Text)
    → has_name j s.virtuals ≡ true
    → has_name j (add_virtuals s ms).virtuals ≡ true
unfolding add_virtuals add_virtual has_name
add_virtuals_keeps s [] j h = h
add_virtuals_keeps s (m ∷ ms) j h =
    add_virtuals_keeps (add_virtual s m) ms j
      (ground (arith, has_name-append j s.virtuals (m ∷ [])))

pub add_virtuals_has :
    (P : Function → Type 0) (s : Seen) (ms : List Function) (m : Function)
    → ((m : Function) → Memᴰ m ms → m.is_virtual ≡ true → P m)
    → IsGood P s
    → Memᴰ m ms
    → m.is_virtual ≡ true
    → has_name m.name (add_virtuals s ms).virtuals ≡ true
unfolding add_virtuals
add_virtuals_has P s [] m p g i v = elim i [ ]
add_virtuals_has P s (n ∷ ms) m p g (Memᴰ.head e) v =
    add_virtuals_keeps (add_virtual s n) ms m.name
      (rw (← e) (ground (arith, add_virtual-has_name P s m m.name g, eq_refl m.name)))
add_virtuals_has P s (n ∷ ms) m p g (Memᴰ.tail i) v =
    add_virtuals_has P (add_virtual s n) ms m (λ k i. p k (Memᴰ.tail i))
      (add_virtual-IsGood P s n (p n (Memᴰ.head refl)) g) i v
