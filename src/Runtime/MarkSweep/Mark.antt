-- ===== src/Runtime/MarkSweep/Mark.antt =====
-- `mark` and the scans: each visit of a word marks what is reachable from it.
use mathlib.Core.Path.{fun_ext}
use jb_transpiler.Base.{
  ap, ◌∙◌, ◌≢◌, eqb, subst, ℕ, zero, suc, ◌+◌, ◌-◌, ◌<◌, ◌≡◌, refl, inl, inr, true, false, some,
  List, [], ◌∷◌, arith, ltb, length, Bool-cases, Option-cases,
}
use jb_transpiler.Runtime.Machine.{Outcome, done, ◌>>=◌, load, update, add_size}
use jb_transpiler.Runtime.MarkSweep.{
  MsHeader, Headers, word_size, header_size, scan_words, scan_range, visit_word, mark_header, mark,
}
use jb_transpiler.Runtime.MarkSweep.Linked.{
  Block, In, first, Marks, set_mark, header_of, Linked, Linked-In, at-injective, Linked-set_mark,
}
use jb_transpiler.Runtime.MarkSweep.Find.{target, target-In, is_valid_pointer_lem, find_header_lem}
use jb_transpiler.Runtime.MarkSweep.Reach.{
  words, range_words, block_words, Reach, via, unmarked, unmarked-Grows, unmarked-set_mark, Visited,
  Visited-refl, Visited-trans,
}

abbrev Visit : Type 0
Visit = ℕ → Headers → Outcome Headers

-- A scan is a visit of each word in turn.
unfoldable pub visit_all : Visit → List ℕ → Headers → Outcome Headers
visit_all visit [] h = done h
visit_all visit (w ∷ ws) h = visit w h >>= visit_all visit ws

scan_words_lem :
    (word : ℕ → ℕ) (visit : Visit) (left p end : ℕ) (h : Headers)
    → end - p < left
    → scan_words word visit left p end h ≡ visit_all visit (words word left p end) h
unfolding scan_words words visit_all
scan_words_lem word visit zero p end h r = absurd (omega arith)
scan_words_lem word visit (suc left) p end h r = elim (Bool-cases (ltb p end)) [
  | inl more ↦
      let rest =
        λ (h' : Headers). scan_words_lem word visit left (p + word_size) end h' (ground arith) in
      rw more (ap (λ (k : Headers → Outcome Headers). visit (word p) h >>= k) (fun_ext rest))
  | inr past ↦ rw past refl
]

pub scan_range_lem :
    (word : ℕ → ℕ) (visit : Visit) (p end : ℕ) (h : Headers)
    → scan_range word visit p end h ≡ visit_all visit (range_words word p end) h
unfolding scan_range range_words
scan_range_lem word visit p end h = scan_words_lem word visit (suc (end - p)) p end h (omega arith)

-- A header without a mark gets one, and its words are visited.
mark_header_new :
    (word : ℕ → ℕ) (visit : Visit) (p : ℕ) (a : MsHeader) (h : Headers)
    → h p ≡ some a
    → p ≢ 0
    → a.marked ≡ false
    → mark_header word visit p h
      ≡ visit_all visit
          (range_words word (add_size p header_size) (add_size p a.size))
          (update h p (some (record a { marked = true })))
unfolding mark_header load
mark_header_new word visit p a h e nonnull new = ground (
  arith,
  scan_range_lem word visit (add_size p header_size) (add_size p a.size)
      (update h p (some (record a { marked = true }))),
)

module _ (word : ℕ → ℕ) (bs : List Block) (roots : List ℕ) where
  abbrev pub Live : ℕ → Type 0
  Live w = (b : Block) → target bs w ≡ some b → Reach word bs roots b

  -- With fewer unmarked blocks than this, the visit of a word ends; its block is then marked.
  abbrev pub Visits : Visit → ℕ → ℕ → Type 0
  Visits visit depth w =
      (h : Headers) (m : Marks)
      → Linked h m 0 bs
      → unmarked m bs < depth
      → Live w
      → (h' : Headers) × (n : Marks) × (visit w h ≡ done h')
        × Linked h' n 0 bs
        × Visited word bs roots m n
        × ((b : Block) → target bs w ≡ some b → n b.at ≡ true)

  -- The same of each word of a list.
  abbrev pub VisitsAll : Visit → ℕ → List ℕ → Type 0
  VisitsAll visit depth ws =
      (h : Headers) (m : Marks)
      → Linked h m 0 bs
      → unmarked m bs < depth
      → ((w : ℕ) → In w ws → Live w)
      → (h' : Headers) × (n : Marks) × (visit_all visit ws h ≡ done h')
        × Linked h' n 0 bs
        × Visited word bs roots m n
        × ((w : ℕ) (b : Block) → In w ws → target bs w ≡ some b → n b.at ≡ true)

  pub visit_all-VisitsAll :
      (visit : Visit) (depth : ℕ)
      → ((w : ℕ) → Visits visit depth w)
      → (ws : List ℕ) → VisitsAll visit depth ws
  unfolding visit_all
  visit_all-VisitsAll visit depth each [] h m l u live =
      (h, m, refl, l, Visited-refl word bs roots m, λ w b i. absurd i)
  visit_all-VisitsAll visit depth each (w ∷ ws) h m l u live =
      let (h1, m1, e1, l1, v1, t1) = each w h m l u (live w (inl refl)) in
      let less : unmarked m1 bs < depth = omega (arith, unmarked-Grows m m1 bs v1.grows) in
      let (h2, m2, e2, l2, v2, t2) =
        visit_all-VisitsAll visit depth each ws h1 m1 l1 less (λ x i. live x (inr i)) in
      (
        h2,
        m2,
        rw e1 e2,
        l2,
        Visited-trans word bs roots m m1 m2 v1 v2,
        λ x b i t. elim i [ inl e ↦ v2.grows b.at (t1 b (rw (← e) t)) | inr j ↦ t2 x b j t ],
      )

  module _ (rounds : ℕ) (r : length bs < rounds) where
    pub visit_word-Visits :
        (visit : Visit) (depth w : ℕ)
        → Visits visit depth w
        → Visits (visit_word visit rounds (first bs)) depth w
    unfolding visit_word
    visit_word-Visits visit depth w each h m l u live =
        let valid = is_valid_pointer_lem h m w rounds 0 bs r l in
        elim (Option-cases (target bs w)) [
          | inl e ↦ (h, m, ground arith, l, Visited-refl word bs roots m, λ b t. cc)
          | inr (b, e) ↦
              let (h', n, f, l', v, t) = each h m l u live in (h', n, rw (valid, e) f, l', v, t)
        ]

    -- A block is marked, and then all that it points into.
    Visited-mark :
        (b : Block) (m n : Marks)
        → In b bs
        → Reach word bs roots b
        → ((c : Block) → In c bs → c.at ≡ b.at → c ≡ b)
        → Visited word bs roots (set_mark m b.at true) n
        → ((x : ℕ) (c : Block) → In x (block_words word b) → target bs x ≡ some c → n c.at ≡ true)
        → Visited word bs roots m n
    Visited-mark b m n i reached same v all = record {
      grows = λ p e. v.grows p (ground arith);
      closed = λ x c y j f g k t. elim (Bool-cases (eqb b.at x.at)) [
        | inl e ↦ all y c (subst (λ z. In y (block_words word z)) (same x j (ground arith)) k) t
        | inr e ↦ v.closed x c y j f (ground arith) k t
      ];
      sound = λ x j f g. elim (Bool-cases (eqb b.at x.at)) [
        | inl e ↦ rw (same x j (ground arith)) reached
        | inr e ↦ v.sound x j f (ground arith)
      ];
    }

    -- The header that a word points into, before its mark and its scan.
    mark_header-Visits :
        (visit : Visit) (depth w : ℕ) (b : Block)
        → ((x : ℕ) → Visits visit depth x)
        → target bs w ≡ some b
        → (h : Headers) (m : Marks) → Linked h m 0 bs
        → unmarked m bs < suc depth
        → Live w
        → (h' : Headers) × (n : Marks) × (mark_header word visit b.at h ≡ done h')
          × Linked h' n 0 bs
          × Visited word bs roots m n
          × (n b.at ≡ true)
    unfolding mark_header load block_words
    mark_header-Visits visit depth w b each e h m l u live =
        let (next, back, hb, nonnull) = Linked-In h m b 0 bs l (target-In w bs b e) in
        let a = header_of m b next back in
        let h1 = update h b.at (some (record a { marked = true })) in
        let m1 = set_mark m b.at true in
        let ws = block_words word b in
        elim (Bool-cases (m b.at)) [
          | inl old ↦ (h, m, ground arith, l, Visited-refl word bs roots m, old)
          | inr new ↦
              let (h', n, f, l', v, t) =
                visit_all-VisitsAll visit depth each ws h1 m1
                  (Linked-set_mark h m b.at true a 0 bs hb l)
                  (omega (arith, unmarked-set_mark m b bs (target-In w bs b e) new))
                  (λ x i c g. via b c x (live b e) i g) in
              (
                h',
                n,
                mark_header_new word visit b.at a h hb nonnull new ∙ f,
                l',
                Visited-mark b m n (target-In w bs b e) (live b e)
                    (λ c i p. at-injective h m c b 0 bs l i (target-In w bs b e) p) v
                    (λ x c i g. t x c i g),
                v.grows b.at (ground arith),
              )
        ]

    pub mark-Visits : (depth w : ℕ) → Visits (mark word depth rounds (first bs)) depth w
    unfolding mark mark_header
    mark-Visits zero w h m l u live = absurd (omega arith)
    mark-Visits (suc depth) w h m l u live =
        let found = find_header_lem h m w rounds 0 bs r l in
        let visit = visit_word (mark word depth rounds (first bs)) rounds (first bs) in
        let each = λ (x : ℕ).
          visit_word-Visits (mark word depth rounds (first bs)) depth x (mark-Visits depth x) in
        elim (Option-cases (target bs w)) [
          | inl e ↦ (h, m, rw (found, e) refl, l, Visited-refl word bs roots m, λ b t. cc)
          | inr (b, e) ↦
              let (h', n, f, l', v, t) = mark_header-Visits visit depth w b each e h m l u live in
              (h', n, rw (found, e) f, l', v, λ c g. ground (arith, t))
        ]
