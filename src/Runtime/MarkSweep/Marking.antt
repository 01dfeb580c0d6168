-- ===== src/Runtime/MarkSweep/Marking.antt =====
-- mark_phase: after it exactly the reachable blocks have a mark.
use mathlib.Core.Path.{fun_ext}
use jb_transpiler.Base.{
  ℕ, zero, suc, ◌≤◌, ◌<◌, ◌≡◌, ◌≢◌, refl, ap, sym, ◌∙◌, subst, ◌↔◌, inl, inr, true, false, some,
  List, [], ◌∷◌, ◌++◌, map, arith, ltb, length, if◌then◌else◌,
}
use jb_transpiler.Runtime.Machine.{
  Outcome, done, exited, fault, hang, ◌>>=◌, update, is_null_of_ne, load-some, modify-some,
  update_self, bind_assoc,
}
use jb_transpiler.Runtime.MarkSweep.{MsHeader, Headers, MarkSweep, visit_word, mark}
use jb_transpiler.Runtime.MarkSweep.Collector.{
  conservative_scan_stack, clear_marks, scan_roots, mark_phase,
}
use jb_transpiler.Runtime.MarkSweep.Linked.{
  Block, In, first, Marks, set_mark, header_of, Linked, Linked-set_mark, Linked-agree,
}
use jb_transpiler.Runtime.MarkSweep.Find.{target, target-In}
use jb_transpiler.Runtime.MarkSweep.Reach.{range_words, Reach, root, via, unmarked, Visited}
use jb_transpiler.Runtime.MarkSweep.Mark.{
  visit_all, scan_range_lem, visit_all-VisitsAll, visit_word-Visits, mark-Visits,
}

abbrev Visit : Type 0
Visit = ℕ → Headers → Outcome Headers

-- The words of the stack between the collector's frame and the bottom, whichever way it grows.
unfoldable pub stack_words : (ℕ → ℕ) → ℕ → ℕ → List ℕ
stack_words word bottom stack_top =
    if ltb stack_top bottom
    then range_words word stack_top bottom
    else range_words word bottom stack_top

-- The words that a collection starts from: the stack, and the globals that are registered.
unfoldable pub root_words : (ℕ → ℕ) → ℕ → MarkSweep → List ℕ
root_words word stack_top st = stack_words word st.stack_bottom stack_top ++ map word st.roots

conservative_scan_stack_lem :
    (word : ℕ → ℕ) (visit : Visit) (bottom stack_top : ℕ) (h : Headers)
    → conservative_scan_stack word visit bottom stack_top h
      ≡ visit_all visit (stack_words word bottom stack_top) h
unfolding conservative_scan_stack stack_words
conservative_scan_stack_lem word visit bottom stack_top h = ground (
  arith,
  scan_range_lem word visit stack_top bottom h,
  scan_range_lem word visit bottom stack_top h,
)

scan_roots_lem :
    (word : ℕ → ℕ) (visit : Visit) (roots : List ℕ) (h : Headers)
    → scan_roots word visit roots h ≡ visit_all visit (map word roots) h
unfolding scan_roots visit_all
scan_roots_lem word visit [] h = refl
scan_roots_lem word visit (r ∷ roots) h =
    ap (λ (k : Headers → Outcome Headers). visit (word r) h >>= k)
      (fun_ext (scan_roots_lem word visit roots))

visit_all-append :
    (visit : Visit) (xs ys : List ℕ) (h : Headers)
    → visit_all visit (xs ++ ys) h ≡ (visit_all visit xs h >>= visit_all visit ys)
unfolding visit_all
visit_all-append visit [] ys h = refl
visit_all-append visit (x ∷ xs) ys h =
    elim (visit x h)
      as (λ o.
        (o >>= visit_all visit (xs ++ ys)) ≡ ((o >>= visit_all visit xs) >>= visit_all visit ys)) [
          | done h' ↦ visit_all-append visit xs ys h'
          | exited n ↦ refl
          | fault ↦ refl
          | hang ↦ refl
        ]

clear_marks_step :
    (rounds p : ℕ) (a : MsHeader) (h : Headers)
    → h p ≡ some a
    → p ≢ 0
    → clear_marks (suc rounds) p h
      ≡ clear_marks rounds a.next (update h p (some (record a { marked = false })))
unfolding clear_marks
clear_marks_step rounds p a h e nonnull =
    let f = λ (b : MsHeader). record b { marked = false } in
    rw
      (
        is_null_of_ne p nonnull,
        modify-some h p a f e,
        load-some (update h p (some (f a))) p (f a) (update_self h p a (some (f a))),
      )
      refl

-- The first loop takes the marks off.
clear_marks_lem :
    (rounds : ℕ) (bs : List Block) (h : Headers) (m : Marks) (prev : ℕ) (rest : List Block)
    → length rest < rounds
    → Linked h m 0 bs
    → Linked h m prev rest
    → (h' : Headers) × (n : Marks) × (clear_marks rounds (first rest) h ≡ done h')
      × Linked h' n 0 bs
      × ((p : ℕ) → m p ≡ false → n p ≡ false)
      × ((b : Block) → In b rest → n b.at ≡ false)
unfolding clear_marks
clear_marks_lem zero bs h m prev rest r l k = absurd (omega arith)
clear_marks_lem (suc rounds) bs h m prev [] r l k = (h, m, refl, l, λ p e. e, λ b i. absurd i)
clear_marks_lem (suc rounds) bs h m prev (b ∷ rest) r l k =
    let a = header_of m b (first rest) prev in
    let h1 = update h b.at (some (record a { marked = false })) in
    let m1 = set_mark m b.at false in
    let (h', n, f, l', same, clear) =
      clear_marks_lem rounds bs h1 m1 b.at rest (omega arith)
        (Linked-set_mark h m b.at false a 0 bs k.0 l)
        (Linked-set_mark h m b.at false a b.at rest k.0 k.2) in
    (
      h',
      n,
      clear_marks_step rounds b.at a h k.0 k.1 ∙ f,
      l',
      λ p e. same p (ground arith),
      λ c i. elim i [
        | inl e ↦ same c.at (ground (arith, ap (λ (x : Block). x.at) e))
        | inr j ↦ clear c j
      ],
    )

unmarked-le-length : (m : Marks) (bs : List Block) → unmarked m bs ≤ length bs
unfolding unmarked
unmarked-le-length m [] = omega arith
unmarked-le-length m (b ∷ bs) = ground (arith, unmarked-le-length m bs)

Reach-In :
    (word : ℕ → ℕ) (bs : List Block) (roots : List ℕ) {b : Block} → Reach word bs roots b → In b bs
Reach-In word bs roots (root w b i t) = target-In w bs b t
Reach-In word bs roots (via a b w r i t) = target-In w bs b t

-- What is reachable has a mark after a visit of all roots that began without marks.
Reach-marked :
    (word : ℕ → ℕ) (bs : List Block) (roots : List ℕ) (n : Marks)
    → Visited word bs roots (λ p. false) n
    → ((w : ℕ) (b : Block) → In w roots → target bs w ≡ some b → n b.at ≡ true)
    → {b : Block} → Reach word bs roots b
    → n b.at ≡ true
Reach-marked word bs roots n v t (root w b i e) = t w b i e
Reach-marked word bs roots n v t (via a b w r i e) =
    v.closed a b w (Reach-In word bs roots r) (Reach-marked word bs roots n v t r) refl i e

-- The two scans together.
mark_phase_visits :
    (word : ℕ → ℕ) (rounds stack_top : ℕ) (st : MarkSweep) (h : Headers)
    → clear_marks rounds st.allocation_list st.headers ≡ done h
    → mark_phase word rounds stack_top st ≡ (
        visit_all
          (visit_word (mark word rounds rounds st.allocation_list) rounds st.allocation_list)
          (root_words word stack_top st)
          h
        >>= λ (h' : Headers). done (record st { headers = h' }))
unfolding mark_phase root_words
mark_phase_visits word rounds stack_top st h e =
    rw e (simp (conservative_scan_stack_lem, scan_roots_lem, visit_all-append, bind_assoc))

module _ (word : ℕ → ℕ) (rounds stack_top : ℕ) (st : MarkSweep) (m : Marks) (bs : List Block) where
  pub mark_phase_lem :
      length bs < rounds
      → st.allocation_list ≡ first bs
      → Linked st.headers m 0 bs
      → (h : Headers) × (n : Marks) × (mark_phase word rounds stack_top st
          ≡ done (record st { headers = h }))
        × Linked h n 0 bs
        × ((b : Block) → In b bs → (n b.at ≡ true) ↔ Reach word bs (root_words word stack_top st) b)
  mark_phase_lem r e l =
      let roots = root_words word stack_top st in
      let (h0, m0, f0, l0, _, clear) = clear_marks_lem rounds bs st.headers m 0 bs r l l in
      let none_marked = Linked-agree h0 m0 (λ p. false) 0 bs clear l0 in
      let each = λ (w : ℕ).
        visit_word-Visits word bs roots rounds r (mark word rounds rounds (first bs)) rounds w
          (mark-Visits word bs roots rounds r rounds w) in
      let visit = visit_word (mark word rounds rounds (first bs)) rounds (first bs) in
      let (h, n, f, l', v, t) =
        visit_all-VisitsAll word bs roots visit rounds each roots h0 (λ p. false) none_marked
          (omega (arith, unmarked-le-length (λ p. false) bs)) (λ w i b g. root w b i g) in
      (
        h,
        n,
        mark_phase_visits word rounds stack_top st h0
              (subst (λ p. clear_marks rounds p st.headers ≡ done h0) (sym e) f0)
            ∙ ap (λ (o : Outcome Headers). o >>= λ (k : Headers). done (record st { headers = k }))
                (subst
                  (λ p.
                    visit_all (visit_word (mark word rounds rounds p) rounds p) roots h0 ≡ done h)
                  (sym e) f),
        l',
        λ b i. (λ y. v.sound b i y refl, Reach-marked word bs roots n v t),
      )
