-- ===== src/Runtime/RefCount/Release.antt =====
-- dec_ref_count: the recursion ends, and what is left was there before.
use jb_transpiler.Base.{
  ℕ, zero, suc, ◌<◌, inl, inr, some, List, [], ◌∷◌, arith, Bool-cases, Option-cases,
}
use jb_transpiler.Runtime.Machine.{
  Outcome, done, exited, fault, hang, ◌>>=◌, update, load, modify, sub_size, load-some, modify-some,
  free-some, update_self, is_null,
}
use jb_transpiler.Runtime.RefCount.{
  RefCount, is_zero, count_down, header_of, dec_all, release, dec_ref_count,
}
use jb_transpiler.Runtime.RefCount.Counted.{
  Headers, Releases, Releases-refl, Releases-trans, Releases-free, Releases-down, Covers,
  Covers-Releases, positives, positives-Releases, positives-last,
}

-- A call that ends has only released; it never runs out of rounds.
abbrev pub Ends : Headers → Outcome RefCount → Type 0
Ends h (done st) = Releases h st.headers
Ends h (exited n) = ⊥
Ends h fault = Unit
Ends h hang = ⊥

Ends->>= :
    (h : Headers) (m : Outcome RefCount) (k : RefCount → Outcome RefCount)
    → Ends h m
    → ((st : RefCount) → Releases h st.headers → Ends h (k st))
    → Ends h (m >>= k)
Ends->>= h (done st) k e f = f st e
Ends->>= h (exited n) k e f = e
Ends->>= h fault k e f = tt
Ends->>= h hang k e f = e

Ends-Releases : (h k : Headers) (m : Outcome RefCount) → Releases h k → Ends k m → Ends h m
Ends-Releases h k (done st) r e = Releases-trans h k st.headers r e
Ends-Releases h k (exited n) r e = e
Ends-Releases h k fault r e = tt
Ends-Releases h k hang r e = e

release-Ends : (header : ℕ) (st : RefCount) → Ends st.headers (release header st)
unfolding release load
release-Ends header st = elim (Option-cases (st.headers header)) [
  | inl e ↦ rw (e, load) tt
  | inr (a, e) ↦
      rw (load-some st.headers header a e, free-some st.headers header a e)
        (Releases-free st.headers header)
]

module _ (l : List ℕ) where
  dec_all-Ends :
      (dec : ℕ → RefCount → Outcome RefCount) (depth : ℕ)
      → ((p : ℕ) (s : RefCount)
          → Covers l s.headers
          → positives l s.headers < depth
          → Ends s.headers (dec p s))
      → (ps : List ℕ) (st : RefCount) → Covers l st.headers
      → positives l st.headers < depth
      → Ends st.headers (dec_all dec ps st)
  unfolding dec_all
  dec_all-Ends dec depth each [] st c u = Releases-refl st.headers
  dec_all-Ends dec depth each (p ∷ ps) st c u =
      Ends->>= st.headers (dec p st) (dec_all dec ps) (each p st c u) λ s r.
        Ends-Releases st.headers s.headers (dec_all dec ps s) r (
          dec_all-Ends dec depth each ps s (Covers-Releases l st.headers s.headers r c)
            (omega (arith, positives-Releases l st.headers s.headers r)))

  -- With more rounds than there are headers of a positive count among the addresses that hold all
  -- headers, dec_ref_count ends, in a result or in a fault and never by running out of rounds,
  -- whatever refers to what; where it returns, every header that is left was there with the same
  -- size and registered pointers, and no count rose.
  pub dec_ref_count-Ends :
      (depth ptr offset : ℕ) (st : RefCount)
      → Covers l st.headers
      → positives l st.headers < depth
      → Ends st.headers (dec_ref_count depth ptr offset st)
  unfolding dec_ref_count modify
  dec_ref_count-Ends zero ptr offset st c u = absurd (omega arith)
  dec_ref_count-Ends (suc depth) ptr offset st c u =
      let header = header_of (sub_size ptr offset) in
      let inner = λ (p : ℕ) (s : RefCount). dec_ref_count depth p 0 s in
      let each = λ (p : ℕ) (s : RefCount). dec_ref_count-Ends depth p 0 s in
      elim (Bool-cases (is_null ptr)) [
        | inl null ↦ rw null (Releases-refl st.headers)
        | inr some_ptr ↦ rw some_ptr (elim (Option-cases (st.headers header)) [
          | inl e ↦ rw (e, modify) tt
          | inr (a, e) ↦
              let h = update st.headers header (some (count_down a)) in
              let st1 = record st { headers = h } in
              let down = Releases-down st.headers header a e in
              rw
                (
                  modify-some st.headers header a count_down e,
                  load-some h header (count_down a)
                      (update_self st.headers header a (some (count_down a))),
                )
                (elim (Bool-cases (is_zero (count_down a).count)) [
                  | inl last ↦
                      let fewer = positives-last l st.headers header a e (c header a e) last in
                      rw last (
                        Ends->>= st.headers (dec_all inner a.to_free st1) (release header)
                          (Ends-Releases st.headers h (dec_all inner a.to_free st1) down (
                            dec_all-Ends inner depth each a.to_free st1
                              (Covers-Releases l st.headers h down c) (omega (arith, fewer, u))))
                          λ s r.
                            Ends-Releases st.headers s.headers (release header s) r
                              (release-Ends header s))
                  | inr more ↦ rw more down
                ])
        ])
      ]
