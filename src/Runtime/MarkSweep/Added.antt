-- ===== src/Runtime/MarkSweep/Added.antt =====
-- add_allocation, and ms_alloc up to the test of the threshold.
use jb_transpiler.Base.{
  ℕ, ◌≡◌, ◌≢◌, refl, ap, sym, ◌∙◌, subst, false, some, none, List, [], ◌∷◌, arith, ltb,
  if◌then◌else◌,
}
use jb_transpiler.Runtime.Machine.{
  done, ◌>>=◌, add_size, is_null, update, modify, count_alloc, is_null_of_ne, modify-some,
  update_self,
}
use jb_transpiler.Runtime.MarkSweep.{MsHeader, Headers, MarkSweep, header_size, add_allocation}
use jb_transpiler.Runtime.MarkSweep.Collector.{collect_garbage, ms_alloc}
use jb_transpiler.Runtime.MarkSweep.Linked.{Block, first, Marks, set_mark, header_of, Linked}
use jb_transpiler.Runtime.MarkSweep.Zipper.{Fresh, Distinct, Linked-update}
use jb_transpiler.Runtime.MarkSweep.Collect.{total, Holds}

-- The block that an allocation of so many bytes makes at this address.
abbrev pub new_block : ℕ → ℕ → Block
new_block header bytes = record { at = header; size = add_size header_size bytes }

Fresh-Linked :
    (h : Headers) (m : Marks) (p prev : ℕ) (bs : List Block)
    → h p ≡ none
    → Linked h m prev bs
    → Fresh p bs
Fresh-Linked h m p prev [] e l = tt
Fresh-Linked h m p prev (b ∷ bs) e l = (
  λ q. let f : some (header_of m b (first bs) prev) ≡ none = sym l.0 ∙ ap h q ∙ e in cc,
  Fresh-Linked h m p b.at bs e l.2,
)

-- A header that is not among the blocks leaves their marks and links as they are.
Linked-Fresh :
    (h : Headers) (m : Marks) (p : ℕ) (a : MsHeader) (prev : ℕ) (bs : List Block)
    → Fresh p bs
    → Linked h m prev bs
    → Linked (update h p (some a)) (set_mark m p false) prev bs
Linked-Fresh h m p a prev [] f l = tt
Linked-Fresh h m p a prev (b ∷ bs) f l = (ground arith, l.1, Linked-Fresh h m p a b.at bs f.1 l.2)

module _ (st : MarkSweep) (header bytes : ℕ) where
  abbrev blank : MsHeader
  blank = record { marked = false; size = add_size header_size bytes; next = 0; prev = 0 }

  abbrev with_header : MarkSweep
  with_header = record st { headers = update st.headers header (some blank) }

  -- The header after its own links are set.
  abbrev linked_header : MsHeader
  linked_header = record blank { next = st.allocation_list }

  abbrev after_links : Headers
  after_links = update (update st.headers header (some blank)) header (some linked_header)

  links_set :
      modify
        (λ (a : MsHeader). record a { next = st.allocation_list; prev = 0 })
        (update st.headers header (some blank))
        header
      ≡ done after_links
  links_set =
      modify-some (update st.headers header (some blank)) header blank
        (λ (a : MsHeader). record a { next = st.allocation_list; prev = 0 })
        (update_self st.headers header blank (some blank))

  -- The new header, linked before the others.
  set_self :
      (m : Marks) (bs : List Block)
      → st.allocation_list ≡ first bs
      → after_links header
        ≡ some (header_of (set_mark m header false) (new_block header bytes) (first bs) 0)
  set_self m bs e = ground arith

  abbrev Added : Marks → List Block → Type 0
  Added m bs =
      (h : Headers) × (add_allocation header with_header
        ≡ done (record st { headers = h; allocation_list = header }))
      × Linked h (set_mark m header false) 0 (new_block header bytes ∷ bs)

  add_allocation_lem :
      (m : Marks) (bs : List Block)
      → header ≢ 0
      → st.allocation_list ≡ first bs
      → Fresh header bs
      → Distinct bs
      → Linked st.headers m 0 bs
      → Added m bs
  unfolding add_allocation
  add_allocation_lem m [] nonnull e f d l =
      (after_links, rw (links_set, ap is_null e) refl, (set_self m [] e, nonnull, tt))
  add_allocation_lem m (b ∷ bs) nonnull e f d l =
      let n = set_mark m header false in
      let back = header_of n b (first bs) header in
      let l1 = Linked-Fresh st.headers m header blank 0 (b ∷ bs) f l in
      let l2 =
        Linked-update (update st.headers header (some blank)) n header (some linked_header) 0
          (b ∷ bs) f l1 in
      (
        update after_links st.allocation_list (some back),
        rw
            (
              links_set,
              is_null_of_ne st.allocation_list (λ q. l.1 (sym e ∙ q)),
              modify-some after_links st.allocation_list (header_of n b (first bs) 0)
                  (λ (a : MsHeader). record a { prev = header })
                  (subst (λ p. after_links p ≡ some (header_of n b (first bs) 0)) (sym e) l2.0),
            )
            refl,
        (
          subst
              (λ p.
                update after_links p (some back) header
                ≡ some (header_of n (new_block header bytes) b.at 0))
              (sym e) (ground (arith, set_self m (b ∷ bs) e)),
          nonnull,
          subst (λ p. Linked (update after_links p (some back)) n header (b ∷ bs)) (sym e)
              (
                update_self after_links b.at back (some back),
                l.1,
                Linked-update after_links n b.at (some back) b.at bs d.0 l2.2,
              ),
        ),
      )

  -- The state before the test of the threshold.
  abbrev pub counted : MarkSweep → MarkSweep
  counted added = record added { stats = count_alloc (add_size header_size bytes) added.stats }

  -- The new block is held beside the others, and then the threshold decides.
  pub ms_alloc_adds :
      (word : ℕ → ℕ) (rounds stack_top : ℕ) (bs : List Block)
      → header ≢ 0
      → st.headers header ≡ none
      → Holds st bs
      → (h : Headers) × (ms_alloc word rounds stack_top header bytes st ≡ (
          let st' = counted (record st { headers = h; allocation_list = header }) in
          (if ltb st.gc_threshold st'.stats.current_bytes
            then collect_garbage word rounds stack_top st'
            else done st')
          >>= λ (out : MarkSweep). done (add_size header header_size, out)))
        × Holds
            (counted (record st { headers = h; allocation_list = header }))
            (new_block header bytes ∷ bs)
  unfolding ms_alloc count_alloc total
  ms_alloc_adds word rounds stack_top bs nonnull free v =
      let fresh = Fresh-Linked st.headers v.marks header 0 bs free v.linked in
      let (h, f, l) = add_allocation_lem v.marks bs nonnull v.list fresh v.distinct v.linked in
      (
        h,
        rw (is_null_of_ne header nonnull, f) refl,
        record {
          marks = set_mark v.marks header false;
          list = refl;
          linked = l;
          distinct = (fresh, v.distinct);
          sized = (omega arith, v.sized);
          counted = omega (arith, v.counted);
        },
      )
