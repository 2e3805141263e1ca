-- ===== src/Schedule/Oldest/Laws.antt =====
-- The run that the scan chooses, and what its counters say.
use geek_crawler_rag.Base.{
  ℕ, suc, ◌+◌, ◌≤◌, ◌<◌, ◌≡◌, ◌⊎◌, ◌↔◌, refl, inl, inr, Bool, true, false, List, [], ◌∷◌, Option,
  none, some, if◌then◌else◌, length, ltb, leb, Text, arith, MemOf, Bool-cases, sym, subst, ap,
}
use geek_crawler_rag.Schedule.Oldest.{
  RunDoc, SchedulableRun, content_ready, Found, key_less, least, oldest, sort_run, collect_run,
  collect_runs, find_oldest_content_ready_run,
}

least-cons :
    (best x : SchedulableRun) (rs : List SchedulableRun) (b : Bool)
    → key_less x best ≡ b
    → least (if b then x else best) rs ≡ least best (x ∷ rs)
unfolding least
least-cons best x rs b e = rw e refl

-- The run is one of them, and none of them was ready before it.
abbrev IsOldest : List SchedulableRun → SchedulableRun → Type 0
IsOldest rs c = MemOf c rs × ((r : SchedulableRun) → MemOf r rs → c.ready_at ≤ r.ready_at)

least-IsOldest :
    (best : SchedulableRun) (rs : List SchedulableRun) → IsOldest (best ∷ rs) (least best rs)
unfolding least
least-IsOldest best [] =
    (inl refl, λ r m. elim m [ inl e ↦ omega (arith, ap (λ x. x.ready_at) e) | inr a ↦ absurd a ])
least-IsOldest best (x ∷ rs) = elim (Bool-cases (key_less x best)) [
  | inl b ↦
      let (m, l) = least-IsOldest x rs in
      subst (IsOldest (best ∷ x ∷ rs)) (least-cons best x rs true b) (
        inr m,
        λ r n. elim n [
          | inl e ↦ ground (arith, l x (inl refl), b, ap (λ y. y.ready_at) e)
          | inr n' ↦ l r n'
        ],
      )
  | inr b ↦
      let (m, l) = least-IsOldest best rs in
      subst (IsOldest (best ∷ x ∷ rs)) (least-cons best x rs false b) (
        (elim m [ inl e ↦ inl e | inr m' ↦ inr (inr m') ]),
        λ r n. elim n [
          | inl e ↦ l r (inl e)
          | inr n' ↦ elim n' [
            | inl e ↦ ground (arith, l best (inl refl), b, ap (λ y. y.ready_at) e)
            | inr n'' ↦ l r (inr n'')
          ]
        ],
      )
]

run_eq :
    (r : SchedulableRun) (i : Text) (n t : ℕ)
    → r.id ≡ i
    → r.page_count ≡ n
    → r.ready_at ≡ t
    → r ≡ record { id = i; page_count = n; ready_at = t }
run_eq r i n t a b c = rw (sym a, sym b, sym c) refl

-- How many runs are ready.
abbrev pub count_ready : List RunDoc → ℕ
count_ready [] = 0
count_ready (doc ∷ docs) = elim (content_ready doc) [
  | none ↦ count_ready docs
  | some t ↦ suc (count_ready docs)
]

module _ (count_pages : Text → ℕ) (is_excluded : Text → Bool) (maximum_pages : ℕ) where
  -- The run may be scheduled: ready, not excluded, with pages, and not too many.
  pub record IsEligible (docs : List RunDoc) (run : SchedulableRun) : Type 0 where
    pub doc : RunDoc
    pub stored : MemOf doc docs
    pub same_id : run.id ≡ doc.id
    pub ready : content_ready doc ≡ some run.ready_at
    pub included : is_excluded doc.id ≡ false
    pub some_pages : 0 < count_pages doc.id
    pub few_pages : count_pages doc.id ≤ maximum_pages
    pub counted : run.page_count ≡ count_pages doc.id

  -- Each ready run is counted once, as a candidate or for what rules it out.
  sort_run-total :
      (a b c : Bool) (run : SchedulableRun) (f : Found)
      → let g = sort_run count_pages is_excluded maximum_pages a b c run f in
        length g.candidates + g.zero_pages + g.safety_cap + g.excluded
        ≡ suc (length f.candidates + f.zero_pages + f.safety_cap + f.excluded)
  sort_run-total true b c run f = omega arith
  sort_run-total false true c run f = omega arith
  sort_run-total false false true run f = omega arith
  sort_run-total false false false run f = omega arith

  collect_run-total :
      (doc : RunDoc) (docs : List RunDoc) (ready : Option ℕ) (f : Found)
      → content_ready doc ≡ ready
      → length f.candidates + f.zero_pages + f.safety_cap + f.excluded ≡ count_ready docs
      → let g = collect_run count_pages is_excluded maximum_pages doc ready f in
        length g.candidates + g.zero_pages + g.safety_cap + g.excluded ≡ count_ready (doc ∷ docs)
  collect_run-total doc docs none f e h = rw (count_ready, e) h
  collect_run-total doc docs (some t) f e h =
      rw (count_ready, e)
        (omega (
          arith,
          h,
          sort_run-total (is_excluded doc.id) (leb (count_pages doc.id) 0)
              (ltb maximum_pages (count_pages doc.id))
              (record { id = doc.id; page_count = count_pages doc.id; ready_at = t }) f,
        ))

  collect_runs-total :
      (docs : List RunDoc)
      → let g = collect_runs count_pages is_excluded maximum_pages docs in
        length g.candidates + g.zero_pages + g.safety_cap + g.excluded ≡ count_ready docs
  unfolding collect_runs
  collect_runs-total [] = omega arith
  collect_runs-total (doc ∷ docs) =
      collect_run-total doc docs (content_ready doc)
        (collect_runs count_pages is_excluded maximum_pages docs) refl (collect_runs-total docs)

  sort_run-candidates :
      (a b c : Bool) (run r : SchedulableRun) (f : Found)
      → MemOf r (sort_run count_pages is_excluded maximum_pages a b c run f).candidates
        ↔ (((a ≡ false) × (b ≡ false) × (c ≡ false) × (r ≡ run)) ⊎ MemOf r f.candidates)
  sort_run-candidates true b c run r f =
      (inr, λ m. elim m [ inl (e, _, _, _) ↦ absurd cc | inr n ↦ n ])
  sort_run-candidates false true c run r f =
      (inr, λ m. elim m [ inl (_, e, _, _) ↦ absurd cc | inr n ↦ n ])
  sort_run-candidates false false true run r f =
      (inr, λ m. elim m [ inl (_, _, e, _) ↦ absurd cc | inr n ↦ n ])
  sort_run-candidates false false false run r f = (
    (λ m. elim m [ inl e ↦ inl (refl, refl, refl, e) | inr n ↦ inr n ]),
    λ m. elim m [ inl (_, _, _, e) ↦ inl e | inr n ↦ inr n ],
  )

  -- The same, of other documents among which the run's stands.
  IsEligible-among :
      (docs others : List RunDoc) (r : SchedulableRun) (h : IsEligible docs r)
      → MemOf h.doc others
      → IsEligible others r
  IsEligible-among docs others r h m = record {
    doc = h.doc;
    stored = m;
    same_id = h.same_id;
    ready = h.ready;
    included = h.included;
    some_pages = h.some_pages;
    few_pages = h.few_pages;
    counted = h.counted;
  }

  IsEligible-first :
      (doc : RunDoc) (docs : List RunDoc) (t : ℕ) (r : SchedulableRun)
      → content_ready doc ≡ some t
      → is_excluded doc.id ≡ false
      → leb (count_pages doc.id) 0 ≡ false
      → ltb maximum_pages (count_pages doc.id) ≡ false
      → r ≡ record { id = doc.id; page_count = count_pages doc.id; ready_at = t }
      → IsEligible (doc ∷ docs) r
  IsEligible-first doc docs t r e a b c q = record {
    doc = doc;
    stored = inl refl;
    same_id = ap (λ x. x.id) q;
    ready = rw q e;
    included = a;
    some_pages = ground (arith, b);
    few_pages = ground (arith, c);
    counted = ap (λ x. x.page_count) q;
  }

  first-IsEligible :
      (doc : RunDoc) (docs : List RunDoc) (t : ℕ) (r : SchedulableRun) (g : IsEligible docs r)
      → content_ready doc ≡ some t
      → g.doc ≡ doc
      → (is_excluded doc.id ≡ false)
        × (leb (count_pages doc.id) 0 ≡ false)
        × (ltb maximum_pages (count_pages doc.id) ≡ false)
        × (r ≡ record { id = doc.id; page_count = count_pages doc.id; ready_at = t })
  first-IsEligible doc docs t r g e s = (
    rw (sym s) g.included,
    rw (sym s) (ground (arith, g.some_pages)),
    rw (sym s) (ground (arith, g.few_pages)),
    run_eq r doc.id (count_pages doc.id) t (rw (sym s) g.same_id) (rw (sym s) g.counted)
        (ground (arith, g.ready, e, ap content_ready s)),
  )

  collect_run-candidates :
      (doc : RunDoc) (docs : List RunDoc) (ready : Option ℕ) (f : Found) (r : SchedulableRun)
      → content_ready doc ≡ ready
      → (MemOf r f.candidates ↔ IsEligible docs r)
      → MemOf r (collect_run count_pages is_excluded maximum_pages doc ready f).candidates
        ↔ IsEligible (doc ∷ docs) r
  collect_run-candidates doc docs none f r e h = (
    (λ m. let g = h.0 m in IsEligible-among docs (doc ∷ docs) r g (inr g.stored)),
    λ g. elim g.stored [
      | inl s ↦ absurd (ground (arith, g.ready, e, s))
      | inr s ↦ h.1 (IsEligible-among (doc ∷ docs) docs r g s)
    ],
  )
  collect_run-candidates doc docs (some t) f r e h =
      let run : SchedulableRun = record {
        id = doc.id;
        page_count = count_pages doc.id;
        ready_at = t;
      } in
      let split =
        sort_run-candidates (is_excluded doc.id) (leb (count_pages doc.id) 0)
          (ltb maximum_pages (count_pages doc.id)) run r f in
      (
        (λ m. elim (split.0 m) [
          | inl (a, b, c, q) ↦ IsEligible-first doc docs t r e a b c q
          | inr n ↦ let g = h.0 n in IsEligible-among docs (doc ∷ docs) r g (inr g.stored)
        ]),
        λ g. elim g.stored [
          | inl s ↦ split.1 (inl (first-IsEligible doc (doc ∷ docs) t r g e s))
          | inr s ↦ split.1 (inr (h.1 (IsEligible-among (doc ∷ docs) docs r g s)))
        ],
      )

  collect_runs-candidates :
      (docs : List RunDoc) (r : SchedulableRun)
      → MemOf r (collect_runs count_pages is_excluded maximum_pages docs).candidates
        ↔ IsEligible docs r
  unfolding collect_runs
  collect_runs-candidates [] r = ((λ m. absurd m), λ g. absurd g.stored)
  collect_runs-candidates (doc ∷ docs) r =
      collect_run-candidates doc docs (content_ready doc)
        (collect_runs count_pages is_excluded maximum_pages docs) r refl
        (collect_runs-candidates docs r)

  oldest-lem : (rs : List SchedulableRun) (c : SchedulableRun) → oldest rs ≡ some c → IsOldest rs c
  oldest-lem [] c e = cc
  oldest-lem (r ∷ rs) c e = subst (IsOldest (r ∷ rs)) (some_inj e) (least-IsOldest r rs)
    where
      some_inj : {a b : SchedulableRun} → some a ≡ some b → a ≡ b
      some_inj e = cc

  -- The run that the scan chooses may be scheduled, and no run that may be was ready before it.
  pub find_oldest-IsEligible :
      (docs : List RunDoc) (c : SchedulableRun)
      → (find_oldest_content_ready_run count_pages is_excluded maximum_pages docs).candidate
        ≡ some c
      → IsEligible docs c × ((r : SchedulableRun) → IsEligible docs r → c.ready_at ≤ r.ready_at)
  unfolding find_oldest_content_ready_run
  find_oldest-IsEligible docs c e =
      let found = collect_runs count_pages is_excluded maximum_pages docs in
      let (m, l) = oldest-lem found.candidates c e in
      ((collect_runs-candidates docs c).0 m, λ r g. l r ((collect_runs-candidates docs r).1 g))

  -- The scan chooses no run only where none may be scheduled; and then each run that is ready is
  -- in one of the three counts.
  pub find_oldest_none :
      (docs : List RunDoc)
      → (find_oldest_content_ready_run count_pages is_excluded maximum_pages docs).candidate ≡ none
      → ((r : SchedulableRun) → ¬ IsEligible docs r)
        × (let scan = find_oldest_content_ready_run count_pages is_excluded maximum_pages docs in
            scan.zero_pages + scan.safety_cap + scan.excluded ≡ count_ready docs)
  unfolding find_oldest_content_ready_run
  find_oldest_none docs e =
      let found = collect_runs count_pages is_excluded maximum_pages docs in
      let n = no_runs found.candidates e in
      (
        (λ r g. subst (MemOf r) n ((collect_runs-candidates docs r).1 g)),
        omega (arith, collect_runs-total docs, ap length n),
      )
    where
      no_runs : (rs : List SchedulableRun) → oldest rs ≡ none → rs ≡ []
      no_runs [] h = refl
      no_runs (r ∷ rs) h = cc
