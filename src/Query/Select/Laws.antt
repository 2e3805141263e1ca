-- ===== src/Query/Select/Laws.antt =====
-- How many passages are selected, that no text is selected twice, and that the rounds end.
use geek_crawler_rag.Base.{
  ℕ, zero, suc, ◌+◌, ◌≤◌, ◌<◌, ◌≡◌, ◌≢◌, refl, inl, inr, ℤ, Bool, true, false, List, [], ◌∷◌, ◌++◌,
  Option, none, some, length, length-append, leb, Text, text_eq_refl, is_empty, All, All-map,
  Bool-cases, arith, subst,
}
use geek_crawler_rag.Query.Select.{
  Candidate, QueryRequest, Seen, return_text, contains, note, Pages, Taken, is_repeat, is_sibling,
  note_parent, admit_passage, take_next, Round, after_turn, turn_or_break, round, rounds,
  select_ranked_candidates, group_pages,
}

-- What has been seen stays seen.
abbrev Grows : Seen → Seen → Type 0
Grows seen later = (x : Text) → contains x seen.texts ≡ true → contains x later.texts ≡ true

note-Grows : (text : Text) (seen : Seen) → Grows seen (note text seen)
unfolding contains
note-Grows text seen x h = elim (Bool-cases (is_empty text)) [
  | inl b ↦ rw b h
  | inr b ↦ rw b (ground (arith, h))
]

note-contains :
    (text : Text) (seen : Seen)
    → is_empty text ≡ false
    → contains text (note text seen).texts ≡ true
unfolding contains
note-contains text seen b = rw (b, text_eq_refl text) refl

contains-ne :
    (x y : Text) (seen : List Text) → contains x seen ≡ false → contains y seen ≡ true → y ≢ x
contains-ne x y seen h k e = cc

module _ (lower digest : Text → Text) (Score : Type 0) (request : QueryRequest)
    (collapse : Bool) where
  abbrev text_of : Candidate × Score → Text
  text_of p = return_text p.0.payload request

  -- A passage that is taken has a text that was not seen, and is seen from then on.
  abbrev IsTaken : Seen → Option (Candidate × Score) → Seen → Type 0
  IsTaken seen none later = Grows seen later
  IsTaken seen (some p) later =
      Grows seen later
      × (is_empty (text_of p) ≡ false
          → (contains (text_of p) seen.texts ≡ false) × (contains (text_of p) later.texts ≡ true))

  IsTaken-weaken :
      (seen mid later : Seen) (o : Option (Candidate × Score))
      → Grows seen mid
      → IsTaken mid o later
      → IsTaken seen o later
  IsTaken-weaken seen mid later none g h = λ x c. h x (g x c)
  IsTaken-weaken seen mid later (some p) g h = (
    (λ x c. h.0 x (g x c)),
    λ e. elim (Bool-cases (contains (text_of p) seen.texts)) [
      | inl c ↦ absurd (ground (arith, g (text_of p) c, (h.1 e).0))
      | inr c ↦ (c, (h.1 e).1)
    ],
  )

  admit_passage-IsTaken :
      (repeated sibling : Bool) (p : Candidate × Score) (ps : List (Candidate × Score))
      (seen : Seen) (skipped collapsed : Taken lower digest Score)
      → is_repeat lower digest Score request collapse (text_of p) seen ≡ repeated
      → IsTaken seen skipped.chosen skipped.seen
      → IsTaken (note (text_of p) seen) collapsed.chosen collapsed.seen
      → let t =
          admit_passage lower digest Score request collapse repeated sibling p ps
            (note (text_of p) seen)
            skipped
            collapsed in
        IsTaken seen t.chosen t.seen
  admit_passage-IsTaken true sibling p ps seen skipped collapsed e h k = h
  admit_passage-IsTaken false true p ps seen skipped collapsed e h k =
      IsTaken-weaken seen (note (text_of p) seen) collapsed.seen collapsed.chosen
        (note-Grows (text_of p) seen) k
  admit_passage-IsTaken false false p ps seen skipped collapsed e h k =
      let noted = note (text_of p) seen in
      let kept : (x : Text)
          → contains x noted.texts ≡ true
          → contains x (note_parent lower digest Score request collapse p noted).texts ≡ true =
        λ x c. elim (Bool-cases collapse) [ inl b ↦ rw b c | inr b ↦ rw b c ] in
      (
        (λ x c. kept x (note-Grows (text_of p) seen x c)),
        λ n. (ground (arith, e, n), kept (text_of p) (note-contains (text_of p) seen n)),
      )

  take_next-IsTaken :
      (ps : List (Candidate × Score)) (seen : Seen)
      → let t = take_next lower digest Score request collapse ps seen in
        IsTaken seen t.chosen t.seen
  unfolding take_next
  take_next-IsTaken [] seen = λ x h. h
  take_next-IsTaken (p ∷ ps) seen =
      let noted = note (text_of p) seen in
      admit_passage-IsTaken (is_repeat lower digest Score request collapse (text_of p) seen)
        (is_sibling lower digest Score request collapse p noted) p ps seen
        (take_next lower digest Score request collapse ps seen)
        (take_next lower digest Score request collapse ps noted) refl (take_next-IsTaken ps seen)
        (take_next-IsTaken ps noted)

  -- No text is selected twice.
  abbrev pub IsDistinct : List (Candidate × Score) → Type 0
  IsDistinct [] = Unit
  IsDistinct (p ∷ ps) =
      All (λ q. is_empty (text_of q) ≡ false → text_of p ≢ text_of q) ps × IsDistinct ps

  IsDistinct-append :
      (ps : List (Candidate × Score)) (q : Candidate × Score)
      → IsDistinct ps
      → All (λ p. is_empty (text_of q) ≡ false → text_of p ≢ text_of q) ps
      → IsDistinct (ps ++ q ∷ [])
  IsDistinct-append [] q d h = (tt, tt)
  IsDistinct-append (p ∷ ps) q d h = (all ps d.0 h.0, IsDistinct-append ps q d.1 h.1)
    where
      all :
          (xs : List (Candidate × Score))
          → All (λ r. is_empty (text_of r) ≡ false → text_of p ≢ text_of r) xs
          → (is_empty (text_of q) ≡ false → text_of p ≢ text_of q)
          → All (λ r. is_empty (text_of r) ≡ false → text_of p ≢ text_of r) (xs ++ q ∷ [])
      all [] h k = (k, tt)
      all (x ∷ xs) h k = (h.0, all xs h.1 k)

  -- The texts selected are distinct, all of them are seen, and there are `k` at most.
  record IsSelection (k : ℕ) (selected : List (Candidate × Score)) (seen : Seen) : Type 0 where
    bounded : length selected ≤ k
    distinct : IsDistinct selected
    known :
        All (λ p. is_empty (text_of p) ≡ false → contains (text_of p) seen.texts ≡ true) selected

  -- A passage comes after those selected.
  select_one :
      (k : ℕ) (selected : List (Candidate × Score)) (seen later : Seen) (p : Candidate × Score)
      → IsSelection k selected seen
      → length selected < k
      → IsTaken seen (some p) later
      → IsSelection k (selected ++ p ∷ []) later
  select_one k selected seen later p h b t = record {
    bounded = omega (arith, length-append selected (p ∷ []), b);
    distinct = IsDistinct-append selected p h.distinct (
        All-map
          (λ q c n e.
            contains-ne (text_of p) (text_of p) seen.texts (t.1 n).0
              (subst (λ x. contains x seen.texts ≡ true) e (c (rw e n))) refl)
          selected h.known);
    known =
        all selected (All-map (λ q c n. t.0 (text_of q) (c n)) selected h.known) (λ n. (t.1 n).1);
  }
    where
      all :
          (xs : List (Candidate × Score))
          → All (λ q. is_empty (text_of q) ≡ false → contains (text_of q) later.texts ≡ true) xs
          → (is_empty (text_of p) ≡ false → contains (text_of p) later.texts ≡ true)
          → All
              (λ q. is_empty (text_of q) ≡ false → contains (text_of q) later.texts ≡ true)
              (xs ++ p ∷ [])
      all [] u v = (v, tt)
      all (x ∷ xs) u v = (u.0, all xs u.1 v)

  -- What a round adds to the passages selected before it.
  record IsRound (k : ℕ) (selected : List (Candidate × Score))
      (r : Round lower digest Score request collapse) : Type 0 where
    selection : IsSelection k r.selected r.seen
    counted : length r.selected ≡ length selected + r.admitted

  turn-IsRound :
      (k : ℕ) (key : Text) (ps : List (Candidate × Score)) (pages : Pages lower digest Score)
      (selected : List (Candidate × Score)) (seen : Seen) (full : Bool)
      (t : Taken lower digest Score) (o : Option (Candidate × Score))
      → leb k (length selected) ≡ full
      → IsSelection k selected seen
      → IsTaken seen o t.seen
      → ((sel : List (Candidate × Score))
          → IsSelection k sel t.seen
          → IsRound k sel (round lower digest Score request collapse k pages sel t.seen))
      → IsRound k selected (
          turn_or_break lower digest Score request collapse full
            (record { pages = (key, ps) ∷ pages; selected = selected; seen = seen; admitted = 0 })
            (after_turn lower digest Score request collapse key t o selected
              (λ sel. round lower digest Score request collapse k pages sel t.seen)))
  turn-IsRound k key ps pages selected seen true t o e h g go_on = record {
    selection = h;
    counted = omega arith;
  }
  turn-IsRound k key ps pages selected seen false t none e h g go_on =
      let r = go_on selected (record {
        bounded = h.bounded;
        distinct = h.distinct;
        known = All-map (λ q c n. g (text_of q) (c n)) selected h.known;
      }) in
      record { selection = r.selection; counted = r.counted }
  turn-IsRound k key ps pages selected seen false t (some p) e h g go_on =
      let r =
        go_on (selected ++ p ∷ []) (select_one k selected seen t.seen p h (ground (arith, e)) g) in
      record {
        selection = r.selection;
        counted = omega (arith, r.counted, length-append selected (p ∷ []));
      }

  round-IsRound :
      (k : ℕ) (pages : Pages lower digest Score) (selected : List (Candidate × Score)) (seen : Seen)
      → IsSelection k selected seen
      → IsRound k selected (round lower digest Score request collapse k pages selected seen)
  unfolding round
  round-IsRound k [] selected seen h = record { selection = h; counted = omega arith }
  round-IsRound k ((key, ps) ∷ pages) selected seen h =
      let t = take_next lower digest Score request collapse ps seen in
      turn-IsRound k key ps pages selected seen (leb k (length selected)) t t.chosen refl h
        (take_next-IsTaken ps seen) (λ sel g. round-IsRound k pages sel t.seen g)

  -- The rounds end with a selection, where there is fuel for each passage still asked for.
  rounds-IsSelection :
      (k fuel : ℕ) (pages : Pages lower digest Score) (selected : List (Candidate × Score))
      (seen : Seen)
      → IsSelection k selected seen
      → k < length selected + fuel
      → (xs : List (Candidate × Score)) × (rounds lower digest Score request collapse k fuel pages
            selected seen
          ≡ some xs)
        × (length xs ≤ k)
        × IsDistinct xs
  unfolding rounds
  rounds-IsSelection k zero pages selected seen h f = absurd (omega (arith, h.bounded, f))
  rounds-IsSelection k (suc fuel) pages selected seen h f =
      let r = round lower digest Score request collapse k pages selected seen in
      let g = round-IsRound k pages selected seen h in
      elim (Bool-cases (leb k (length selected))) [
        | inl full ↦ (selected, rw full refl, h.bounded, h.distinct)
        | inr open_yet ↦ elim (Bool-cases (leb r.admitted 0)) [
          | inl stuck ↦
              (r.selected, rw (open_yet, stuck) refl, g.selection.bounded, g.selection.distinct)
          | inr more ↦
              let (xs, e, b, d) =
                rounds-IsSelection k fuel r.pages r.selected r.seen g.selection
                  (ground (arith, g.counted, f, more)) in
              (xs, rw (open_yet, more) e, b, d)
        ]
      ]

  -- The selection ends, with at most the number of passages asked for; no two of them have the same
  -- non-empty text.
  pub select_ranked_candidates-IsDistinct :
      (pool : List Candidate) (ranked : List (ℤ × Score)) (k : ℕ)
      → (xs : List (Candidate × Score)) × (select_ranked_candidates lower digest Score request
            collapse pool ranked k
          ≡ some xs)
        × (length xs ≤ k)
        × IsDistinct xs
  unfolding select_ranked_candidates
  select_ranked_candidates-IsDistinct pool ranked zero = ([], refl, omega arith, tt)
  select_ranked_candidates-IsDistinct pool ranked (suc k) =
      rounds-IsSelection (suc k) (suc (suc k)) (group_pages lower digest Score pool ranked []) []
        (record { texts = []; parents = [] })
        (record { bounded = omega arith; distinct = tt; known = tt }) (omega arith)
