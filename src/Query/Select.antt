-- ===== src/Query/Select.antt =====
-- `_select_ranked_candidates` of src/geek_crawler_rag/query.py, and what it reads of a candidate.

pub mod Laws
use geek_crawler_rag.Base.{
  ℕ, zero, suc, ◌+◌, ℤ, pos, negsuc, Bool, true, false, ◌&&◌, ◌||◌, not, List, [], ◌∷◌, ◌++◌,
  Option, none, some, if◌then◌else◌, length, get_elem?, ltb, leb, Text, codes, text_eq, is_empty,
  or_text, strip,
}

-- The fields of a candidate's payload, each with a missing one read as the empty string.
pub record Payload : Type 0 where
  pub parent_text : Text
  pub child_text : Text
  pub text : Text
  pub page_id : Text
  pub section_title : Text
  pub final_url : Text
  pub url : Text

pub record Candidate : Type 0 where
  pub id : Text
  pub payload : Payload

-- The preferences of a request, with an absent one read as false.
pub record QueryRequest : Type 0 where
  pub prefer_parent : Bool
  pub prefer_child : Bool

-- `_return_text`
unfoldable pub return_text : Payload → QueryRequest → Text
return_text payload request =
    if request.prefer_parent && not request.prefer_child
    then or_text (or_text payload.parent_text payload.text) payload.child_text
    else if request.prefer_child && not request.prefer_parent
    then or_text (or_text payload.child_text payload.text) payload.parent_text
    else or_text (or_text payload.text payload.child_text) payload.parent_text

-- `_should_collapse_parents`
unfoldable pub should_collapse_parents : QueryRequest → Bool
should_collapse_parents request = request.prefer_parent && not request.prefer_child

-- `x in seen`
unfoldable pub contains : Text → List Text → Bool
contains x [] = false
contains x (y ∷ ys) = text_eq x y || contains x ys

-- `seen_text` and `seen_parents`
pub record Seen : Type 0 where
  pub texts : List Text
  pub parents : List Text

abbrev pub note : Text → Seen → Seen
note text seen = if is_empty text then seen else record seen { texts = text ∷ seen.texts }

-- `lower` is `str.lower`, and `digest` the start of the SHA-256 digest in hexadecimal.
module _ (lower digest : Text → Text) where
  -- `_parent_lineage_key`
  unfoldable pub parent_lineage_key : Payload → Text
  parent_lineage_key payload =
      payload.page_id
      ++ codes "|"
      ++ payload.section_title
      ++ codes "|"
      ++ digest (strip payload.parent_text)

  -- `_page_key`
  unfoldable pub page_key : Payload → Text
  page_key payload =
      let page_id = strip payload.page_id in
      let url = lower (strip (or_text payload.final_url payload.url)) in
      if not (is_empty page_id)
      then codes "id:" ++ page_id
      else if not (is_empty url)
      then codes "url:" ++ url
      else []

  module _ (Score : Type 0) where
    abbrev pub Passage : Type 0
    Passage = Candidate × Score

    -- `page_order` and `per_page`, each page with its passages from its cursor on.
    abbrev pub Pages : Type 0
    Pages = List (Text × List Passage)

    unfoldable pub add_passage : Text → Passage → Pages → Pages
    add_passage key p [] = (key, p ∷ []) ∷ []
    add_passage key p ((k, ps) ∷ pages) =
        if text_eq k key then (k, ps ++ p ∷ []) ∷ pages else (k, ps) ∷ add_passage key p pages

    abbrev pub candidate_at : List Candidate → ℤ → Option Candidate
    candidate_at pool (negsuc i) = none
    candidate_at pool (pos i) = get_elem? pool i

    abbrev pub add_ranked : Option Candidate → Score → Pages → Pages
    add_ranked none score pages = pages
    add_ranked (some c) score pages =
        add_passage (or_text (page_key c.payload) (codes "cand:" ++ c.id)) (c, score) pages

    -- The first loop.
    unfoldable pub group_pages : List Candidate → List (ℤ × Score) → Pages → Pages
    group_pages pool [] pages = pages
    group_pages pool ((i, score) ∷ ranked) pages =
        group_pages pool ranked (add_ranked (candidate_at pool i) score pages)

    pub record Taken : Type 0 where
      pub chosen : Option Passage
      pub rest : List Passage
      pub seen : Seen

    module _ (request : QueryRequest) (collapse : Bool) where
      abbrev pub passage_text : Passage → Text
      passage_text p = return_text p.0.payload request

      abbrev pub is_repeat : Text → Seen → Bool
      is_repeat text seen = not (is_empty text) && contains text seen.texts

      abbrev pub is_sibling : Passage → Seen → Bool
      is_sibling p seen = collapse && contains (parent_lineage_key p.0.payload) seen.parents

      abbrev pub note_parent : Passage → Seen → Seen
      note_parent p seen =
          if collapse
          then record seen { parents = parent_lineage_key p.0.payload ∷ seen.parents }
          else seen

      -- Whether the passage repeats a text, and whether it is a sibling, decides.
      abbrev pub admit_passage : Bool → Bool → Passage → List Passage → Seen → Taken → Taken → Taken
      admit_passage true sibling p ps noted skipped collapsed = skipped
      admit_passage false true p ps noted skipped collapsed = collapsed
      admit_passage false false p ps noted skipped collapsed = record {
        chosen = some p;
        rest = ps;
        seen = note_parent p noted;
      }

      -- `take_next_admissible`
      unfoldable pub take_next : List Passage → Seen → Taken
      take_next [] seen = record { chosen = none; rest = []; seen = seen }
      take_next (p ∷ ps) seen =
          let noted = note (passage_text p) seen in
          admit_passage (is_repeat (passage_text p) seen) (is_sibling p noted) p ps noted
            (take_next ps seen) (take_next ps noted)

      pub record Round : Type 0 where
        pub pages : Pages
        pub selected : List Passage
        pub seen : Seen
        pub admitted : ℕ

      abbrev pub with_page : Text → List Passage → Round → Round
      with_page key ps r = record r { pages = (key, ps) ∷ r.pages }

      -- A page's turn: its next admissible passage is selected, where it has one.
      abbrev pub after_turn :
          Text → Taken → Option Passage → List Passage → (List Passage → Round) → Round
      after_turn key t none selected go_on = with_page key t.rest (go_on selected)
      after_turn key t (some p) selected go_on =
          let r = go_on (selected ++ p ∷ []) in
          record (with_page key t.rest r) { admitted = suc r.admitted }

      abbrev pub turn_or_break : Bool → Round → Round → Round
      turn_or_break true stop turn = stop
      turn_or_break false stop turn = turn

      -- One round over the pages, in their order.
      unfoldable pub round : ℕ → Pages → List Passage → Seen → Round
      round k [] selected seen = record {
        pages = [];
        selected = selected;
        seen = seen;
        admitted = 0;
      }
      round k ((key, ps) ∷ pages) selected seen =
          let t = take_next ps seen in
          turn_or_break (leb k (length selected))
            (record { pages = (key, ps) ∷ pages; selected = selected; seen = seen; admitted = 0 })
            (after_turn key t t.chosen selected (λ sel. round k pages sel t.seen))

      abbrev pub again : Bool → List Passage → Option (List Passage) → Option (List Passage)
      again true selected rest = some selected
      again false selected rest = rest

      -- The loop over the rounds; `none` means that the fuel ran out.
      unfoldable pub rounds : ℕ → ℕ → Pages → List Passage → Seen → Option (List Passage)
      rounds k zero pages selected seen = none
      rounds k (suc fuel) pages selected seen =
          let r = round k pages selected seen in
          let rest = rounds k fuel r.pages r.selected r.seen in
          again (leb k (length selected)) selected (again (leb r.admitted 0) r.selected rest)

      -- Each round but the last selects a passage, so one more than the passages asked for are enough.
      unfoldable pub select_ranked_candidates :
          List Candidate → List (ℤ × Score) → ℕ → Option (List Passage)
      select_ranked_candidates pool ranked zero = some []
      select_ranked_candidates pool ranked (suc k) =
          rounds (suc k) (suc (suc k)) (group_pages pool ranked []) []
            (record { texts = []; parents = [] })
