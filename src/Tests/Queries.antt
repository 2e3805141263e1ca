-- ===== src/Tests/Queries.antt =====
-- A selection of two passages from three candidates, two of which have the same text.
use geek_crawler_rag.Base.{
  ℕ, ◌≤◌, ◌≡◌, refl, pos, negsuc, false, List, [], ◌∷◌, some, length, Text, codes, text_eq, strip,
}
use geek_crawler_rag.Query.Select.{
  Payload, Candidate, QueryRequest, return_text, select_ranked_candidates, group_pages, add_passage,
  page_key, rounds, round, take_next, contains,
}
use geek_crawler_rag.Query.Select.Laws.{IsDistinct, select_ranked_candidates-IsDistinct}

abbrev request : QueryRequest
request = record { prefer_parent = false; prefer_child = false }

abbrev same : Text → Text
same t = t

abbrev payload : Text → Text → Payload
payload page text = record {
  parent_text = [];
  child_text = [];
  text = text;
  page_id = page;
  section_title = [];
  final_url = [];
  url = [];
}

abbrev pool : List Candidate
pool =
    record { id = codes "1"; payload = payload (codes "a") (codes "x") }
    ∷ record { id = codes "2"; payload = payload (codes "a") (codes "x") }
    ∷ record { id = codes "3"; payload = payload (codes "b") (codes "y") }
    ∷ []

-- The second page comes before the first page's second passage, which repeats a text.
selects :
    select_ranked_candidates same same ℕ request false pool
      ((pos 0, 9) ∷ (pos 1, 8) ∷ (negsuc 0, 7) ∷ (pos 2, 6) ∷ [])
      3
    ≡ some (
        (record { id = codes "1"; payload = payload (codes "a") (codes "x") }, 9)
        ∷ (record { id = codes "3"; payload = payload (codes "b") (codes "y") }, 6)
        ∷ [])
unfolding select_ranked_candidates group_pages add_passage page_key rounds round take_next contains
    return_text text_eq strip
selects = refl

select_example :
    (xs : List (Candidate × ℕ)) × (select_ranked_candidates same same ℕ request false pool
        ((pos 0, 9) ∷ (pos 1, 8) ∷ [])
        3
      ≡ some xs)
    × (length xs ≤ 3)
    × IsDistinct same same ℕ request false xs
select_example =
    select_ranked_candidates-IsDistinct same same ℕ request false pool
      ((pos 0, 9) ∷ (pos 1, 8) ∷ []) 3
