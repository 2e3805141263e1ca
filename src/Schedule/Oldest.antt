-- ===== src/Schedule/Oldest.antt =====
-- `MongoCorpus.find_oldest_content_ready_run` of src/geek_crawler_rag/mongo.py.
pub mod Laws
use geek_crawler_rag.Base.{
  ℕ, suc, zero, ◌+◌, Bool, true, false, ◌&&◌, ◌||◌, not, List, [], ◌∷◌, ◌++◌, Option, none, some,
  if◌then◌else◌, length, ltb, leb, ◌==◌, Text, codes, text_eq, is_empty,
}

-- `ContentReadyAt` as it is stored.
pub data Ready : Type 0 where
  absent null blank : Ready
  at : ℕ → Ready

-- A document of `crawl_runs`; `id` is empty where the stored one is no string.
pub record RunDoc : Type 0 where
  pub id : Text
  pub status : Text
  pub ready : Ready

pub record SchedulableRun : Type 0 where
  pub id : Text
  pub page_count : ℕ
  pub ready_at : ℕ

pub record SchedulableRunScan : Type 0 where
  pub candidate : Option SchedulableRun
  pub missing_ready_marker : ℕ
  pub zero_pages : ℕ
  pub safety_cap : ℕ
  pub excluded : ℕ

abbrev pub is_finished : RunDoc → Bool
is_finished doc = text_eq doc.status (codes "complete") || text_eq doc.status (codes "external")

-- `run_filter`: when the run became ready, where the filter lets it through.
abbrev pub ready_time : Bool → Ready → Option ℕ
ready_time false r = none
ready_time true (at t) = some t
ready_time true _ = none

unfoldable pub content_ready : RunDoc → Option ℕ
content_ready doc = ready_time (is_finished doc && not (is_empty doc.id)) doc.ready

-- The filter of the runs that have no marker.
abbrev pub is_unmarked : Ready → Bool
is_unmarked (at t) = false
is_unmarked _ = true

unfoldable pub count_missing : List RunDoc → ℕ
count_missing [] = 0
count_missing (doc ∷ docs) =
    if is_finished doc && is_unmarked doc.ready
    then suc (count_missing docs)
    else count_missing docs

-- What the loop over the ready runs collects.
pub record Found : Type 0 where
  pub candidates : List SchedulableRun
  pub zero_pages : ℕ
  pub safety_cap : ℕ
  pub excluded : ℕ

-- `<` on two strings.
unfoldable pub text_less : Text → Text → Bool
text_less s [] = false
text_less [] (d ∷ t) = true
text_less (c ∷ s) (d ∷ t) = ltb c d || (c == d && text_less s t)

-- `<` on the keys of two runs.
abbrev pub key_less : SchedulableRun → SchedulableRun → Bool
key_less a b = ltb a.ready_at b.ready_at || (a.ready_at == b.ready_at && text_less a.id b.id)

-- `min`, which keeps the first of the least.
unfoldable pub least : SchedulableRun → List SchedulableRun → SchedulableRun
least best [] = best
least best (r ∷ rs) = least (if key_less r best then r else best) rs

abbrev pub oldest : List SchedulableRun → Option SchedulableRun
oldest [] = none
oldest (r ∷ rs) = some (least r rs)

-- `count_pages` counts the pages of a run, and `is_excluded` says whether the run is in the set.
module _ (count_pages : Text → ℕ) (is_excluded : Text → Bool) (maximum_pages : ℕ) where
  -- Whether the run is excluded, has no page, or has too many, decides.
  abbrev pub sort_run : Bool → Bool → Bool → SchedulableRun → Found → Found
  sort_run true zero_pages over run f = record f { excluded = suc f.excluded }
  sort_run false true over run f = record f { zero_pages = suc f.zero_pages }
  sort_run false false true run f = record f { safety_cap = suc f.safety_cap }
  sort_run false false false run f = record f { candidates = run ∷ f.candidates }

  abbrev pub collect_run : RunDoc → Option ℕ → Found → Found
  collect_run doc none f = f
  collect_run doc (some ready_at) f =
      sort_run (is_excluded doc.id) (leb (count_pages doc.id) 0)
        (ltb maximum_pages (count_pages doc.id))
        (record { id = doc.id; page_count = count_pages doc.id; ready_at = ready_at }) f

  -- The loop, with the runs in the cursor's order.
  unfoldable pub collect_runs : List RunDoc → Found
  collect_runs [] = record { candidates = []; zero_pages = 0; safety_cap = 0; excluded = 0 }
  collect_runs (doc ∷ docs) = collect_run doc (content_ready doc) (collect_runs docs)

  unfoldable pub find_oldest_content_ready_run : List RunDoc → SchedulableRunScan
  find_oldest_content_ready_run docs =
      let found = collect_runs docs in
      record {
        candidate = oldest found.candidates;
        missing_ready_marker = count_missing docs;
        zero_pages = found.zero_pages;
        safety_cap = found.safety_cap;
        excluded = found.excluded;
      }
