-- ===== src/Tests/Ticks.antt =====
-- Scans of two stored runs, and a tick on the scheduler's document of Tests/Cadences.
use geek_crawler_rag.Base.{
  ℕ, ◌+◌, ◌≤◌, ◌≡◌, refl, true, false, List, [], ◌∷◌, none, some, arith, Text, text_eq, codes,
}
use geek_crawler_rag.Mongo.Memory.{memory}
use geek_crawler_rag.Jobs.Scheduler.{
  claim_scheduler_due, claim_tick, scheduler_id, scheduler_status, sync_config, scheduler_from_doc,
}
use geek_crawler_rag.Schedule.Oldest.{
  Ready, RunDoc, SchedulableRun, find_oldest_content_ready_run, content_ready, collect_runs, least,
  text_less,
}
use geek_crawler_rag.Schedule.Oldest.Laws.{
  IsEligible, count_ready, find_oldest-IsEligible, find_oldest_none,
}
use geek_crawler_rag.Schedule.Tick.{Enqueued, Settings, tick}
use geek_crawler_rag.Schedule.Tick.Laws.{IsGivenUp, tick_reschedules}
use geek_crawler_rag.Tests.Leases.{jobs, rows}
use geek_crawler_rag.Tests.Cadences.{scheduler, owner_a, owner_b, docs}

abbrev runs : List RunDoc
runs =
    record { id = codes "r1"; status = codes "complete"; ready = Ready.at 20 }
    ∷ record { id = codes "r2"; status = codes "external"; ready = Ready.at 10 }
    ∷ record { id = codes "r3"; status = codes "running"; ready = Ready.at 5 }
    ∷ []

abbrev three_pages : Text → ℕ
three_pages run_id = 3

abbrev no_pages : Text → ℕ
no_pages run_id = 0

abbrev chosen : SchedulableRun
chosen = record { id = codes "r2"; page_count = 3; ready_at = 10 }

chooses :
    (find_oldest_content_ready_run three_pages (λ k. false) 50000 runs).candidate ≡ some chosen
unfolding find_oldest_content_ready_run content_ready collect_runs least text_eq text_less
chooses = refl

find_oldest_example :
    IsEligible three_pages (λ k. false) 50000 runs chosen
    × ((r : SchedulableRun) → IsEligible three_pages (λ k. false) 50000 runs r → 10 ≤ r.ready_at)
find_oldest_example = find_oldest-IsEligible three_pages (λ k. false) 50000 runs chosen chooses

chooses_none : (find_oldest_content_ready_run no_pages (λ k. false) 50000 runs).candidate ≡ none
unfolding find_oldest_content_ready_run content_ready collect_runs least text_eq text_less
chooses_none = refl

find_oldest_none_example :
    ((r : SchedulableRun) → ¬ IsEligible no_pages (λ k. false) 50000 runs r)
    × (let scan = find_oldest_content_ready_run no_pages (λ k. false) 50000 runs in
        scan.zero_pages + scan.safety_cap + scan.excluded ≡ count_ready runs)
find_oldest_none_example = find_oldest_none no_pages (λ k. false) 50000 runs chooses_none

abbrev settings : Settings
settings = record {
  enabled = true;
  interval_seconds = 7200;
  lease_seconds = 900;
  max_attempts = 5;
  maximum_pages = 50000;
}

abbrev str : ℕ → Text
str n = codes "n"

abbrev raising : jobs.Docs → Text → Enqueued × jobs.Docs
raising d run_id = (Enqueued.enqueue_raised (codes "timeout"), d)

due : (claim_scheduler_due scheduler docs owner_b 900 true 7200 2000).0 ≡ true
unfolding claim_scheduler_due claim_tick scheduler_status sync_config scheduler_from_doc memory
    text_eq scheduler_id
due = refl

tick_reschedules_example :
    IsGivenUp scheduler
      (tick jobs scheduler str raising three_pages settings owner_b docs runs 2000 2500 rows).1
      7200
      2500
    × ((claim_tick scheduler
          (tick jobs scheduler str raising three_pages settings owner_b docs runs 2000 2500 rows).1
          owner_a
          9000
          900).0
        ≡ false)
tick_reschedules_example =
    tick_reschedules scheduler jobs str raising three_pages settings owner_b owner_a docs runs 2000
      2500 9000 900 rows due (omega arith)
