-- ===== src/Tests/Enqueues.antt =====
-- A service that enqueues a run, and the operator's pause.
use native.Mathlib.Decide.{ℕ_discrete}
use geek_crawler_rag.Base.{
  ◌≡◌, refl, true, false, [], ◌∷◌, Option, none, some, Text, codes, text_eq, strip,
}
use geek_crawler_rag.Mongo.Collection.{Collection}
use geek_crawler_rag.Mongo.Memory.{memory}
use geek_crawler_rag.Jobs.Lease.{grants, available, availability}
use geek_crawler_rag.Index.Enqueue.{
  IntakeDoc, RunReady, Service, set_intake_paused, enqueue_run, enqueue_scheduled,
}
use geek_crawler_rag.Index.Enqueue.Laws.{IsQueued, IsRefused, enqueue_run_lem, intake_pause_refuses}
use geek_crawler_rag.Tests.Leases.{jobs, rows, run_a, bob}

IntakeDoc-discrete : Discrete IntakeDoc
IntakeDoc-discrete = hlevel ℕ_discrete

abbrev intake : Collection IntakeDoc
intake = memory IntakeDoc-discrete

abbrev intake_rows : intake.Docs
unfolding memory
intake_rows = []

-- An operator killed the run earlier.
abbrev service : Service jobs.Docs
service = record {
  docs = rows;
  statuses = λ k. none;
  killed = λ k. some (codes "stuck");
  queue = codes "run-b" ∷ [];
  sent = [];
}

abbrev get_run : Text → Option RunReady
get_run k = some (record { content_ready_at = some (codes "2026-10-01"); status = none })

-- Alice's lease has lapsed at 9000, and lasts at 1000.
enqueue_run_lem_example :
    let r = enqueue_run jobs bob 900 (codes " run-a ") 9000 (codes "manual") true service in
    (grants true (available 9000 (jobs.find_one rows (strip (codes " run-a ")))) ≡ true
      → IsQueued jobs bob 900 (strip (codes " run-a ")) 9000 service r)
    × (grants true (available 9000 (jobs.find_one rows (strip (codes " run-a ")))) ≡ false
        → IsRefused jobs (strip (codes " run-a ")) service r)
unfolding strip
enqueue_run_lem_example =
    enqueue_run_lem jobs bob 900 (codes " run-a ") 9000 (codes "manual") true service refl

grants_lapsed : grants true (available 9000 (jobs.find_one rows (strip (codes " run-a ")))) ≡ true
unfolding strip memory text_eq availability
grants_lapsed = refl

intake_pause_refuses_example :
    enqueue_scheduled jobs bob 900 intake get_run
      (set_intake_paused intake intake_rows true none 1000).1
      run_a
      9000
      service
    ≡ (none, service)
intake_pause_refuses_example =
    intake_pause_refuses jobs bob 900 intake get_run intake_rows none 1000 run_a 9000 service
