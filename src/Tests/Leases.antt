-- ===== src/Tests/Leases.antt =====
-- Job rows and the scheduler's document in a collection held in memory.
use native.Mathlib.Decide.{ℕ_discrete}
use geek_crawler_rag.Base.{
  ◌+◌, ◌≡◌, ◌≢◌, ◌↔◌, refl, true, false, ◌&&◌, [], ◌∷◌, none, some, arith, if◌then◌else◌, Text,
  text_eq, codes, MemOf,
}
use geek_crawler_rag.Mongo.Field.{val}
use geek_crawler_rag.Mongo.Collection.{Collection}
use geek_crawler_rag.Mongo.Memory.{memory}
use geek_crawler_rag.Jobs.Model.{IndexState, JobRow, from_doc, blank_row}
use geek_crawler_rag.Jobs.Store.{
  claim, heartbeat, reacquire, release, is_owned, has_active_job, seconds, owned_by, active_field,
  excluded_run_ids, excluded,
}
use geek_crawler_rag.Jobs.Lease.{claim_lem, available, availability, grants, attempts, held}
use geek_crawler_rag.Jobs.Protocol.{Reach-is_owned, Reach, Step, Act, Holds}
use geek_crawler_rag.Jobs.Renewal.{
  may_reacquire, reacquire_lem, heartbeat_lem, release_frees, excluded-claim, has_active_job_iff,
}

pub JobRow-discrete : Discrete JobRow
JobRow-discrete = hlevel ℕ_discrete

abbrev pub jobs : Collection JobRow
jobs = memory JobRow-discrete

abbrev pub run_a : Text
run_a = codes "run-a"

abbrev pub alice : Text
alice = codes "alice"

abbrev pub bob : Text
bob = codes "bob"

-- Alice runs the job for the second time, under a lease to 5000.
abbrev pub running_row : JobRow
running_row = record (blank_row run_a) {
  state = val IndexState.running;
  attempt = val 2;
  lease_owner = val alice;
  lease_until = val 5000;
}

abbrev pub rows : jobs.Docs
unfolding memory
rows = (run_a, some running_row) ∷ []

bob-ne-alice : bob ≢ alice
bob-ne-alice e = cc

claim_lem_example :
    let (result, rows') = claim jobs rows run_a bob 9000 900 (codes "manual") false in
    (grants false (available 9000 (jobs.find_one rows run_a)) ≡ true
      → (row : JobRow) × (jobs.find_one rows' run_a ≡ some row)
        × (result ≡ some (from_doc row))
        × (row.state ≡ val IndexState.pending)
        × (row.lease_owner ≡ val bob)
        × (row.lease_until ≡ val (9000 + seconds 900))
        × (row.attempt ≡ val (attempts (jobs.find_one rows run_a) + 1)))
    × (grants false (available 9000 (jobs.find_one rows run_a)) ≡ false
        → (result ≡ none) × (jobs.find_one rows' run_a ≡ jobs.find_one rows run_a))
    × ((j : Text) → run_a ≢ j → jobs.find_one rows' j ≡ jobs.find_one rows j)
claim_lem_example = claim_lem jobs rows run_a bob 9000 900 (codes "manual") false

-- Bob tries to claim Alice's run by force, and time passes.
abbrev rivals :
    Reach jobs alice run_a
      (1000, rows)
      (4000, (claim jobs rows run_a bob 1000 900 (codes "manual") true).1)
rivals =
    Reach.next (Reach.next Reach.here (Step.act (Act.claims bob run_a (codes "manual") 900 true)))
      (Step.wait (omega arith))

running-Holds : Holds alice 5000 running_row
running-Holds = (refl, refl, 5000, refl, omega arith)

pub found : jobs.find_one rows run_a ≡ some running_row
unfolding memory text_eq
found = refl

heartbeat_lem_example :
    let (renewed, rows') = heartbeat jobs rows run_a alice 2000 900 in
    let mine = owned_by alice running_row.lease_owner && active_field running_row.state in
    (jobs.find_one rows' run_a
      ≡ some (
          if mine
          then record running_row { lease_until = val (2000 + seconds 900) }
          else running_row))
    × ((renewed ≡ true) ↔ ((mine ≡ true) × (running_row.lease_until ≢ val (2000 + seconds 900))))
heartbeat_lem_example = heartbeat_lem jobs rows run_a alice 2000 900 running_row found

reacquire_lem_example :
    let (taken, rows') = reacquire jobs rows run_a bob 9000 900 in
    (taken ≡ may_reacquire bob running_row (availability 9000 running_row))
    × (jobs.find_one rows' run_a
        ≡ some (
            if may_reacquire bob running_row (availability 9000 running_row)
            then record running_row {
              lease_owner = val bob;
              lease_until = val (9000 + seconds 900);
            }
            else running_row))
reacquire_lem_example = reacquire_lem jobs rows run_a bob 9000 900 running_row found

release_frees_example :
    (available 3000 (jobs.find_one (release jobs rows run_a alice 2000) run_a) ≢ held)
    × ((who : Text) → is_owned jobs (release jobs rows run_a alice 2000) run_a who 3000 ≡ false)
release_frees_example =
    release_frees jobs rows run_a alice 2000 3000 running_row found refl (omega arith)

none_excluded : (row : JobRow) → ¬ MemOf (run_a, row) (excluded_run_ids jobs rows 9000 5)
unfolding excluded_run_ids
none_excluded row m =
    let (e, x) = (jobs.find_iff rows (excluded 9000 5) run_a row).0 m in ground (arith, e, x, found)

excluded-claim_example : (claim jobs rows run_a bob 9000 900 (codes "scheduled") false).0 ≢ none
excluded-claim_example =
    excluded-claim jobs rows run_a bob (codes "scheduled") 9000 900 5 none_excluded

has_active_job_iff_example : (has_active_job jobs rows 1000 ≡ true) ↔ (
    (run_id : Text) × (row : JobRow) × (jobs.find_one rows run_id ≡ some row)
    × (availability 1000 row ≡ held))
has_active_job_iff_example = has_active_job_iff jobs rows 1000

Reach-is_owned_example :
    let t = (claim jobs rows run_a bob 1000 900 (codes "manual") true).1 in
    (jobs.find_one t run_a ≡ some running_row)
    × (is_owned jobs t run_a alice 4000 ≡ true)
    × ((who : Text) → who ≢ alice → is_owned jobs t run_a who 4000 ≡ false)
Reach-is_owned_example =
    Reach-is_owned jobs alice run_a 5000 (1000, rows)
      (4000, (claim jobs rows run_a bob 1000 900 (codes "manual") true).1) running_row rivals found
      running-Holds (omega arith)
