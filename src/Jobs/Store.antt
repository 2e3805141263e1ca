-- ===== src/Jobs/Store.antt =====
-- The job rows of `IndexStatusStore`, src/geek_crawler_rag/status_store.py. `now` is the time that
-- the method reads; a method is one operation on the collection, so it is atomic.
use geek_crawler_rag.Base.{
  ℕ, ◌+◌, ◌*◌, Bool, true, false, ◌&&◌, ◌||◌, not, List, [], ◌∷◌, Option, none, some, if◌then◌else◌,
  Text, text_eq,
}
use geek_crawler_rag.Mongo.Field.{
  Field, missing, null, val, is_missing, is_null, at_most, at_least, greater,
}
use geek_crawler_rag.Mongo.Collection.{Collection}
use geek_crawler_rag.Jobs.Model.{
  IndexState, IndexStatus, JobRow, is_active, is_terminal, from_doc, set_status, blank_row,
}

-- `timedelta(seconds=n)`
abbrev pub seconds : ℕ → ℕ
seconds n = n * 1000

-- `lease_expired_or_missing`, as the disjunction that it stands for.
abbrev pub lease_expired_or_missing : ℕ → JobRow → Bool
lease_expired_or_missing now row =
    at_most row.lease_until now || is_missing row.lease_until || is_null row.lease_until

-- `{"state": {"$in": [PENDING, RUNNING]}}`
abbrev pub active_field : Field IndexState → Bool
active_field missing = false
active_field null = false
active_field (val s) = is_active s

-- `{"state": {"$in": [COMPLETE, FAILED, SKIPPED]}}`, the three clauses of one disjunction
abbrev pub terminal_field : Field IndexState → Bool
terminal_field missing = false
terminal_field null = false
terminal_field (val s) = is_terminal s

-- `{"leaseOwner": owner}`
abbrev pub owned_by : Text → Field Text → Bool
owned_by owner missing = false
owned_by owner null = false
owned_by owner (val o) = text_eq o owner

-- The filter of `claim`, its `$or`; `$nin` also matches a document without the field.
unfoldable pub claimable : Bool → ℕ → JobRow → Bool
claimable force now row =
    (if force
      then not (active_field row.state)
      else not (active_field row.state || terminal_field row.state))
    || (active_field row.state && lease_expired_or_missing now row)

-- `$inc` refuses null, which no row of this collection holds here.
abbrev pub increment : Field ℕ → Field ℕ
increment missing = val 1
increment null = val 1
increment (val n) = val (n + 1)

-- The `$set` and `$inc` of `claim`.
unfoldable pub claim_update : Text → Text → ℕ → ℕ → Text → JobRow → JobRow
claim_update run_id owner now lease_seconds trigger row = record row {
  run_id = run_id;
  state = val IndexState.pending;
  trigger = val trigger;
  lease_owner = val owner;
  lease_until = val (now + seconds lease_seconds);
  claimed_at_utc = val now;
  error = null;
  finished_at_utc = null;
  attempt = increment row.attempt;
}

-- The document of an upsert: the update, and `$setOnInsert`.
unfoldable pub claim_insert : Text → Text → ℕ → ℕ → Text → JobRow
claim_insert run_id owner now lease_seconds trigger =
    record (claim_update run_id owner now lease_seconds trigger (blank_row run_id)) {
      pages_seen = val 0;
      pages_english = val 0;
      chunks_upserted = val 0;
    }

-- The filter of `has_active_job`, and of one clause of `excluded_run_ids`.
abbrev pub live_job : ℕ → JobRow → Bool
live_job now row = active_field row.state && greater row.lease_until now

-- The filter of `excluded_run_ids`.
abbrev pub excluded : ℕ → ℕ → JobRow → Bool
excluded now max_attempts row =
    terminal_field row.state || live_job now row || at_least row.attempt max_attempts

abbrev pub is_failed : Option IndexStatus → Bool
is_failed none = false
is_failed (some s) = elim s.state [ IndexState.failed ↦ true | _ ↦ false ]

-- `doc is not None`, of the first document that a filter finds.
abbrev pub any_found : {A : Type 0} → List A → Bool
any_found [] = false
any_found (x ∷ xs) = true

module _ (jobs : Collection JobRow) where
  open jobs use {Docs, find_one, find, update_one, upsert_one, delete_one}

  unfoldable pub get : Docs → Text → Option IndexStatus
  get d run_id = elim (find_one d run_id) [ none ↦ none | some doc ↦ some (from_doc doc) ]

  unfoldable pub delete : Docs → Text → Bool × Docs
  delete d run_id = delete_one d run_id

  -- `save(status, owner=owner)`, as the indexer calls it: it never inserts.
  unfoldable pub save : Docs → IndexStatus → Text → Bool × Docs
  save d status owner =
      let (result, d') =
        update_one d status.run_id (λ row. owned_by owner row.lease_owner) (set_status status) in
      (result.matched, d')

  unfoldable pub is_owned : Docs → Text → Text → ℕ → Bool
  is_owned d run_id owner now = elim (find_one d run_id) [
    | none ↦ false
    | some row ↦
        owned_by owner row.lease_owner && greater row.lease_until now && active_field row.state
  ]

  unfoldable pub claim : Docs → Text → Text → ℕ → ℕ → Text → Bool → Option IndexStatus × Docs
  claim d run_id owner now lease_seconds trigger force =
      let (doc, d') =
        upsert_one d run_id (claimable force now)
          (claim_update run_id owner now lease_seconds trigger)
          (claim_insert run_id owner now lease_seconds trigger) in
      (elim doc [ none ↦ none | some row ↦ some (from_doc row) ], d')

  unfoldable pub reacquire : Docs → Text → Text → ℕ → ℕ → Bool × Docs
  reacquire d run_id owner now lease_seconds =
      let (result, d') =
        update_one d run_id
          (λ row.
            active_field row.state
            && (lease_expired_or_missing now row || owned_by owner row.lease_owner))
          (λ row. record row {
            lease_owner = val owner;
            lease_until = val (now + seconds lease_seconds);
          }) in
      (result.matched, d')

  unfoldable pub heartbeat : Docs → Text → Text → ℕ → ℕ → Bool × Docs
  heartbeat d run_id owner now lease_seconds =
      let (result, d') =
        update_one d run_id (λ row. owned_by owner row.lease_owner && active_field row.state)
          (λ row. record row { lease_until = val (now + seconds lease_seconds) }) in
      (result.modified, d')

  -- The write of `release`; `failed` is what the read before it found.
  unfoldable pub release_row : Docs → Text → Text → ℕ → Bool → Docs
  release_row d run_id owner now failed =
      (update_one d run_id (λ row. owned_by owner row.lease_owner)
        (λ row. record row {
          lease_owner = null;
          lease_until = val now;
          next_retry_at_utc = if failed then null else row.next_retry_at_utc;
        })).1

  unfoldable pub release : Docs → Text → Text → ℕ → Docs
  unfolding release_row
  release d run_id owner now = release_row d run_id owner now (is_failed (get d run_id))

  unfoldable pub excluded_run_ids : Docs → ℕ → ℕ → List (Text × JobRow)
  excluded_run_ids d now max_attempts = find d (excluded now max_attempts)

  unfoldable pub has_active_job : Docs → ℕ → Bool
  has_active_job d now = any_found (find d (live_job now))
