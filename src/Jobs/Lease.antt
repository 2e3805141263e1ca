-- ===== src/Jobs/Lease.antt =====
-- What each operation on a job row grants, refuses and leaves alone.
use geek_crawler_rag.Base.{
  ℕ, ◌+◌, ◌≡◌, ◌≢◌, ◌∙◌, refl, inl, inr, Bool, true, false, Option, none, some, if◌then◌else◌, Text,
  text_eq, text_eq_refl, text_eq_ne, arith, Bool-cases,
}
use geek_crawler_rag.Mongo.Field.{missing, null, val, greater, field_or}
use geek_crawler_rag.Mongo.Collection.{Collection, upserted, upsert_returns}
use geek_crawler_rag.Jobs.Model.{IndexState, JobRow, from_doc, is_active}
use geek_crawler_rag.Jobs.Store.{seconds, get, claimable, claim_update, claim_insert, claim}

-- Who may have the row, in words: nobody while it is active under a lease that lasts, anybody once
-- that lease has lapsed; and a row in a terminal state goes only to a forced claim.
pub data Availability : Type 0 where
  held lapsed finished idle : Availability

unfoldable pub availability : ℕ → JobRow → Availability
availability now row = elim row.state [
  | missing ↦ idle
  | null ↦ idle
  | val s ↦ if is_active s then (if greater row.lease_until now then held else lapsed) else finished
]

abbrev pub grants : Bool → Availability → Bool
grants force held = false
grants force lapsed = true
grants force finished = force
grants force idle = true

pub claimable-grants :
    (force : Bool) (now : ℕ) (row : JobRow)
    → claimable force now row ≡ grants force (availability now row)
unfolding claimable availability
claimable-grants force now row = ground arith

abbrev pub available : ℕ → Option JobRow → Availability
available now none = idle
available now (some row) = availability now row

abbrev pub attempts : Option JobRow → ℕ
attempts none = 0
attempts (some row) = field_or 0 row.attempt

-- The row that a granted claim leaves.
abbrev pub claimed : Text → Text → ℕ → ℕ → Text → Option JobRow → JobRow
claimed run_id owner now ls trigger none = claim_insert run_id owner now ls trigger
claimed run_id owner now ls trigger (some row) = claim_update run_id owner now ls trigger row

module _ (run_id owner : Text) (now ls : ℕ) (trigger : Text) (force : Bool) where
  upserted-claim :
      (o : Option JobRow)
      → upserted
          (claimable force now)
          (claim_update run_id owner now ls trigger)
          (claim_insert run_id owner now ls trigger)
          o
        ≡ (if grants force (available now o)
            then some (claimed run_id owner now ls trigger o)
            else o)
  upserted-claim none = refl
  upserted-claim (some row) = rw claimable-grants

  upsert_returns-claim :
      (o : Option JobRow)
      → upsert_returns
          (claimable force now)
          (claim_update run_id owner now ls trigger)
          (claim_insert run_id owner now ls trigger)
          o
        ≡ (if grants force (available now o)
            then some (claimed run_id owner now ls trigger o)
            else none)
  upsert_returns-claim none = refl
  upsert_returns-claim (some row) = rw claimable-grants

  pub claimed_fields :
      (o : Option JobRow)
      → let row = claimed run_id owner now ls trigger o in
        (row.state ≡ val IndexState.pending)
        × (row.lease_owner ≡ val owner)
        × (row.lease_until ≡ val (now + seconds ls))
        × (row.attempt ≡ val (attempts o + 1))
  unfolding claim_insert claim_update
  claimed_fields none = ground arith
  claimed_fields (some row) = ground arith

module _ (jobs : Collection JobRow) where
  open jobs use {
    Docs, find_one, find, find_one-update_one, find_one-upsert_one, upsert_one_lem,
    matched-update_one, modified-update_one, find_iff,
  }

  pub claim-find_one :
      (d : Docs) (run_id owner : Text) (now ls : ℕ) (trigger : Text) (force : Bool) (j : Text)
      → find_one (claim jobs d run_id owner now ls trigger force).1 j ≡ (
          if text_eq run_id j
          then (if grants force (available now (find_one d run_id))
              then some (claimed run_id owner now ls trigger (find_one d run_id))
              else find_one d run_id)
          else find_one d j)
  unfolding claim
  claim-find_one d run_id owner now ls trigger force j =
      rw (find_one-upsert_one, upserted-claim run_id owner now ls trigger force (find_one d run_id))

  pub claim_result :
      (d : Docs) (run_id owner : Text) (now ls : ℕ) (trigger : Text) (force : Bool)
      → (claim jobs d run_id owner now ls trigger force).0 ≡ (
          if grants force (available now (find_one d run_id))
          then some (from_doc (claimed run_id owner now ls trigger (find_one d run_id)))
          else none)
  unfolding claim
  claim_result d run_id owner now ls trigger force =
      rw
        (upsert_one_lem, upsert_returns-claim run_id owner now ls trigger force (find_one d run_id))
        (elim (Bool-cases (grants force (available now (find_one d run_id)))) [
          | inl y ↦ rw y
          | inr n ↦ rw n
        ])

  -- A claim is granted exactly when nobody holds the run and, where the run has ended, it is forced.
  -- A granted claim leaves the run pending under the claimant's lease with one more attempt; a
  -- refused one returns nothing and leaves the row as it was. No other row changes.
  pub claim_lem :
      (d : Docs) (run_id owner : Text) (now ls : ℕ) (trigger : Text) (force : Bool)
      → let (result, d') = claim jobs d run_id owner now ls trigger force in
        (grants force (available now (find_one d run_id)) ≡ true
          → (row : JobRow) × (find_one d' run_id ≡ some row)
            × (result ≡ some (from_doc row))
            × (row.state ≡ val IndexState.pending)
            × (row.lease_owner ≡ val owner)
            × (row.lease_until ≡ val (now + seconds ls))
            × (row.attempt ≡ val (attempts (find_one d run_id) + 1)))
        × (grants force (available now (find_one d run_id)) ≡ false
            → (result ≡ none) × (find_one d' run_id ≡ find_one d run_id))
        × ((j : Text) → run_id ≢ j → find_one d' j ≡ find_one d j)
  claim_lem d run_id owner now ls trigger force =
      let o : Option JobRow = find_one d run_id in
      let result = claim_result d run_id owner now ls trigger force in
      let after = claim-find_one d run_id owner now ls trigger force run_id in
      let same_key = text_eq_refl run_id in
      let (state, holder, until, attempt) = claimed_fields run_id owner now ls trigger force o in
      (
        λ y. (
          claimed run_id owner now ls trigger o,
          after ∙ rw (same_key, y),
          result ∙ rw y,
          state,
          holder,
          until,
          attempt,
        ),
        λ n. (result ∙ rw n, after ∙ rw (same_key, n)),
        λ j ne. claim-find_one d run_id owner now ls trigger force j ∙ rw (text_eq_ne run_id j ne),
      )

-- The status of a stored row.
pub get_row :
    (jobs : Collection JobRow) (d : jobs.Docs) (run_id : Text) (row : JobRow)
    → jobs.find_one d run_id ≡ some row
    → get jobs d run_id ≡ some (from_doc row)
unfolding get
get_row jobs d run_id row e = rw (e, get) refl
