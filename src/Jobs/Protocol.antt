-- ===== src/Jobs/Protocol.antt =====
-- Several workers on one collection of job rows: while a lease lasts, nobody else gets its run.
use geek_crawler_rag.Base.{
  ℕ, ◌≤◌, ◌<◌, ◌≡◌, ◌≢◌, inl, inr, Bool, true, false, some, Text, text_eq, text_eq_refl, text_eq_ne,
  text_eq_iff, arith, Bool-cases, sym,
}
use geek_crawler_rag.Mongo.Field.{val}
use geek_crawler_rag.Mongo.Collection.{Collection}
use geek_crawler_rag.Jobs.Model.{IndexStatus, JobRow}
use geek_crawler_rag.Jobs.Store.{
  claim, reacquire, heartbeat, release_row, save, delete, is_owned, active_field, owned_by,
  lease_expired_or_missing,
}
use geek_crawler_rag.Jobs.Lease.{availability, claim-find_one, held}

-- The row is active, and leased to `me` until `limit` at least.
abbrev pub Holds : Text → ℕ → JobRow → Type 0
Holds me limit row =
    (active_field row.state ≡ true)
    × (row.lease_owner ≡ val me)
    × (until : ℕ) × (row.lease_until ≡ val until)
    × (limit ≤ until)

not-owned :
    (who me : Text) (row : JobRow)
    → who ≢ me
    → row.lease_owner ≡ val me
    → owned_by who row.lease_owner ≡ false
not-owned who me row ne e = rw e (text_eq_ne me who (λ p. ne (sym p)))

module _ (me : Text) (limit now : ℕ) (row : JobRow) (h : Holds me limit row)
    (before : now < limit) where
  held-availability : availability now row ≡ held
  unfolding availability
  held-availability = ground (arith, h.0, h.3, h.4)

  not-lapsed : lease_expired_or_missing now row ≡ false
  not-lapsed = ground (arith, h.3, h.4)

module _ (jobs : Collection JobRow) where
  open jobs use {Docs, find_one, update_one, find_one-update_one, find_one-delete_one}

  update_one_keeps :
      (d : Docs) (k run : Text) (p : JobRow → Bool) (f : JobRow → JobRow) (row : JobRow)
      → find_one d run ≡ some row
      → p row ≡ false
      → find_one (update_one d k p f).1 run ≡ some row
  update_one_keeps d k run p f row e miss = elim (Bool-cases (text_eq k run)) [
    | inl t ↦ rw (find_one-update_one, t, (text_eq_iff k run).0 t, e) (rw miss)
    | inr n ↦ rw (find_one-update_one, n) e
  ]

  -- What another worker, or the operator at another run, may do at the time `now`.
  pub data Act (me run : Text) (now : ℕ) (d : Docs) : Docs → Type 0 where
    claims :
        (who k trigger : Text) (ls : ℕ) (force : Bool)
        → Act me run now d (claim jobs d k who now ls trigger force).1
    reacquires :
        (who k : Text) (ls : ℕ) → who ≢ me → Act me run now d (reacquire jobs d k who now ls).1
    heartbeats :
        (who k : Text) (ls : ℕ) → who ≢ me → Act me run now d (heartbeat jobs d k who now ls).1
    releases :
        (who k : Text) (failed : Bool)
        → who ≢ me
        → Act me run now d (release_row jobs d k who now failed)
    saves :
        (who : Text) (status : IndexStatus) → who ≢ me → Act me run now d (save jobs d status who).1
    deletes : (k : Text) → k ≢ run → Act me run now d (delete jobs d k).1

  pub data Step (me run : Text) : ℕ × Docs → ℕ × Docs → Type 0 where
    act : {now : ℕ} {d e : Docs} → Act me run now d e → Step me run (now, d) (now, e)
    wait : {now later : ℕ} {d : Docs} → now ≤ later → Step me run (now, d) (later, d)

  pub data Reach (me run : Text) (s : ℕ × Docs) : ℕ × Docs → Type 0 where
    here : Reach me run s s
    next : {t u : ℕ × Docs} → Reach me run s t → Step me run t u → Reach me run s u

  Act-keeps :
      {me run : Text} {now limit : ℕ} {d e : Docs} (row : JobRow)
      → Act me run now d e
      → find_one d run ≡ some row
      → Holds me limit row
      → now < limit
      → find_one e run ≡ some row
  unfolding reacquire heartbeat release_row save delete
  Act-keeps {me} {run} {now} {limit} {d} row (claims who k trigger ls force) f h b =
      elim (Bool-cases (text_eq k run)) [
        | inl t ↦
            let e = (text_eq_iff k run).0 t in
            rw (claim-find_one, t, e, f, held-availability me limit now row h b)
        | inr n ↦ rw (claim-find_one, n) f
      ]
  Act-keeps {me} {run} {now} {limit} {d} row (reacquires who k ls ne) f h b =
      update_one_keeps d k run _ _ row f
        (ground (arith, not-owned who me row ne h.1, not-lapsed me limit now row h b))
  Act-keeps {me} {run} {now} {limit} {d} row (heartbeats who k ls ne) f h b =
      update_one_keeps d k run _ _ row f (ground (arith, not-owned who me row ne h.1))
  Act-keeps {me} {run} {now} {limit} {d} row (releases who k failed ne) f h b =
      update_one_keeps d k run _ _ row f (not-owned who me row ne h.1)
  Act-keeps {me} {run} {now} {limit} {d} row (saves who status ne) f h b =
      update_one_keeps d status.run_id run _ _ row f (not-owned who me row ne h.1)
  Act-keeps {me} {run} {now} {limit} {d} row (deletes k ne) f h b =
      rw (find_one-delete_one, text_eq_ne k run ne) f

  Step-mono : {me run : Text} {s t : ℕ × Docs} → Step me run s t → s.0 ≤ t.0
  Step-mono (act a) = omega arith
  Step-mono (wait h) = h

  Step-keeps :
      {me run : Text} {limit : ℕ} {s t : ℕ × Docs} (row : JobRow)
      → Step me run s t
      → find_one s.1 run ≡ some row
      → Holds me limit row
      → t.0 < limit
      → find_one t.1 run ≡ some row
  Step-keeps row (act a) f h b = Act-keeps row a f h b
  Step-keeps row (wait later) f h b = f

  Reach-keeps :
      {me run : Text} {limit : ℕ} {s t : ℕ × Docs} (row : JobRow)
      → Reach me run s t
      → find_one s.1 run ≡ some row
      → Holds me limit row
      → t.0 < limit
      → find_one t.1 run ≡ some row
  Reach-keeps row here f h b = f
  Reach-keeps row (next r st) f h b =
      Step-keeps row st (Reach-keeps row r f h (omega (arith, Step-mono st))) h b

  -- Whatever the other workers and the operator do at other runs, in any order: until its lease
  -- ends, a worker's row stays exactly as it left it, it owns the run, and nobody else does.
  pub Reach-is_owned :
      (me run : Text) (limit : ℕ) (s t : ℕ × Docs) (row : JobRow)
      → Reach me run s t
      → find_one s.1 run ≡ some row
      → Holds me limit row
      → t.0 < limit
      → (find_one t.1 run ≡ some row)
        × (is_owned jobs t.1 run me t.0 ≡ true)
        × ((who : Text) → who ≢ me → is_owned jobs t.1 run who t.0 ≡ false)
  unfolding is_owned
  Reach-is_owned me run limit s t row r f h b =
      let kept = Reach-keeps row r f h b in
      (
        kept,
        rw (kept, is_owned) (ground (arith, h.0, h.1, h.3, h.4, text_eq_refl me)),
        λ who ne. rw (kept, is_owned) (ground (arith, not-owned who me row ne h.1)),
      )
