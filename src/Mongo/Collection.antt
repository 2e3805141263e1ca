-- ===== src/Mongo/Collection.antt =====
-- The interface of a collection, and what its operations do to a lookup.
use geek_crawler_rag.Base.{
  ◌≡◌, ◌≢◌, ◌↔◌, Bool, true, false, List, Option, none, some, if◌then◌else◌, is_some, Text, text_eq,
  MemOf,
}

module _ {Row : Type 0} where
  -- The filter holds of the document with the key.
  abbrev pub matches : (Row → Bool) → Option Row → Bool
  matches p none = false
  matches p (some r) = p r

  abbrev pub updated : (Row → Bool) → (Row → Row) → Option Row → Option Row
  updated p f none = none
  updated p f (some r) = if p r then some (f r) else some r

  -- With `upsert`, a key that has no document gets `new`; a document that the filter misses stays,
  -- since the unique index refuses a second one.
  abbrev pub upserted : (Row → Bool) → (Row → Row) → Row → Option Row → Option Row
  upserted p f new none = some new
  upserted p f new (some r) = if p r then some (f r) else some r

  -- The document that an upsert returns; `none` is the duplicate key error.
  abbrev pub upsert_returns : (Row → Bool) → (Row → Row) → Row → Option Row → Option Row
  upsert_returns p f new none = some new
  upsert_returns p f new (some r) = if p r then some (f r) else none

pub record UpdateResult : Type 0 where
  pub matched : Bool
  pub modified : Bool

pub record Collection (Row : Type 0) : Type 1 where
  pub Docs : Type 0
  pub find_one : Docs → Text → Option Row
  pub find : Docs → (Row → Bool) → List (Text × Row)
  pub update_one : Docs → Text → (Row → Bool) → (Row → Row) → UpdateResult × Docs
  pub upsert_one : Docs → Text → (Row → Bool) → (Row → Row) → Row → Option Row × Docs
  pub delete_one : Docs → Text → Bool × Docs
  pub find_iff :
      (d : Docs) (p : Row → Bool) (k : Text) (r : Row)
      → MemOf (k, r) (find d p) ↔ ((find_one d k ≡ some r) × (p r ≡ true))
  pub matched-update_one :
      (d : Docs) (k : Text) (p : Row → Bool) (f : Row → Row)
      → (update_one d k p f).0.matched ≡ matches p (find_one d k)
  pub modified-update_one :
      (d : Docs) (k : Text) (p : Row → Bool) (f : Row → Row)
      → ((update_one d k p f).0.modified ≡ true)
        ↔ ((matches p (find_one d k) ≡ true) × (updated p f (find_one d k) ≢ find_one d k))
  pub find_one-update_one :
      (d : Docs) (k : Text) (p : Row → Bool) (f : Row → Row) (j : Text)
      → find_one (update_one d k p f).1 j
        ≡ (if text_eq k j then updated p f (find_one d k) else find_one d j)
  pub upsert_one_lem :
      (d : Docs) (k : Text) (p : Row → Bool) (f : Row → Row) (new : Row)
      → (upsert_one d k p f new).0 ≡ upsert_returns p f new (find_one d k)
  pub find_one-upsert_one :
      (d : Docs) (k : Text) (p : Row → Bool) (f : Row → Row) (new : Row) (j : Text)
      → find_one (upsert_one d k p f new).1 j
        ≡ (if text_eq k j then upserted p f new (find_one d k) else find_one d j)
  pub delete_one_lem : (d : Docs) (k : Text) → (delete_one d k).0 ≡ is_some (find_one d k)
  pub find_one-delete_one :
      (d : Docs) (k j : Text)
      → find_one (delete_one d k).1 j ≡ (if text_eq k j then none else find_one d j)
