-- ===== src/Mongo/Field.antt =====
-- A field of a stored document. A filter tells a field that is not there from one that holds null.
use geek_crawler_rag.Base.{ℕ, Bool, true, false, Option, none, some, ltb, leb}

pub data Field (A : Type 0) : Type 0 where
  missing null : Field A
  val : A → Field A

module _ {A : Type 0} where
  -- `doc.get(k) or default`, for a default that stands for every false value
  abbrev pub field_or : A → Field A → A
  field_or d missing = d
  field_or d null = d
  field_or d (val a) = a

  -- `doc.get(k)`
  abbrev pub to_option : Field A → Option A
  to_option missing = none
  to_option null = none
  to_option (val a) = some a

  -- `{k: {"$exists": False}}`
  abbrev pub is_missing : Field A → Bool
  is_missing missing = true
  is_missing null = false
  is_missing (val a) = false

  -- `{k: None}`, which a document without the field matches too
  abbrev pub is_null : Field A → Bool
  is_null missing = true
  is_null null = true
  is_null (val a) = false

-- `{k: {"$lte": bound}}`: only a value is compared
abbrev pub at_most : Field ℕ → ℕ → Bool
at_most missing bound = false
at_most null bound = false
at_most (val a) bound = leb a bound

-- `{k: {"$gt": bound}}`
abbrev pub greater : Field ℕ → ℕ → Bool
greater missing bound = false
greater null bound = false
greater (val a) bound = ltb bound a

-- `{k: {"$lt": bound}}`
abbrev pub less : Field ℕ → ℕ → Bool
less missing bound = false
less null bound = false
less (val a) bound = ltb a bound

-- `{k: {"$gte": bound}}`
abbrev pub at_least : Field ℕ → ℕ → Bool
at_least missing bound = false
at_least null bound = false
at_least (val a) bound = leb bound a
