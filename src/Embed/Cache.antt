-- ===== src/Embed/Cache.antt =====
-- `VectorCache` of src/geek_crawler_rag/vector_cache.py, over the collection that it writes.
pub mod Laws
use geek_crawler_rag.Base.{
  ℕ, Bool, true, false, ◌&&◌, ◌||◌, not, List, [], ◌∷◌, ◌++◌, Option, none, some, if◌then◌else◌,
  length, ◌==◌, Text, text_eq, is_listed,
}
use geek_crawler_rag.Mongo.Collection.{Collection}

-- `cache_key`, whose digest is given: the text under one model.
unfoldable pub cache_key : (Text → Text) → Text → Text → Text
cache_key sha256 model text = sha256 (model ++ (0 ∷ text))

-- `dict.fromkeys(texts)`, given the ones before.
unfoldable pub distinct_after : List Text → List Text → List Text
distinct_after seen [] = []
distinct_after seen (t ∷ ts) =
    if is_listed t seen then distinct_after seen ts else t ∷ distinct_after (t ∷ seen) ts

abbrev pub distinct : List Text → List Text
distinct texts = distinct_after [] texts

-- A number is whatever the model's vectors hold.
module _ (Number : Type 0) where
  abbrev pub Vector : Type 0
  Vector = List Number

  -- A document of `rag_vector_cache`; a vector that is no list is read as none.
  pub record CacheRow : Type 0 where
    pub model : Text
    pub dimensions : ℕ
    pub vector : Option Vector

  -- A dictionary from texts to vectors, the last entry of a text first.
  abbrev pub Vectors : Type 0
  Vectors = List (Text × Vector)

  unfoldable pub vector_of : Vectors → Text → Option Vector
  vector_of [] t = none
  vector_of ((u, v) ∷ vs) t = if text_eq u t then some v else vector_of vs t

  module _ (cache : Collection CacheRow) (sha256 : Text → Text) (model : Text)
      (dimensions : ℕ) where
    -- `by_key.get(key)`, of the texts asked for.
    unfoldable pub text_of_key : List Text → Text → Option Text
    text_of_key [] key = none
    text_of_key (t ∷ ts) key = elim (text_of_key ts key) [
      | some u ↦ some u
      | none ↦ if text_eq (cache_key sha256 model t) key then some t else none
    ]

    -- The key is one of those asked for.
    unfoldable pub asks_for : List Text → Text → Bool
    asks_for [] key = false
    asks_for (t ∷ ts) key = text_eq (cache_key sha256 model t) key || asks_for ts key

    abbrev pub add_found : Option Text → Option Vector → Vectors → Vectors
    add_found none v found = found
    add_found (some t) none found = found
    add_found (some t) (some v) found = if length v == dimensions then (t, v) ∷ found else found

    -- The loop over the cursor.
    unfoldable pub read_rows : List Text → List (Text × CacheRow) → Vectors → Vectors
    read_rows texts [] found = found
    read_rows texts ((key, row) ∷ rows) found =
        read_rows texts rows
          (if asks_for texts key then add_found (text_of_key texts key) row.vector found else found)

    -- `get_many`; `answers` where the collection does, since an error is a miss.
    unfoldable pub get_many : Bool → cache.Docs → List Text → Vectors
    get_many answers d texts =
        if answers then read_rows (distinct texts) (cache.find d (λ row. true)) [] else []

    abbrev pub new_row : Vector → CacheRow
    new_row v = record { model = model; dimensions = length v; vector = some v }

    -- `put_many`: an entry that is there stays. `lands` says which of the writes are made, since one
    -- that is not is not noticed.
    unfoldable pub put_many : (Text → Bool) → cache.Docs → Vectors → cache.Docs
    put_many lands d [] = d
    put_many lands d ((t, v) ∷ vs) =
        let d' =
          if length v == dimensions && lands t
          then (cache.upsert_one d (cache_key sha256 model t) (λ row. true) (λ row. row)
              (new_row v)).1
          else d in
        put_many lands d' vs
