-- ===== src/Embed/Engine.antt =====
-- `LlamaEngine` of src/geek_crawler_rag/llama_engine.py, from the nodes of a flush to the points
-- that are added. A failure is a value; the metadata that a quarantine file repeats is left out.
pub mod Laws
pub mod Texts
pub mod Flush
pub mod Upsert
use geek_crawler_rag.Base.{
  ℕ, suc, ℤ, Bool, true, false, ◌||◌, not, List, [], ◌∷◌, ◌++◌, map, Option, none, some,
  if◌then◌else◌, length, ◌==◌, Text, is_empty, strip, is_some,
}
use geek_crawler_rag.Mongo.Collection.{Collection}
use geek_crawler_rag.Chunk.Window.{ChunkTokenizer}
use geek_crawler_rag.Embed.Batching.{
  EmbeddingBatch, BatchError, Result, ok, err, partition_embedding_batches,
}
use geek_crawler_rag.Embed.Sanitize.{sanitize_embedding_text, sanitize_embedding_texts}
use geek_crawler_rag.Embed.Cache.{
  Vector, CacheRow, Vectors, vector_of, distinct, get_many, put_many,
}

-- What a call of the embedding model comes to: its vectors, or one of two kinds of exception.
pub data Answer (Number : Type 0) : Type 0 where
  vectors : List (Vector Number) → Answer Number
  raises_open raises : Answer Number

pub data EmbedError : Type 0 where
  -- The `ValueError` of the partition.
  refused : BatchError → EmbedError
  -- `EmbeddingCircuitOpen` as the model raised it, or over a batch that was quarantined.
  circuit_open : EmbedError
  quarantined : EmbeddingBatch → EmbedError
  -- The `KeyError` and the `ValueError` of code that recombines.
  missing_text : EmbedError
  unequal_lengths : EmbedError

pub data Outcome {ℓ} (A : Type ℓ) : Type ℓ where
  done : A → Outcome A
  failed : EmbedError → Outcome A

pub record EmbedNode : Type 0 where
  pub node_id : Text
  pub content : Text

-- The texts that are not blank.
unfoldable pub drop_blank : List Text → List Text
drop_blank [] = []
drop_blank (t ∷ ts) = if is_empty (strip t) then drop_blank ts else t ∷ drop_blank ts

-- The loop over the nodes: a node's content is sanitized, and it is kept unless that leaves it blank.
unfoldable pub keep_filled : List EmbedNode → List EmbedNode
keep_filled [] = []
keep_filled (n ∷ ns) =
    let safe = sanitize_embedding_text n.content in
    if is_empty (strip safe) then keep_filled ns else record n { content = safe } ∷ keep_filled ns

module _ (Number : Type 0) where
  abbrev pub answered : EmbeddingBatch → Answer Number → Outcome (List (Vector Number))
  answered b (vectors vs) = done vs
  answered b raises_open = failed EmbedError.circuit_open
  answered b raises = failed (EmbedError.quarantined b)

  abbrev pub extended :
      Outcome (List (Vector Number))
      → Outcome (List (Vector Number))
      → Outcome (List (Vector Number))
  extended (failed e) rest = failed e
  extended (done vs) (failed e) = failed e
  extended (done vs) (done ws) = done (vs ++ ws)

  -- `[t for t in unique if t not in cached]`
  unfoldable pub not_cached : Vectors Number → List Text → List Text
  not_cached cached [] = []
  not_cached cached (t ∷ ts) =
      if is_some (vector_of Number cached t) then not_cached cached ts else t ∷ not_cached cached ts

  -- `zip`, of lists whose lengths were compared.
  unfoldable pub paired {ℓ} :
      {A : Type ℓ} → List A → List (Vector Number) → List (A × Vector Number)
  paired [] vs = []
  paired (x ∷ xs) [] = []
  paired (x ∷ xs) (v ∷ vs) = (x, v) ∷ paired xs vs

  abbrev pub and_vector :
      Option (Vector Number) → Outcome (List (Vector Number)) → Outcome (List (Vector Number))
  and_vector none rest = failed EmbedError.missing_text
  and_vector (some v) (failed e) = failed e
  and_vector (some v) (done vs) = done (v ∷ vs)

  -- `[by_text[t] for t in texts]`
  unfoldable pub recombine : Vectors Number → List Text → Outcome (List (Vector Number))
  recombine by_text [] = done []
  recombine by_text (t ∷ ts) = and_vector (vector_of Number by_text t) (recombine by_text ts)

module _ (Number : Type 0) (tok : ChunkTokenizer) (embed_batch_size embedding_max_batch_tokens : ℤ)
    (model_call : List Text → Answer Number) where
  -- `_embed_batch`: one call, one attempt.
  abbrev pub embed_batch : EmbeddingBatch → Outcome (List (Vector Number))
  embed_batch b = answered Number b (model_call b.texts)

  -- The loop over the batches, which the first failure leaves.
  unfoldable pub embed_batches : List EmbeddingBatch → Outcome (List (Vector Number))
  embed_batches [] = done []
  embed_batches (b ∷ bs) = extended Number (embed_batch b) (embed_batches bs)

  abbrev pub run_partition : Result (List EmbeddingBatch) → Outcome (List (Vector Number))
  run_partition (ok bs) = embed_batches bs
  run_partition (err e) = failed (EmbedError.refused e)

  abbrev pub embed_filled : List Text → Outcome (List (Vector Number))
  embed_filled [] = done []
  embed_filled (t ∷ ts) =
      run_partition
        (partition_embedding_batches tok (t ∷ ts) embed_batch_size embedding_max_batch_tokens)

  -- `embed_texts`
  unfoldable pub embed_texts : List Text → Outcome (List (Vector Number))
  embed_texts texts = embed_filled (drop_blank (sanitize_embedding_texts texts).0)

  module _ (cache : Collection (CacheRow Number)) (sha256 : Text → Text) (model : Text)
      (dimensions : ℕ) (answers : Bool) (lands : Text → Bool) where
    -- The documents of the cache, where one is attached.
    abbrev pub Attached : Type 0
    Attached = Option cache.Docs

    abbrev pub read_cache : Attached → List Text → Vectors Number
    read_cache none texts = []
    read_cache (some d) texts = get_many Number cache sha256 model dimensions answers d texts

    abbrev pub write_cache : Attached → Vectors Number → Attached
    write_cache none fresh = none
    write_cache (some d) fresh = some (put_many Number cache sha256 model dimensions lands d fresh)

    -- What follows the call for the texts that are missing.
    abbrev pub after_missing :
        Attached
        → List Text
        → Vectors Number
        → List Text
        → Outcome (List (Vector Number))
        → Outcome (List (Vector Number)) × Attached
    after_missing d texts cached missing (failed e) = (failed e, d)
    after_missing d texts cached missing (done vs) =
        if length vs == length missing
        then (
          recombine Number (paired Number missing vs ++ cached) texts,
          write_cache d (paired Number missing vs),
        )
        else (embed_texts texts, d)

    abbrev pub embed_missing :
        Attached
        → List Text
        → Vectors Number
        → List Text
        → Outcome (List (Vector Number)) × Attached
    embed_missing d texts cached [] = (recombine Number cached texts, d)
    embed_missing d texts cached (t ∷ ts) =
        after_missing d texts cached (t ∷ ts) (embed_texts (t ∷ ts))

    -- `_embed_deduplicated`
    unfoldable pub embed_deduplicated :
        Attached → List Text → Outcome (List (Vector Number)) × Attached
    embed_deduplicated d texts =
        let unique = distinct texts in
        let cached = read_cache d unique in
        embed_missing d texts cached (not_cached Number cached unique)

    -- `zip(keep, embeddings, strict=True)` and the points that are added.
    abbrev pub add_points :
        List EmbedNode
        → Outcome (List (Vector Number)) × Attached
        → Outcome (ℕ × List (EmbedNode × Vector Number)) × Attached
    add_points keep (failed e, d) = (failed e, d)
    add_points keep (done vs, d) =
        if length vs == length keep
        then (done (length keep, paired Number keep vs), d)
        else (failed EmbedError.unequal_lengths, d)

    abbrev pub embed_kept :
        Attached → List EmbedNode → Outcome (ℕ × List (EmbedNode × Vector Number)) × Attached
    embed_kept d [] = (done (0, []), d)
    embed_kept d (n ∷ ns) =
        add_points (n ∷ ns) (embed_deduplicated d (map (λ m. m.content) (n ∷ ns)))

    -- `embed_and_upsert`: the count that it returns, and the points that the store is given.
    unfoldable pub embed_and_upsert :
        Attached → List EmbedNode → Outcome (ℕ × List (EmbedNode × Vector Number)) × Attached
    embed_and_upsert d nodes = embed_kept d (keep_filled nodes)
