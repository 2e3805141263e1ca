-- ===== src/Embed/Engine/Texts.antt =====
-- `embed_texts` beside one call of the model for each text.
use geek_crawler_rag.Base.{
  ℕ, ◌≡◌, ◌∙◌, ◌<◌, ◌≤◌, pos, refl, sym, ap, List, [], ◌∷◌, ◌++◌, map, map-append, inl, inr, Text,
  All,
}
use geek_crawler_rag.Chunk.Window.{ChunkTokenizer}
use geek_crawler_rag.Embed.Batching.{
  EmbeddingBatch, Result, ok, err, embedding_token_count, partition_embedding_batches,
}
use geek_crawler_rag.Embed.Batching.Laws.{batch_texts, partition-IsWithin, partition_total}
use geek_crawler_rag.Embed.Cache.{Vector}
use geek_crawler_rag.Embed.Engine.{
  Answer, vectors, raises_open, raises, EmbedError, Outcome, done, answered, extended,
  embed_batches, run_partition, embed_filled, embed_texts,
}
use geek_crawler_rag.Embed.Engine.Laws.{IsClean, clean_fixed, IsModelFailure, IsOr}

-- The model gives each text the same vector in every batch, where it answers at all.
module _ {Number : Type 0} (embed : Text → Vector Number) (tok : ChunkTokenizer)
    (max_items max_tokens : ℕ) (model_call : List Text → Answer Number)
    (embeds : (ts : List Text) (vs : List (Vector Number))
      → model_call ts ≡ vectors vs
      → vs ≡ map embed ts) where
  answered-IsOr :
      (b : EmbeddingBatch) (a : Answer Number)
      → ((vs : List (Vector Number)) → a ≡ vectors vs → vs ≡ map embed b.texts)
      → IsOr IsModelFailure (answered Number b a) (map embed b.texts)
  answered-IsOr b (vectors vs) h = inl (ap done (h vs refl))
  answered-IsOr b raises_open h = inr (EmbedError.circuit_open, refl, tt)
  answered-IsOr b raises h = inr (EmbedError.quarantined b, refl, tt)

  extended-IsOr :
      (o p : Outcome (List (Vector Number))) (vs ws : List (Vector Number))
      → IsOr IsModelFailure o vs
      → IsOr IsModelFailure p ws
      → IsOr IsModelFailure (extended Number o p) (vs ++ ws)
  extended-IsOr o p vs ws (inr (e, f, m)) q = inr (e, rw f refl, m)
  extended-IsOr o p vs ws (inl d) (inr (e, f, m)) = inr (e, rw (d, f) refl, m)
  extended-IsOr o p vs ws (inl d) (inl c) = inl (rw (d, c) refl)

  abbrev texts_of : List Text → Outcome (List (Vector Number))
  texts_of = embed_texts Number tok (pos max_items) (pos max_tokens) model_call

  embed_batches-IsOr :
      (bs : List EmbeddingBatch)
      → IsOr IsModelFailure
          (embed_batches Number tok (pos max_items) (pos max_tokens) model_call bs)
          (map embed (batch_texts bs))
  unfolding embed_batches
  embed_batches-IsOr [] = inl refl
  embed_batches-IsOr (b ∷ bs) = rw (map-append embed b.texts (batch_texts bs)) (
      extended-IsOr _ _ _ _ (answered-IsOr b (model_call b.texts) (embeds b.texts))
        (embed_batches-IsOr bs))

  embed_filled-IsOr :
      (ts : List Text)
      → IsOr IsModelFailure
          (embed_filled Number tok (pos max_items) (pos max_tokens) model_call ts)
          (map embed ts)
  embed_filled-IsOr [] = inl refl
  embed_filled-IsOr (t ∷ ts) =
      run (partition_embedding_batches tok (t ∷ ts) (pos max_items) (pos max_tokens)) refl
    where
      run :
          (r : Result (List EmbeddingBatch))
          → partition_embedding_batches tok (t ∷ ts) (pos max_items) (pos max_tokens) ≡ r
          → IsOr IsModelFailure
              (run_partition Number tok (pos max_items) (pos max_tokens) model_call r)
              (map embed (t ∷ ts))
      run (err e) h = inr (EmbedError.refused e, refl, tt)
      run (ok bs) h =
          rw (sym (ap (map embed) (partition-IsWithin tok (t ∷ ts) max_items max_tokens bs h).0))
            (embed_batches-IsOr bs)

  pub embed_texts-IsOr :
      (ts : List Text) → All IsClean ts → IsOr IsModelFailure (texts_of ts) (map embed ts)
  unfolding embed_texts
  embed_texts-IsOr ts h = rw (clean_fixed ts h) (embed_filled-IsOr ts)

-- A model that answers every batch.
module _ {Number : Type 0} (embed : Text → Vector Number) (tok : ChunkTokenizer)
    (max_items max_tokens : ℕ) (model_call : List Text → Answer Number)
    (embeds : (ts : List Text) → model_call ts ≡ vectors (map embed ts)) where
  embed_batches_total :
      (bs : List EmbeddingBatch)
      → embed_batches Number tok (pos max_items) (pos max_tokens) model_call bs
        ≡ done (map embed (batch_texts bs))
  unfolding embed_batches
  embed_batches_total [] = refl
  embed_batches_total (b ∷ bs) =
      rw (embeds b.texts, embed_batches_total bs, map-append embed b.texts (batch_texts bs)) refl

  -- Within the limits the call succeeds.
  pub embed_texts_total :
      (ts : List Text)
      → All IsClean ts
      → 0 < max_items
      → 0 < max_tokens
      → All (λ t. embedding_token_count tok (t ∷ []) ≤ max_tokens) ts
      → embed_texts Number tok (pos max_items) (pos max_tokens) model_call ts ≡ done (map embed ts)
  unfolding embed_texts
  embed_texts_total [] h p q f = rw (clean_fixed [] h) refl
  embed_texts_total (t ∷ ts) h p q f =
      let (bs, e) = (partition_total tok (t ∷ ts) max_items max_tokens p q).1 f in
      rw (clean_fixed (t ∷ ts) h, e)
        (embed_batches_total bs
          ∙ ap (λ x. done (map embed x))
              (partition-IsWithin tok (t ∷ ts) max_items max_tokens bs e).0)
