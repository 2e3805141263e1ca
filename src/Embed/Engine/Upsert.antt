-- ===== src/Embed/Engine/Upsert.antt =====
-- What becomes of a flush.
use geek_crawler_rag.Base.{
  ℕ, ◌≡◌, ◌<◌, ◌≤◌, pos, Bool, List, [], ◌∷◌, map, Option, All-both, All-map, inl, inr, Text, All,
}
use geek_crawler_rag.Mongo.Collection.{Collection}
use geek_crawler_rag.Chunk.Window.{ChunkTokenizer}
use geek_crawler_rag.Embed.Batching.{embedding_token_count}
use geek_crawler_rag.Embed.Cache.{Vector, CacheRow}
use geek_crawler_rag.Embed.Cache.Laws.{cache_key_unique}
use geek_crawler_rag.Embed.Engine.{Answer, vectors, done, EmbedNode, keep_filled, embed_and_upsert}
use geek_crawler_rag.Embed.Engine.Laws.{IsClean, keep_filled-IsClean, IsModelFailure, IsOr}
use geek_crawler_rag.Embed.Engine.Texts.{embed_texts-IsOr, embed_texts_total}
use geek_crawler_rag.Embed.Engine.Flush.{embedded, IsSafe, upsert-IsOr}

-- With a model that gives each text one vector, where it answers, and a cache that holds no wrong
-- vector, under a digest that no two texts share: a flush comes to the nodes that hold some text, in
-- order, each with the model's vector of its own sanitized text, or fails in a call of the model or
-- in the partition; and the cache holds no wrong vector after it.
pub embed_and_upsert-IsOr :
    {Number : Type 0} (embed : Text → Vector Number) (tok : ChunkTokenizer)
    (max_items max_tokens : ℕ) (model_call : List Text → Answer Number)
    (cache : Collection (CacheRow Number)) (sha256 : Text → Text) (model : Text) (dimensions : ℕ)
    (answers : Bool) (lands : Text → Bool) (d : Option cache.Docs) (nodes : List EmbedNode)
    → ((ts : List Text) (vs : List (Vector Number))
        → model_call ts ≡ vectors vs
        → vs ≡ map embed ts)
    → ((x y : Text) → sha256 x ≡ sha256 y → x ≡ y)
    → IsSafe embed cache sha256 model dimensions d
    → let r =
        embed_and_upsert Number tok
          (pos max_items)
          (pos max_tokens)
          model_call
          cache
          sha256
          model
          dimensions
          answers
          lands
          d
          nodes in
      IsOr IsModelFailure r.0 (embedded embed nodes)
      × IsSafe embed cache sha256 model dimensions r.1
embed_and_upsert-IsOr embed tok max_items max_tokens model_call cache sha256 model dimensions
      answers lands d nodes embeds unique_keys h =
    upsert-IsOr embed tok max_items max_tokens model_call cache sha256 model dimensions answers
      lands (cache_key_unique sha256 model unique_keys) IsModelFailure IsClean
      (embed_texts-IsOr embed tok max_items max_tokens model_call embeds) d nodes
      (keep_filled-IsClean nodes) h

-- Where the model answers every batch, with one vector for each text, the limits are positive and no
-- text that is kept is over the token limit, and no two texts share a digest, a flush succeeds whatever a cache without wrong vectors
-- holds: the nodes that hold some text, each with its own vector.
pub embed_and_upsert_total :
    {Number : Type 0} (embed : Text → Vector Number) (tok : ChunkTokenizer)
    (max_items max_tokens : ℕ) (model_call : List Text → Answer Number)
    (cache : Collection (CacheRow Number)) (sha256 : Text → Text) (model : Text) (dimensions : ℕ)
    (answers : Bool) (lands : Text → Bool) (d : Option cache.Docs) (nodes : List EmbedNode)
    → ((ts : List Text) → model_call ts ≡ vectors (map embed ts))
    → ((x y : Text) → sha256 x ≡ sha256 y → x ≡ y)
    → 0 < max_items
    → 0 < max_tokens
    → All
        (λ t. embedding_token_count tok (t ∷ []) ≤ max_tokens)
        (map (λ n. n.content) (keep_filled nodes))
    → IsSafe embed cache sha256 model dimensions d
    → (embed_and_upsert Number tok
        (pos max_items)
        (pos max_tokens)
        model_call
        cache
        sha256
        model
        dimensions
        answers
        lands
        d
        nodes).0
      ≡ done (embedded embed nodes)
embed_and_upsert_total embed tok max_items max_tokens model_call cache sha256 model dimensions
      answers lands d nodes embeds unique_keys p q fits h =
    let fit : Text → Type 0 = λ t. embedding_token_count tok (t ∷ []) ≤ max_tokens in
    let call = embed_texts_total embed tok max_items max_tokens model_call embeds in
    elim (upsert-IsOr embed tok max_items max_tokens model_call cache sha256 model dimensions
      answers lands (cache_key_unique sha256 model unique_keys) (λ e. ⊥) (λ t. IsClean t × fit t)
      (λ ts g. inl (call ts (All-map (λ t k. k.0) ts g) p q (All-map (λ t k. k.1) ts g))) d nodes
      (All-both IsClean fit _ (keep_filled-IsClean nodes) fits) h).0 [
        | inl e ↦ e
        | inr (e, f, k) ↦ absurd k
      ]
