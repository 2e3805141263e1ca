-- ===== src/Embed/Engine/Flush.antt =====
-- A flush: each distinct text is embedded once, or read from the cache.
use geek_crawler_rag.Base.{
  is_listed, ℕ, ◌≡◌, pos, refl, ap, Bool, true, List, [], ◌∷◌, ◌++◌, map, Option, none, some,
  length, length-map, All-append, All-map, ◌==◌, arith, inl, inr, Text, All, is_some,
}
use geek_crawler_rag.Mongo.Collection.{Collection}
use geek_crawler_rag.Chunk.Window.{ChunkTokenizer}
use geek_crawler_rag.Embed.Cache.{cache_key, distinct, Vector, CacheRow, Vectors, vector_of}
use geek_crawler_rag.Embed.Cache.Laws.{
  distinct-is_listed, IsFaithful, IsSound, get_many-IsFaithful, put_many-IsSound,
}
use geek_crawler_rag.Embed.Engine.{
  Answer, EmbedError, Outcome, done, EmbedNode, keep_filled, embed_texts, not_cached, paired,
  recombine, read_cache, write_cache, embed_missing, embed_deduplicated, add_points, embed_kept,
  embed_and_upsert,
}
use geek_crawler_rag.Embed.Engine.Laws.{
  distinct_after-All, IsOr, not_cached-All, not_cached-is_listed, is_some-append, paired-IsFaithful,
  paired-is_some, recombine_lem, listed_all,
}

module _ {Number : Type 0} (embed : Text → Vector Number) where
  -- What a flush is to come to: the nodes that hold some text, each with the vector of its own.
  abbrev pub embedded : List EmbedNode → ℕ × List (EmbedNode × Vector Number)
  embedded nodes = (length (keep_filled nodes), map (λ n. (n, embed n.content)) (keep_filled nodes))

  -- The cache that is attached, if any, holds no wrong vector.
  abbrev pub IsSafe :
      (cache : Collection (CacheRow Number)) → (Text → Text) → Text → ℕ → Option cache.Docs → Type 0
  IsSafe cache sha256 model dimensions none = Unit
  IsSafe cache sha256 model dimensions (some d) = IsSound embed cache sha256 model dimensions d

-- The engine with a cache that holds no wrong vector.
module _ {Number : Type 0} (embed : Text → Vector Number) (tok : ChunkTokenizer)
    (max_items max_tokens : ℕ) (model_call : List Text → Answer Number)
    (cache : Collection (CacheRow Number)) (sha256 : Text → Text) (model : Text) (dimensions : ℕ)
    (answers : Bool) (lands : Text → Bool)
    (unique_keys : (s t : Text) → cache_key sha256 model s ≡ cache_key sha256 model t → s ≡ t)
    (P : EmbedError → Type 0) where
  abbrev IsSoundAt : Option cache.Docs → Type 0
  IsSoundAt d = IsSafe embed cache sha256 model dimensions d

  read_cache-IsFaithful :
      (d : Option cache.Docs) (ts : List Text)
      → IsSoundAt d
      → IsFaithful embed (
          read_cache Number tok
            (pos max_items)
            (pos max_tokens)
            model_call
            cache
            sha256
            model
            dimensions
            answers
            lands
            d
            ts)
  read_cache-IsFaithful none ts h = tt
  read_cache-IsFaithful (some d) ts h =
      get_many-IsFaithful embed cache sha256 model dimensions answers d ts h

  write_cache-IsSoundAt :
      (d : Option cache.Docs) (vs : Vectors Number)
      → IsSoundAt d
      → IsFaithful embed vs
      → IsSoundAt (
          write_cache Number tok
            (pos max_items)
            (pos max_tokens)
            model_call
            cache
            sha256
            model
            dimensions
            answers
            lands
            d
            vs)
  write_cache-IsSoundAt none vs h f = tt
  write_cache-IsSoundAt (some d) vs h f =
      put_many-IsSound embed cache sha256 model dimensions unique_keys lands vs d h f

  abbrev texts_of : List Text → Outcome (List (Vector Number))
  texts_of = embed_texts Number tok (pos max_items) (pos max_tokens) model_call

  abbrev dedup : Option cache.Docs → List Text → Outcome (List (Vector Number)) × Option cache.Docs
  dedup =
      embed_deduplicated Number tok (pos max_items) (pos max_tokens) model_call cache sha256 model
        dimensions answers lands

  abbrev cached_of : Option cache.Docs → List Text → Vectors Number
  cached_of =
      read_cache Number tok (pos max_items) (pos max_tokens) model_call cache sha256 model
        dimensions answers lands

  -- What the cache lacks of a flush.
  abbrev missing_of : Option cache.Docs → List Text → List Text
  missing_of d ts = not_cached Number (cached_of d (distinct ts)) (distinct ts)

  found_or_missing :
      (cached : Vectors Number) (ts : List Text) (t : Text)
      → is_listed t ts ≡ true
      → is_some (
          vector_of Number
            (paired Number
                (not_cached Number cached (distinct ts))
                (map embed (not_cached Number cached (distinct ts)))
              ++ cached)
            t)
        ≡ true
  found_or_missing cached ts t h =
      let either = not_cached-is_listed cached (distinct ts) t (distinct-is_listed ts t h) in
      rw
        (
          is_some-append
              (paired Number (not_cached Number cached (distinct ts))
                (map embed (not_cached Number cached (distinct ts))))
              cached t,
          paired-is_some embed (not_cached Number cached (distinct ts)) t,
        )
        (ground (arith, either))

  recombines :
      (cached : Vectors Number) (ts : List Text)
      → IsFaithful embed cached
      → recombine Number
          (paired Number
              (not_cached Number cached (distinct ts))
              (map embed (not_cached Number cached (distinct ts)))
            ++ cached)
          ts
        ≡ done (map embed ts)
  recombines cached ts f =
      recombine_lem embed _ ts
        (All-append (λ p. p.1 ≡ embed p.0) _ _
          (paired-IsFaithful embed (not_cached Number cached (distinct ts))) f)
        (All-map (found_or_missing cached ts) ts (listed_all ts))

  -- Where the texts that are missing are embedded, or the call fails, so is the flush.
  after :
      (d : Option cache.Docs) (ts ms : List Text) (cached : Vectors Number)
      → IsSoundAt d
      → recombine Number (paired Number ms (map embed ms) ++ cached) ts ≡ done (map embed ts)
      → IsOr P (texts_of ms) (map embed ms)
      → let r =
          embed_missing Number tok
            (pos max_items)
            (pos max_tokens)
            model_call
            cache
            sha256
            model
            dimensions
            answers
            lands
            d
            ts
            cached
            ms in
        IsOr P r.0 (map embed ts) × IsSoundAt r.1
  unfolding paired
  after d ts [] cached h e o = (inl e, h)
  after d ts (m ∷ ms) cached h e (inr (x, f, k)) = rw f (inr (x, refl, k), h)
  after d ts (m ∷ ms) cached h e (inl f) =
      let same : (length (map embed (m ∷ ms)) == length (m ∷ ms)) ≡ true =
        ground (arith, length-map embed (m ∷ ms)) in
      rw f (rw same (inl e, write_cache-IsSoundAt d _ h (paired-IsFaithful embed (m ∷ ms))))

  paired_nodes :
      (ns : List EmbedNode)
      → paired Number ns (map embed (map (λ n. n.content) ns)) ≡ map (λ n. (n, embed n.content)) ns
  unfolding paired
  paired_nodes [] = refl
  paired_nodes (n ∷ ns) = ap (λ x. (n, embed n.content) ∷ x) (paired_nodes ns)

  abbrev contents : List EmbedNode → List Text
  contents ns = map (λ n. n.content) ns

  abbrev points_of :
      List EmbedNode
      → Outcome (List (Vector Number)) × Option cache.Docs
      → Outcome (ℕ × List (EmbedNode × Vector Number)) × Option cache.Docs
  points_of ns r =
      add_points Number tok (pos max_items) (pos max_tokens) model_call cache sha256 model
        dimensions answers lands ns r

  add_points-IsOr :
      (ns : List EmbedNode) (o : Outcome (List (Vector Number))) (d : Option cache.Docs)
      → IsOr P o (map embed (contents ns))
      → IsSoundAt d
      → IsOr P (points_of ns (o, d)).0 (length ns, map (λ n. (n, embed n.content)) ns)
        × IsSoundAt (points_of ns (o, d)).1
  add_points-IsOr ns o d (inr (e, f, k)) h = rw f (inr (e, refl, k), h)
  add_points-IsOr ns o d (inl f) h =
      let same : (length (map embed (contents ns)) == length ns) ≡ true =
        ground
          (arith, length-map embed (contents ns), length-map (λ (n : EmbedNode). n.content) ns) in
      rw f (rw (same, paired_nodes ns) (inl refl, h))

  abbrev upsert :
      Option cache.Docs
      → List EmbedNode
      → Outcome (ℕ × List (EmbedNode × Vector Number)) × Option cache.Docs
  upsert =
      embed_and_upsert Number tok (pos max_items) (pos max_tokens) model_call cache sha256 model
        dimensions answers lands

  kept_of :
      (d : Option cache.Docs) (ns : List EmbedNode)
      → IsOr P (dedup d (contents ns)).0 (map embed (contents ns))
        × IsSoundAt (dedup d (contents ns)).1
      → IsSoundAt d
      → let r =
          embed_kept Number tok
            (pos max_items)
            (pos max_tokens)
            model_call
            cache
            sha256
            model
            dimensions
            answers
            lands
            d
            ns in
        IsOr P r.0 (length ns, map (λ n. (n, embed n.content)) ns) × IsSoundAt r.1
  kept_of d [] o h = (inl refl, h)
  kept_of d (n ∷ ns) o h =
      add_points-IsOr (n ∷ ns) (dedup d (contents (n ∷ ns))).0 (dedup d (contents (n ∷ ns))).1 o.0
        o.1

  module _ (Good : Text → Type 0)
      (runs : (ts : List Text) → All Good ts → IsOr P (texts_of ts) (map embed ts)) where
    -- Whatever a sound cache holds, each text gets its own vector, or the call fails.
    dedup-IsOr :
        (d : Option cache.Docs) (ts : List Text)
        → All Good ts
        → IsSoundAt d
        → IsOr P (dedup d ts).0 (map embed ts) × IsSoundAt (dedup d ts).1
    unfolding embed_deduplicated
    dedup-IsOr d ts c h =
        after d ts (missing_of d ts) (cached_of d (distinct ts)) h
          (recombines (cached_of d (distinct ts)) ts (read_cache-IsFaithful d (distinct ts) h))
          (runs (missing_of d ts) (
            not_cached-All Good (cached_of d (distinct ts)) (distinct ts)
              (distinct_after-All Good [] ts c)))

    pub upsert-IsOr :
        (d : Option cache.Docs) (nodes : List EmbedNode)
        → All Good (contents (keep_filled nodes))
        → IsSoundAt d
        → IsOr P (upsert d nodes).0 (embedded embed nodes) × IsSoundAt (upsert d nodes).1
    unfolding embed_and_upsert
    upsert-IsOr d nodes c h =
        kept_of d (keep_filled nodes) (dedup-IsOr d (contents (keep_filled nodes)) c h) h
