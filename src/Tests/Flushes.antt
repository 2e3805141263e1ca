-- ===== src/Tests/Flushes.antt =====
-- A flush of four nodes, with one of its texts in the cache, and a model of vectors of one number.
use native.Mathlib.Decide.{ℕ_discrete}
use geek_crawler_rag.Base.{
  ℕ, ◌≤◌, ◌≡◌, ◌∙◌, ◌++◌, refl, sym, ap, pos, true, List, [], ◌∷◌, map, Option, none, some, length,
  All, arith, Text, text_eq, text_eq_iff, codes, inl, inr, Bool-cases, strip,
}
use geek_crawler_rag.Mongo.Collection.{Collection}
use geek_crawler_rag.Mongo.Memory.{memory}
use geek_crawler_rag.Embed.Batching.{embedding_token_count, total_tokens}
use geek_crawler_rag.Embed.Cache.{cache_key, Vector, CacheRow}
use geek_crawler_rag.Embed.Cache.Laws.{cache_key_unique, IsSound}
use geek_crawler_rag.Embed.Sanitize.{sanitize_embedding_text, sanitize_char}
use geek_crawler_rag.Embed.Engine.{
  Answer, vectors, raises, done, EmbedNode, keep_filled, embed_and_upsert,
}
use geek_crawler_rag.Embed.Engine.Laws.{IsOr, IsModelFailure}
use geek_crawler_rag.Embed.Engine.Flush.{embedded, IsSafe}
use geek_crawler_rag.Embed.Engine.Upsert.{embed_and_upsert-IsOr, embed_and_upsert_total}
use geek_crawler_rag.Tests.Chunks.{char_tokenizer}

abbrev measure : Text → Vector ℕ
measure t = length t ∷ []

abbrev node : Text → Text → EmbedNode
node i t = record { node_id = i; content = t }

abbrev nodes : List EmbedNode
nodes =
    node (codes "1") (codes "abc")
    ∷ node (codes "2") (codes "a" ++ (0 ∷ []) ++ codes "bc")
    ∷ node (codes "3") (32 ∷ 8203 ∷ [])
    ∷ node (codes "4") (codes "de")
    ∷ []

CacheRow-discrete : Discrete (CacheRow ℕ)
CacheRow-discrete = hlevel ℕ_discrete

abbrev cache : Collection (CacheRow ℕ)
cache = memory CacheRow-discrete

abbrev identity : Text → Text
identity t = t

abbrev key_of : Text → Text
key_of t = cache_key identity (codes "m") t

abbrev row : CacheRow ℕ
row = record { model = codes "m"; dimensions = 1; vector = some (2 ∷ []) }

abbrev docs : cache.Docs
unfolding memory
docs = (cache_key identity (codes "m") (codes "de"), some row) ∷ []

none_is_some : (r : CacheRow ℕ) → let missing : Option (CacheRow ℕ) = none in missing ≡ some r → ⊥
none_is_some r e = cc

docs-IsSound : IsSound measure cache identity (codes "m") 1 docs
unfolding memory
docs-IsSound t r v e w l = elim (Bool-cases (text_eq (key_of (codes "de")) (key_of t))) [
  | inl y ↦
      let here =
        cache_key_unique identity (codes "m") (λ x y e. e) (codes "de") t
          ((text_eq_iff (key_of (codes "de")) (key_of t)).0 y) in
      let found : some row ≡ some r = rw y at e in
      let rows : row ≡ r = cc in
      let read : some (2 ∷ []) ≡ some v = ap (λ x. x.vector) rows ∙ w in
      let single : (2 ∷ []) ≡ v = cc in sym single ∙ ap measure here
  | inr n ↦ absurd (none_is_some r (rw n at e))
]

nodes_kept :
    keep_filled nodes
    ≡ node (codes "1") (codes "abc")
      ∷ node (codes "2") (codes "abc")
      ∷ node (codes "4") (codes "de")
      ∷ []
unfolding keep_filled sanitize_embedding_text sanitize_char strip
nodes_kept = refl

nodes_fit :
    All
      (λ t. embedding_token_count char_tokenizer (t ∷ []) ≤ 8)
      (map (λ n. n.content) (keep_filled nodes))
unfolding keep_filled sanitize_embedding_text sanitize_char strip embedding_token_count total_tokens
nodes_fit = (omega arith, (omega arith, (omega arith, tt)))

embed_and_upsert_total_example :
    (embed_and_upsert ℕ char_tokenizer
      (pos 2)
      (pos 8)
      (λ ts. vectors (map measure ts))
      cache
      identity
      (codes "m")
      1
      true
      (λ t. true)
      (some docs)
      nodes).0
    ≡ done (embedded measure nodes)
embed_and_upsert_total_example =
    embed_and_upsert_total measure char_tokenizer 2 8 (λ ts. vectors (map measure ts)) cache
      identity (codes "m") 1 true (λ t. true) (some docs) nodes (λ ts. refl) (λ s t e. e)
      (omega arith) (omega arith) nodes_fit docs-IsSound

-- A model that raises over any batch but one of a single text.
abbrev picky : List Text → Answer ℕ
picky [] = raises
picky (t ∷ []) = vectors (measure t ∷ [])
picky (t ∷ u ∷ ts) = raises

picky_measures :
    (ts : List Text) (vs : List (Vector ℕ)) → picky ts ≡ vectors vs → vs ≡ map measure ts
picky_measures [] vs e = cc
picky_measures (t ∷ []) vs e = cc
picky_measures (t ∷ u ∷ ts) vs e = cc

embed_and_upsert-IsOr_example :
    let r =
      embed_and_upsert ℕ char_tokenizer
        (pos 2)
        (pos 8)
        picky
        cache
        identity
        (codes "m")
        1
        true
        (λ t. true)
        (some docs)
        nodes in
    IsOr IsModelFailure r.0 (embedded measure nodes)
    × IsSafe measure cache identity (codes "m") 1 r.1
embed_and_upsert-IsOr_example =
    embed_and_upsert-IsOr measure char_tokenizer 2 8 picky cache identity (codes "m") 1 true
      (λ t. true) (some docs) nodes picky_measures (λ s t e. e) docs-IsSound
