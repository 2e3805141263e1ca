-- ===== src/Tests/Batches.antt =====
-- Batches of three texts, one token a character.
use geek_crawler_rag.Base.{◌≤◌, ◌≡◌, ◌↔◌, refl, pos, List, [], ◌∷◌, arith, All, Text, codes}
use geek_crawler_rag.Embed.Batching.{
  EmbeddingBatch, ok, partition_embedding_batches, embedding_token_count, fill_batches,
  total_tokens,
}
use geek_crawler_rag.Embed.Batching.Laws.{
  batch_texts, IsWithin, partition-IsWithin, partition_total,
}
use geek_crawler_rag.Tests.Chunks.{char_tokenizer}

abbrev texts : List Text
texts = codes "abc" ∷ codes "de" ∷ codes "f" ∷ []

abbrev batches : List EmbeddingBatch
batches =
    record { texts = codes "abc" ∷ []; token_count = 3 }
    ∷ record { texts = codes "de" ∷ codes "f" ∷ []; token_count = 3 }
    ∷ []

batches_run : partition_embedding_batches char_tokenizer texts (pos 2) (pos 4) ≡ ok batches
unfolding partition_embedding_batches fill_batches embedding_token_count total_tokens
batches_run = refl

partition-IsWithin_example :
    (batch_texts batches ≡ texts) × All (IsWithin char_tokenizer 2 4) batches
partition-IsWithin_example = partition-IsWithin char_tokenizer texts 2 4 batches batches_run

partition_total_example :
    ((bs : List EmbeddingBatch) × (partition_embedding_batches char_tokenizer texts (pos 2) (pos 4)
        ≡ ok bs))
    ↔ All (λ t. embedding_token_count char_tokenizer (t ∷ []) ≤ 4) texts
partition_total_example = partition_total char_tokenizer texts 2 4 (omega arith) (omega arith)
