-- ===== src/Embed/Batching.antt =====
-- `partition_embedding_batches` of src/geek_crawler_rag/embedding_batching.py.
pub mod Laws
use geek_crawler_rag.Base.{
  ℕ, zero, suc, ◌+◌, max, ℤ, pos, negsuc, Bool, true, false, ◌&&◌, ◌||◌, List, [], ◌∷◌, ◌++◌, ltb,
  leb, if◌then◌else◌, length, Text,
}
use geek_crawler_rag.Chunk.Window.{ChunkTokenizer}

pub record EmbeddingBatch : Type 0 where
  pub texts : List Text
  pub token_count : ℕ

pub data BatchError : Type 0 where
  limits_not_positive single_input_too_long : BatchError

pub data Result {ℓ} (A : Type ℓ) : Type ℓ where
  ok : A → Result A
  err : BatchError → Result A

unfoldable pub total_tokens : ChunkTokenizer → List Text → ℕ
total_tokens tok [] = 0
total_tokens tok (t ∷ ts) = length (tok.token_spans t) + total_tokens tok ts

unfoldable pub embedding_token_count : ChunkTokenizer → List Text → ℕ
embedding_token_count tok texts = max 1 (total_tokens tok texts)

abbrev pub is_nil : {A : Type 0} → List A → Bool
is_nil [] = true
is_nil (x ∷ xs) = false

module _ (tok : ChunkTokenizer) (max_items max_tokens : ℕ) where
  -- `current and (len(current) >= max_items or current_tokens + tokens > max_tokens)`
  abbrev pub must_flush : List Text → ℕ → ℕ → Bool
  must_flush [] current_tokens tokens = false
  must_flush (t ∷ ts) current_tokens tokens =
      leb max_items (length (t ∷ ts)) || ltb max_tokens (current_tokens + tokens)

  -- The loop over the texts, with the batches made so far and the one that is open.
  unfoldable pub fill_batches :
      List Text → List EmbeddingBatch → List Text → ℕ → Result (List EmbeddingBatch)
  fill_batches [] batches [] current_tokens = ok batches
  fill_batches [] batches (c ∷ cs) current_tokens =
      ok (batches ++ record { texts = c ∷ cs; token_count = current_tokens } ∷ [])
  fill_batches (text ∷ texts) batches current current_tokens =
      let tokens = embedding_token_count tok (text ∷ []) in
      let flushed =
        fill_batches texts
          (batches ++ record { texts = current; token_count = current_tokens } ∷ []) (text ∷ [])
          tokens in
      let extended = fill_batches texts batches (current ++ text ∷ []) (current_tokens + tokens) in
      if ltb max_tokens tokens
      then err single_input_too_long
      else if must_flush current current_tokens tokens
      then flushed
      else extended

unfoldable pub partition_embedding_batches :
    ChunkTokenizer → List Text → ℤ → ℤ → Result (List EmbeddingBatch)
partition_embedding_batches tok texts (negsuc i) max_tokens = err limits_not_positive
partition_embedding_batches tok texts (pos i) (negsuc t) = err limits_not_positive
partition_embedding_batches tok texts (pos i) (pos t) =
    if leb i 0 || leb t 0 then err limits_not_positive else fill_batches tok i t texts [] [] 0
