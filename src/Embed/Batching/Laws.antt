-- ===== src/Embed/Batching/Laws.antt =====
-- What a partition into batches keeps, and how large the batches are.
use geek_crawler_rag.Base.{
  ℕ, ◌+◌, ◌≤◌, ◌<◌, ◌≡◌, ◌∙◌, ◌↔◌, refl, pos, true, false, ◌||◌, List, [], ◌∷◌, ◌++◌, ltb, leb,
  arith, ◌⊎◌, inl, inr, length, length-append, Text, All, append-nil, append_assoc, Bool-cases,
}
use geek_crawler_rag.Chunk.Window.{ChunkTokenizer}
use geek_crawler_rag.Embed.Batching.{
  EmbeddingBatch, ok, embedding_token_count, must_flush, fill_batches, partition_embedding_batches,
}

-- The texts of the batches, in order.
abbrev pub batch_texts : List EmbeddingBatch → List Text
batch_texts [] = []
batch_texts (b ∷ bs) = b.texts ++ batch_texts bs

batch_texts-append :
    (bs cs : List EmbeddingBatch) → batch_texts (bs ++ cs) ≡ batch_texts bs ++ batch_texts cs
batch_texts-append [] cs = refl
batch_texts-append (b ∷ bs) cs = simp (batch_texts-append bs cs, append_assoc)

-- The sum of the sizes that the loop counts, one text at a time.
abbrev pub sum_counts : ChunkTokenizer → List Text → ℕ
sum_counts tok [] = 0
sum_counts tok (t ∷ ts) = embedding_token_count tok (t ∷ []) + sum_counts tok ts

sum_counts-append :
    (tok : ChunkTokenizer) (xs ys : List Text)
    → sum_counts tok (xs ++ ys) ≡ sum_counts tok xs + sum_counts tok ys
sum_counts-append tok [] ys = omega arith
sum_counts-append tok (x ∷ xs) ys = omega (arith, sum_counts-append tok xs ys)

-- A batch holds some text, is within both limits, and states its own size.
pub record IsWithin (tok : ChunkTokenizer) (max_items max_tokens : ℕ) (b : EmbeddingBatch)
    : Type 0 where
  pub filled : 0 < length b.texts
  pub items : length b.texts ≤ max_items
  pub tokens : b.token_count ≤ max_tokens
  pub counted : b.token_count ≡ sum_counts tok b.texts

module _ (tok : ChunkTokenizer) (max_items max_tokens : ℕ) where
  abbrev flush : List EmbeddingBatch → List Text → ℕ → List EmbeddingBatch
  flush batches current n = batches ++ record { texts = current; token_count = n } ∷ []

  -- A round of a loop that succeeds flushes or extends the open batch.
  fill_batches_step :
      (text : Text) (texts : List Text) (batches : List EmbeddingBatch) (current : List Text)
      (n : ℕ) (bs : List EmbeddingBatch)
      → fill_batches tok max_items max_tokens (text ∷ texts) batches current n ≡ ok bs
      → let tokens = embedding_token_count tok (text ∷ []) in
        (tokens ≤ max_tokens)
        × (((must_flush tok max_items max_tokens current n tokens ≡ true)
              × (fill_batches tok max_items max_tokens texts
                    (flush batches current n)
                    (text ∷ [])
                    tokens
                  ≡ ok bs))
            ⊎ ((must_flush tok max_items max_tokens current n tokens ≡ false)
                × (fill_batches tok max_items max_tokens texts batches
                      (current ++ text ∷ [])
                      (n + tokens)
                    ≡ ok bs)))
  unfolding fill_batches
  fill_batches_step text texts batches current n bs e = ground arith

  fill_batches-texts :
      (texts : List Text) (batches : List EmbeddingBatch) (current : List Text) (n : ℕ)
      (bs : List EmbeddingBatch)
      → fill_batches tok max_items max_tokens texts batches current n ≡ ok bs
      → batch_texts bs ≡ batch_texts batches ++ (current ++ texts)
  unfolding fill_batches
  fill_batches-texts [] batches [] n bs e = rw append-nil (ground arith)
  fill_batches-texts [] batches (c ∷ cs) n bs e =
      let shape : bs ≡ flush batches (c ∷ cs) n = ground arith in
      rw shape (simp (batch_texts-append, append-nil))
  fill_batches-texts (text ∷ texts) batches current n bs e =
      elim (fill_batches_step text texts batches current n bs e).1 [
        | inl (_, s) ↦
            fill_batches-texts texts (flush batches current n) (text ∷ []) _ bs s
            ∙ simp (batch_texts-append, append-nil, append_assoc)
        | inr (_, s) ↦
            fill_batches-texts texts batches (current ++ text ∷ []) _ bs s ∙ simp append_assoc
      ]

  abbrev Batches : List EmbeddingBatch → Type 0
  Batches = All (IsWithin tok max_items max_tokens)

  flush-Batches :
      (batches : List EmbeddingBatch) (b : EmbeddingBatch)
      → Batches batches
      → IsWithin tok max_items max_tokens b
      → Batches (batches ++ b ∷ [])
  flush-Batches [] b h w = (w, tt)
  flush-Batches (x ∷ xs) b h w = (h.0, flush-Batches xs b h.1 w)

  flush-IsWithin :
      (current : List Text) (n tokens : ℕ)
      → must_flush tok max_items max_tokens current n tokens ≡ true
      → length current ≤ max_items
      → n ≤ max_tokens
      → n ≡ sum_counts tok current
      → IsWithin tok max_items max_tokens (record { texts = current; token_count = n })
  flush-IsWithin [] n tokens f l m c = cc
  flush-IsWithin (t ∷ ts) n tokens f l m c = record {
    filled = omega arith;
    items = l;
    tokens = m;
    counted = c;
  }

  extend_fits :
      (current : List Text) (text : Text) (n tokens : ℕ)
      → must_flush tok max_items max_tokens current n tokens ≡ false
      → 0 < max_items
      → tokens ≤ max_tokens
      → n ≡ sum_counts tok current
      → (length (current ++ text ∷ []) ≤ max_items) × (n + tokens ≤ max_tokens)
  extend_fits [] text n tokens k p t c = (omega arith, omega arith)
  extend_fits (x ∷ xs) text n tokens k p t c =
      ground (arith, length-append {A = Text} xs (text ∷ []))

  fill_batches-Batches :
      (texts : List Text) (batches : List EmbeddingBatch) (current : List Text) (n : ℕ)
      (bs : List EmbeddingBatch)
      → 0 < max_items
      → Batches batches
      → length current ≤ max_items
      → n ≤ max_tokens
      → n ≡ sum_counts tok current
      → fill_batches tok max_items max_tokens texts batches current n ≡ ok bs
      → Batches bs
  unfolding fill_batches
  fill_batches-Batches [] batches [] n bs p h l m c e = ground arith
  fill_batches-Batches [] batches (x ∷ xs) n bs p h l m c e =
      let shape : bs ≡ flush batches (x ∷ xs) n = ground arith in
      rw shape (
        flush-Batches batches _ h
          (record { filled = omega arith; items = l; tokens = m; counted = c }))
  fill_batches-Batches (text ∷ texts) batches current n bs p h l m c e =
      let (fits, next) = fill_batches_step text texts batches current n bs e in
      elim next [
        | inl (f, s) ↦
            fill_batches-Batches texts (flush batches current n) (text ∷ []) _ bs p
              (flush-Batches batches _ h (flush-IsWithin current n _ f l m c)) (omega arith) fits
              (omega arith) s
        | inr (k, s) ↦
            let (room, size) = extend_fits current text n _ k p fits c in
            fill_batches-Batches texts batches (current ++ text ∷ []) _ bs p h room size
              (omega (arith, sum_counts-append tok current (text ∷ []))) s
      ]

  -- The loop stops only at a text that is over the limit by itself.
  fill_batches_total :
      (texts : List Text) (batches : List EmbeddingBatch) (current : List Text) (n : ℕ)
      → All (λ t. embedding_token_count tok (t ∷ []) ≤ max_tokens) texts
      → (bs : List EmbeddingBatch) × (fill_batches tok max_items max_tokens texts batches current n
          ≡ ok bs)
  unfolding fill_batches
  fill_batches_total [] batches [] n h = (batches, refl)
  fill_batches_total [] batches (c ∷ cs) n h = (flush batches (c ∷ cs) n, refl)
  fill_batches_total (text ∷ texts) batches current n h =
      let tokens = embedding_token_count tok (text ∷ []) in
      let fits : ltb max_tokens tokens ≡ false = ground (arith, h.0) in
      elim (Bool-cases (must_flush tok max_items max_tokens current n tokens)) [
        | inl f ↦
            rw (fits, f) (fill_batches_total texts (flush batches current n) (text ∷ []) tokens h.1)
        | inr k ↦
            rw (fits, k) (fill_batches_total texts batches (current ++ text ∷ []) (n + tokens) h.1)
      ]

  fill_batches_fits :
      (texts : List Text) (batches : List EmbeddingBatch) (current : List Text) (n : ℕ)
      (bs : List EmbeddingBatch)
      → fill_batches tok max_items max_tokens texts batches current n ≡ ok bs
      → All (λ t. embedding_token_count tok (t ∷ []) ≤ max_tokens) texts
  fill_batches_fits [] batches current n bs e = tt
  fill_batches_fits (text ∷ texts) batches current n bs e =
      let (fits, next) = fill_batches_step text texts batches current n bs e in
      elim next [
        | inl (f, s) ↦ (fits, fill_batches_fits texts _ _ _ bs s)
        | inr (k, s) ↦ (fits, fill_batches_fits texts _ _ _ bs s)
      ]

-- A partition that succeeds keeps every text, in order; each of its batches holds a text, is within
-- both limits, and states the sum of its texts' sizes.
pub partition-IsWithin :
    (tok : ChunkTokenizer) (texts : List Text) (max_items max_tokens : ℕ) (bs : List EmbeddingBatch)
    → partition_embedding_batches tok texts (pos max_items) (pos max_tokens) ≡ ok bs
    → (batch_texts bs ≡ texts) × All (IsWithin tok max_items max_tokens) bs
unfolding partition_embedding_batches
partition-IsWithin tok texts max_items max_tokens bs e =
    let run : (0 < max_items) × (fill_batches tok max_items max_tokens texts [] [] 0 ≡ ok bs) =
      ground arith in
    (
      fill_batches-texts tok max_items max_tokens texts [] [] 0 bs run.1,
      fill_batches-Batches tok max_items max_tokens texts [] [] 0 bs run.0 tt (omega arith)
          (omega arith) refl run.1,
    )

-- Within positive limits the partition succeeds exactly when no text is over the token limit alone.
pub partition_total :
    (tok : ChunkTokenizer) (texts : List Text) (max_items max_tokens : ℕ)
    → 0 < max_items
    → 0 < max_tokens
    → ((bs : List EmbeddingBatch) × (partition_embedding_batches tok texts
            (pos max_items)
            (pos max_tokens)
          ≡ ok bs))
      ↔ All (λ t. embedding_token_count tok (t ∷ []) ≤ max_tokens) texts
unfolding partition_embedding_batches
partition_total tok texts max_items max_tokens p q =
    let open_limits : (leb max_items 0 || leb max_tokens 0) ≡ false = ground arith in
    (
      λ (bs, e). fill_batches_fits tok max_items max_tokens texts [] [] 0 bs (ground arith),
      λ h. rw open_limits (fill_batches_total tok max_items max_tokens texts [] [] 0 h),
    )
