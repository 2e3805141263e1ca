-- ===== src/Chunk/Budget.antt =====
-- Every chunk of `chunk_text` fits the token budget that was asked for, and the model.
use geek_crawler_rag.Base.{
  ℕ, zero, suc, ◌+◌, ◌-◌, ◌≤◌, ◌<◌, ◌≡◌, subst, inl, inr, ℤ, false, List, [], ◌∷◌, arith, length,
  All, All-map, Text, strip, is_empty, Option-cases,
}
use geek_crawler_rag.Chunk.Window.{
  ChunkTokenizer, Window, ok, fit_window, pieces, windows_induction, chunk_text, chunk_text_cases,
  chunk_windows, collect, to_ℕ,
}

-- The piece is kept, and was measured against the budget.
abbrev pub Fits : ChunkTokenizer → ℕ → Text → Type 0
Fits tok size piece = (is_empty piece ≡ false) × (length (tok.token_spans piece) ≤ size)

abbrev FitsWindow : ChunkTokenizer → ℕ → Window → Type 0
FitsWindow tok size w = is_empty w.piece ≡ false → length (tok.token_spans w.piece) ≤ size

module _ (tok : ChunkTokenizer) (cleaned : Text) (spans : List (ℕ × ℕ)) (size : ℕ) where
  fit_window-FitsWindow :
      (start count : ℕ) → FitsWindow tok size (fit_window tok cleaned spans size start count)
  unfolding fit_window
  fit_window-FitsWindow start zero h = cc
  fit_window-FitsWindow start (suc count) h = ground (arith, fit_window-FitsWindow start count)

pieces-Fits :
    (tok : ChunkTokenizer) (size : ℕ) (ws : List Window)
    → All (FitsWindow tok size) ws
    → All (Fits tok size) (pieces ws)
unfolding pieces
pieces-Fits tok size [] h = tt
pieces-Fits tok size (w ∷ ws) h = ground (arith, pieces-Fits tok size ws, h.0)

collect-Fits :
    (tok : ChunkTokenizer) (cleaned : Text) (size overlap : ℕ) (cs : List Text)
    → collect (chunk_windows tok cleaned size overlap) ≡ ok cs
    → All (Fits tok size) cs
collect-Fits tok cleaned size overlap cs e =
    elim (Option-cases (chunk_windows tok cleaned size overlap)) [
      | inl n ↦ ground (arith, n)
      | inr (ws, s) ↦ subst (All (Fits tok size)) (ground arith) (
          pieces-Fits tok size ws (
            windows_induction tok cleaned (tok.token_spans cleaned) size (FitsWindow tok size)
              (fit_window-FitsWindow tok cleaned (tok.token_spans cleaned) size) (size - overlap)
              (suc (length (tok.token_spans cleaned))) 0 ws (unfold chunk_windows in s)))
    ]

-- Every chunk is a non-empty text that the model's tokenizer measures within the size asked for;
-- where the model has a limit above its special tokens, chunk and special tokens stay within it.
pub chunk_text-Fits :
    (tok : ChunkTokenizer) (text : Text) (size overlap : ℤ) (cs : List Text)
    → chunk_text tok text size overlap ≡ ok cs
    → All (Fits tok (to_ℕ size)) cs
      × (tok.special_token_overhead < tok.sequence_limit
          → All
              (λ c. length (tok.token_spans c) + tok.special_token_overhead ≤ tok.sequence_limit)
              cs)
chunk_text-Fits tok text size overlap cs e = elim (chunk_text_cases tok text size overlap cs e) [
  | inl n ↦ (rw n tt, λ _. rw n tt)
  | inr (c, x) ↦
      let fits = collect-Fits tok (strip text) (to_ℕ size) (to_ℕ overlap) cs c in
      (
        fits,
        λ room.
            All-map (λ (p : Text) (f : Fits tok (to_ℕ size) p). ground (arith, f.1, room, x)) cs
              fits,
      )
]
