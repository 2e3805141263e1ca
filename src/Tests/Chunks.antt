-- ===== src/Tests/Chunks.antt =====
-- Chunks of short texts, under two tokenizers.
use geek_crawler_rag.Base.{
  ℕ, zero, suc, ◌+◌, ◌≤◌, ◌<◌, ◌≡◌, refl, pos, List, [], ◌∷◌, some, arith, if◌then◌else◌, ◌==◌,
  length, All, Text, codes, strip,
}
use geek_crawler_rag.Chunk.Window.{
  ChunkTokenizer, Window, ok, chunk_text, chunk_windows, fit_window, pieces,
}
use geek_crawler_rag.Chunk.Budget.{Fits, chunk_text-Fits}
use geek_crawler_rag.Chunk.Coverage.{
  Covered, IsCompact, chunk_text_total, chunk_windows-Covered, chunk_windows_gap,
}

abbrev pub char_spans : ℕ → Text → List (ℕ × ℕ)
char_spans i [] = []
char_spans i (c ∷ t) = (i, suc i) ∷ char_spans (suc i) t

-- One token for each character, and a model of 8 tokens of which 2 are special.
abbrev pub char_tokenizer : ChunkTokenizer
char_tokenizer = record {
  sequence_limit = 8;
  special_token_overhead = 2;
  token_spans = char_spans 0;
}

-- A text of two characters is three tokens on its own, though two inside a longer one.
abbrev split_spans : Text → List (ℕ × ℕ)
split_spans t = if length t == 2 then (0, 1) ∷ (1, 2) ∷ (1, 2) ∷ [] else char_spans 0 t

abbrev splitting_tokenizer : ChunkTokenizer
splitting_tokenizer = record {
  sequence_limit = 0;
  special_token_overhead = 2;
  token_spans = split_spans;
}

abbrev seven : Text
seven = codes " abcdefg "

abbrev seven_chunks : List Text
seven_chunks = codes "abcd" ∷ codes "defg" ∷ []

chunk_text-seven : chunk_text char_tokenizer seven (pos 4) (pos 1) ≡ ok seven_chunks
unfolding chunk_text chunk_windows pieces strip
chunk_text-seven = refl

chunk_text-Fits_example :
    All (Fits char_tokenizer 4) seven_chunks
    × (2 < 8 → All (λ c. length (char_spans 0 c) + 2 ≤ 8) seven_chunks)
chunk_text-Fits_example =
    chunk_text-Fits char_tokenizer seven (pos 4) (pos 1) seven_chunks chunk_text-seven

chunk_text_total_example :
    (cs : List Text) × (chunk_text char_tokenizer seven (pos 4) (pos 1) ≡ ok cs)
chunk_text_total_example = chunk_text_total char_tokenizer seven 4 1 (omega arith) refl

abbrev two_windows : List Window
two_windows =
    record { first = 0; last = 1; piece = codes "a" }
    ∷ record { first = 1; last = 2; piece = codes "b" }
    ∷ []

ab-IsCompact : IsCompact char_tokenizer (codes "ab") (char_spans 0 (codes "ab")) 1
unfolding strip
ab-IsCompact zero zero h k = (refl, omega arith)
ab-IsCompact (suc zero) zero h k = (refl, omega arith)
ab-IsCompact (suc (suc start)) count h k = absurd (omega arith)
ab-IsCompact start (suc count) h k = absurd (omega arith)

two_windows_run : chunk_windows char_tokenizer (codes "ab") 1 0 ≡ some two_windows
unfolding chunk_windows strip
two_windows_run = refl

chunk_windows-Covered_example : Covered 1 two_windows
chunk_windows-Covered_example =
    chunk_windows-Covered char_tokenizer (codes "ab") 1 0 two_windows 1 ab-IsCompact (omega arith)
      two_windows_run (omega arith)

abbrev gap_windows : List Window
gap_windows =
    record { first = 0; last = 1; piece = codes "a" }
    ∷ record { first = 2; last = 3; piece = codes "c" }
    ∷ []

gap_windows_run : chunk_windows splitting_tokenizer (codes "abc") 2 0 ≡ some gap_windows
unfolding chunk_windows strip
gap_windows_run = refl

-- The first window of "abc" shrinks to one character, and the "b" after it is in no chunk.
chunk_windows_gap_example : ¬ Covered 1 gap_windows
unfolding fit_window strip
chunk_windows_gap_example =
    chunk_windows_gap splitting_tokenizer (codes "abc") 2 0 gap_windows (omega arith) (omega arith)
      gap_windows_run
