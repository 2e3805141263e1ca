-- ===== src/Embed/Sanitize.antt =====
-- src/geek_crawler_rag/embedding_sanitize.py: the characters that no embedder is handed.
use geek_crawler_rag.Base.{
  ℕ, suc, ◌≡◌, ◌∙◌, refl, ap, inl, inr, Bool, ◌&&◌, ◌||◌, List, [], ◌∷◌, ◌++◌, if◌then◌else◌, leb,
  ◌==◌, Bool-cases, Text, text_eq,
}

-- A lone surrogate; its three bytes are decoded to a replacement character each.
abbrev pub is_surrogate : ℕ → Bool
is_surrogate c = leb 55296 c && leb c 57343

-- `_CONTROL_RE`, with the null character among them.
abbrev pub is_control : ℕ → Bool
is_control c = leb c 8 || c == 11 || c == 12 || (leb 14 c && leb c 31) || c == 127

-- `_ZERO_WIDTH_RE`
abbrev pub is_zero_width : ℕ → Bool
is_zero_width c = (leb 8203 c && leb c 8205) || c == 65279 || c == 173

-- What becomes of one character.
unfoldable pub sanitize_char : ℕ → Text
sanitize_char c =
    if is_surrogate c
    then 65533 ∷ 65533 ∷ 65533 ∷ []
    else if is_control c || is_zero_width c
    then []
    else c ∷ []

unfoldable pub sanitize_embedding_text : Text → Text
sanitize_embedding_text [] = []
sanitize_embedding_text (c ∷ t) = sanitize_char c ++ sanitize_embedding_text t

-- The cleaned texts, and how many of them changed.
unfoldable pub sanitize_embedding_texts : List Text → List Text × ℕ
sanitize_embedding_texts [] = ([], 0)
sanitize_embedding_texts (t ∷ ts) =
    let (cleaned, mutated) = sanitize_embedding_texts ts in
    let safe = sanitize_embedding_text t in
    (safe ∷ cleaned, if text_eq safe t then mutated else suc mutated)

-- What one character becomes is clean.
sanitize_char-clean :
    (c : ℕ) (t : Text)
    → sanitize_embedding_text (sanitize_char c ++ t) ≡ sanitize_char c ++ sanitize_embedding_text t
unfolding sanitize_embedding_text sanitize_char
sanitize_char-clean c t = elim (Bool-cases (is_surrogate c)) [
  | inl s ↦ rw s refl
  | inr s ↦ elim (Bool-cases (is_control c || is_zero_width c)) [
    | inl z ↦ rw (s, z) refl
    | inr z ↦ rw (s, z) (rw (s, z) refl)
  ]
]

-- Cleaning a text that was cleaned changes nothing.
pub sanitize_idem :
    (t : Text) → sanitize_embedding_text (sanitize_embedding_text t) ≡ sanitize_embedding_text t
unfolding sanitize_embedding_text
sanitize_idem [] = refl
sanitize_idem (c ∷ t) =
    sanitize_char-clean c (sanitize_embedding_text t)
    ∙ ap (λ x. sanitize_char c ++ x) (sanitize_idem t)
