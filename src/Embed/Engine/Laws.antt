-- ===== src/Embed/Engine/Laws.antt =====
-- What the engine makes of a flush, beside one call of the model for each text.
use geek_crawler_rag.Base.{
  is_listed, ◌≡◌, ◌⊎◌, refl, sym, Bool, true, false, ◌||◌, List, [], ◌∷◌, ◌++◌, map, arith, inl,
  inr, Text, text_eq, text_eq_iff, text_eq_refl, All, Bool-cases, Option-cases, is_some, is_empty,
  strip,
}
use geek_crawler_rag.Embed.Sanitize.{
  sanitize_embedding_text, sanitize_embedding_texts, sanitize_idem,
}
use geek_crawler_rag.Embed.Cache.{distinct_after, Vector, Vectors, vector_of}
use geek_crawler_rag.Embed.Cache.Laws.{IsFaithful, vector_of-IsFaithful}
use geek_crawler_rag.Embed.Engine.{
  EmbedError, Outcome, done, failed, EmbedNode, drop_blank, keep_filled, not_cached, paired,
  recombine,
}

-- A text that the engine hands on as it is.
abbrev pub IsClean : Text → Type 0
IsClean t = (sanitize_embedding_text t ≡ t) × (is_empty (strip t) ≡ false)

pub clean_fixed :
    (texts : List Text) → All IsClean texts → drop_blank (sanitize_embedding_texts texts).0 ≡ texts
unfolding drop_blank sanitize_embedding_texts
clean_fixed [] h = refl
clean_fixed (t ∷ ts) h = rw (h.0.0, h.0.1, clean_fixed ts h.1) refl

pub keep_filled-IsClean :
    (nodes : List EmbedNode) → All IsClean (map (λ n. n.content) (keep_filled nodes))
unfolding keep_filled
keep_filled-IsClean [] = tt
keep_filled-IsClean (n ∷ ns) =
    elim (Bool-cases (is_empty (strip (sanitize_embedding_text n.content)))) [
      | inl y ↦ rw y (keep_filled-IsClean ns)
      | inr k ↦ rw k ((sanitize_idem n.content, k), keep_filled-IsClean ns)
    ]

pub distinct_after-All :
    (P : Text → Type 0) (seen texts : List Text) → All P texts → All P (distinct_after seen texts)
unfolding distinct_after
distinct_after-All P seen [] h = tt
distinct_after-All P seen (t ∷ ts) h = elim (Bool-cases (is_listed t seen)) [
  | inl y ↦ rw y (distinct_after-All P seen ts h.1)
  | inr n ↦ rw n (h.0, distinct_after-All P (t ∷ seen) ts h.1)
]

pub or_true : (b : Bool) → (b || true) ≡ true
or_true b = ground arith

pub true_is_some : false ≡ true → ⊥
true_is_some e = cc

-- A failure of the model or of the partition, and not of the code that recombines.
abbrev pub IsModelFailure : EmbedError → Type 0
IsModelFailure (EmbedError.refused e) = Unit
IsModelFailure EmbedError.circuit_open = Unit
IsModelFailure (EmbedError.quarantined b) = Unit
IsModelFailure EmbedError.missing_text = ⊥
IsModelFailure EmbedError.unequal_lengths = ⊥

-- The outcome is the value, or a failure of the kind.
abbrev pub IsOr : {A : Type 0} → (EmbedError → Type 0) → Outcome A → A → Type 0
IsOr P o a = (o ≡ done a) ⊎ ((e : EmbedError) × (o ≡ failed e) × P e)

module _ {Number : Type 0} where
  pub not_cached-All :
      (P : Text → Type 0) (cached : Vectors Number) (ts : List Text)
      → All P ts
      → All P (not_cached Number cached ts)
  unfolding not_cached
  not_cached-All P cached [] h = tt
  not_cached-All P cached (t ∷ ts) h = elim (Bool-cases (is_some (vector_of Number cached t))) [
    | inl y ↦ rw y (not_cached-All P cached ts h.1)
    | inr n ↦ rw n (h.0, not_cached-All P cached ts h.1)
  ]

  pub not_cached-is_listed :
      (cached : Vectors Number) (ts : List Text) (t : Text)
      → is_listed t ts ≡ true
      → (is_some (vector_of Number cached t) || is_listed t (not_cached Number cached ts)) ≡ true
  unfolding not_cached is_listed
  not_cached-is_listed cached [] t h = cc
  not_cached-is_listed cached (u ∷ us) t h = elim (Bool-cases (text_eq u t)) [
    | inl y ↦ elim (Bool-cases (is_some (vector_of Number cached u))) [
      | inl s ↦
          let here : is_some (vector_of Number cached t) ≡ true =
            rw (sym ((text_eq_iff u t).0 y)) s in
          rw here refl
      | inr n ↦ rw (n, y) (or_true (is_some (vector_of Number cached t)))
    ]
    | inr k ↦
        let later = not_cached-is_listed cached us t (rw k at h) in
        elim (Bool-cases (is_some (vector_of Number cached u))) [
          | inl s ↦ rw s later
          | inr n ↦ rw (n, k) later
        ]
  ]

  pub is_some-append :
      (vs ws : Vectors Number) (t : Text)
      → is_some (vector_of Number (vs ++ ws) t)
        ≡ (is_some (vector_of Number vs t) || is_some (vector_of Number ws t))
  unfolding vector_of
  is_some-append [] ws t = refl
  is_some-append ((u, v) ∷ vs) ws t = elim (Bool-cases (text_eq u t)) [
    | inl y ↦ rw y refl
    | inr n ↦ rw n (is_some-append vs ws t)
  ]

  module _ (embed : Text → Vector Number) where
    pub paired-IsFaithful : (ts : List Text) → IsFaithful embed (paired Number ts (map embed ts))
    unfolding paired
    paired-IsFaithful [] = tt
    paired-IsFaithful (t ∷ ts) = (refl, paired-IsFaithful ts)

    pub paired-is_some :
        (ts : List Text) (t : Text)
        → is_some (vector_of Number (paired Number ts (map embed ts)) t) ≡ is_listed t ts
    unfolding paired vector_of is_listed
    paired-is_some [] t = refl
    paired-is_some (u ∷ us) t = elim (Bool-cases (text_eq u t)) [
      | inl y ↦ rw y refl
      | inr n ↦ rw n (paired-is_some us t)
    ]

    -- A faithful dictionary that has every text gives each its own vector.
    pub recombine_lem :
        (by_text : Vectors Number) (ts : List Text)
        → IsFaithful embed by_text
        → All (λ t. is_some (vector_of Number by_text t) ≡ true) ts
        → recombine Number by_text ts ≡ done (map embed ts)
    unfolding recombine
    recombine_lem by_text [] f h = refl
    recombine_lem by_text (t ∷ ts) f h = elim (Option-cases (vector_of Number by_text t)) [
      | inl n ↦ absurd (true_is_some (rw n at h.0))
      | inr (v, e) ↦
          rw (e, recombine_lem by_text ts f h.1, vector_of-IsFaithful embed by_text t v f e) refl
    ]

-- Every text of a list is listed in it.
listed_more :
    (u : Text) (us ts : List Text)
    → All (λ t. is_listed t us ≡ true) ts
    → All (λ t. is_listed t (u ∷ us) ≡ true) ts
unfolding is_listed
listed_more u us [] h = tt
listed_more u us (t ∷ ts) h = (rw h.0 (or_true (text_eq u t)), listed_more u us ts h.1)

pub listed_all : (ts : List Text) → All (λ t. is_listed t ts ≡ true) ts
unfolding is_listed
listed_all [] = tt
listed_all (t ∷ ts) = (rw (text_eq_refl t) refl, listed_more t ts ts (listed_all ts))
