-- ===== src/Query/Fusion/Keys.antt =====
-- The keys of the dictionary, and what sorting keeps of them.
use geek_crawler_rag.Base.{
  ℕ, suc, ◌+◌, ◌≤◌, ◌≡◌, ◌∙◌, refl, sym, ap, true, false, ◌||◌, List, [], ◌∷◌, inl, inr, length,
  MemOf, Bool-cases, arith, Text, text_eq, text_eq_iff, text_eq_refl, is_listed, IsUnique,
}
use geek_crawler_rag.Query.Fusion.{
  Score, Scores, add_reciprocal, is_below, add_rank, add_ranks, insert_score, sort_scores,
}
use geek_crawler_rag.Query.Fusion.Order.{IsRatio, AreRatios}
use geek_crawler_rag.Query.Fusion.Ranks.{keys, score_at}

listed-add_rank :
    (rank : ℕ) (i : Text) (xs : Scores) (j : Text)
    → is_listed j (keys (add_rank rank i xs)) ≡ (is_listed j (keys xs) || text_eq i j)
unfolding add_rank is_listed
listed-add_rank rank i [] j = ground arith
listed-add_rank rank i ((k, s) ∷ xs) j = elim (Bool-cases (text_eq k i)) [
  | inl y ↦ let same : k ≡ i = (text_eq_iff k i).0 y in rw (y, same) (ground arith)
  | inr n ↦ rw (n, listed-add_rank rank i xs j) (ground arith)
]

pub listed-add_ranks :
    (rank : ℕ) (ids : List Text) (xs : Scores) (j : Text)
    → is_listed j (keys (add_ranks rank ids xs)) ≡ (is_listed j (keys xs) || is_listed j ids)
unfolding add_ranks is_listed
listed-add_ranks rank [] xs j = ground arith
listed-add_ranks rank (i ∷ ids) xs j =
    listed-add_ranks (suc rank) ids (add_rank rank i xs) j
    ∙ (rw (listed-add_rank rank i xs j) (ground arith))

flipped : (k i : Text) → text_eq k i ≡ false → text_eq i k ≡ false
flipped k i n = elim (Bool-cases (text_eq i k)) [
  | inr z ↦ z
  | inl z ↦ let here : text_eq k i ≡ true = (text_eq_iff k i).1 (sym ((text_eq_iff i k).0 z)) in cc
]

IsUnique-add_rank :
    (rank : ℕ) (i : Text) (xs : Scores) → IsUnique (keys xs) → IsUnique (keys (add_rank rank i xs))
unfolding add_rank is_listed
IsUnique-add_rank rank i [] u = (refl, tt)
IsUnique-add_rank rank i ((k, s) ∷ xs) u = elim (Bool-cases (text_eq k i)) [
  | inl y ↦ rw y u
  | inr n ↦
      let apart : text_eq i k ≡ false = flipped k i n in
      rw n (rw (listed-add_rank rank i xs k, u.0, apart) refl, IsUnique-add_rank rank i xs u.1)
]

pub IsUnique-add_ranks :
    (rank : ℕ) (ids : List Text) (xs : Scores)
    → IsUnique (keys xs)
    → IsUnique (keys (add_ranks rank ids xs))
unfolding add_ranks
IsUnique-add_ranks rank [] xs u = u
IsUnique-add_ranks rank (i ∷ ids) xs u =
    IsUnique-add_ranks (suc rank) ids (add_rank rank i xs) (IsUnique-add_rank rank i xs u)

ratio : (rank : ℕ) (s : Score) → IsRatio s → IsRatio (add_reciprocal rank s)
ratio rank (a, b) p = grind arith

AreRatios-add_rank :
    (rank : ℕ) (i : Text) (xs : Scores) → AreRatios xs → AreRatios (add_rank rank i xs)
unfolding add_rank
AreRatios-add_rank rank i [] h = (ratio rank (0, 1) (omega arith), tt)
AreRatios-add_rank rank i ((k, s) ∷ xs) h = elim (Bool-cases (text_eq k i)) [
  | inl y ↦ rw y (ratio rank s h.0, h.1)
  | inr n ↦ rw n (h.0, AreRatios-add_rank rank i xs h.1)
]

pub AreRatios-add_ranks :
    (rank : ℕ) (ids : List Text) (xs : Scores) → AreRatios xs → AreRatios (add_ranks rank ids xs)
unfolding add_ranks
AreRatios-add_ranks rank [] xs h = h
AreRatios-add_ranks rank (i ∷ ids) xs h =
    AreRatios-add_ranks (suc rank) ids (add_rank rank i xs) (AreRatios-add_rank rank i xs h)

length-add_rank :
    (rank : ℕ) (i : Text) (xs : Scores) → length (add_rank rank i xs) ≤ suc (length xs)
unfolding add_rank
length-add_rank rank i [] = omega arith
length-add_rank rank i ((k, s) ∷ xs) = elim (Bool-cases (text_eq k i)) [
  | inl y ↦ rw y (omega arith)
  | inr n ↦ rw n (omega (arith, length-add_rank rank i xs))
]

pub length-add_ranks :
    (rank : ℕ) (ids : List Text) (xs : Scores)
    → length (add_ranks rank ids xs) ≤ length xs + length ids
unfolding add_ranks
length-add_ranks rank [] xs = omega arith
length-add_ranks rank (i ∷ ids) xs =
    omega (arith, length-add_ranks (suc rank) ids (add_rank rank i xs), length-add_rank rank i xs)

MemOf-is_listed :
    (xs : Scores) (k : Text) (s : Score) → MemOf (k, s) xs → is_listed k (keys xs) ≡ true
unfolding is_listed
MemOf-is_listed [] k s m = absurd m
MemOf-is_listed ((i, t) ∷ xs) k s (inl e) =
    let same : k ≡ i = ap (λ p. p.0) e in rw (same, text_eq_refl i) refl
MemOf-is_listed ((i, t) ∷ xs) k s (inr m) = ground (arith, MemOf-is_listed xs k s m)

-- In a dictionary an entry's score is the one that its key has.
pub score_at-MemOf :
    (xs : Scores) (k : Text) (s : Score) → IsUnique (keys xs) → MemOf (k, s) xs → score_at xs k ≡ s
score_at-MemOf [] k s u m = absurd m
score_at-MemOf ((i, t) ∷ xs) k s u (inl e) =
    let same : k ≡ i = ap (λ p. p.0) e in
    let scores : s ≡ t = ap (λ p. p.1) e in rw (same, text_eq_refl i) (sym scores)
score_at-MemOf ((i, t) ∷ xs) k s u (inr m) = elim (Bool-cases (text_eq i k)) [
  | inr n ↦ rw n (score_at-MemOf xs k s u.1 m)
  | inl y ↦
      let same : i ≡ k = (text_eq_iff i k).0 y in
      let gone : is_listed k (keys xs) ≡ false = rw same at u.0 in
      let there : is_listed k (keys xs) ≡ true = MemOf-is_listed xs k s m in cc
]

listed-insert_score :
    (x : Text × Score) (ys : Scores) (j : Text)
    → is_listed j (keys (insert_score x ys)) ≡ (text_eq x.0 j || is_listed j (keys ys))
unfolding insert_score is_listed
listed-insert_score x [] j = refl
listed-insert_score x (y ∷ ys) j = elim (Bool-cases (is_below x.1 y.1)) [
  | inl b ↦ rw (b, listed-insert_score x ys j) (ground arith)
  | inr b ↦ rw b refl
]

pub listed-sort_scores :
    (xs : Scores) (j : Text) → is_listed j (keys (sort_scores xs)) ≡ is_listed j (keys xs)
unfolding sort_scores is_listed
listed-sort_scores [] j = refl
listed-sort_scores (x ∷ xs) j =
    listed-insert_score x (sort_scores xs) j
    ∙ ap (λ b. text_eq x.0 j || b) (listed-sort_scores xs j)

IsUnique-insert_score :
    (x : Text × Score) (ys : Scores)
    → is_listed x.0 (keys ys) ≡ false
    → IsUnique (keys ys)
    → IsUnique (keys (insert_score x ys))
unfolding insert_score is_listed
IsUnique-insert_score x [] h u = (refl, tt)
IsUnique-insert_score x (y ∷ ys) h u = elim (Bool-cases (is_below x.1 y.1)) [
  | inl b ↦
      let apart : text_eq x.0 y.0 ≡ false = flipped y.0 x.0 (ground arith) in
      rw b (
        rw (listed-insert_score x ys y.0, apart) u.0,
        IsUnique-insert_score x ys (ground arith) u.1,
      )
  | inr b ↦ rw b (h, u)
]

pub IsUnique-sort_scores : (xs : Scores) → IsUnique (keys xs) → IsUnique (keys (sort_scores xs))
unfolding sort_scores
IsUnique-sort_scores [] u = tt
IsUnique-sort_scores (x ∷ xs) u =
    IsUnique-insert_score x (sort_scores xs) (listed-sort_scores xs x.0 ∙ u.0)
      (IsUnique-sort_scores xs u.1)

length-insert_score :
    (x : Text × Score) (ys : Scores) → length (insert_score x ys) ≡ suc (length ys)
unfolding insert_score
length-insert_score x [] = refl
length-insert_score x (y ∷ ys) = elim (Bool-cases (is_below x.1 y.1)) [
  | inl b ↦ rw b (omega (arith, length-insert_score x ys))
  | inr b ↦ rw b refl
]

pub length-sort_scores : (xs : Scores) → length (sort_scores xs) ≡ length xs
unfolding sort_scores
length-sort_scores [] = refl
length-sort_scores (x ∷ xs) =
    omega (arith, length-insert_score x (sort_scores xs), length-sort_scores xs)
