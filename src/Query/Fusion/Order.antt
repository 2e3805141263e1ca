-- ===== src/Query/Fusion/Order.antt =====
-- The order of the fused scores: sorting keeps the entries and puts no score after a lower one.
use geek_crawler_rag.Base.{
  ℕ, ◌+◌, ◌*◌, ◌≤◌, ◌<◌, ◌≡◌, ◌↔◌, true, false, [], ◌∷◌, inl, inr, All, All-map, MemOf, Bool-cases,
  arith, Text,
}
use geek_crawler_rag.Query.Fusion.{Score, Scores, is_below, insert_score, sort_scores}

scale : (a b c : ℕ) → a ≤ b → a * c ≤ b * c
scale a b c h = grind arith

unscale : (a b c : ℕ) → a * c ≤ b * c → 0 < c → a ≤ b
unscale a b c h p = grind arith

-- `a / b` is at least `c / d`, and that is at least `e / f`.
ratio_trans : (a b c d e f : ℕ) → c * b ≤ a * d → e * d ≤ c * f → 0 < d → e * b ≤ a * f
ratio_trans a b c d e f h k p =
    let left : e * d * b ≤ c * f * b = scale (e * d) (c * f) b k in
    let right : c * b * f ≤ a * d * f = scale (c * b) (a * d) f h in
    unscale (e * b) (a * f) d (grind (arith, left, right)) p

-- Two ranks of at most 61 are worth more together than any one rank.
pub two_beat_one : (p q t : ℕ) → p ≤ 60 → q ≤ 60 → (61 + p) * (61 + q) < (61 + t) * (122 + p + q)
two_beat_one p q t h k = grind arith

-- A score with a denominator.
abbrev pub IsRatio : Score → Type 0
IsRatio (a, b) = 0 < b

pub is_below_trans :
    (x y z : Score) → IsRatio y → is_below x y ≡ false → is_below y z ≡ false → is_below x z ≡ false
is_below_trans (a, b) (c, d) (e, f) p h k =
    let low : e * b ≤ a * f = ratio_trans a b c d e f (ground arith) (ground arith) p in
    ground (arith, low)

pub below_not_above : (x y : Score) → is_below x y ≡ true → is_below y x ≡ false
below_not_above (a, b) (c, d) h = ground arith

-- Best first.
abbrev pub IsSorted : Scores → Type 0
IsSorted [] = Unit
IsSorted (x ∷ xs) = All (λ y. is_below x.1 y.1 ≡ false) xs × IsSorted xs

abbrev pub AreRatios : Scores → Type 0
AreRatios = All (λ x. IsRatio x.1)

pub insert_score-All :
    (P : Text × Score → Type 0) (x : Text × Score) (ys : Scores)
    → P x
    → All P ys
    → All P (insert_score x ys)
unfolding insert_score
insert_score-All P x [] p h = (p, tt)
insert_score-All P x (y ∷ ys) p h = elim (Bool-cases (is_below x.1 y.1)) [
  | inl b ↦ rw b (h.0, insert_score-All P x ys p h.1)
  | inr b ↦ rw b (p, h)
]

pub sort_scores-All : (P : Text × Score → Type 0) (xs : Scores) → All P xs → All P (sort_scores xs)
unfolding sort_scores
sort_scores-All P [] h = tt
sort_scores-All P (x ∷ xs) h = insert_score-All P x (sort_scores xs) h.0 (sort_scores-All P xs h.1)

insert_score-IsSorted :
    (x : Text × Score) (ys : Scores)
    → IsRatio x.1
    → AreRatios ys
    → IsSorted ys
    → IsSorted (insert_score x ys)
unfolding insert_score
insert_score-IsSorted x [] p r h = (tt, tt)
insert_score-IsSorted x (y ∷ ys) p r h = elim (Bool-cases (is_below x.1 y.1)) [
  | inl b ↦ rw b (
    insert_score-All (λ z. is_below y.1 z.1 ≡ false) x ys (below_not_above x.1 y.1 b) h.0,
    insert_score-IsSorted x ys p r.1 h.1,
  )
  | inr b ↦ rw b ((b, All-map (λ z k. is_below_trans x.1 y.1 z.1 r.0 b k) ys h.0), h)
]

pub sort_scores-IsSorted : (xs : Scores) → AreRatios xs → IsSorted (sort_scores xs)
unfolding sort_scores
sort_scores-IsSorted [] r = tt
sort_scores-IsSorted (x ∷ xs) r =
    insert_score-IsSorted x (sort_scores xs) r.0 (sort_scores-All (λ y. IsRatio y.1) xs r.1)
      (sort_scores-IsSorted xs r.1)

pub insert_score-MemOf :
    (p x : Text × Score) (ys : Scores) → MemOf p (insert_score x ys) ↔ MemOf p (x ∷ ys)
unfolding insert_score
insert_score-MemOf p x [] = (λ m. m, λ m. m)
insert_score-MemOf p x (y ∷ ys) =
    let (to, from) = insert_score-MemOf p x ys in
    elim (Bool-cases (is_below x.1 y.1)) [
      | inl b ↦ rw b (λ m. into m to, λ m. out m from)
      | inr b ↦ rw b (λ m. m, λ m. m)
    ]
  where
    into :
        MemOf p (y ∷ insert_score x ys)
        → (MemOf p (insert_score x ys) → MemOf p (x ∷ ys))
        → MemOf p (x ∷ y ∷ ys)
    into (inl e) to = inr (inl e)
    into (inr m) to = elim (to m) [ inl e ↦ inl e | inr n ↦ inr (inr n) ]

    out :
        MemOf p (x ∷ y ∷ ys)
        → (MemOf p (x ∷ ys) → MemOf p (insert_score x ys))
        → MemOf p (y ∷ insert_score x ys)
    out (inl e) from = inr (from (inl e))
    out (inr (inl e)) from = inl e
    out (inr (inr m)) from = inr (from (inr m))

pub sort_scores-MemOf : (p : Text × Score) (xs : Scores) → MemOf p (sort_scores xs) ↔ MemOf p xs
unfolding sort_scores
sort_scores-MemOf p [] = (λ m. m, λ m. m)
sort_scores-MemOf p (x ∷ xs) =
    let (to, from) = sort_scores-MemOf p xs in
    let (in_to, in_from) = insert_score-MemOf p x (sort_scores xs) in
    (λ m. under (in_to m) to, λ m. in_from (over m from))
  where
    under :
        MemOf p (x ∷ sort_scores xs) → (MemOf p (sort_scores xs) → MemOf p xs) → MemOf p (x ∷ xs)
    under (inl e) to = inl e
    under (inr m) to = inr (to m)

    over : MemOf p (x ∷ xs) → (MemOf p xs → MemOf p (sort_scores xs)) → MemOf p (x ∷ sort_scores xs)
    over (inl e) from = inl e
    over (inr m) from = inr (from m)
