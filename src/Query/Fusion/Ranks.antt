-- ===== src/Query/Fusion/Ranks.antt =====
-- The dictionary of scores, beside the ranks of a text in the two halves.
use geek_crawler_rag.Base.{
  ℕ, zero, suc, ◌+◌, ◌≡◌, ◌∙◌, refl, sym, ap, true, false, List, [], ◌∷◌, map, some, inl, inr,
  if◌then◌else◌, get_elem?, Bool-cases, arith, Text, text_eq, text_eq_iff, text_eq_refl, is_listed,
  IsUnique,
}
use geek_crawler_rag.Query.Fusion.{Score, Scores, add_reciprocal, add_rank, add_ranks}

abbrev pub keys : Scores → List Text
keys xs = map (λ p. p.0) xs

-- `score.get(j, 0.0)`
abbrev pub score_at : Scores → Text → Score
score_at [] j = (0, 1)
score_at ((i, s) ∷ xs) j = if text_eq i j then s else score_at xs j

-- What a half, from a rank on, adds to the score of a text.
abbrev pub added : ℕ → List Text → Text → Score → Score
added rank [] j s = s
added rank (i ∷ ids) j s = added (suc rank) ids j (if text_eq i j then add_reciprocal rank s else s)

score_at-add_rank :
    (rank : ℕ) (i : Text) (xs : Scores) (j : Text)
    → score_at (add_rank rank i xs) j
      ≡ (if text_eq i j then add_reciprocal rank (score_at xs j) else score_at xs j)
unfolding add_rank
score_at-add_rank rank i [] j = refl
score_at-add_rank rank i ((k, s) ∷ xs) j = elim (Bool-cases (text_eq k i)) [
  | inl y ↦
      let same : k ≡ i = (text_eq_iff k i).0 y in
      elim (Bool-cases (text_eq i j)) [
        | inl z ↦ rw (y, same, z) refl
        | inr z ↦ rw (y, same, z) refl
      ]
  | inr n ↦ elim (Bool-cases (text_eq k j)) [
    | inl z ↦
        let same : k ≡ j = (text_eq_iff k j).0 z in
        let apart : text_eq i j ≡ false = other k i j same n in rw (n, z, apart) refl
    | inr z ↦ rw (n, z) (score_at-add_rank rank i xs j)
  ]
]
  where
    other : (k i j : Text) → k ≡ j → text_eq k i ≡ false → text_eq i j ≡ false
    other k i j e n = elim (Bool-cases (text_eq i j)) [
      | inr z ↦ z
      | inl z ↦
          let back : i ≡ k = (text_eq_iff i j).0 z ∙ sym e in
          let here : text_eq k i ≡ true = (text_eq_iff k i).1 (sym back) in cc
    ]

pub score_at-add_ranks :
    (rank : ℕ) (ids : List Text) (xs : Scores) (j : Text)
    → score_at (add_ranks rank ids xs) j ≡ added rank ids j (score_at xs j)
unfolding add_ranks
score_at-add_ranks rank [] xs j = refl
score_at-add_ranks rank (i ∷ ids) xs j =
    score_at-add_ranks (suc rank) ids (add_rank rank i xs) j
    ∙ ap (added (suc rank) ids j) (score_at-add_rank rank i xs j)

pub added_unlisted :
    (rank : ℕ) (ids : List Text) (j : Text) (s : Score)
    → is_listed j ids ≡ false
    → added rank ids j s ≡ s
unfolding is_listed
added_unlisted rank [] j s h = refl
added_unlisted rank (i ∷ ids) j s h =
    let apart : text_eq i j ≡ false = ground arith in
    rw apart (added_unlisted (suc rank) ids j s (ground arith))

get_elem?-is_listed :
    (ids : List Text) (p : ℕ) (j : Text) → get_elem? ids p ≡ some j → is_listed j ids ≡ true
unfolding is_listed
get_elem?-is_listed [] p j e = cc
get_elem?-is_listed (i ∷ ids) zero j e = let same : i ≡ j = cc in rw (same, text_eq_refl j) refl
get_elem?-is_listed (i ∷ ids) (suc p) j e = ground (arith, get_elem?-is_listed ids p j e)

-- In a half without repeats a text adds the reciprocal of its rank.
pub added_placed :
    (rank : ℕ) (ids : List Text) (j : Text) (s : Score) (p : ℕ)
    → IsUnique ids
    → get_elem? ids p ≡ some j
    → added rank ids j s ≡ add_reciprocal (rank + p) s
added_placed rank [] j s p u e = cc
added_placed rank (i ∷ ids) j s zero u e =
    let same : i ≡ j = cc in
    let here : rank ≡ rank + 0 = omega arith in
    rw (same, text_eq_refl j)
      (added_unlisted (suc rank) ids j _ (rw same at u.0) ∙ ap (λ r. add_reciprocal r s) here)
added_placed rank (i ∷ ids) j s (suc p) u e =
    let later : is_listed j ids ≡ true = get_elem?-is_listed ids p j e in
    let next : suc rank + p ≡ rank + suc p = omega arith in
    elim (Bool-cases (text_eq i j)) [
      | inr n ↦ rw n (added_placed (suc rank) ids j s p u.1 e ∙ ap (λ r. add_reciprocal r s) next)
      | inl y ↦
          let same : i ≡ j = (text_eq_iff i j).0 y in
          let gone : is_listed j ids ≡ false = rw same at u.0 in cc
    ]
