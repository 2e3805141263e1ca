-- ===== src/Query/Fusion/Laws.antt =====
-- What the fusion of two halves keeps, and the order in which it puts it.
use geek_crawler_rag.Base.{
  ℕ, zero, suc, ◌+◌, ◌≤◌, ◌<◌, ◌≡◌, ◌∙◌, refl, sym, ap, subst, ℤ, pos, negsuc, Bool, true, false,
  ◌||◌, List, [], ◌∷◌, map, some, inl, inr, length, take, get_elem?, All, All-both, MemOf,
  Bool-cases, arith, Text, text_eq, text_eq_iff, text_eq_refl, is_listed, IsUnique,
}
use geek_crawler_rag.Query.Fusion.{
  Hit, Score, Scores, is_below, add_ranks, sort_scores, cut, node_of, nodes_of,
}
use geek_crawler_rag.Query.Fusion.Order.{AreRatios, IsSorted, sort_scores-All, sort_scores-IsSorted}
use geek_crawler_rag.Query.Fusion.Ranks.{keys, score_at}
use geek_crawler_rag.Query.Fusion.Keys.{
  listed-add_ranks, IsUnique-add_ranks, AreRatios-add_ranks, length-add_ranks, score_at-MemOf,
  length-sort_scores,
}

abbrev pub scores_of : List Text → List Text → Scores
scores_of dense_ids sparse_ids = add_ranks 1 sparse_ids (add_ranks 1 dense_ids [])

abbrev pub ids_of : List Hit → List Text
ids_of hits = map (λ h. h.node_id) hits

pub listed-scores_of :
    (ds ss : List Text) (j : Text)
    → is_listed j (keys (scores_of ds ss)) ≡ (is_listed j ds || is_listed j ss)
unfolding is_listed
listed-scores_of ds ss j =
    rw (listed-add_ranks 1 ss (add_ranks 1 ds []) j, listed-add_ranks 1 ds [] j) refl

pub IsUnique-scores_of : (ds ss : List Text) → IsUnique (keys (scores_of ds ss))
IsUnique-scores_of ds ss =
    IsUnique-add_ranks 1 ss (add_ranks 1 ds []) (IsUnique-add_ranks 1 ds [] tt)

AreRatios-scores_of : (ds ss : List Text) → AreRatios (scores_of ds ss)
AreRatios-scores_of ds ss =
    AreRatios-add_ranks 1 ss (add_ranks 1 ds []) (AreRatios-add_ranks 1 ds [] tt)

-- A limit that is not below the number of hits cuts nothing.
take_all : {A : Type 0} (n : ℕ) (xs : List A) → length xs ≤ n → take n xs ≡ xs
take_all zero [] h = refl
take_all zero (x ∷ xs) h = absurd (none_below (length xs) h)
  where
    none_below : (m : ℕ) → suc m ≤ 0 → ⊥
    none_below m k = omega arith
take_all (suc n) [] h = refl
take_all (suc n) (x ∷ xs) h = ap (◌∷◌ x) (take_all n xs (omega arith))

pub cut_none :
    (ds ss : List Text) (top_k : ℕ)
    → length ds + length ss ≤ top_k
    → cut (pos top_k) (sort_scores (scores_of ds ss)) ≡ sort_scores (scores_of ds ss)
cut_none ds ss zero h = refl
cut_none ds ss (suc n) h = take_all (suc n) (sort_scores (scores_of ds ss)) (
    omega (
      arith,
      length-sort_scores (scores_of ds ss),
      length-add_ranks 1 ss (add_ranks 1 ds []),
      length-add_ranks 1 ds [],
    ))

-- A listed id has its node.
node_of_listed :
    (hits : List Hit) (i : Text)
    → is_listed i (ids_of hits) ≡ true
    → (h : Hit) × (node_of hits i ≡ some h) × (h.node_id ≡ i)
unfolding node_of is_listed
node_of_listed [] i m = cc
node_of_listed (h ∷ hs) i m = elim (Bool-cases (text_eq h.node_id i)) [
  | inl y ↦ (h, rw y refl, (text_eq_iff h.node_id i).0 y)
  | inr n ↦ rw n (node_of_listed hs i (rw n at m))
]

pub nodes_of_listed :
    (hits : List Hit) (xs : Scores)
    → All (λ p. is_listed p.0 (ids_of hits) ≡ true) xs
    → (ns : List Hit) × (nodes_of hits xs ≡ some ns) × (ids_of ns ≡ keys xs)
unfolding nodes_of
nodes_of_listed hits [] h = ([], refl, refl)
nodes_of_listed hits ((i, s) ∷ xs) h =
    let (n, e, same) = node_of_listed hits i h.0 in
    let (ns, es, all) = nodes_of_listed hits xs h.1 in
    (n ∷ ns, rw (e, es) refl, rw (same, all) refl)

-- Each key is among the texts that list them all.
pub keys_All :
    (hits : List Hit) (xs : Scores)
    → ((j : Text) → is_listed j (keys xs) ≡ true → is_listed j (ids_of hits) ≡ true)
    → All (λ p. is_listed p.0 (ids_of hits) ≡ true) xs
unfolding is_listed
keys_All hits [] h = tt
keys_All hits ((i, s) ∷ xs) h =
    (h i (rw (text_eq_refl i) refl), keys_All hits xs (λ j m. h j (rw m (or_true (text_eq i j)))))
  where
    or_true : (b : Bool) → (b || true) ≡ true
    or_true b = ground arith

take-All : (P : Text × Score → Type 0) (n : ℕ) (xs : Scores) → All P xs → All P (take n xs)
take-All P zero xs h = tt
take-All P (suc n) [] h = tt
take-All P (suc n) (x ∷ xs) h = (h.0, take-All P n xs h.1)

take-IsSorted : (n : ℕ) (xs : Scores) → IsSorted xs → IsSorted (take n xs)
take-IsSorted zero xs h = tt
take-IsSorted (suc n) [] h = tt
take-IsSorted (suc n) (x ∷ xs) h =
    (take-All (λ y. is_below x.1 y.1 ≡ false) n xs h.0, take-IsSorted n xs h.1)

-- Sorted entries, with the scores that a dictionary gives their keys.
abbrev pub IsRanking : Scores → Scores → Type 0
IsRanking dict xs = All (λ p. score_at dict p.0 ≡ p.1) xs × IsSorted xs

cut-IsRanking :
    (dict : Scores) (top_k : ℤ) (xs : Scores) → IsRanking dict xs → IsRanking dict (cut top_k xs)
cut-IsRanking dict (negsuc n) xs h = h
cut-IsRanking dict (pos zero) xs h = h
cut-IsRanking dict (pos (suc n)) xs h = (take-All _ (suc n) xs h.0, take-IsSorted (suc n) xs h.1)

All-Mem :
    (P : Text × Score → Type 0) (xs : Scores) → ((p : Text × Score) → MemOf p xs → P p) → All P xs
All-Mem P [] h = tt
All-Mem P (x ∷ xs) h = (h x (inl refl), All-Mem P xs (λ y m. h y (inr m)))

pub fused-IsRanking :
    (ds ss : List Text) (top_k : ℤ)
    → IsRanking (scores_of ds ss) (cut top_k (sort_scores (scores_of ds ss)))
fused-IsRanking ds ss top_k =
    let dict : Scores = scores_of ds ss in
    cut-IsRanking dict top_k (sort_scores dict) (
      sort_scores-All (λ p. score_at dict p.0 ≡ p.1) dict
          (All-Mem (λ p. score_at dict p.0 ≡ p.1) dict
            (λ p m. score_at-MemOf dict p.0 p.1 (IsUnique-scores_of ds ss) m)),
      sort_scores-IsSorted dict (AreRatios-scores_of ds ss),
    )

-- The entry at a key's place.
entry_at :
    (P : Text × Score → Type 0) (xs : Scores) (i : ℕ) (x : Text)
    → All P xs
    → get_elem? (keys xs) i ≡ some x
    → (s : Score) × P (x, s)
entry_at P [] i x h e = cc
entry_at P ((k, s) ∷ xs) zero x h e = let same : k ≡ x = cc in (s, subst (λ z. P (z, s)) same h.0)
entry_at P ((k, s) ∷ xs) (suc i) x h e = entry_at P xs i x h.1 e

not_below_itself : (s : Score) → is_below s s ≡ false
not_below_itself (a, b) = ground arith

-- In a ranking the key with the higher score comes first.
pub IsRanking-before :
    (dict xs : Scores) (i j : ℕ) (x y : Text)
    → IsRanking dict xs
    → get_elem? (keys xs) i ≡ some x
    → get_elem? (keys xs) j ≡ some y
    → is_below (score_at dict y) (score_at dict x) ≡ true
    → i < j
IsRanking-before dict [] i j x y r e f b = cc
IsRanking-before dict ((k, s) ∷ xs) zero zero x y r e f b =
    let one : y ≡ x = cc in
    absurd (true_not_false (sym (rw one at b) ∙ not_below_itself (score_at dict x)))
  where
    true_not_false : true ≡ false → ⊥
    true_not_false e = cc
IsRanking-before dict ((k, s) ∷ xs) zero (suc j) x y r e f b = omega arith
IsRanking-before dict ((k, s) ∷ xs) (suc i) zero x y r e f b =
    let one : k ≡ y = cc in
    let (t, given) =
      entry_at (λ p. (score_at dict p.0 ≡ p.1) × (is_below s p.1 ≡ false)) xs i x
        (All-both (λ p. score_at dict p.0 ≡ p.1) (λ p. is_below s p.1 ≡ false) xs r.0.1 r.1.0) e in
    let mine : score_at dict y ≡ s = ap (score_at dict) (sym one) ∙ r.0.0 in
    absurd (true_not_false (sym (rw (mine, given.0) at b) ∙ given.1))
  where
    true_not_false : true ≡ false → ⊥
    true_not_false e = cc
IsRanking-before dict ((k, s) ∷ xs) (suc i) (suc j) x y r e f b =
    let rest = IsRanking-before dict xs i j x y (r.0.1, r.1.1) e f b in omega arith
