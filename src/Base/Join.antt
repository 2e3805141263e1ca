-- ===== src/Base/Join.antt =====
-- `str.join`, the `in` of two strings, and runs of white space.
use mathlib.Core.Path.{◌≡◌, refl, sym, ap}
use mathlib.Core.Logic.{inl, inr}
use mathlib.Core.Bool.{Bool, true, false, ◌&&◌, ◌||◌}
use mathlib.Core.List.{List, [], ◌∷◌, ◌++◌, append-nil, append_assoc}
use native.Mathlib.Omega.{arith}
use geek_crawler_rag.Base.Tests.{◌==◌, Bool-cases, and_true}
use geek_crawler_rag.Base.Str.{Text, is_empty}
use geek_crawler_rag.Base.Slices.{Infix, Infix-trans}

-- `sep.join(lines)`
abbrev pub join : Text → List Text → Text
join sep [] = []
join sep (x ∷ []) = x
join sep (x ∷ y ∷ xs) = x ++ (sep ++ join sep (y ∷ xs))

join-drop : (sep x : Text) (xs : List Text) → Infix (join sep xs) (join sep (x ∷ xs))
join-drop sep x [] = ([], x, refl)
join-drop sep x (y ∷ ys) = (x ++ sep, [], simp (append-nil, append_assoc))

join-left :
    (sep : Text) (xs ys : List Text) → (after : Text) × (join sep (xs ++ ys) ≡ join sep xs ++ after)
join-left sep [] ys = (join sep ys, refl)
join-left sep (x ∷ []) [] = ([], sym (append-nil x))
join-left sep (x ∷ []) (y ∷ ys) = (sep ++ join sep (y ∷ ys), refl)
join-left sep (x ∷ z ∷ xs) ys =
    let (a, e) = join-left sep (z ∷ xs) ys in (a, rw e (simp append_assoc))

-- What is joined stands in what is joined with more lines around.
pub join-Infix :
    (sep : Text) (xs ys zs : List Text) → Infix (join sep ys) (join sep (xs ++ (ys ++ zs)))
join-Infix sep [] ys zs = let (a, e) = join-left sep ys zs in ([], a, e)
join-Infix sep (x ∷ xs) ys zs =
    Infix-trans (join sep ys) (join sep (xs ++ (ys ++ zs))) (join sep (x ∷ (xs ++ (ys ++ zs))))
      (join-Infix sep xs ys zs) (join-drop sep x (xs ++ (ys ++ zs)))

abbrev pub starts_with : Text → Text → Bool
starts_with [] t = true
starts_with (c ∷ s) [] = false
starts_with (c ∷ s) (d ∷ t) = c == d && starts_with s t

-- `part in whole`
unfoldable pub is_part : Text → Text → Bool
is_part part [] = is_empty part
is_part part (c ∷ t) = starts_with part (c ∷ t) || is_part part t

starts_with-append : (s t : Text) → starts_with s (s ++ t) ≡ true
starts_with-append [] t = refl
starts_with-append (c ∷ s) t = ground (arith, starts_with-append s t)

is_part-append : (part before after : Text) → is_part part (before ++ (part ++ after)) ≡ true
unfolding is_part
is_part-append [] [] [] = refl
is_part-append [] [] (c ∷ t) = refl
is_part-append (c ∷ s) [] after = ground (arith, starts_with-append s after)
is_part-append part (c ∷ before) after = ground (arith, is_part-append part before after)

-- The test finds every part.
pub Infix-is_part : (part whole : Text) → Infix part whole → is_part part whole ≡ true
Infix-is_part part whole (b, a, e) = rw e (is_part-append part b a)

starts_with-split : (s t : Text) → starts_with s t ≡ true → (after : Text) × (t ≡ s ++ after)
starts_with-split [] t h = (t, refl)
starts_with-split (c ∷ s) [] h = cc
starts_with-split (c ∷ s) (d ∷ t) h =
    let (e, r) = and_true (c == d) (starts_with s t) h in
    let (a, f) = starts_with-split s t r in (a, ground (arith, e, f))

-- The test finds nothing else.
pub is_part-Infix : (part whole : Text) → is_part part whole ≡ true → Infix part whole
unfolding is_part
is_part-Infix [] [] h = ([], [], refl)
is_part-Infix (c ∷ s) [] h = cc
is_part-Infix part (c ∷ t) h = elim (Bool-cases (starts_with part (c ∷ t))) [
  | inl here ↦ let (a, e) = starts_with-split part (c ∷ t) here in ([], a, e)
  | inr later ↦
      let (b, a, e) = is_part-Infix part t (ground (arith, h, later)) in (c ∷ b, a, ap (◌∷◌ c) e)
]
