-- ===== src/Base/Lists.antt =====
-- Lists measured by native numbers, and membership by recursion.
use Prim.Native.Nat.{ℕ, zero, suc, ◌+◌}
use mathlib.Core.Path.{◌≡◌, refl, ap}
use mathlib.Core.Logic.{◌⊎◌, inl, inr}
use mathlib.Core.List.{List, [], ◌∷◌, ◌++◌, map}
use mathlib.Core.Option.{Option, none, some}
use native.Mathlib.Omega.{arith}

module _ {ℓ} {A : Type ℓ} where
  abbrev pub length : List A → ℕ
  length [] = 0
  length (x ∷ xs) = suc (length xs)

  abbrev pub get_elem? : List A → ℕ → Option A
  get_elem? [] i = none
  get_elem? (x ∷ xs) zero = some x
  get_elem? (x ∷ xs) (suc i) = get_elem? xs i

  abbrev pub take : ℕ → List A → List A
  take zero xs = []
  take (suc n) [] = []
  take (suc n) (x ∷ xs) = x ∷ take n xs

  abbrev pub drop : ℕ → List A → List A
  drop zero xs = xs
  drop (suc n) [] = []
  drop (suc n) (x ∷ xs) = drop n xs

  pub length-append : (xs ys : List A) → length (xs ++ ys) ≡ length xs + length ys
  length-append [] ys = omega arith
  length-append (x ∷ xs) ys = omega (arith, length-append xs ys)

module _ {A : Type 0} where
  -- `a in xs`, by its position.
  abbrev pub MemOf : A → List A → Type 0
  MemOf a [] = ⊥
  MemOf a (x ∷ xs) = (a ≡ x) ⊎ MemOf a xs

  pub MemOf-append_left : (a : A) (xs ys : List A) → MemOf a xs → MemOf a (xs ++ ys)
  MemOf-append_left a [] ys m = absurd m
  MemOf-append_left a (x ∷ xs) ys (inl e) = inl e
  MemOf-append_left a (x ∷ xs) ys (inr m) = inr (MemOf-append_left a xs ys m)

  pub MemOf-append_right : (a : A) (xs ys : List A) → MemOf a ys → MemOf a (xs ++ ys)
  MemOf-append_right a [] ys m = m
  MemOf-append_right a (x ∷ xs) ys m = inr (MemOf-append_right a xs ys m)

module _ {ℓ} {A : Type ℓ} where
  abbrev pub get_or : List A → ℕ → A → A
  get_or [] i d = d
  get_or (x ∷ xs) zero d = x
  get_or (x ∷ xs) (suc i) d = get_or xs i d

-- A predicate on every element.
abbrev pub All {ℓ κ} : {A : Type ℓ} → (A → Type κ) → List A → Type κ
All P [] = Unit
All P (x ∷ xs) = P x × All P xs

pub All-append {ℓ} :
    {A : Type 0} (P : A → Type ℓ) (xs ys : List A) → All P xs → All P ys → All P (xs ++ ys)
All-append P [] ys h k = k
All-append P (x ∷ xs) ys h k = (h.0, All-append P xs ys h.1 k)

pub All-map {ℓ} :
    {A : Type 0} {P Q : A → Type ℓ} (f : (a : A) → P a → Q a) (xs : List A) → All P xs → All Q xs
All-map f [] h = tt
All-map f (x ∷ xs) h = (f x h.0, All-map f xs h.1)

pub length-map : {A B : Type 0} (f : A → B) (xs : List A) → length (map f xs) ≡ length xs
length-map f [] = refl
length-map f (x ∷ xs) = ap suc (length-map f xs)

pub All-both {ℓ κ} :
    {A : Type 0} (P : A → Type ℓ) (Q : A → Type κ) (xs : List A)
    → All P xs
    → All Q xs
    → All (λ x. P x × Q x) xs
All-both P Q [] h k = tt
All-both P Q (x ∷ xs) h k = ((h.0, k.0), All-both P Q xs h.1 k.1)
