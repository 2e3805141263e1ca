-- ===== src/Base/Slices.antt =====
-- One text stands inside another as it is. Slicing and stripping give such parts.
use Prim.Native.Nat.{ℕ, zero, suc}
use mathlib.Core.Path.{◌≡◌, refl, sym, ap}
use mathlib.Core.Logic.{inl, inr}
use mathlib.Core.Bool.{◌&&◌}
use mathlib.Core.List.{[], ◌∷◌, ◌++◌, append-nil, append_assoc}
use geek_crawler_rag.Base.Tests.{Bool-cases}
use geek_crawler_rag.Base.Lists.{take, drop}
use geek_crawler_rag.Base.Str.{Text, is_empty, is_space, lstrip, rstrip, strip}

-- `part in whole`, with what stands before and behind it.
abbrev pub Infix : Text → Text → Type 0
Infix part whole = (before : Text) × (after : Text) × (whole ≡ before ++ (part ++ after))

pub Infix-refl : (t : Text) → Infix t t
Infix-refl t = ([], [], sym (append-nil t))

pub Infix-trans : (a b c : Text) → Infix a b → Infix b c → Infix a c
Infix-trans a b c (p, q, e) (r, s, f) = (r ++ p, q ++ s, rw (f, e) (simp append_assoc))

drop-Infix : (n : ℕ) (t : Text) → Infix (drop n t) t
drop-Infix zero t = Infix-refl t
drop-Infix (suc n) [] = ([], [], refl)
drop-Infix (suc n) (c ∷ t) = let (b, a, e) = drop-Infix n t in (c ∷ b, a, ap (◌∷◌ c) e)

take-Infix : (n : ℕ) (t : Text) → Infix (take n t) t
take-Infix n t = ([], drop n t, split n t)
  where
    split : (k : ℕ) (s : Text) → s ≡ take k s ++ drop k s
    split zero s = refl
    split (suc k) [] = refl
    split (suc k) (c ∷ s) = ap (◌∷◌ c) (split k s)

lstrip-Infix : (t : Text) → Infix (lstrip t) t
unfolding lstrip
lstrip-Infix [] = Infix-refl []
lstrip-Infix (c ∷ t) = elim (Bool-cases (is_space c)) [
  | inl space ↦ let (b, a, e) = lstrip-Infix t in rw space (c ∷ b, a, ap (◌∷◌ c) e)
  | inr other ↦ rw other (Infix-refl (c ∷ t))
]

rstrip_prefix : (t : Text) → (after : Text) × (t ≡ rstrip t ++ after)
unfolding rstrip
rstrip_prefix [] = ([], refl)
rstrip_prefix (c ∷ t) = elim (Bool-cases (is_empty (rstrip t) && is_space c)) [
  | inl gone ↦ rw gone (c ∷ t, refl)
  | inr kept ↦ let (a, e) = rstrip_prefix t in rw kept (a, ap (◌∷◌ c) e)
]

pub strip-Infix : (t : Text) → Infix (strip t) t
unfolding strip
strip-Infix t =
    let (a, e) = rstrip_prefix (lstrip t) in
    Infix-trans (rstrip (lstrip t)) (lstrip t) t ([], a, e) (lstrip-Infix t)

-- A slice of a text stands in it.
pub slice-Infix : (n m : ℕ) (t : Text) → Infix (take n (drop m t)) t
slice-Infix n m t =
    Infix-trans (take n (drop m t)) (drop m t) t (take-Infix n (drop m t)) (drop-Infix m t)
