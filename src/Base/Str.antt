-- ===== src/Base/Str.antt =====
-- A Python `str` as its list of code points, with the methods that several modules call.
use Prim.Native.Nat.{ℕ}
use Prim.Native.Char.{code}
use Prim.Native.String.{String}
use mathlib.Core.Path.{◌≡◌, refl}
use mathlib.Core.Logic.{◌↔◌, ◌≢◌, inl, inr}
use mathlib.Core.Bool.{Bool, true, false, ◌&&◌, ◌||◌}
use mathlib.Core.List.{List, [], ◌∷◌}
use native.Mathlib.Omega.{arith}
use geek_crawler_rag.Base.Tests.{leb, ◌==◌, if◌then◌else◌, Bool-cases}

abbrev pub Text : Type 0
Text = List ℕ

-- A literal of the source.
abbrev pub codes : String → Text
codes String.[] = []
codes (String.◌∷◌ c s) = code c ∷ codes s

-- `==` on two strings.
unfoldable pub text_eq : Text → Text → Bool
text_eq [] [] = true
text_eq [] (d ∷ t) = false
text_eq (c ∷ s) [] = false
text_eq (c ∷ s) (d ∷ t) = c == d && text_eq s t

text_eq_sound : (s t : Text) → text_eq s t ≡ true → s ≡ t
unfolding text_eq
text_eq_sound [] [] h = refl
text_eq_sound [] (d ∷ t) h = cc
text_eq_sound (c ∷ s) [] h = cc
text_eq_sound (c ∷ s) (d ∷ t) h = ground (arith, text_eq_sound s t)

pub text_eq_refl : (s : Text) → text_eq s s ≡ true
unfolding text_eq
text_eq_refl [] = refl
text_eq_refl (c ∷ s) = ground (arith, text_eq_refl s)

pub text_eq_iff : (s t : Text) → (text_eq s t ≡ true) ↔ (s ≡ t)
text_eq_iff s t = (text_eq_sound s t, λ e. rw e (text_eq_refl t))

pub text_eq_ne : (s t : Text) → s ≢ t → text_eq s t ≡ false
text_eq_ne s t h = elim (Bool-cases (text_eq s t)) [
  | inl e ↦ absurd (h (text_eq_sound s t e))
  | inr n ↦ n
]

-- A string in a condition: the empty one counts as false.
abbrev pub is_empty : Text → Bool
is_empty [] = true
is_empty (c ∷ s) = false

-- `s or t`
abbrev pub or_text : Text → Text → Text
or_text [] t = t
or_text (c ∷ s) t = c ∷ s

-- `str.isspace` of one character: the code points that Unicode calls white space.
unfoldable pub is_space : ℕ → Bool
is_space c =
    (leb 9 c && leb c 13)
    || (leb 28 c && leb c 32)
    || c == 133
    || c == 160
    || c == 5760
    || (leb 8192 c && leb c 8202)
    || c == 8232
    || c == 8233
    || c == 8239
    || c == 8287
    || c == 12288

unfoldable pub lstrip : Text → Text
lstrip [] = []
lstrip (c ∷ s) = if is_space c then lstrip s else c ∷ s

unfoldable pub rstrip : Text → Text
rstrip [] = []
rstrip (c ∷ s) = let r = rstrip s in if is_empty r && is_space c then [] else c ∷ r

-- `str.strip`
unfoldable pub strip : Text → Text
unfolding lstrip rstrip is_space
strip s = rstrip (lstrip s)

-- The text is one of the list's.
unfoldable pub is_listed : Text → List Text → Bool
is_listed t [] = false
is_listed t (u ∷ us) = text_eq u t || is_listed t us

-- No text stands twice in the list.
abbrev pub IsUnique : List Text → Type 0
IsUnique [] = Unit
IsUnique (t ∷ ts) = (is_listed t ts ≡ false) × IsUnique ts
