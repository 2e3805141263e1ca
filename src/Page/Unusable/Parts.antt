-- ===== src/Page/Unusable/Parts.antt =====
-- The parts of a text between its separators, as the first segment of a path and the language of a
-- locale are read.
use geek_crawler_rag.Base.{
  ℕ, ◌≡◌, ◌≢◌, ◌∙◌, refl, sym, ap, subst, inl, inr, true, false, [], ◌∷◌, ◌++◌, if◌then◌else◌, Text,
  arith, append-nil, append_assoc, All, ◌==◌, Bool-cases,
}
use geek_crawler_rag.Page.Unusable.{segments, first_of, before}

-- The text is empty, or begins with the separator.
abbrev pub Begins : ℕ → Text → Type 0
Begins c [] = Unit
Begins c (d ∷ s) = d ≡ c

-- The part of the text before its first separator, or all of it.
abbrev pub IsBefore : ℕ → Text → Text → Type 0
IsBefore c t part = (rest : Text) × (t ≡ part ++ rest) × All (λ d. d ≢ c) part × Begins c rest

-- The first part of the text, once the separators at its start are gone; it is not empty.
abbrev pub IsFirst : ℕ → Text → Text → Type 0
IsFirst c t part =
    (lead s : Text) × (t ≡ lead ++ s) × All (λ d. d ≡ c) lead × IsBefore c s part × (part ≢ [])

same_code : (d c : ℕ) → (d == c) ≡ true → d ≡ c
same_code d c e = ground (arith, e)

other_code : (d c : ℕ) → (d == c) ≡ false → d ≢ c
other_code d c e s = ground (arith, e, s)

code_refl : (c : ℕ) → (c == c) ≡ true
code_refl c = ground arith

code_ne : (d c : ℕ) → d ≢ c → (d == c) ≡ false
code_ne d c n = elim (Bool-cases (d == c)) [ inl y ↦ absurd (n (same_code d c y)) | inr e ↦ e ]

pub before-IsBefore : (c : ℕ) (t : Text) → IsBefore c t (before c t)
unfolding before
before-IsBefore c [] = ([], refl, tt, tt)
before-IsBefore c (d ∷ s) =
    let (rest, e, all, b) = before-IsBefore c s in
    elim (Bool-cases (d == c)) [
      | inl y ↦ rw y (d ∷ s, refl, tt, same_code d c y)
      | inr n ↦ rw n (rest, ap (λ x. d ∷ x) e, (other_code d c n, all), b)
    ]

before-append :
    (c : ℕ) (part rest : Text)
    → All (λ d. d ≢ c) part
    → Begins c rest
    → before c (part ++ rest) ≡ part
unfolding before
before-append c [] [] all b = refl
before-append c [] (d ∷ s) all b = rw (b, code_refl c) refl
before-append c (d ∷ part) rest all b =
    rw (code_ne d c all.0) (ap (λ x. d ∷ x) (before-append c part rest all.1 b))

pub before_unique : (c : ℕ) (t part : Text) → IsBefore c t part → part ≡ before c t
before_unique c t part (rest, e, all, b) = sym (ap (before c) e ∙ before-append c part rest all b)

-- The text without the separators at its start.
skip_all : ℕ → Text → Text
skip_all c [] = []
skip_all c (d ∷ s) = if d == c then skip_all c s else d ∷ s

skip_all-leads :
    (c : ℕ) (t : Text) → (lead : Text) × (t ≡ lead ++ skip_all c t) × All (λ d. d ≡ c) lead
unfolding skip_all
skip_all-leads c [] = ([], refl, tt)
skip_all-leads c (d ∷ s) = elim (Bool-cases (d == c)) [
  | inl y ↦
      let (lead, e, all) = skip_all-leads c s in
      rw y (d ∷ lead, ap (λ x. d ∷ x) e, (same_code d c y, all))
  | inr n ↦ rw n ([], refl, tt)
]

skip_all-append :
    (c : ℕ) (lead : Text) (d : ℕ) (s : Text)
    → All (λ x. x ≡ c) lead
    → d ≢ c
    → skip_all c (lead ++ d ∷ s) ≡ d ∷ s
unfolding skip_all
skip_all-append c [] d s all n = rw (code_ne d c n) refl
skip_all-append c (x ∷ lead) d s all n =
    rw (all.0, code_refl c) (skip_all-append c lead d s all.1 n)

-- The segment that is being read goes on up to the next separator.
segments-part : (c a : ℕ) (p s : Text) → first_of (segments c (a ∷ p) s) ≡ (a ∷ p) ++ before c s
unfolding segments before
segments-part c a p [] = sym (append-nil (a ∷ p))
segments-part c a p (d ∷ s) = elim (Bool-cases (d == c)) [
  | inl y ↦ rw y (sym (append-nil (a ∷ p)))
  | inr n ↦ rw n (segments-part c a (p ++ d ∷ []) s ∙ append_assoc (a ∷ p) (d ∷ []) (before c s))
]

before_other : (c d : ℕ) (s : Text) → (d == c) ≡ false → before c (d ∷ s) ≡ d ∷ before c s
unfolding before
before_other c d s n = rw n refl

segments-first : (c : ℕ) (t : Text) → first_of (segments c [] t) ≡ before c (skip_all c t)
unfolding segments skip_all before
segments-first c [] = refl
segments-first c (d ∷ s) = elim (Bool-cases (d == c)) [
  | inl y ↦ rw y (segments-first c s)
  | inr n ↦ rw n (segments-part c d [] s ∙ sym (before_other c d s n))
]

pub segments-IsFirst :
    (c : ℕ) (t : Text) → first_of (segments c [] t) ≢ [] → IsFirst c t (first_of (segments c [] t))
segments-IsFirst c t filled =
    let (lead, e, all) = skip_all-leads c t in
    (
      lead,
      skip_all c t,
      e,
      all,
      subst (IsBefore c (skip_all c t)) (sym (segments-first c t))
          (before-IsBefore c (skip_all c t)),
      filled,
    )

pub segments_unique : (c : ℕ) (t part : Text) → IsFirst c t part → part ≡ first_of (segments c [] t)
segments_unique c t [] (lead, s, e, all, b, filled) = absurd (filled refl)
segments_unique c t (d ∷ part) (lead, s, e, all, (rest, f, others, begins), filled) =
    let skipped : skip_all c t ≡ (d ∷ part) ++ rest =
      ap (skip_all c) (e ∙ ap (λ x. lead ++ x) f)
      ∙ skip_all-append c lead d (part ++ rest) all others.0 in
    sym
      (segments-first c t ∙ (ap (before c) skipped ∙ before-append c (d ∷ part) rest others begins))
