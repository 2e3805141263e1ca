-- ===== src/Page/Citation/Laws.antt =====
-- White space at the ends and inside a quote does not matter: what stands in a page is found in it.
use geek_crawler_rag.Base.{
  ℕ, ◌≡◌, ◌∙◌, refl, sym, ap, ◌⊎◌, inl, inr, Bool, true, false, [], ◌∷◌, ◌++◌, append_assoc,
  Bool-cases, arith, Text, is_empty, is_space, lstrip, rstrip, strip, Infix,
}
use geek_crawler_rag.Page.Prose.{collapse}

-- The text starts and ends with a character that is not white space.
pub record IsSolid (s : Text) : Type 0 where
  pub head : ℕ
  pub tail : Text
  pub starts : s ≡ head ∷ tail
  pub head_solid : is_space head ≡ false
  pub init : Text
  pub last : ℕ
  pub ends : s ≡ init ++ (last ∷ [])
  pub last_solid : is_space last ≡ false

lstrip-starts :
    (t : Text)
    → (lstrip t ≡ []) ⊎ ((c : ℕ) × (s : Text) × (lstrip t ≡ c ∷ s) × (is_space c ≡ false))
unfolding lstrip
lstrip-starts [] = inl refl
lstrip-starts (c ∷ t) = elim (Bool-cases (is_space c)) [
  | inl space ↦ rw space (lstrip-starts t)
  | inr solid ↦ inr (c, t, rw solid refl, solid)
]

is_empty-append : (s t : Text) (c : ℕ) → is_empty (s ++ (c ∷ t)) ≡ false
is_empty-append [] t c = refl
is_empty-append (d ∷ s) t c = refl

rstrip-solid : (c : ℕ) (t : Text) → is_space c ≡ false → rstrip (c ∷ t) ≡ c ∷ rstrip t
unfolding rstrip
rstrip-solid c t h = ground (arith, h)

rstrip_keeps : (c : ℕ) (t : Text) → is_empty (rstrip t) ≡ false → rstrip (c ∷ t) ≡ c ∷ rstrip t
unfolding rstrip
rstrip_keeps c t h = ground (arith, h)

rstrip-ends :
    (t : Text)
    → (rstrip t ≡ []) ⊎ ((s : Text) × (c : ℕ) × (rstrip t ≡ s ++ (c ∷ [])) × (is_space c ≡ false))
unfolding rstrip
rstrip-ends [] = inl refl
rstrip-ends (c ∷ t) = elim (rstrip-ends t) [
  | inl e ↦ elim (Bool-cases (is_space c)) [
    | inl space ↦ inl (rw (e, space) refl)
    | inr solid ↦ inr ([], c, rw (e, solid) refl, solid)
  ]
  | inr (s, d, e, solid) ↦
      inr
        (c ∷ s, d, rstrip_keeps c t (ap is_empty e ∙ is_empty-append s [] d) ∙ ap (◌∷◌ c) e, solid)
]

-- Stripping stops at a character that is not white space.
rstrip-append :
    (s : Text) (c : ℕ) (t : Text) → is_space c ≡ false → rstrip (s ++ (c ∷ t)) ≡ s ++ (c ∷ rstrip t)
rstrip-append [] c t h = rstrip-solid c t h
rstrip-append (d ∷ s) c t h =
    let e = rstrip-append s c t h in
    rstrip_keeps d (s ++ (c ∷ t)) (ap is_empty e ∙ is_empty-append s (rstrip t) c) ∙ ap (◌∷◌ d) e

lstrip-append :
    (s : Text) (c : ℕ) (t : Text)
    → is_space c ≡ false
    → (s' : Text) × (lstrip (s ++ (c ∷ t)) ≡ s' ++ (c ∷ t))
unfolding lstrip
lstrip-append [] c t h = ([], rw h refl)
lstrip-append (d ∷ s) c t h = elim (Bool-cases (is_space d)) [
  | inl space ↦ rw space (lstrip-append s c t h)
  | inr solid ↦ (d ∷ s, rw solid refl)
]

-- A stripped text is empty, or solid.
pub strip-IsSolid : (t : Text) → (strip t ≡ []) ⊎ IsSolid (strip t)
unfolding strip
strip-IsSolid t = elim (rstrip-ends (lstrip t)) [
  | inl e ↦ inl e
  | inr (s, d, e, solid) ↦ elim (lstrip-starts t) [
    | inl b ↦ absurd (
        ground
          (arith, ap is_empty e, is_empty-append s [] d, ap (λ x. is_empty (rstrip x)) b, blank))
    | inr (c, r, f, h) ↦ inr (record {
      head = c;
      tail = rstrip r;
      starts = ap rstrip f ∙ rstrip-solid c r h;
      head_solid = h;
      init = s;
      last = d;
      ends = e;
      last_solid = solid;
    })
  ]
]
  where
    blank : is_empty (rstrip []) ≡ true
    blank = refl

-- A solid part of a text stands in the stripped text.
pub strip-part : (s t : Text) → IsSolid s → Infix s t → Infix s (strip t)
unfolding strip
strip-part s t h (b, a, e) =
    let (b', l) = lstrip-append b h.head (h.tail ++ a) h.head_solid in
    let left : lstrip t ≡ b' ++ (s ++ a) =
      ap lstrip (e ∙ ap (λ x. b ++ (x ++ a)) h.starts)
      ∙ (l ∙ ap (λ x. b' ++ (x ++ a)) (sym h.starts)) in
    let shape : b' ++ (s ++ a) ≡ (b' ++ h.init) ++ (h.last ∷ a) =
      ap (λ x. b' ++ (x ++ a)) h.ends ∙ (simp append_assoc) in
    let back : (b' ++ h.init) ++ (h.last ∷ rstrip a) ≡ b' ++ (s ++ rstrip a) =
      (simp append_assoc) ∙ ap (λ x. b' ++ (x ++ rstrip a)) (sym h.ends) in
    (
      b',
      rstrip a,
      ap rstrip (left ∙ shape) ∙ (rstrip-append (b' ++ h.init) h.last a h.last_solid ∙ back),
    )

-- Whether the last character is white space.
abbrev ends_in_space : Bool → Text → Bool
ends_in_space inside [] = inside
ends_in_space inside (c ∷ t) = ends_in_space (is_space c) t

collapse-append :
    (inside : Bool) (s t : Text)
    → collapse inside (s ++ t) ≡ collapse inside s ++ collapse (ends_in_space inside s) t
unfolding collapse
collapse-append inside [] t = refl
collapse-append inside (c ∷ s) t = elim (Bool-cases (is_space c)) [
  | inl space ↦ elim (Bool-cases inside) [
    | inl run ↦ rw (space, run) (collapse-append true s t)
    | inr first ↦ rw (space, first) (ap (◌∷◌ 32) (collapse-append true s t))
  ]
  | inr solid ↦ rw solid (ap (◌∷◌ c) (collapse-append false s t))
]

collapse-solid : (inside : Bool) (s : Text) → IsSolid s → collapse inside s ≡ collapse false s
unfolding collapse
collapse-solid inside s h = rw (h.starts, h.head_solid) refl

-- A solid part of a text stands, with its white space collapsed, in the collapsed text.
pub collapse-part :
    (s t : Text) → IsSolid s → Infix s t → Infix (collapse false s) (collapse false t)
collapse-part s t h (b, a, e) =
    let inside = ends_in_space false b in
    (
      collapse false b,
      collapse (ends_in_space inside s) a,
      ap (collapse false) e
          ∙ (collapse-append false b (s ++ a)
              ∙ ap (λ x. collapse false b ++ x)
                  (collapse-append inside s a
                    ∙ ap (λ x. x ++ collapse (ends_in_space inside s) a)
                        (collapse-solid inside s h))),
    )
