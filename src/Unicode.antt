-- ===== src/Unicode.antt =====
-- What the code uses of Go's packages `strings` and `unicode`: `TrimSpace` over the exact set of
-- `unicode.IsSpace`, and `ToLower`, which maps each code point by Unicode's table. The table itself
-- is a parameter, with two facts of Unicode's simple case mapping.
use my_tech_pulse.Base.{
  ℕ, ◌+◌, ◌≤◌, ◌≡◌, refl, Bool, false, ◌&&◌, ◌||◌, [], ◌∷◌, map, arith, leb, ◌==◌, if◌then◌else◌,
  Text, inl, inr, Bool-cases, ap, ◌∙◌, length,
}

-- `unicode.IsSpace`.
unfoldable pub is_space : ℕ → Bool
is_space c =
    (leb 9 c && leb c 13)
    || c == 0x20
    || c == 0x85
    || c == 0xa0
    || c == 0x1680
    || (leb 0x2000 c && leb c 0x200a)
    || c == 0x2028
    || c == 0x2029
    || c == 0x202f
    || c == 0x205f
    || c == 0x3000

pub record Unicode : Type 0 where
  pub lower : ℕ → ℕ
  pub lower_idem : (c : ℕ) → lower (lower c) ≡ lower c
  pub is_space-lower : (c : ℕ) → is_space (lower c) ≡ is_space c

unfoldable pub trim_left : Text → Text
trim_left [] = []
trim_left (c ∷ s) = let rest = trim_left s in if is_space c then rest else c ∷ s

-- Puts a character before a text whose end is trimmed already.
unfoldable pub trim_cons : ℕ → Text → Text
trim_cons c [] = if is_space c then [] else c ∷ []
trim_cons c (d ∷ s) = c ∷ d ∷ s

unfoldable pub trim_right : Text → Text
unfolding trim_cons
trim_right [] = []
trim_right (c ∷ s) = trim_cons c (trim_right s)

-- `strings.TrimSpace`.
unfoldable pub trim_space : Text → Text
unfolding trim_left trim_right
trim_space s = trim_right (trim_left s)

trim_right_idem : (s : Text) → trim_right (trim_right s) ≡ trim_right s
unfolding trim_right
trim_right_idem [] = refl
trim_right_idem (c ∷ s) = trim_right-trim_cons c (trim_right s) (trim_right_idem s)
  where
    trim_right-trim_cons :
        (c : ℕ) (t : Text) → trim_right t ≡ t → trim_right (trim_cons c t) ≡ trim_cons c t
    trim_right-trim_cons c [] h = ground arith
    trim_right-trim_cons c (d ∷ t) h = rw h

trim_left_idem : (s : Text) → trim_left (trim_left s) ≡ trim_left s
unfolding trim_left
trim_left_idem [] = refl
trim_left_idem (c ∷ s) = ground (arith, trim_left_idem s)

length-trim_left-le : (s : Text) → length (trim_left s) ≤ length s
unfolding trim_left
length-trim_left-le [] = omega arith
length-trim_left-le (c ∷ s) = ground (arith, length-trim_left-le s)

trim_left-trim_cons :
    (c : ℕ) (t : Text) → is_space c ≡ false → trim_left (trim_cons c t) ≡ trim_cons c t
unfolding trim_left trim_cons
trim_left-trim_cons c [] h = rw (h, h)
trim_left-trim_cons c (d ∷ t) h = rw h

-- A text that starts with no space keeps its first character when its end is trimmed.
trim_left-trim_right : (s : Text) → trim_left s ≡ s → trim_left (trim_right s) ≡ trim_right s
unfolding trim_left trim_right
trim_left-trim_right [] h = refl
trim_left-trim_right (c ∷ s) h = elim (Bool-cases (is_space c)) [
  | inl e ↦ absurd (longer (rw e at h))
  | inr e ↦ trim_left-trim_cons c (trim_right s) e
]
  where
    longer : ¬ (trim_left s ≡ c ∷ s)
    longer eq = omega (arith, ap length eq, length-trim_left-le s)

pub trim_space_idem : (s : Text) → trim_space (trim_space s) ≡ trim_space s
unfolding trim_space
trim_space_idem s =
    ap trim_right (trim_left-trim_right (trim_left s) (trim_left_idem s))
    ∙ trim_right_idem (trim_left s)

module _ ⦃u : Unicode⦄ where
  -- `strings.ToLower`.
  unfoldable pub to_lower : Text → Text
  to_lower = map u.lower

  to_lower_idem : (s : Text) → to_lower (to_lower s) ≡ to_lower s
  unfolding to_lower
  to_lower_idem [] = refl
  to_lower_idem (c ∷ s) = cc (u.lower_idem c, to_lower_idem s)

  trim_left-to_lower : (s : Text) → trim_left (to_lower s) ≡ to_lower (trim_left s)
  unfolding to_lower trim_left
  trim_left-to_lower [] = refl
  trim_left-to_lower (c ∷ s) = ground (arith, u.is_space-lower c, trim_left-to_lower s)

  trim_right-to_lower : (s : Text) → trim_right (to_lower s) ≡ to_lower (trim_right s)
  unfolding to_lower trim_right
  trim_right-to_lower [] = refl
  trim_right-to_lower (c ∷ s) = rw (trim_right-to_lower s) (step c (trim_right s))
    where
      step : (c : ℕ) (t : Text) → trim_cons (u.lower c) (to_lower t) ≡ to_lower (trim_cons c t)
      step c [] = ground (arith, u.is_space-lower c)
      step c (d ∷ t) = refl

  trim_space-to_lower : (s : Text) → trim_space (to_lower s) ≡ to_lower (trim_space s)
  unfolding trim_space
  trim_space-to_lower s = ap trim_right (trim_left-to_lower s) ∙ trim_right-to_lower (trim_left s)

  -- `strings.ToLower(strings.TrimSpace(s))`.
  unfoldable pub fold : Text → Text
  fold s = to_lower (trim_space s)

  pub fold_idem : (s : Text) → fold (fold s) ≡ fold s
  unfolding fold
  fold_idem s =
      ap to_lower (trim_space-to_lower (trim_space s))
      ∙ to_lower_idem (trim_space (trim_space s))
      ∙ ap to_lower (trim_space_idem s)

-- Unicode's table cut down to the ASCII letters, for tests.
abbrev pub ascii_lower : ℕ → ℕ
ascii_lower c = if leb 65 c && leb c 90 then c + 32 else c

pub ascii_lower_idem : (c : ℕ) → ascii_lower (ascii_lower c) ≡ ascii_lower c
ascii_lower_idem c = ground arith

pub is_space-ascii_lower : (c : ℕ) → is_space (ascii_lower c) ≡ is_space c
unfolding is_space
is_space-ascii_lower c = ground arith

abbrev pub ascii : Unicode
ascii = record {
  lower = ascii_lower;
  lower_idem = ascii_lower_idem;
  is_space-lower = is_space-ascii_lower;
}
