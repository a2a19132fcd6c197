-- ===== src/Interest/Keys.antt =====
-- The keys of the rows: the index `byTag` finds the one row of a key.
use my_tech_pulse.Base.{
  ℕ, suc, ◌+◌, ◌≡◌, ◌≢◌, refl, ap, ◌∙◌, true, false, Option, none, some, [], ◌∷◌, List,
  if◌then◌else◌, Text, text_eq, text_eq_iff, text_eq_refl, Assoc, lookup, insert, lookup-insert,
  arith, Bool-cases, inl, inr,
}
use my_tech_pulse.Unicode.{Unicode}
use my_tech_pulse.Interest.{Weight, is_empty, has, normalize_tag, collides, tag_index, ℤ, pos}

unfoldable pub after : Option ℕ → Option ℕ
after none = none
after (some i) = some (suc i)

-- The place `i + j` if there is a j, else the other.
unfoldable pub place_or : ℕ → Option ℕ → Option ℕ → Option ℕ
place_or i none o = o
place_or i (some j) o = some (i + j)

is_empty_iff : (s : Text) → s ≢ [] → is_empty s ≡ false
unfolding is_empty
is_empty_iff [] h = absurd (h refl)
is_empty_iff (c ∷ s) h = refl

place_or-after : (i : ℕ) (o p : Option ℕ) → place_or i (after o) p ≡ place_or (i + 1) o p
unfolding place_or after
place_or-after i none p = refl
place_or-after i (some j) p = ap some (omega arith)

module _ ⦃u : Unicode⦄ where
  -- The first row of the key.
  unfoldable pub place_of : Text → List Weight → Option ℕ
  place_of k [] = none
  place_of k (w ∷ ws) =
      let rest = place_of k ws in if text_eq (normalize_tag w.tag) k then some 0 else after rest

  -- The weight of a key: that of its first row, and 0 where there is none.
  unfoldable pub weight_of : Text → List Weight → ℤ
  weight_of k [] = pos 0
  weight_of k (w ∷ ws) =
      let rest = weight_of k ws in if text_eq (normalize_tag w.tag) k then w.value else rest

  place_of-seen :
      (k : Text) (seen : List Text) (ws : List Weight)
      → k ≢ []
      → has k seen ≡ true
      → collides seen ws ≡ false
      → place_of k ws ≡ none
  unfolding collides place_of after has
  place_of-seen k seen [] n h c = refl
  place_of-seen k seen (w ∷ ws) n h c = ground (
    arith,
    place_of-seen k seen ws n,
    place_of-seen k (normalize_tag w.tag ∷ seen) ws n,
    text_eq_iff (normalize_tag w.tag) k,
    is_empty_iff k n,
  )

  -- Without a collision, the index that the code builds has the place of each key.
  pub lookup-tag_index :
      (k : Text) (i : ℕ) (seen : List Text) (ws : List Weight) (m : Assoc ℕ)
      → k ≢ []
      → collides seen ws ≡ false
      → lookup k (tag_index i ws m) ≡ place_or i (place_of k ws) (lookup k m)
  unfolding collides tag_index place_of place_or has after
  lookup-tag_index k i seen [] m n c = refl
  lookup-tag_index k i seen (w ∷ ws) m n c = elim (Bool-cases (is_empty key)) [
    | inl no_key ↦
        rw (no_key, tag_index)
          (lookup-tag_index k (i + 1) seen ws m n (ground (arith, no_key))
            ∙ ground (
              arith,
              is_empty_iff k n,
              text_eq_iff key k,
              place_or-after i (place_of k ws) (lookup k m),
            ))
    | inr named ↦
        rw (named, tag_index)
          (lookup-tag_index k (i + 1) (key ∷ seen) ws (insert key i m) n (ground (arith, named))
            ∙ ground (
              arith,
              lookup-insert k key i m,
              text_eq_iff key k,
              text_eq_refl k,
              place_or-after i (place_of k ws) (lookup k m),
              place_of-seen k (key ∷ seen) ws n,
            ))
  ]
    where
      key : Text
      key = normalize_tag w.tag
