-- ===== src/Interest/Top.antt =====
-- server/internal/interest/top.go: the strongest tags.
use my_tech_pulse.Base.{
  text_lt_asym, text_lt_total, All, sort_by-All, leb, ◌==◌, ◌&&◌, ◌≤◌, ◌<◌, ◌⊎◌, inl, inr,
  Bool-cases, refl, ◌∙◌, leb_int_total, int_eq_sym, sort_by, IsRanked, take-drop, drop, count_if,
  count_if-sort_by, sort_by-IsRanked, ℕ, ◌≡◌, Bool, true, false, not, [], ◌∷◌, ◌++◌, List, ltb,
  if◌then◌else◌, text_eq, text_lt, text_eq_iff, ℤ, pos, negsuc, leb_int, int_eq, arith, take,
  length, length-take, min,
}
use my_tech_pulse.Unicode.{Unicode}
use my_tech_pulse.Interest.{Weight, normalize_tag}

abbrev pub top_tag_limit : ℤ
top_tag_limit = pos 5

-- The weights above zero.
unfoldable pub positive : List Weight → List Weight
positive [] = []
positive (w ∷ ws) = let rest = positive ws in if leb_int w.value (pos 0) then rest else w ∷ rest

unfoldable pub count_of : ℤ → ℕ
count_of (pos n) = n
count_of (negsuc n) = 0

module _ ⦃u : Unicode⦄ where
  -- The order of the sort.
  unfoldable pub comes_before : Weight → Weight → Bool
  comes_before w v =
      if not (int_eq w.value v.value)
      then not (leb_int w.value v.value)
      else if not (text_eq (normalize_tag w.tag) (normalize_tag v.tag))
      then text_lt (normalize_tag w.tag) (normalize_tag v.tag)
      else ltb w.tag_id v.tag_id

  unfoldable pub top : List Weight → ℤ → List Weight
  top weights n = take (count_of n) (sort_by comes_before (positive weights))

  comes_before_asym : (w v : Weight) → comes_before w v ≡ true → comes_before v w ≡ false
  unfolding comes_before
  comes_before_asym w v e = ground (
    arith,
    e,
    leb_int_total w.value v.value,
    leb_int_total v.value w.value,
    int_eq_sym w.value v.value,
    text_eq_iff (normalize_tag w.tag) (normalize_tag v.tag),
    text_eq_iff (normalize_tag v.tag) (normalize_tag w.tag),
    text_lt_asym (normalize_tag w.tag) (normalize_tag v.tag),
  )

  -- w may stand in front of v: it is stronger, or as strong and its name is the lesser one, or the names are
  -- one and its number is not the greater.
  abbrev pub IsAhead : Weight → Weight → Type 0
  IsAhead w v =
      (count_of v.value < count_of w.value)
      ⊎ ((count_of v.value ≡ count_of w.value)
          × ((text_lt (normalize_tag w.tag) (normalize_tag v.tag) ≡ true)
              ⊎ ((normalize_tag w.tag ≡ normalize_tag v.tag) × (w.tag_id ≤ v.tag_id))))

  abbrev IsAheadOf : Weight → List Weight → Type 0
  IsAheadOf w [] = Unit {0}
  IsAheadOf w (v ∷ ws) = IsAhead w v

  -- Each may stand in front of the next.
  abbrev pub AreInOrder : List Weight → Type 0
  AreInOrder [] = Unit {0}
  AreInOrder (w ∷ ws) = IsAheadOf w ws × AreInOrder ws

  abbrev AreAbove : List Weight → Type 0
  AreAbove ws = All (λ w. leb_int w.value (pos 0) ≡ false) ws

  positive-AreAbove : (ws : List Weight) → AreAbove (positive ws)
  unfolding positive
  positive-AreAbove [] = tt
  positive-AreAbove (w ∷ ws) = elim (Bool-cases (leb_int w.value (pos 0))) [
    | inl low ↦ rw low (positive-AreAbove ws)
    | inr high ↦ rw high (high, positive-AreAbove ws)
  ]

  value_le :
      (a b : ℤ)
      → leb_int a (pos 0) ≡ false
      → leb_int b (pos 0) ≡ false
      → (leb_int a b ≡ leb (count_of a) (count_of b)) × (int_eq a b ≡ (count_of a == count_of b))
  unfolding leb_int int_eq count_of
  value_le (pos m) (pos n) p q = (refl, refl)
  value_le (pos m) (negsuc n) p q = absurd (cc)
  value_le (negsuc m) b p q = absurd (cc)

  behind-IsAhead :
      (w v : Weight)
      → leb_int w.value (pos 0) ≡ false
      → leb_int v.value (pos 0) ≡ false
      → comes_before v w ≡ false
      → IsAhead w v
  unfolding comes_before
  behind-IsAhead w v p q e = ground (
    arith,
    e,
    value_le v.value w.value q p,
    text_eq_iff (normalize_tag v.tag) (normalize_tag w.tag),
    text_lt_total (normalize_tag w.tag) (normalize_tag v.tag),
  )

  IsRanked-AreInOrder : (ws : List Weight) → AreAbove ws → IsRanked comes_before ws → AreInOrder ws
  IsRanked-AreInOrder [] a r = tt
  IsRanked-AreInOrder (w ∷ []) a r = (tt, tt)
  IsRanked-AreInOrder (w ∷ v ∷ ws) a r =
      (behind-IsAhead w v a.0 a.1.0 r.0, IsRanked-AreInOrder (v ∷ ws) a.1 r.1)

  leb_int-zero : (a : ℤ) → leb_int a (pos 0) ≡ not (ltb 0 (count_of a))
  unfolding leb_int count_of
  leb_int-zero (pos n) = ground arith
  leb_int-zero (negsuc n) = refl

  count_if-positive :
      (p : Weight → Bool) (ws : List Weight)
      → count_if p (positive ws) ≡ count_if (λ w. ltb 0 (count_of w.value) && p w) ws
  unfolding count_if positive leb_int count_of
  count_if-positive p [] = refl
  count_if-positive p (w ∷ ws) = ground (arith, leb_int-zero w.value, count_if-positive p ws)

  -- The tags that `Top` gives are, together with some that it leaves out, exactly the tags with a weight above
  -- zero, each as often as it was (under any test p). In the list of both, each is stronger than the next, or
  -- as strong with the lesser name, or the names are one and its number is not the greater. `Top` gives as
  -- many as were asked for, or all.
  pub top_lem :
      (weights : List Weight) (n : ℤ) (p : Weight → Bool)
      → (rest : List Weight) × AreInOrder (top weights n ++ rest)
        × (count_if p (top weights n ++ rest)
            ≡ count_if (λ w. ltb 0 (count_of w.value) && p w) weights)
        × (length (top weights n) ≡ min (count_of n) (length (top weights n ++ rest)))
  unfolding top
  top_lem weights n p =
      let sorted = sort_by comes_before (positive weights) in
      let whole = take-drop (count_of n) sorted in
      (
        drop (count_of n) sorted,
        rw whole (
            IsRanked-AreInOrder sorted
              (sort_by-All comes_before (λ w. leb_int w.value (pos 0) ≡ false) (positive weights)
                (positive-AreAbove weights))
              (sort_by-IsRanked comes_before comes_before_asym (positive weights))),
        rw whole (count_if-sort_by comes_before p (positive weights) ∙ count_if-positive p weights),
        rw whole (length-take (count_of n) sorted),
      )
