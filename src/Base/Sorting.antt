-- ===== src/Base/Sorting.antt =====
-- A stable sort by "comes before", as `sort.SliceStable` gives it: an insertion sort that puts an
-- element before those that are equal to it and came later. And lists cut in two.
use Prim.Native.Nat.{ℕ, zero, suc, ◌+◌}
use mathlib.Core.Path.{◌≡◌, refl, ap, ◌∙◌}
use mathlib.Core.Logic.{inl, inr}
use mathlib.Core.Bool.{Bool, true, false}
use mathlib.Core.List.{List, [], ◌∷◌, ◌++◌}
use native.Mathlib.Omega.{arith}
use my_tech_pulse.Base.Tests.{if◌then◌else◌, Bool-cases}
use my_tech_pulse.Base.Lists.{take, All}

module _ {ℓ} {A : Type ℓ} where
  unfoldable pub insert_by : (A → A → Bool) → A → List A → List A
  insert_by before x [] = x ∷ []
  insert_by before x (y ∷ ys) =
      let rest = insert_by before x ys in if before y x then y ∷ rest else x ∷ y ∷ ys

  unfoldable pub sort_by : (A → A → Bool) → List A → List A
  unfolding insert_by
  sort_by before [] = []
  sort_by before (x ∷ xs) = insert_by before x (sort_by before xs)

  -- How many of the elements pass a test.
  unfoldable pub count_if : (A → Bool) → List A → ℕ
  count_if p [] = 0
  count_if p (x ∷ xs) = let n = count_if p xs in if p x then n + 1 else n

  unfoldable pub drop : ℕ → List A → List A
  drop zero xs = xs
  drop (suc n) [] = []
  drop (suc n) (x ∷ xs) = drop n xs

  pub take-drop : (n : ℕ) (xs : List A) → take n xs ++ drop n xs ≡ xs
  unfolding drop
  take-drop zero xs = refl
  take-drop (suc n) [] = refl
  take-drop (suc n) (x ∷ xs) = ap (λ ys. x ∷ ys) (take-drop n xs)

  pub take-All {κ} : (P : A → Type κ) (n : ℕ) (xs : List A) → All P xs → All P (take n xs)
  take-All P zero xs a = tt
  take-All P (suc n) [] a = tt
  take-All P (suc n) (x ∷ xs) a = (a.0, take-All P n xs a.1)

  pub append-All {κ} : (P : A → Type κ) (xs ys : List A) → All P xs → All P ys → All P (xs ++ ys)
  append-All P [] ys a b = b
  append-All P (x ∷ xs) ys a b = (a.0, append-All P xs ys a.1 b)

  module _ (before : A → A → Bool) where
    -- The first of the elements does not come before x.
    abbrev pub IsBehind : A → List A → Type 0
    IsBehind x [] = Unit {0}
    IsBehind x (y ∷ ys) = before y x ≡ false

    -- No element comes before the one in front of it.
    abbrev pub IsRanked : List A → Type 0
    IsRanked [] = Unit {0}
    IsRanked (x ∷ xs) = IsBehind x xs × IsRanked xs

    pub count_if-insert_by :
        (p : A → Bool) (x : A) (xs : List A)
        → count_if p (insert_by before x xs) ≡ count_if p (x ∷ xs)
    unfolding count_if insert_by
    count_if-insert_by p x [] = refl
    count_if-insert_by p x (y ∷ ys) = ground (arith, count_if-insert_by p x ys)

    pub count_if-sort_by :
        (p : A → Bool) (xs : List A) → count_if p (sort_by before xs) ≡ count_if p xs
    unfolding count_if sort_by
    count_if-sort_by p [] = refl
    count_if-sort_by p (x ∷ xs) =
        count_if-insert_by p x (sort_by before xs) ∙ ground (arith, count_if-sort_by p xs)

    insert_by-All {κ} :
        (P : A → Type κ) (x : A) (xs : List A) → P x → All P xs → All P (insert_by before x xs)
    unfolding insert_by
    insert_by-All P x [] h a = (h, tt)
    insert_by-All P x (y ∷ ys) h a = elim (Bool-cases (before y x)) [
      | inl first ↦ rw first (a.0, insert_by-All P x ys h a.1)
      | inr last ↦ rw last (h, a)
    ]

    pub sort_by-All {κ} : (P : A → Type κ) (xs : List A) → All P xs → All P (sort_by before xs)
    unfolding sort_by
    sort_by-All P [] a = tt
    sort_by-All P (x ∷ xs) a = insert_by-All P x (sort_by before xs) a.0 (sort_by-All P xs a.1)

    module _ (asym : (x y : A) → before x y ≡ true → before y x ≡ false) where
      insert_by-IsBehind :
          (y x : A) (xs : List A)
          → before y x ≡ true
          → IsBehind y xs
          → IsBehind y (insert_by before x xs)
      unfolding insert_by
      insert_by-IsBehind y x [] first b = asym y x first
      insert_by-IsBehind y x (z ∷ zs) first b = elim (Bool-cases (before z x)) [
        | inl second ↦ rw second b
        | inr third ↦ rw third (asym y x first)
      ]

      insert_by-IsRanked : (x : A) (xs : List A) → IsRanked xs → IsRanked (insert_by before x xs)
      unfolding insert_by
      insert_by-IsRanked x [] r = (tt, tt)
      insert_by-IsRanked x (y ∷ ys) r = elim (Bool-cases (before y x)) [
        | inl first ↦ rw first (insert_by-IsBehind y x ys first r.0, insert_by-IsRanked x ys r.1)
        | inr last ↦ rw last (last, r)
      ]

      pub sort_by-IsRanked : (xs : List A) → IsRanked (sort_by before xs)
      unfolding sort_by
      sort_by-IsRanked [] = tt
      sort_by-IsRanked (x ∷ xs) = insert_by-IsRanked x (sort_by before xs) (sort_by-IsRanked xs)
