-- ===== src/Interest/Bounds.antt =====
-- The values that the updates leave.
use my_tech_pulse.Base.{
  some-inj, none-ne-some, ℕ, zero, suc, ◌≤◌, ◌≡◌, refl, subst, some, [], ◌∷◌, ◌++◌, List, map, Text,
  Assoc, lookup, arith, Bool-cases, Option-cases, inl, inr, All,
}
use my_tech_pulse.Unicode.{Unicode}
use my_tech_pulse.Interest.{
  Weight, key_set, ℤ, pos, negsuc, update_at, decay, boosted, clamp, add_int64, boost_keys, scale,
  sort_texts, new_weight, collides, validate_current, tag_index, apply_boosts, update_on_click,
  click_boost,
}

-- A value from 0 to the scale.
abbrev pub InScale : Weight → Type 0
InScale w = (n : ℕ) × (w.value ≡ pos n) × (n ≤ scale)

clamp-le : (v : ℤ) → clamp v ≤ scale
unfolding clamp
clamp-le (negsuc n) = omega arith
clamp-le (pos n) = ground arith

decay-InScale : (ws : List Weight) → All InScale (map decay ws)
unfolding decay
decay-InScale [] = tt
decay-InScale (w ∷ ws) = ((_, refl, omega (arith, clamp-le w.value)), decay-InScale ws)

update_at-InScale :
    (i boost : ℕ) (ws : List Weight) → All InScale ws → All InScale (update_at i (boosted boost) ws)
unfolding update_at boosted
update_at-InScale i boost [] a = tt
update_at-InScale zero boost (w ∷ ws) a = ((_, refl, clamp-le (add_int64 w.value boost)), a.1)
update_at-InScale (suc i) boost (w ∷ ws) a = (a.0, update_at-InScale i boost ws a.1)

boost_keys-InScale :
    (boost : ℕ) (by_tag : Assoc ℕ) (keys : List Text) (out : List Weight)
    → All InScale out
    → All InScale (boost_keys boost by_tag keys out).0
unfolding boost_keys
boost_keys-InScale boost by_tag [] out a = a
boost_keys-InScale boost by_tag (k ∷ keys) out a = elim (Option-cases (lookup k by_tag)) [
  | inl missing ↦ rw (missing, boost_keys) (boost_keys-InScale boost by_tag keys out a)
  | inr (i, found) ↦
      rw (found, boost_keys)
        (boost_keys-InScale boost by_tag keys (update_at i (boosted boost) out)
          (update_at-InScale i boost out a))
]

new_weight-InScale :
    (boost : ℕ) (keys : List Text) → boost ≤ scale → All InScale (map (new_weight boost) keys)
unfolding new_weight
new_weight-InScale boost [] h = tt
new_weight-InScale boost (k ∷ keys) h = ((boost, refl, h), new_weight-InScale boost keys h)

append-InScale : (xs ys : List Weight) → All InScale xs → All InScale ys → All InScale (xs ++ ys)
append-InScale [] ys a b = b
append-InScale (x ∷ xs) ys a b = (a.0, append-InScale xs ys a.1 b)

module _ ⦃u : Unicode⦄ where
  -- Whatever values the rows had, negative or beyond the scale, after a click all are from 0 to the
  -- scale.
  pub update_on_click-InScale :
      (current : List Weight) (clicked : List Text) (out : List Weight)
      → update_on_click current clicked ≡ some out
      → All InScale out
  unfolding update_on_click validate_current apply_boosts
  update_on_click-InScale current clicked out e = elim (Bool-cases (collides [] current)) [
    | inl double ↦ absurd (none-ne-some (rw double at e))
    | inr single ↦
        let by_tag = tag_index 0 current [] in
        let r = boost_keys click_boost by_tag (key_set clicked) (map decay current) in
        subst (All InScale) (some-inj (rw single at e)) (
          append-InScale r.0 (map (new_weight click_boost) (sort_texts r.1))
            (boost_keys-InScale click_boost by_tag (key_set clicked) (map decay current)
              (decay-InScale current))
            (new_weight-InScale click_boost (sort_texts r.1) (omega arith)))
  ]
