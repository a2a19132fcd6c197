-- ===== src/Interest/Updates.antt =====
-- What the updates add to the rows, and the weights of rows put together.
use my_tech_pulse.Base.{
  ℕ, ◌≤◌, ◌≡◌, ◌≢◌, refl, sym, ap, ◌∙◌, ◌&&◌, ◌||◌, not, some, [], ◌∷◌, ◌++◌, List, map,
  if◌then◌else◌, Text, text_eq, text_eq_iff, text_lt, Assoc, lookup, arith, Bool-cases,
  Option-cases, inl, inr,
}
use my_tech_pulse.Unicode.{Unicode}
use my_tech_pulse.Interest.{
  Weight, has, normalize_tag, pos, update_at, boosted, clamp, add_int64, boost_keys, scale,
  insert_sorted, sort_texts, new_weight,
}
use my_tech_pulse.Interest.Keys.{after, place_of, weight_of}
use my_tech_pulse.Interest.Boosts.{raised, is_some, IsKeys, place_of-update_at}

has-insert_sorted :
    (j k : Text) (keys : List Text) → has j (insert_sorted k keys) ≡ (text_eq k j || has j keys)
unfolding has insert_sorted
has-insert_sorted j k [] = refl
has-insert_sorted j k (h ∷ keys) = ground (arith, has-insert_sorted j k keys)

pub has-sort_texts : (j : Text) (keys : List Text) → has j (sort_texts keys) ≡ has j keys
unfolding has sort_texts
has-sort_texts j [] = refl
has-sort_texts j (k ∷ keys) =
    has-insert_sorted j k (sort_texts keys) ∙ ap (λ b. text_eq k j || b) (has-sort_texts j keys)

pub raised-zero : (boost : ℕ) → boost ≤ scale → raised boost (pos 0) ≡ pos boost
unfolding clamp add_int64
raised-zero boost h = ground arith

module _ ⦃u : Unicode⦄ where
  abbrev AreNormal : List Text → Type 0
  AreNormal [] = Unit {0}
  AreNormal (k ∷ keys) = (normalize_tag k ≡ k) × AreNormal keys

  insert_sorted-AreNormal :
      (k : Text) (keys : List Text)
      → normalize_tag k ≡ k
      → AreNormal keys
      → AreNormal (insert_sorted k keys)
  unfolding insert_sorted
  insert_sorted-AreNormal k [] n a = (n, tt)
  insert_sorted-AreNormal k (j ∷ keys) n a = elim (Bool-cases (text_lt j k)) [
    | inl first ↦ rw first (a.0, insert_sorted-AreNormal k keys n a.1)
    | inr last ↦ rw last (n, a)
  ]

  pub sort_texts-AreNormal : (keys : List Text) → AreNormal keys → AreNormal (sort_texts keys)
  unfolding sort_texts
  sort_texts-AreNormal [] a = tt
  sort_texts-AreNormal (k ∷ keys) a =
      insert_sorted-AreNormal k (sort_texts keys) a.0 (sort_texts-AreNormal keys a.1)

  pub boost_keys-AreNormal :
      (boost : ℕ) (by_tag : Assoc ℕ) (keys : List Text) (out : List Weight)
      → IsKeys keys
      → AreNormal (boost_keys boost by_tag keys out).1
  unfolding boost_keys
  boost_keys-AreNormal boost by_tag [] out s = tt
  boost_keys-AreNormal boost by_tag (k ∷ keys) out s = elim (Option-cases (lookup k by_tag)) [
    | inl missing ↦ rw (missing, boost_keys) (s.1, boost_keys-AreNormal boost by_tag keys out s.3)
    | inr (i, found) ↦
        rw (found, boost_keys)
          (boost_keys-AreNormal boost by_tag keys (update_at i (boosted boost) out) s.3)
  ]

  -- The loop leaves the places as they are.
  pub place_of-boost_keys :
      (j : Text) (boost : ℕ) (by_tag : Assoc ℕ) (keys : List Text) (out : List Weight)
      → place_of j (boost_keys boost by_tag keys out).0 ≡ place_of j out
  unfolding boost_keys
  place_of-boost_keys j boost by_tag [] out = refl
  place_of-boost_keys j boost by_tag (k ∷ keys) out = elim (Option-cases (lookup k by_tag)) [
    | inl missing ↦ rw (missing, boost_keys) (place_of-boost_keys j boost by_tag keys out)
    | inr (i, found) ↦
        rw (found, boost_keys)
          (place_of-boost_keys j boost by_tag keys (update_at i (boosted boost) out)
            ∙ place_of-update_at j i boost out)
  ]

  -- The keys that have no row.
  pub has-boost_keys :
      (j : Text) (boost : ℕ) (by_tag : Assoc ℕ) (keys : List Text) (out : List Weight)
      → IsKeys keys
      → ((k : Text) → k ≢ [] → lookup k by_tag ≡ place_of k out)
      → has j (boost_keys boost by_tag keys out).1 ≡ (has j keys && not (is_some (place_of j out)))
  unfolding boost_keys has is_some
  has-boost_keys j boost by_tag [] out s agree = refl
  has-boost_keys j boost by_tag (k ∷ keys) out s agree = elim (Option-cases (lookup k by_tag)) [
    | inl missing ↦
        rw (missing, boost_keys)
          (ground (
            arith,
            has-boost_keys j boost by_tag keys out s.3 agree,
            missing,
            agree k s.0,
            text_eq_iff k j,
          ))
    | inr (i, found) ↦
        let here : place_of k out ≡ some i = sym (agree k s.0) ∙ found in
        rw (found, boost_keys)
          (has-boost_keys j boost by_tag keys (update_at i (boosted boost) out) s.3
              (λ h n. agree h n ∙ sym (place_of-update_at h i boost out))
            ∙ ground (arith, here, text_eq_iff k j, place_of-update_at j i boost out))
  ]

  pub weight_of-append :
      (j : Text) (xs ys : List Weight)
      → weight_of j (xs ++ ys)
        ≡ (if is_some (place_of j xs) then weight_of j xs else weight_of j ys)
  unfolding weight_of place_of is_some after
  weight_of-append j [] ys = refl
  weight_of-append j (x ∷ xs) ys =
      ground (arith, weight_of-append j xs ys, Option-cases (place_of j xs))

  pub weight_of-new_weight :
      (j : Text) (boost : ℕ) (keys : List Text)
      → AreNormal keys
      → weight_of j (map (new_weight boost) keys) ≡ (if has j keys then pos boost else pos 0)
  unfolding weight_of new_weight has
  weight_of-new_weight j boost [] a = refl
  weight_of-new_weight j boost (k ∷ keys) a =
      ground (arith, a.0, weight_of-new_weight j boost keys a.1)
