-- ===== src/Interest/Boosts.antt =====
-- The loop over the set of keys: what it makes of each weight, and the keys that it leaves over.
use my_tech_pulse.Base.{
  ℕ, zero, suc, ◌≡◌, ◌≢◌, refl, sym, ◌∙◌, Bool, true, false, ◌&&◌, ◌||◌, Option, none, some, [],
  ◌∷◌, List, if◌then◌else◌, Text, text_eq, text_eq_iff, Assoc, lookup, arith, Option-cases, inl,
  inr,
}
use my_tech_pulse.Unicode.{Unicode, fold_idem}
use my_tech_pulse.Interest.{
  Weight, is_empty, has, normalize_tag, key_set, ℤ, pos, update_at, boosted, clamp, add_int64,
  boost_keys,
}
use my_tech_pulse.Interest.Keys.{after, place_of, weight_of}

abbrev pub raised : ℕ → ℤ → ℤ
raised boost v = pos (clamp (add_int64 v boost))

unfoldable pub is_some : Option ℕ → Bool
is_some none = false
is_some (some i) = true

named : (s : Text) → is_empty s ≡ false → s ≢ []
unfolding is_empty
named s p q = ground (arith, p, q)

is_some-after : (o : Option ℕ) → is_some (after o) ≡ is_some o
unfolding is_some after
is_some-after none = refl
is_some-after (some i) = refl

module _ ⦃u : Unicode⦄ where
  -- The keys of a set: normalized, not empty, and each once.
  abbrev pub IsKeys : List Text → Type 0
  IsKeys [] = Unit {0}
  IsKeys (k ∷ keys) = (k ≢ []) × (normalize_tag k ≡ k) × (has k keys ≡ false) × IsKeys keys

  pub key_set-IsKeys : (raws : List Text) → IsKeys (key_set raws)
  unfolding key_set normalize_tag is_empty
  key_set-IsKeys [] = tt
  key_set-IsKeys (raw ∷ raws) =
      if_key (key_set-IsKeys raws) (is_empty (normalize_tag raw)) refl
        (has (normalize_tag raw) (key_set raws)) refl
    where
      keys : List Text
      keys = key_set raws

      if_key :
          IsKeys keys
          → (b : Bool) → is_empty (normalize_tag raw) ≡ b
          → (c : Bool) → has (normalize_tag raw) keys ≡ c
          → IsKeys (if b || c then keys else normalize_tag raw ∷ keys)
      if_key s true p c q = s
      if_key s false p true q = s
      if_key s false p false q = (named (normalize_tag raw) p, fold_idem raw, q, s)

  pub place_of-update_at :
      (j : Text) (i boost : ℕ) (ws : List Weight)
      → place_of j (update_at i (boosted boost) ws) ≡ place_of j ws
  unfolding place_of update_at boosted
  place_of-update_at j i boost [] = refl
  place_of-update_at j zero boost (w ∷ ws) = refl
  place_of-update_at j (suc i) boost (w ∷ ws) = ground (arith, place_of-update_at j i boost ws)

  weight_of-update_at :
      (j k : Text) (i boost : ℕ) (ws : List Weight)
      → place_of k ws ≡ some i
      → weight_of j (update_at i (boosted boost) ws)
        ≡ (if text_eq k j then raised boost (weight_of k ws) else weight_of j ws)
  unfolding place_of update_at boosted weight_of after
  weight_of-update_at j k i boost [] q = cc
  weight_of-update_at j k zero boost (w ∷ ws) q = ground (
    arith,
    text_eq_iff (normalize_tag w.tag) k,
    text_eq_iff (normalize_tag w.tag) j,
    text_eq_iff k j,
    Option-cases (place_of k ws),
  )
  weight_of-update_at j k (suc i) boost (w ∷ ws) q = ground (
    arith,
    text_eq_iff (normalize_tag w.tag) k,
    text_eq_iff (normalize_tag w.tag) j,
    text_eq_iff k j,
    Option-cases (place_of k ws),
    weight_of-update_at j k i boost ws,
  )

  pub weight_of-none : (k : Text) (ws : List Weight) → place_of k ws ≡ none → weight_of k ws ≡ pos 0
  unfolding place_of weight_of after
  weight_of-none k [] q = refl
  weight_of-none k (w ∷ ws) q = ground (arith, Option-cases (place_of k ws), weight_of-none k ws)

  pub weight_of-boost_keys :
      (j : Text) (boost : ℕ) (by_tag : Assoc ℕ) (keys : List Text) (out : List Weight)
      → IsKeys keys
      → ((k : Text) → k ≢ [] → lookup k by_tag ≡ place_of k out)
      → weight_of j (boost_keys boost by_tag keys out).0 ≡ (
          if has j keys && is_some (place_of j out)
          then raised boost (weight_of j out)
          else weight_of j out)
  unfolding boost_keys has is_some
  weight_of-boost_keys j boost by_tag [] out s agree = refl
  weight_of-boost_keys j boost by_tag (k ∷ keys) out s agree =
      elim (Option-cases (lookup k by_tag)) [
        | inl missing ↦
            rw (missing, boost_keys)
              (weight_of-boost_keys j boost by_tag keys out s.3 agree
                ∙ ground (arith, missing, agree k s.0, text_eq_iff k j))
        | inr (i, found) ↦
            let here : place_of k out ≡ some i = sym (agree k s.0) ∙ found in
            rw (found, boost_keys)
              (weight_of-boost_keys j boost by_tag keys (update_at i (boosted boost) out) s.3
                  (λ h n. agree h n ∙ sym (place_of-update_at h i boost out))
                ∙ ground (
                  arith,
                  here,
                  s.2,
                  text_eq_iff k j,
                  place_of-update_at j i boost out,
                  weight_of-update_at j k i boost out here,
                ))
      ]
