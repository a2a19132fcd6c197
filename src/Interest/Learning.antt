-- ===== src/Interest/Learning.antt =====
-- The two updates as functions on the weights of the keys.
use my_tech_pulse.Base.{
  some-inj, none-ne-some, ℕ, ◌*◌, ◌/◌, ◌≤◌, ◌≡◌, ◌≢◌, refl, sym, ap, ◌∙◌, false, Option, none, some,
  [], ◌∷◌, List, map, if◌then◌else◌, Text, text_eq_iff, Assoc, lookup, arith, Bool-cases,
  Option-cases, inl, inr,
}
use my_tech_pulse.Unicode.{Unicode}
use my_tech_pulse.Interest.{
  Weight, is_empty, has, normalize_tag, key_set, ℤ, pos, decay, clamp, boost_keys, decay_numerator,
  decay_denominator, scale, sort_texts, new_weight, collides, validate_current, tag_index,
  apply_boosts, update_on_click, update_on_save, click_boost, save_boost,
}
use my_tech_pulse.Interest.Keys.{place_or, place_of, weight_of, lookup-tag_index}
use my_tech_pulse.Interest.Boosts.{
  raised, is_some, IsKeys, key_set-IsKeys, weight_of-boost_keys, weight_of-none,
}
use my_tech_pulse.Interest.Updates.{
  has-sort_texts, raised-zero, sort_texts-AreNormal, boost_keys-AreNormal, place_of-boost_keys,
  has-boost_keys, weight_of-append, weight_of-new_weight,
}

-- What `UpdateOnClick` makes of every old weight.
abbrev pub decayed : ℤ → ℤ
decayed v = pos (clamp v * decay_numerator / decay_denominator)

place_or-lookup : (o : Option ℕ) → place_or 0 o none ≡ o
unfolding place_or
place_or-lookup none = refl
place_or-lookup (some i) = ap some (omega arith)

module _ ⦃u : Unicode⦄ where
  lookup-index :
      (k : Text) (current : List Weight)
      → k ≢ []
      → collides [] current ≡ false
      → lookup k (tag_index 0 current []) ≡ place_of k current
  unfolding lookup
  lookup-index k current n c =
      lookup-tag_index k 0 [] current [] n c ∙ place_or-lookup (place_of k current)

  place_of-decay : (k : Text) (ws : List Weight) → place_of k (map decay ws) ≡ place_of k ws
  unfolding place_of decay
  place_of-decay k [] = refl
  place_of-decay k (w ∷ ws) = ground (arith, place_of-decay k ws)

  weight_of-decay :
      (k : Text) (ws : List Weight) → weight_of k (map decay ws) ≡ decayed (weight_of k ws)
  unfolding weight_of decay clamp
  weight_of-decay k [] = refl
  weight_of-decay k (w ∷ ws) = ground (arith, weight_of-decay k ws)

  -- The set has the keys that some tag of the list has.
  has-key_set :
      (k : Text) (raws : List Text) → k ≢ [] → has k (key_set raws) ≡ has k (map normalize_tag raws)
  unfolding has key_set is_empty
  has-key_set k [] n = refl
  has-key_set k (raw ∷ raws) n =
      ground (arith, has-key_set k raws n, text_eq_iff (normalize_tag raw) k)

  weight_of-apply_boosts :
      (k : Text) (boost : ℕ) (current : List Weight) (raws : List Text) (out : List Weight)
      → boost ≤ scale
      → k ≢ []
      → collides [] current ≡ false
      → ((j : Text) → place_of j out ≡ place_of j current)
      → weight_of k (apply_boosts boost current raws out) ≡ (
          if has k (map normalize_tag raws)
          then raised boost (weight_of k out)
          else weight_of k out)
  unfolding apply_boosts is_some
  weight_of-apply_boosts k boost current raws out le n c same =
      weight_of-append k r.0 (map (new_weight boost) (sort_texts r.1))
      ∙ ground (
        arith,
        place_of-boost_keys k boost by_tag keys out,
        weight_of-boost_keys k boost by_tag keys out s agree,
        weight_of-new_weight k boost (sort_texts r.1)
            (sort_texts-AreNormal r.1 (boost_keys-AreNormal boost by_tag keys out s)),
        has-sort_texts k r.1,
        has-boost_keys k boost by_tag keys out s agree,
        has-key_set k raws n,
        weight_of-none k out,
        raised-zero boost le,
        Option-cases (place_of k out),
      )
    where
      by_tag : Assoc ℕ
      by_tag = tag_index 0 current []

      keys : List Text
      keys = key_set raws

      s : IsKeys keys
      s = key_set-IsKeys raws

      r : List Weight × List Text
      r = boost_keys boost by_tag keys out

      agree : (j : Text) → j ≢ [] → lookup j by_tag ≡ place_of j out
      agree j m = lookup-index j current m c ∙ sym (same j)

  -- After a click every weight has decayed, and the clicked tags, however they are spelled and how
  -- often they are named, have one boost more, cut to the scale; a clicked tag that had no row counts
  -- from zero.
  pub update_on_click_lem :
      (k : Text) (current : List Weight) (clicked : List Text) (out : List Weight)
      → k ≢ []
      → update_on_click current clicked ≡ some out
      → weight_of k out ≡ (
          if has k (map normalize_tag clicked)
          then raised click_boost (decayed (weight_of k current))
          else decayed (weight_of k current))
  unfolding update_on_click validate_current
  update_on_click_lem k current clicked out n e = elim (Bool-cases (collides [] current)) [
    | inl double ↦ absurd (none-ne-some (rw double at e))
    | inr single ↦
        ap (weight_of k) (sym (some-inj (rw single at e)))
        ∙ weight_of-apply_boosts k click_boost current clicked (map decay current) (omega arith) n
            single (λ j. place_of-decay j current)
        ∙ ap (λ v. if has k (map normalize_tag clicked) then raised click_boost v else v)
            (weight_of-decay k current)
  ]

  -- After a save the saved tags have one boost more, cut to the scale, and the others are as before.
  pub update_on_save_lem :
      (k : Text) (current : List Weight) (saved : List Text) (out : List Weight)
      → k ≢ []
      → update_on_save current saved ≡ some out
      → weight_of k out ≡ (
          if has k (map normalize_tag saved)
          then raised save_boost (weight_of k current)
          else weight_of k current)
  unfolding update_on_save validate_current
  update_on_save_lem k current saved out n e = elim (Bool-cases (collides [] current)) [
    | inl double ↦ absurd (none-ne-some (rw double at e))
    | inr single ↦
        ap (weight_of k) (sym (some-inj (rw single at e)))
        ∙ weight_of-apply_boosts k save_boost current saved current (omega arith) n single
            (λ j. refl)
  ]
