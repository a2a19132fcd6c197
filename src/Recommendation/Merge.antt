-- ===== src/Recommendation/Merge.antt =====
-- The tags that `mergeTags` keeps.
use my_tech_pulse.Base.{
  ◌≡◌, ◌≢◌, refl, ◌∙◌, true, false, ◌&&◌, ◌||◌, not, [], ◌∷◌, ◌++◌, List, map, Text, text_eq,
  text_eq_iff, arith, Bool-cases, inl, inr,
}
use my_tech_pulse.Unicode.{Unicode, fold, to_lower, trim_space}
use my_tech_pulse.Article.{is_blank, has_blank}
use my_tech_pulse.Interest.{is_empty, has, normalize_tag}
use my_tech_pulse.Recommendation.{merge_from, merge_tags}

is_empty-named : (k : Text) → k ≢ [] → is_empty k ≡ false
unfolding is_empty
is_empty-named [] n = absurd (n refl)
is_empty-named (c ∷ s) n = refl

has-append : (k : Text) (xs ys : List Text) → has k (xs ++ ys) ≡ (has k xs || has k ys)
unfolding has
has-append k [] ys = refl
has-append k (x ∷ xs) ys = ground (arith, has-append k xs ys)

pub has_nothing : (k : Text) → has k [] ≡ false
unfolding has
has_nothing k = refl

module _ ⦃u : Unicode⦄ where
  -- The keys of a list of tags.
  abbrev pub keys : List Text → List Text
  keys tags = map normalize_tag tags

  pub has-keys-append :
      (k : Text) (a b : List Text) → has k (keys (a ++ b)) ≡ (has k (keys a) || has k (keys b))
  unfolding has
  has-keys-append k [] b = refl
  has-keys-append k (x ∷ a) b = ground (arith, has-keys-append k a b)

  merge_from-keys :
      (k : Text) (seen tags : List Text)
      → k ≢ []
      → has k (keys (merge_from seen tags)) ≡ (has k (keys tags) && not (has k seen))
  unfolding merge_from has
  merge_from-keys k seen [] n = refl
  merge_from-keys k seen (tag ∷ tags) n = ground (
    arith,
    text_eq_iff (normalize_tag tag) k,
    is_empty-named k n,
    merge_from-keys k seen tags n,
    merge_from-keys k (normalize_tag tag ∷ seen) tags n,
  )

  to_lower_empty : (s : Text) → text_eq s [] ≡ is_empty (to_lower s)
  unfolding to_lower is_empty text_eq
  to_lower_empty [] = refl
  to_lower_empty (c ∷ s) = refl

  -- A tag is blank if it has no key.
  is_blank-is_empty : (tag : Text) → is_blank tag ≡ is_empty (normalize_tag tag)
  unfolding is_blank normalize_tag fold
  is_blank-is_empty tag = to_lower_empty (trim_space tag)

  merge_from-has_blank : (seen tags : List Text) → has_blank (merge_from seen tags) ≡ false
  unfolding merge_from has_blank
  merge_from-has_blank seen [] = refl
  merge_from-has_blank seen (tag ∷ tags) = ground (
    arith,
    is_blank-is_empty tag,
    merge_from-has_blank seen tags,
    merge_from-has_blank (normalize_tag tag ∷ seen) tags,
  )

  -- `mergeTags` keeps no blank tag.
  pub merge_tags-has_blank : (a b : List Text) → has_blank (merge_tags a b) ≡ false
  unfolding merge_tags
  merge_tags-has_blank a b = merge_from-has_blank [] (a ++ b)

  -- No two tags with one key, and none without a key.
  abbrev pub IsMerged : List Text → Type 0
  IsMerged [] = Unit {0}
  IsMerged (tag ∷ tags) =
      (is_empty (normalize_tag tag) ≡ false)
      × (has (normalize_tag tag) (keys tags) ≡ false)
      × IsMerged tags

  merge_from-fresh :
      (k : Text) (seen tags : List Text)
      → has k seen ≡ true
      → has k (keys (merge_from seen tags)) ≡ false
  unfolding merge_from has
  merge_from-fresh k seen [] s = refl
  merge_from-fresh k seen (tag ∷ tags) s = ground (
    arith,
    text_eq_iff (normalize_tag tag) k,
    merge_from-fresh k seen tags s,
    merge_from-fresh k (normalize_tag tag ∷ seen) tags,
  )

  has_self : (k : Text) (seen : List Text) → has k (k ∷ seen) ≡ true
  unfolding has
  has_self k seen = ground (arith, text_eq_iff k k)

  merge_from-IsMerged : (seen tags : List Text) → IsMerged (merge_from seen tags)
  unfolding merge_from
  merge_from-IsMerged seen [] = tt
  merge_from-IsMerged seen (tag ∷ tags) =
      let key = normalize_tag tag in
      elim (Bool-cases (not (is_empty key) && not (has key seen))) [
        | inr out ↦ rw out (merge_from-IsMerged seen tags)
        | inl new ↦ rw new (
          ground (arith, new),
          merge_from-fresh key (key ∷ seen) tags (has_self key seen),
          merge_from-IsMerged (key ∷ seen) tags,
        )
      ]

  -- `mergeTags` keeps one tag for each key of either list, and no others.
  pub merge_tags_lem :
      (k : Text) (a b : List Text)
      → k ≢ []
      → IsMerged (merge_tags a b)
        × (has k (keys (merge_tags a b)) ≡ (has k (keys a) || has k (keys b)))
  unfolding merge_tags
  merge_tags_lem k a b n = (
    merge_from-IsMerged [] (a ++ b),
    merge_from-keys k [] (a ++ b) n ∙ ground (arith, has-keys-append k a b, has_nothing k),
  )
