-- ===== src/Recommendation/Feed/Checked.antt =====
-- The articles that pass the check, and the popular ones that fill a list up.
use my_tech_pulse.Base.{
  ◌-◌, ◌≤◌, ◌≡◌, refl, sym, ap, ◌∙◌, subst, true, false, Option, some, [], ◌∷◌, ◌++◌, List, ltb,
  leb, length, length-append, append-All, All, Time, arith, Bool-cases, Option-cases, inl, inr,
}
use my_tech_pulse.Base.{some-inj, none-ne-some, ◌⊎◌, leb_int, pos, text_eq_iff}
use my_tech_pulse.Unicode.{Unicode}
use my_tech_pulse.Article.{
  Article, Urls, validate, is_blank, is_https, has_blank, source_qiita, source_zenn,
}
use my_tech_pulse.Recommendation.Merge.{merge_tags-has_blank}
use my_tech_pulse.Interest.{Weight}
use my_tech_pulse.Recommendation.{rank_limit, dedupe, add_tags}
use my_tech_pulse.Recommendation.Dedupe.{has_url, dedupe-HasDistinctUrls}
use my_tech_pulse.Recommendation.Feed.{
  not_chosen, keep_valid, valid_articles_since, fill_with_popular,
}
use my_tech_pulse.Recommendation.Feed.Ranked.{
  AreNew, KeepsUnderTags, IsList, append-HasDistinctUrls, length-rank_limit-le,
  rank_limit-HasDistinctUrls, rank_limit-All, dedupe-All,
}

append_nil : (xs : List Article) → xs ++ [] ≡ xs
append_nil [] = refl
append_nil (x ∷ xs) = ap (λ ys. x ∷ ys) (append_nil xs)

not_chosen-All :
    (P : Article → Type 0) (ranked items : List Article)
    → All P items
    → All P (not_chosen ranked items)
unfolding not_chosen
not_chosen-All P ranked [] a = tt
not_chosen-All P ranked (x ∷ items) a = elim (Bool-cases (has_url x.url ranked)) [
  | inl chosen ↦ rw chosen (not_chosen-All P ranked items a.1)
  | inr new ↦ rw new (a.0, not_chosen-All P ranked items a.1)
]

not_chosen-AreNew : (ranked items : List Article) → AreNew ranked (not_chosen ranked items)
unfolding not_chosen
not_chosen-AreNew ranked [] = tt
not_chosen-AreNew ranked (x ∷ items) = elim (Bool-cases (has_url x.url ranked)) [
  | inl chosen ↦ rw chosen (not_chosen-AreNew ranked items)
  | inr new ↦ rw new (new, not_chosen-AreNew ranked items)
]

module _ ⦃w : Urls⦄ where
  -- All that the check and the window say of an article.
  abbrev pub IsChecked : Time → Article → Type 0
  IsChecked since a =
      (since ≤ a.published_at)
      × (1 ≤ a.published_at)
      × ((a.source ≡ source_qiita) ⊎ (a.source ≡ source_zenn))
      × (is_blank a.title ≡ false)
      × (is_blank a.url ≡ false)
      × (is_https (w.parse a.url) ≡ true)
      × (leb_int (pos 0) a.likes ≡ true)
      × (has_blank a.tags ≡ false)

module _ ⦃u : Unicode⦄ ⦃w : Urls⦄ where
  validate-IsChecked : (a b : Article) → validate a ≡ some b → IsChecked 0 b
  unfolding validate
  validate-IsChecked a b e =
      ground (arith, e, text_eq_iff a.source source_qiita, text_eq_iff a.source source_zenn)

  keep_valid-All :
      (since : Time) (a : Article) (rest : List Article)
      → All (IsChecked since) rest
      → All (IsChecked since) (keep_valid since (validate a) rest)
  unfolding keep_valid
  keep_valid-All since a rest c = elim (Option-cases (validate a)) [
    | inl bad ↦ rw bad c
    | inr (b, good) ↦ elim (Bool-cases (ltb b.published_at since)) [
      | inl early ↦ rw (good, early) c
      | inr recent ↦
          let v = validate-IsChecked a b good in
          rw (good, recent) ((ground (arith, recent), v.1, v.2, v.3, v.4, v.5, v.6, v.7), c)
    ]
  ]

  pub valid_articles_since-All :
      (items : List Article) (since : Time)
      → All (IsChecked since) (valid_articles_since items since)
  unfolding valid_articles_since
  valid_articles_since-All [] since = tt
  valid_articles_since-All (a ∷ items) since =
      keep_valid-All since a (valid_articles_since items since)
        (valid_articles_since-All items since)

  pub IsChecked-KeepsUnderTags : (since : Time) → KeepsUnderTags (IsChecked since)
  unfolding add_tags
  IsChecked-KeepsUnderTags since a tags c =
      (c.0, c.1, c.2, c.3, c.4, c.5, c.6, merge_tags-has_blank a.tags tags)

  pub weaken_All :
      (P : Article → Type 0) (since : Time) (items : List Article)
      → ((a : Article) → IsChecked since a → P a)
      → All (IsChecked since) items
      → All P items
  weaken_All P since [] imp c = tt
  weaken_All P since (a ∷ items) imp c = (imp a c.0, weaken_All P since items imp c.1)

  AreNew-KeepsUnderTags :
      (ranked : List Article) → KeepsUnderTags (λ a. has_url a.url ranked ≡ false)
  unfolding add_tags
  AreNew-KeepsUnderTags ranked a tags c = c

  filled-IsList :
      (P : Article → Type 0) (weights : List Weight) (ranked items : List Article)
      → KeepsUnderTags P
      → IsList P ranked
      → All P items
      → IsList P
          (ranked ++ rank_limit weights (dedupe (not_chosen ranked items)) (10 - length ranked))
  filled-IsList P weights ranked items g l a =
      let rest = not_chosen ranked items in
      let more = rank_limit weights (dedupe rest) (10 - length ranked) in
      (
        omega (
          arith,
          length-append ranked more,
          length-rank_limit-le weights (dedupe rest) (10 - length ranked),
          l.0,
        ),
        append-HasDistinctUrls ranked more l.1
            (rank_limit-HasDistinctUrls weights (dedupe rest) (10 - length ranked)
              (dedupe-HasDistinctUrls rest))
            (rank_limit-All (λ x. has_url x.url ranked ≡ false) weights (dedupe rest)
              (10 - length ranked)
              (dedupe-All (λ x. has_url x.url ranked ≡ false) rest (AreNew-KeepsUnderTags ranked)
                (not_chosen-AreNew ranked items))),
        append-All P ranked more l.2 (
            rank_limit-All P weights (dedupe rest) (10 - length ranked)
              (dedupe-All P rest g (not_chosen-All P ranked items a))),
      )

  pub fill_with_popular-IsList :
      (P : Article → Type 0) (weights : List Weight) (ranked q : List Article)
      (popular : Option (List Article)) (since : Time)
      → KeepsUnderTags P
      → ((a : Article) → IsChecked since a → P a)
      → IsList P ranked
      → fill_with_popular weights ranked popular since ≡ some q
      → IsList P q × ((more : List Article) × (q ≡ ranked ++ more))
  unfolding fill_with_popular
  fill_with_popular-IsList P weights ranked q popular since g imp l e =
      elim (Bool-cases (leb 10 (length ranked))) [
        | inl full ↦
            let same : ranked ≡ q = some-inj (rw full at e) in
            (subst (IsList P) same l, ([], sym same ∙ sym (append_nil ranked)))
        | inr room ↦ elim (Option-cases popular) [
          | inl failed ↦ absurd (none-ne-some (rw (room, failed) at e))
          | inr (items, read) ↦
              let more =
                rank_limit weights (dedupe (not_chosen ranked (valid_articles_since items since)))
                  (10 - length ranked) in
              let same : ranked ++ more ≡ q = some-inj (rw (room, read) at e) in
              (
                subst (IsList P) same (
                    filled-IsList P weights ranked (valid_articles_since items since) g l (
                      weaken_All P since (valid_articles_since items since) imp
                        (valid_articles_since-All items since))),
                (more, sym same),
              )
        ]
      ]

  -- `fillWithPopular` leaves the ranked articles in front, adds at most as many as are missing to ten,
  -- none with an address that is there already, and only checked ones of the window.
  pub fill_with_popular_lem :
      (weights : List Weight) (ranked q : List Article) (popular : Option (List Article))
      (since : Time)
      → IsList (IsChecked since) ranked
      → fill_with_popular weights ranked popular since ≡ some q
      → IsList (IsChecked since) q × ((more : List Article) × (q ≡ ranked ++ more))
  fill_with_popular_lem weights ranked q popular since l e =
      fill_with_popular-IsList (IsChecked since) weights ranked q popular since
        (IsChecked-KeepsUnderTags since) (λ a c. c) l e
