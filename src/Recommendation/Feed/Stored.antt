-- ===== src/Recommendation/Feed/Stored.antt =====
-- The feed from the stored articles.
use my_tech_pulse.Base.{
  ◌-◌, ◌≤◌, ◌≡◌, refl, subst, Option, none, some, [], ◌∷◌, List, map, ltb, Text, All, Time, arith,
  Bool-cases, Option-cases, inl, inr,
}
use my_tech_pulse.Unicode.{Unicode}
use my_tech_pulse.Article.{Article, Urls, source_qiita, source_zenn}
use my_tech_pulse.Interest.{Weight}
use my_tech_pulse.Recommendation.{rank_limit, dedupe}
use my_tech_pulse.Recommendation.Feed.{
  ArticleRepository, Feed, shown, articles_failed, fresh_since, old_before, or_else,
  valid_articles_since, fill_with_popular, fill_both, get_from_db, qiita_window, zenn_window,
  zenn_stored_window, db_tagged_limit, db_popular_limit,
}
use my_tech_pulse.Recommendation.Feed.Ranked.{KeepsUnderTags, IsList, ranked-IsList}
use my_tech_pulse.Recommendation.Feed.Checked.{
  IsChecked, IsChecked-KeepsUnderTags, fill_with_popular-IsList, valid_articles_since-All,
}

fresh_since-All :
    (P : Article → Type 0) (since : Time) (items : List Article)
    → All P items
    → All P (fresh_since since items)
unfolding fresh_since
fresh_since-All P since [] a = tt
fresh_since-All P since (x ∷ items) a = elim (Bool-cases (ltb x.published_at since)) [
  | inl early ↦ rw early (fresh_since-All P since items a.1)
  | inr recent ↦ rw recent (a.0, fresh_since-All P since items a.1)
]

old_before-All :
    (P : Article → Type 0) (since : Time) (items : List Article)
    → All P items
    → All P (old_before since items)
unfolding old_before
old_before-All P since [] a = tt
old_before-All P since (x ∷ items) a = elim (Bool-cases (ltb x.published_at since)) [
  | inl early ↦ rw early (a.0, old_before-All P since items a.1)
  | inr recent ↦ rw recent (old_before-All P since items a.1)
]

or_else-All :
    (P : Article → Type 0) (fresh old : List Article)
    → All P fresh
    → All P old
    → All P (or_else fresh old)
unfolding or_else
or_else-All P [] old a b = b
or_else-All P (x ∷ fresh) old a b = a

failed-ne-shown : (f : Feed) → ¬ (articles_failed ≡ shown f)
failed-ne-shown f e = cc

shown-inj : {f g : Feed} → shown f ≡ shown g → f ≡ g
shown-inj e = cc

module _ ⦃u : Unicode⦄ ⦃w : Urls⦄ where
  recent_too :
      {before since : Time} (a : Article)
      → IsChecked before a
      → since ≤ a.published_at
      → IsChecked since a
  recent_too a c le = (le, c.1, c.2, c.3, c.4, c.5, c.6, c.7)

  fresh_since-IsChecked :
      (since : Time) (items : List Article)
      → All (IsChecked 0) items
      → All (IsChecked since) (fresh_since since items)
  unfolding fresh_since
  fresh_since-IsChecked since [] a = tt
  fresh_since-IsChecked since (x ∷ items) a = elim (Bool-cases (ltb x.published_at since)) [
    | inl early ↦ rw early (fresh_since-IsChecked since items a.1)
    | inr recent ↦
        rw recent (recent_too x a.0 (ground (arith, recent)), fresh_since-IsChecked since items a.1)
  ]

  any_time : (since : Time) (a : Article) → IsChecked since a → IsChecked 0 a
  any_time since a c = recent_too a c (omega arith)

  -- What a feed is: both lists, and no warnings.
  abbrev pub IsFeed : (Article → Type 0) → (Article → Type 0) → Feed → Type 0
  IsFeed P Q f = IsList P f.qiita_articles × IsList Q f.zenn_articles × (f.warnings ≡ [])

  fill_both-IsFeed :
      (Q : Article → Type 0) (repo : ArticleRepository) (weights : List Weight)
      (qiita_raw zenn_raw : List Article) (now : Time) (f : Feed)
      → KeepsUnderTags Q
      → ((a : Article) → IsChecked (now - zenn_window) a → Q a)
      → All (IsChecked (now - qiita_window)) qiita_raw
      → All Q zenn_raw
      → fill_both repo weights qiita_raw zenn_raw now ≡ shown f
      → IsFeed (IsChecked (now - qiita_window)) Q f
  unfolding fill_both
  fill_both-IsFeed Q repo weights qiita_raw zenn_raw now f g imp a b e =
      go
        (fill_with_popular weights (rank_limit weights (dedupe qiita_raw) 10) popular_q
          (now - qiita_window))
        refl
        (fill_with_popular weights (rank_limit weights (dedupe zenn_raw) 10) popular_z
          (now - zenn_window))
        refl e
    where
      popular_q : Option (List Article)
      popular_q = repo.list_popular source_qiita (now - qiita_window) db_popular_limit

      popular_z : Option (List Article)
      popular_z = repo.list_popular source_zenn (now - zenn_window) db_popular_limit

      go :
          (q : Option (List Article))
          → fill_with_popular weights
              (rank_limit weights (dedupe qiita_raw) 10)
              popular_q
              (now - qiita_window)
            ≡ q
          → (z : Option (List Article))
          → fill_with_popular weights
              (rank_limit weights (dedupe zenn_raw) 10)
              popular_z
              (now - zenn_window)
            ≡ z
          → (elim q [
            | none ↦ articles_failed
            | some q' ↦ elim z [
              | none ↦ articles_failed
              | some z' ↦ shown (record { qiita_articles = q'; zenn_articles = z'; warnings = [] })
            ]
          ])
            ≡ shown f
          → IsFeed (IsChecked (now - qiita_window)) Q f
      go none p z r e' = absurd (cc)
      go (some q) p none r e' = absurd (cc)
      go (some q) p (some z) r e' =
          let same = shown-inj e' in
          subst (IsFeed (IsChecked (now - qiita_window)) Q) same (
            (fill_with_popular-IsList (IsChecked (now - qiita_window)) weights
                (rank_limit weights (dedupe qiita_raw) 10) q popular_q (now - qiita_window)
                (IsChecked-KeepsUnderTags (now - qiita_window)) (λ x c. c)
                (ranked-IsList (IsChecked (now - qiita_window)) weights qiita_raw
                  (IsChecked-KeepsUnderTags (now - qiita_window)) a)
                p).0,
            (fill_with_popular-IsList Q weights (rank_limit weights (dedupe zenn_raw) 10) z
                popular_z (now - zenn_window) g imp (ranked-IsList Q weights zenn_raw g b) r).0,
            refl,
          )

  -- The feed from the stored articles has at most ten articles of each provider, with different addresses.
  -- Each of them is as the check wants it: from one of the two sources, with a title and an address that are
  -- not blank, an address for https, likes not below zero, a date, and no blank tag. Those of Qiita are of the
  -- last five days; there are no warnings.
  pub get_from_db-IsFeed :
      (repo : ArticleRepository) (weights ordered : List Weight) (now : Time) (f : Feed)
      → get_from_db repo weights ordered now ≡ shown f
      → IsFeed (IsChecked (now - qiita_window)) (IsChecked 0) f
  unfolding get_from_db
  get_from_db-IsFeed repo weights [] now f e =
      fill_both-IsFeed (IsChecked 0) repo weights [] [] now f (IsChecked-KeepsUnderTags 0)
        (any_time (now - zenn_window)) tt tt e
  get_from_db-IsFeed repo weights (o ∷ ordered) now f e =
      elim (Option-cases (tagged source_qiita (now - qiita_window))) [
        | inl failed ↦ absurd (failed-ne-shown f (rw (failed, get_from_db) at e))
        | inr (items, read_q) ↦
            elim (Option-cases (tagged source_zenn (now - zenn_stored_window))) [
              | inl failed ↦ absurd (failed-ne-shown f (rw (read_q, failed, get_from_db) at e))
              | inr (stored, read_z) ↦
                  let valid = valid_articles_since stored 0 in
                  let checked = valid_articles_since-All stored 0 in
                  fill_both-IsFeed (IsChecked 0) repo weights
                    (valid_articles_since items (now - qiita_window))
                    (or_else (fresh_since (now - zenn_window) valid)
                      (old_before (now - zenn_window) valid))
                    now f (IsChecked-KeepsUnderTags 0) (any_time (now - zenn_window))
                    (valid_articles_since-All items (now - qiita_window))
                    (or_else-All (IsChecked 0) (fresh_since (now - zenn_window) valid)
                      (old_before (now - zenn_window) valid)
                      (fresh_since-All (IsChecked 0) (now - zenn_window) valid checked)
                      (old_before-All (IsChecked 0) (now - zenn_window) valid checked))
                    (rw (read_q, read_z, get_from_db) at e)
            ]
      ]
    where
      tagged : Text → Time → Option (List Article)
      tagged source since =
          repo.list_tagged source (map (λ v. v.tag) (o ∷ ordered)) since db_tagged_limit

  -- If one of the stored articles of Zenn with the tags is of the last 14 days, then all articles of
  -- Zenn in the feed are.
  pub get_from_db-fresh :
      (repo : ArticleRepository) (weights ordered : List Weight) (o : Weight) (now : Time)
      (f : Feed) (stored fresh : List Article) (a : Article)
      → repo.list_tagged source_zenn
          (map (λ v. v.tag) (o ∷ ordered))
          (now - zenn_stored_window)
          db_tagged_limit
        ≡ some stored
      → fresh_since (now - zenn_window) (valid_articles_since stored 0) ≡ a ∷ fresh
      → get_from_db repo weights (o ∷ ordered) now ≡ shown f
      → IsList (IsChecked (now - zenn_window)) f.zenn_articles
  unfolding get_from_db
  get_from_db-fresh repo weights ordered o now f stored fresh a read recent e =
      elim (Option-cases (
        repo.list_tagged source_qiita (map (λ v. v.tag) (o ∷ ordered)) (now - qiita_window)
          db_tagged_limit)) [
            | inl failed ↦ absurd (failed-ne-shown f (rw (failed, get_from_db) at e))
            | inr (items, read_q) ↦
                let valid = valid_articles_since stored 0 in
                (fill_both-IsFeed (IsChecked (now - zenn_window)) repo weights
                  (valid_articles_since items (now - qiita_window)) (a ∷ fresh) now f
                  (IsChecked-KeepsUnderTags (now - zenn_window)) (λ x c. c)
                  (valid_articles_since-All items (now - qiita_window))
                  (subst (All (IsChecked (now - zenn_window))) recent (
                    fresh_since-IsChecked (now - zenn_window) valid
                      (valid_articles_since-All stored 0)))
                  (rw (read_q, read, recent, get_from_db) at e)).1
          ]
