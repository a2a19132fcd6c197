-- ===== src/Recommendation/Feed.antt =====
-- server/internal/recommendation/service.go: `Get`, from the stored articles and from the searches. The
-- repository of articles and the clients are parameters: what they answer. The replies of the searches
-- come in the order in which the goroutines happen to send them. The 8-second limit shows only as
-- replies that are errors. `now` lies more than 30 days after Go's zero time.
pub mod Ranked
pub mod Checked
pub mod Stored
pub mod Live
use my_tech_pulse.Base.{
  ℕ, ◌+◌, ◌-◌, ◌*◌, ◌≡◌, Bool, true, false, ◌&&◌, ◌||◌, not, Option, none, some, [], ◌∷◌, ◌++◌,
  List, map, ltb, leb, ◌==◌, if◌then◌else◌, Text, length, Time, Duration, day, pos,
}
use my_tech_pulse.Unicode.{Unicode}
use my_tech_pulse.Article.{Article, Urls, validate, source_qiita, source_zenn}
use my_tech_pulse.Interest.{Weight, validate_current}
use my_tech_pulse.Interest.Top.{top, top_tag_limit}
use my_tech_pulse.Recommendation.{rank_limit, dedupe, merge_tags}
use my_tech_pulse.Recommendation.Dedupe.{has_url}

abbrev pub qiita_window : Duration
qiita_window = 5 * day

abbrev pub zenn_window : Duration
zenn_window = 14 * day

abbrev pub zenn_stored_window : Duration
zenn_stored_window = 30 * day

abbrev pub db_tagged_limit : ℕ
db_tagged_limit = 500

abbrev pub db_popular_limit : ℕ
db_popular_limit = 20

-- `ArticleRepository`: none is an error.
pub record ArticleRepository : Type 0 where
  pub list_tagged : Text → List Text → Time → ℕ → Option (List Article)
  pub list_popular : Text → Time → ℕ → Option (List Article)

pub data Provider : Type 0 where
  qiita zenn : Provider

pub record Feed : Type 0 where
  pub qiita_articles : List Article
  pub zenn_articles : List Article
  pub warnings : List Provider

pub data Outcome : Type 0 where
  shown : Feed → Outcome
  weights_failed tags_collide articles_failed all_providers_failed : Outcome

-- The articles whose address is not chosen yet.
unfoldable pub not_chosen : List Article → List Article → List Article
not_chosen ranked [] = []
not_chosen ranked (a ∷ rest) =
    let next = not_chosen ranked rest in if has_url a.url ranked then next else a ∷ next

-- The loop that splits the articles of Zenn: the fresh ones and the old ones.
unfoldable pub fresh_since : Time → List Article → List Article
fresh_since since [] = []
fresh_since since (a ∷ rest) =
    let next = fresh_since since rest in if ltb a.published_at since then next else a ∷ next

unfoldable pub old_before : Time → List Article → List Article
old_before since [] = []
old_before since (a ∷ rest) =
    let next = old_before since rest in if ltb a.published_at since then a ∷ next else next

unfoldable pub or_else : List Article → List Article → List Article
or_else [] old = old
or_else (a ∷ fresh) old = a ∷ fresh

module _ ⦃u : Unicode⦄ ⦃w : Urls⦄ where
  unfoldable pub keep_valid : Time → Option Article → List Article → List Article
  keep_valid since none rest = rest
  keep_valid since (some a) rest = if ltb a.published_at since then rest else a ∷ rest

  unfoldable pub valid_articles_since : List Article → Time → List Article
  unfolding keep_valid
  valid_articles_since [] since = []
  valid_articles_since (a ∷ rest) since =
      keep_valid since (validate a) (valid_articles_since rest since)

  -- `fillWithPopular`, given what `ListPopular` answers.
  unfoldable pub fill_with_popular :
      List Weight → List Article → Option (List Article) → Time → Option (List Article)
  fill_with_popular weights ranked popular since =
      if leb 10 (length ranked) then some ranked else elim popular [
        | none ↦ none
        | some items ↦ some (
            ranked
            ++ rank_limit weights (dedupe (not_chosen ranked (valid_articles_since items since)))
                (10 - length ranked))
      ]

  -- `getFromDB` once both lists of tagged articles are read.
  unfoldable pub fill_both :
      ArticleRepository → List Weight → List Article → List Article → Time → Outcome
  fill_both repo weights qiita_raw zenn_raw now =
      elim (fill_with_popular weights (rank_limit weights (dedupe qiita_raw) 10)
        (repo.list_popular source_qiita (now - qiita_window) db_popular_limit)
        (now - qiita_window)) [
          | none ↦ articles_failed
          | some q ↦
              elim (fill_with_popular weights (rank_limit weights (dedupe zenn_raw) 10)
                (repo.list_popular source_zenn (now - zenn_window) db_popular_limit)
                (now - zenn_window)) [
                  | none ↦ articles_failed
                  | some z ↦ shown (record { qiita_articles = q; zenn_articles = z; warnings = [] })
                ]
        ]

  unfoldable pub get_from_db : ArticleRepository → List Weight → List Weight → Time → Outcome
  unfolding or_else fresh_since old_before
  get_from_db repo weights [] now = fill_both repo weights [] [] now
  get_from_db repo weights (o ∷ ordered) now =
      let tags = map (λ v. v.tag) (o ∷ ordered) in
      elim (repo.list_tagged source_qiita tags (now - qiita_window) db_tagged_limit) [
        | none ↦ articles_failed
        | some items ↦
            elim (repo.list_tagged source_zenn tags (now - zenn_stored_window) db_tagged_limit) [
              | none ↦ articles_failed
              | some stored ↦
                  let valid = valid_articles_since stored 0 in
                  fill_both repo weights (valid_articles_since items (now - qiita_window))
                    (or_else (fresh_since (now - zenn_window) valid)
                      (old_before (now - zenn_window) valid))
                    now
            ]
      ]
