-- ===== src/Recommendation/Score.antt =====
-- The score of an article, against one computed without a largest number.
use my_tech_pulse.Base.{
  ℕ, ◌+◌, ◌≤◌, ◌<◌, ◌≡◌, Bool, true, false, Option, none, some, [], ◌∷◌, List, if◌then◌else◌, Text,
  text_eq_iff, text_lt_asym, Assoc, lookup, arith, map, IsRanked, count_if, count_if-sort_by,
  sort_by-IsRanked, ℤ, pos, negsuc, leb_int_total, leb_int_antisym, int_eq_sym, leb_int, int_eq,
  text_lt, text_lt_total, sort_by, ◌⊎◌,
}
use my_tech_pulse.Unicode.{Unicode}
use my_tech_pulse.Article.{Article}
use my_tech_pulse.Interest.{Weight, has, normalize_tag}
use my_tech_pulse.Recommendation.{
  ScoredArticle, max_int64, scored_before, weight_map, score_articles, scored,
}

-- What a tag adds: its weight, if it has one above zero.
unfoldable pub part : Option ℤ → ℕ
part none = 0
part (some (negsuc n)) = 0
part (some (pos v)) = v

-- The values of an int64, as far as they are above zero.
abbrev pub Fits : ℤ → Type 0
Fits v = part (some v) ≤ max_int64

scored_before_asym : (x y : ScoredArticle) → scored_before x y ≡ true → scored_before y x ≡ false
unfolding scored_before
scored_before_asym x y e = ground (
  arith,
  e,
  leb_int_total x.article.likes y.article.likes,
  leb_int_total y.article.likes x.article.likes,
  int_eq_sym x.article.likes y.article.likes,
  text_eq_iff x.article.source y.article.source,
  text_eq_iff y.article.source x.article.source,
  text_lt_asym x.article.source y.article.source,
  text_lt_asym x.article.url y.article.url,
)

-- The dates, the sources and the addresses let x stand in front of y.
abbrev pub IsNewer : Article → Article → Type 0
IsNewer x y =
    (y.published_at < x.published_at)
    ⊎ ((x.published_at ≡ y.published_at)
        × ((text_lt x.source y.source ≡ true)
            ⊎ ((x.source ≡ y.source) × (text_lt y.url x.url ≡ false))))

-- x may stand in front of y. The likes count where both scores are 0.
abbrev pub IsAhead : ScoredArticle → ScoredArticle → Type 0
IsAhead x y =
    (y.score < x.score)
    ⊎ ((0 < x.score) × (x.score ≡ y.score) × IsNewer x.article y.article)
    ⊎ ((x.score ≡ 0)
        × (y.score ≡ 0)
        × ((leb_int x.article.likes y.article.likes ≡ false)
            ⊎ ((int_eq x.article.likes y.article.likes ≡ true) × IsNewer x.article y.article)))

abbrev IsAheadOf : ScoredArticle → List ScoredArticle → Type 0
IsAheadOf x [] = Unit {0}
IsAheadOf x (y ∷ ys) = IsAhead x y

-- Each may stand in front of the next.
abbrev pub AreInOrder : List ScoredArticle → Type 0
AreInOrder [] = Unit {0}
AreInOrder (x ∷ xs) = IsAheadOf x xs × AreInOrder xs

behind-IsAhead : (x y : ScoredArticle) → scored_before y x ≡ false → IsAhead x y
unfolding scored_before
behind-IsAhead x y e = ground (
  arith,
  e,
  int_eq_sym x.article.likes y.article.likes,
  leb_int_antisym x.article.likes y.article.likes,
  leb_int_total x.article.likes y.article.likes,
  int_eq_sym y.article.likes x.article.likes,
  text_eq_iff y.article.source x.article.source,
  text_lt_total x.article.source y.article.source,
)

IsRanked-AreInOrder : (xs : List ScoredArticle) → IsRanked scored_before xs → AreInOrder xs
IsRanked-AreInOrder [] r = tt
IsRanked-AreInOrder (x ∷ []) r = (tt, tt)
IsRanked-AreInOrder (x ∷ y ∷ xs) r = (behind-IsAhead x y r.0, IsRanked-AreInOrder (y ∷ xs) r.1)

module _ ⦃u : Unicode⦄ where
  -- The sum of the weights of the different tags, without a largest number.
  unfoldable pub exact_total : Assoc ℤ → List Text → List Text → ℕ
  exact_total m seen [] = 0
  exact_total m seen (tag ∷ tags) =
      let skip = exact_total m seen tags in
      let rest = exact_total m (normalize_tag tag ∷ seen) tags in
      if has (normalize_tag tag) seen then skip else part (lookup (normalize_tag tag) m) + rest

  -- The ranked articles are the given ones, each as often as it was (under any test p), and each may stand in
  -- front of the next: its score is greater; or the scores are one and it has more likes, where they are 0; or
  -- it is the later one, or its source is the lesser one, or the addresses decide, in this order.
  pub score_articles-AreInOrder :
      (weights : List Weight) (articles : List Article) (p : ScoredArticle → Bool)
      → AreInOrder (score_articles weights articles)
        × (count_if p (score_articles weights articles)
            ≡ count_if p (map (scored (weight_map weights [])) articles))
  unfolding score_articles
  score_articles-AreInOrder weights articles p =
      let xs = map (scored (weight_map weights [])) articles in
      (
        IsRanked-AreInOrder (sort_by scored_before xs)
            (sort_by-IsRanked scored_before scored_before_asym xs),
        count_if-sort_by scored_before p xs,
      )
