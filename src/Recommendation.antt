-- ===== src/Recommendation.antt =====
-- server/internal/recommendation/score.go and the list operations of service.go: the score of an
-- article, the merging of tags and of articles with one address, and the ranked list. Scores are int64
-- that stop at the largest one; a total is never negative and stands as a natural number.
mod Tests
pub mod Score
pub mod Merge
pub mod Dedupe
pub mod Feed
use my_tech_pulse.Base.{
  ℕ, zero, suc, ◌+◌, ◌-◌, ◌*◌, ◌/◌, ◌^◌, Bool, true, false, ◌&&◌, ◌||◌, not, Option, none, some, [],
  ◌∷◌, ◌++◌, List, map, ltb, leb, ◌==◌, if◌then◌else◌, Text, text_eq, text_lt, Assoc, lookup,
  insert, take, length, sort_by, ℤ, pos, negsuc, leb_int, int_eq,
}
use my_tech_pulse.Unicode.{Unicode}
use my_tech_pulse.Article.{Article, source_qiita}
use my_tech_pulse.Interest.{Weight, is_empty, has, normalize_tag, add_int64}

pub record ScoredArticle : Type 0 where
  pub article : Article
  pub score : ℕ

abbrev pub max_int64 : ℕ
max_int64 = 2 ^ 63 - 1

-- One tag's part of the total.
unfoldable pub add_weight : ℕ → Option ℤ → ℕ
add_weight total none = total
add_weight total (some (negsuc n)) = total
add_weight total (some (pos v)) =
    if leb v 0 then total else if ltb (max_int64 - v) total then max_int64 else total + v

-- The total times the likes and one more.
unfoldable pub times_likes : ℕ → ℤ → ℕ
times_likes total (negsuc n) = max_int64
times_likes total (pos k) = if ltb k 1 || ltb (max_int64 / k) total then max_int64 else total * k

-- The order of the sort: the score, among scores of 0 the likes, the date, the source, the address.
unfoldable pub scored_before : ScoredArticle → ScoredArticle → Bool
scored_before x y =
    if not (x.score == y.score)
    then ltb y.score x.score
    else if (x.score == 0) && not (int_eq x.article.likes y.article.likes)
    then not (leb_int x.article.likes y.article.likes)
    else if not (x.article.published_at == y.article.published_at)
    then ltb y.article.published_at x.article.published_at
    else if not (text_eq x.article.source y.article.source)
    then text_lt x.article.source y.article.source
    else text_lt x.article.url y.article.url

unfoldable pub edit_at : ℕ → (Article → Article) → List Article → List Article
edit_at i f [] = []
edit_at zero f (a ∷ rest) = f a ∷ rest
edit_at (suc i) f (a ∷ rest) = a ∷ edit_at i f rest

module _ ⦃u : Unicode⦄ where
  -- `byTag`: the last of several rows with one key counts.
  unfoldable pub weight_map : List Weight → Assoc ℤ → Assoc ℤ
  weight_map [] m = m
  weight_map (w ∷ ws) m =
      weight_map ws
        (if is_empty (normalize_tag w.tag) then m else insert (normalize_tag w.tag) w.value m)

  -- The loop over the tags of an article, the keys before it in `seen`.
  unfoldable pub total_from : Assoc ℤ → List Text → ℕ → List Text → ℕ
  total_from m seen total [] = total
  total_from m seen total (tag ∷ tags) =
      let skip = total_from m seen total tags in
      let next =
        total_from m (normalize_tag tag ∷ seen) (add_weight total (lookup (normalize_tag tag) m))
          tags in
      if has (normalize_tag tag) seen then skip else next

  unfoldable pub score_of : Assoc ℤ → Article → ℕ
  score_of m a =
      let total = total_from m [] 0 a.tags in
      if text_eq a.source source_qiita then times_likes total (add_int64 a.likes 1) else total

  unfoldable pub scored : Assoc ℤ → Article → ScoredArticle
  scored m a = record { article = a; score = score_of m a }

  unfoldable pub score_articles : List Weight → List Article → List ScoredArticle
  score_articles weights articles =
      sort_by scored_before (map (scored (weight_map weights [])) articles)

  unfoldable pub rank_limit : List Weight → List Article → ℕ → List Article
  rank_limit weights items limit = map (λ s. s.article) (take limit (score_articles weights items))

  -- The loops of `mergeTags` over both lists, the keys before in `seen`.
  unfoldable pub merge_from : List Text → List Text → List Text
  merge_from seen [] = []
  merge_from seen (tag ∷ tags) =
      let skip = merge_from seen tags in
      let keep = tag ∷ merge_from (normalize_tag tag ∷ seen) tags in
      if not (is_empty (normalize_tag tag)) && not (has (normalize_tag tag) seen)
      then keep
      else skip

  unfoldable pub merge_tags : List Text → List Text → List Text
  merge_tags a b = merge_from [] (a ++ b)

  unfoldable pub add_tags : List Text → Article → Article
  add_tags tags a = record a { tags = merge_tags a.tags tags }

  -- The loop of `dedupe`, with `byURL` and `out`.
  unfoldable pub dedupe_from : Assoc ℕ → List Article → List Article → List Article
  dedupe_from by_url out [] = out
  dedupe_from by_url out (item ∷ items) = elim (lookup item.url by_url) [
    | some i ↦ dedupe_from by_url (edit_at i (add_tags item.tags) out) items
    | none ↦
        dedupe_from (insert item.url (length out) by_url) (out ++ (add_tags [] item ∷ [])) items
  ]

  unfoldable pub dedupe : List Article → List Article
  dedupe items = dedupe_from [] [] items
