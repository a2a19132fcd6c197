-- ===== src/Recommendation/Tests.antt =====
-- A feed from concrete articles, and instances of the theorems.
use my_tech_pulse.Base.{
  ◌-◌, ◌*◌, arith, ◌≡◌, ◌≢◌, refl, false, none, some, [], ◌∷◌, List, map, codes, ◌++◌, sort_by,
  insert_by, count_if, lookup, insert, text_eq, text_lt, leb_int, int_eq, pos, Time, day,
  if◌then◌else◌, inl,
}
use my_tech_pulse.Unicode.{
  Unicode, ascii, fold, to_lower, trim_space, is_space, trim_left, trim_right, trim_cons,
}
use my_tech_pulse.Article.{
  Article, Urls, validate, is_blank, is_https, has_blank, source_qiita, source_zenn,
}
use my_tech_pulse.Interest.{
  Weight, is_empty, has, normalize_tag, add_int64, key_set, collides, validate_current,
}
use my_tech_pulse.Interest.Top.{positive, comes_before, top}
use my_tech_pulse.Recommendation.{
  add_weight, times_likes, scored_before, edit_at, weight_map, total_from, score_of, scored,
  score_articles, rank_limit, merge_from, merge_tags, add_tags, dedupe_from, dedupe,
}
use my_tech_pulse.Recommendation.Feed.{
  ArticleRepository, Feed, shown, all_providers_failed, qiita, zenn, not_chosen, fresh_since,
  old_before, or_else, keep_valid, valid_articles_since, fill_with_popular, fill_both, get_from_db,
}
use my_tech_pulse.Recommendation.Feed.Live.{
  Request, SearchResult, set_flags, requests_for, requests, add_tag, place, collect_item,
  collect_items, collect_reply, collect, warnings_of, all_failed, get_live, get,
}
use my_tech_pulse.Recommendation.Dedupe.{has_url, HasDistinctUrls, tags_of, dedupe_lem}
use my_tech_pulse.Recommendation.Score.{AreInOrder, part, score_articles-AreInOrder}
use my_tech_pulse.Recommendation.Merge.{keys}
use my_tech_pulse.Recommendation.Feed.Ranked.{IsList}
use my_tech_pulse.Recommendation.Feed.Checked.{IsChecked}
use my_tech_pulse.Recommendation.Feed.Stored.{IsFeed, get_from_db-IsFeed, get_from_db-fresh}
use my_tech_pulse.Recommendation.Feed.Live.Warnings.{has_bad_reply, get_live-warnings}

program : Unit {0}
unfolding is_empty has normalize_tag key_set add_int64 collides validate_current fold to_lower
    trim_space is_space trim_left trim_right trim_cons text_eq text_lt lookup insert positive
    comes_before insert_by sort_by top leb_int int_eq validate is_blank is_https has_blank
    add_weight times_likes scored_before edit_at weight_map total_from score_of scored
    score_articles rank_limit merge_from merge_tags add_tags dedupe_from dedupe not_chosen
    fresh_since old_before or_else keep_valid valid_articles_since fill_with_popular fill_both
    get_from_db set_flags requests_for requests add_tag place collect_item collect_items
    collect_reply collect warnings_of all_failed get_live get has_url part
program = tt

instance abbrev table : Unicode
table = ascii

instance abbrev addresses : Urls
addresses = record { parse = λ s. some (record { scheme = codes "https"; hostname = s }) }

abbrev now : Time
now = 100 * day

abbrev go_weight : Weight
go_weight = record { tag_id = 1; tag = codes "go"; value = pos 700 }

abbrev aws_weight : Weight
aws_weight = record { tag_id = 2; tag = codes "AWS"; value = pos 300 }

abbrev weights : List Weight
weights = go_weight ∷ aws_weight ∷ []

abbrev guide : Article
guide = record {
  id = 1;
  source = source_qiita;
  title = codes "Guide";
  url = codes "q/1";
  tags = codes "Go" ∷ [];
  likes = pos 3;
  published_at = now - day;
  external_id = codes "1";
  author = codes "a";
}

abbrev again : Article
again = record guide { tags = codes "aws" ∷ codes " GO " ∷ [] }

abbrev story : Article
story = record guide { source = source_zenn; url = codes "z/1"; published_at = now - 10 * day }

abbrev untitled : Article
untitled = record guide { title = codes " "; url = codes "q/2" }

abbrev hit : Article
hit = record guide { url = codes "q/3"; tags = codes "vim" ∷ []; likes = pos 9 }

abbrev both_tags : Article
both_tags = record guide { tags = codes "Go" ∷ codes "aws" ∷ [] }

deduped : dedupe (guide ∷ again ∷ hit ∷ []) ≡ both_tags ∷ hit ∷ []
unfolding program
deduped = refl

score : score_of (weight_map weights []) both_tags ≡ 4000
unfolding program
score = refl

abbrev repo : ArticleRepository
repo = record {
  list_tagged = λ source tags since limit.
      if text_eq source source_qiita
      then some (guide ∷ untitled ∷ again ∷ [])
      else some (story ∷ []);
  list_popular = λ source since limit.
      if text_eq source source_qiita then some (hit ∷ guide ∷ []) else some [];
}

abbrev feed : Feed
feed = record { qiita_articles = both_tags ∷ hit ∷ []; zenn_articles = story ∷ []; warnings = [] }

stored : get_from_db repo weights weights now ≡ shown feed
unfolding program
stored = refl

abbrev go_search : Request
go_search = record { provider = qiita; tag = codes "go"; popular = false }

abbrev zenn_search : Request
zenn_search = record { provider = zenn; tag = codes "go"; popular = false }

abbrev replies : List SearchResult
replies =
    record { request = go_search; items = some (untitled ∷ guide ∷ []) }
    ∷ record { request = zenn_search; items = some (story ∷ []) }
    ∷ []

abbrev live_feed : Feed
live_feed = record {
  qiita_articles = guide ∷ [];
  zenn_articles = record story { tags = codes "Go" ∷ [] } ∷ [];
  warnings = qiita ∷ [];
}

live : get_live weights now replies ≡ shown live_feed
unfolding program
live = refl

abbrev no_replies : List SearchResult
no_replies =
    record { request = go_search; items = none }
    ∷ record { request = zenn_search; items = some (untitled ∷ []) }
    ∷ []

-- The good replies after the bad ones, and before them.
abbrev good_last : List SearchResult
good_last =
    record { request = go_search; items = some (untitled ∷ []) }
    ∷ record { request = go_search; items = some (guide ∷ []) }
    ∷ record { request = zenn_search; items = some (untitled ∷ []) }
    ∷ record { request = zenn_search; items = some [] }
    ∷ []

abbrev good_first : List SearchResult
good_first =
    record { request = go_search; items = some (guide ∷ []) }
    ∷ record { request = go_search; items = some (untitled ∷ []) }
    ∷ record { request = zenn_search; items = some [] }
    ∷ record { request = zenn_search; items = some (untitled ∷ []) }
    ∷ []

shown_in_one_order :
    get_live weights now good_last
    ≡ shown
        (record { qiita_articles = guide ∷ []; zenn_articles = []; warnings = qiita ∷ zenn ∷ [] })
unfolding program
shown_in_one_order = refl

refused_in_the_other : get_live weights now good_first ≡ all_providers_failed
unfolding program
refused_in_the_other = refl

all_down : get_live weights now no_replies ≡ all_providers_failed
unfolding program
all_down = refl

score_articles-AreInOrder_example :
    AreInOrder (score_articles weights (hit ∷ guide ∷ []))
    × (count_if (λ s. text_eq s.article.url guide.url) (score_articles weights (hit ∷ guide ∷ []))
        ≡ count_if
            (λ s. text_eq s.article.url guide.url)
            (map (scored (weight_map weights [])) (hit ∷ guide ∷ [])))
score_articles-AreInOrder_example =
    score_articles-AreInOrder weights (hit ∷ guide ∷ []) (λ s. text_eq s.article.url guide.url)

no_text : codes "aws" ≢ []
no_text e = cc

dedupe_lem_example :
    HasDistinctUrls (dedupe (guide ∷ hit ∷ again ∷ []))
    × (has_url (codes "q/1") (dedupe (guide ∷ hit ∷ again ∷ []))
        ≡ has_url (codes "q/1") (guide ∷ hit ∷ again ∷ []))
    × (has (codes "aws") (keys (tags_of (codes "q/1") (dedupe (guide ∷ hit ∷ again ∷ []))))
        ≡ has (codes "aws") (keys (tags_of (codes "q/1") (guide ∷ hit ∷ again ∷ []))))
dedupe_lem_example = dedupe_lem (codes "aws") (codes "q/1") (guide ∷ hit ∷ again ∷ []) no_text

one_guide : IsList (IsChecked (now - 5 * day)) (guide ∷ [])
unfolding program
one_guide = (
  omega arith,
  (refl, tt),
  ((omega arith, omega arith, inl refl, refl, refl, refl, refl, refl), tt),
)

filled :
    fill_with_popular weights (guide ∷ []) (some (hit ∷ guide ∷ [])) (now - 5 * day)
    ≡ some (guide ∷ hit ∷ [])
unfolding program
filled = refl

get_from_db-IsFeed_example : IsFeed (IsChecked (now - 5 * day)) (IsChecked 0) feed
get_from_db-IsFeed_example = get_from_db-IsFeed repo weights weights now feed stored

one_fresh : fresh_since (now - 14 * day) (valid_articles_since (story ∷ []) 0) ≡ story ∷ []
unfolding program
one_fresh = refl

get_from_db-fresh_example : IsList (IsChecked (now - 14 * day)) feed.zenn_articles
unfolding text_eq
get_from_db-fresh_example =
    get_from_db-fresh repo weights (aws_weight ∷ []) go_weight now feed (story ∷ []) [] story refl
      one_fresh stored

get_live-warnings_example :
    qiita ∷ []
    ≡ (if has_bad_reply qiita replies then qiita ∷ [] else [])
      ++ (if has_bad_reply zenn replies then zenn ∷ [] else [])
get_live-warnings_example = get_live-warnings weights now replies live_feed live
