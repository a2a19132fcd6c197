-- ===== src/Recommendation/Feed/Live.antt =====
-- `Get` and the searches at the providers. A reply is none for an error of the client, and where there
-- is no client. `succeeded` and `failed` are the flags of one provider.
pub mod Warnings
use my_tech_pulse.Base.{
  ℕ, ◌-◌, Bool, true, false, ◌&&◌, not, Option, none, some, [], ◌∷◌, ◌++◌, List, map, ltb,
  if◌then◌else◌, Text, length, Time,
}
use my_tech_pulse.Unicode.{Unicode}
use my_tech_pulse.Article.{Article, Urls, validate}
use my_tech_pulse.Interest.{Weight, validate_current}
use my_tech_pulse.Interest.Top.{top, top_tag_limit}
use my_tech_pulse.Recommendation.{rank_limit, dedupe, merge_tags}
use my_tech_pulse.Recommendation.Feed.{
  Provider, qiita, zenn, ArticleRepository, Feed, Outcome, shown, weights_failed, tags_collide,
  all_providers_failed, or_else, get_from_db, qiita_window, zenn_window,
}

-- A search for a tag, or the popular articles.
pub record Request : Type 0 where
  pub provider : Provider
  pub tag : Text
  pub popular : Bool

-- `searchResult`.
pub record SearchResult : Type 0 where
  pub request : Request
  pub items : Option (List Article)

pub record Flags : Type 0 where
  pub has_failed : Bool
  pub has_succeeded : Bool

-- What the loop over the replies collects.
pub record Collected : Type 0 where
  pub qiita_flags : Flags
  pub zenn_flags : Flags
  pub qiita_raw : List Article
  pub zenn_fresh : List Article
  pub zenn_old : List Article
  pub zenn_popular : List Article

abbrev pub no_flags : Flags
no_flags = record { has_failed = false; has_succeeded = false }

abbrev pub nothing_collected : Collected
nothing_collected = record {
  qiita_flags = no_flags;
  zenn_flags = no_flags;
  qiita_raw = [];
  zenn_fresh = [];
  zenn_old = [];
  zenn_popular = [];
}

unfoldable pub set_flags : Provider → (Flags → Flags) → Collected → Collected
set_flags qiita g c = record c { qiita_flags = g c.qiita_flags }
set_flags zenn g c = record c { zenn_flags = g c.zenn_flags }

abbrev pub reply_failed : Flags → Flags
reply_failed f = record f { has_failed = true }

abbrev pub reply_came : Flags → Flags
reply_came f = record f { has_succeeded = true }

abbrev pub item_failed : Flags → Flags
item_failed f = record { has_failed = true; has_succeeded = false }

-- The requests in the order of the loops; the popular articles only where there are fewer than five tags.
unfoldable pub requests_for : Provider → List Weight → Bool → List Request
requests_for p [] fill = if fill then record { provider = p; tag = []; popular = true } ∷ [] else []
requests_for p (o ∷ ordered) fill =
    record { provider = p; tag = o.tag; popular = false } ∷ requests_for p ordered fill

unfoldable pub requests : List Weight → List Request
unfolding requests_for
requests ordered =
    let fill = ltb (length ordered) 5 in
    requests_for qiita ordered fill ++ requests_for zenn ordered fill

module _ ⦃u : Unicode⦄ ⦃w : Urls⦄ where
  unfoldable pub add_tag : Text → Article → Article
  add_tag tag a = record a { tags = merge_tags a.tags (tag ∷ []) }

  -- Where an article that passed the check goes.
  unfoldable pub place : Time → Request → Article → Collected → Collected
  unfolding add_tag
  place now (request) a c =
      let fresh = not (ltb a.published_at (now - zenn_window)) in
      elim request.provider [
        | qiita ↦
            if ltb a.published_at (now - qiita_window)
            then c
            else record c { qiita_raw = c.qiita_raw ++ (a ∷ []) }
        | zenn ↦
            if request.popular
            then (if fresh then record c { zenn_popular = c.zenn_popular ++ (a ∷ []) } else c)
            else if fresh
            then record c { zenn_fresh = c.zenn_fresh ++ (add_tag request.tag a ∷ []) }
            else record c { zenn_old = c.zenn_old ++ (add_tag request.tag a ∷ []) }
      ]

  unfoldable pub collect_item : Time → Request → Option Article → Collected → Collected
  unfolding place set_flags
  collect_item now request none c = set_flags request.provider item_failed c
  collect_item now request (some a) c = place now request a c

  unfoldable pub collect_items : Time → Request → List Article → Collected → Collected
  unfolding collect_item
  collect_items now request [] c = c
  collect_items now request (a ∷ items) c =
      collect_items now request items (collect_item now request (validate a) c)

  unfoldable pub collect_reply : Time → Request → Option (List Article) → Collected → Collected
  unfolding collect_items set_flags
  collect_reply now request none c = set_flags request.provider reply_failed c
  collect_reply now request (some items) c =
      collect_items now request items (set_flags request.provider reply_came c)

  unfoldable pub collect : Time → List SearchResult → Collected → Collected
  unfolding collect_reply
  collect now [] c = c
  collect now (b ∷ replies) c = collect now replies (collect_reply now b.request b.items c)

  unfoldable pub warnings_of : Collected → List Provider
  warnings_of c =
      (if c.qiita_flags.has_failed then qiita ∷ [] else [])
      ++ (if c.zenn_flags.has_failed then zenn ∷ [] else [])

  unfoldable pub all_failed : Collected → Bool
  all_failed c =
      c.qiita_flags.has_failed
      && not c.qiita_flags.has_succeeded
      && c.zenn_flags.has_failed
      && not c.zenn_flags.has_succeeded

  -- `Get` from the replies on.
  unfoldable pub get_live : List Weight → Time → List SearchResult → Outcome
  unfolding all_failed warnings_of or_else
  get_live weights now replies =
      let c = collect now replies nothing_collected in
      if all_failed c
      then all_providers_failed
      else shown (record {
        qiita_articles = rank_limit weights (dedupe c.qiita_raw) 10;
        zenn_articles =
            rank_limit weights (dedupe (or_else c.zenn_fresh c.zenn_old ++ c.zenn_popular)) 10;
        warnings = warnings_of c;
      })

  -- `Get`: the rows of the user, the articles if they are stored, what each search answers, and the
  -- order in which the replies arrive.
  unfoldable pub get :
      Option (List Weight)
      → Option ArticleRepository
      → (Request → Option (List Article))
      → (List SearchResult → List SearchResult)
      → Time
      → Outcome
  unfolding requests
  get none articles answer arrival now = weights_failed
  get (some weights) articles answer arrival now =
      if not (validate_current weights) then tags_collide else elim articles [
        | some repo ↦ get_from_db repo weights (top weights top_tag_limit) now
        | none ↦ get_live weights now (
            arrival (
              map (λ r. record { request = r; items = answer r })
                (requests (top weights top_tag_limit))))
      ]
