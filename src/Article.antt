-- ===== src/Article.antt =====
-- server/internal/article/model.go: an article of either provider, and the check that every article
-- passes. The error of the check is forgotten: its callers only ask whether there is one. `url.Parse` is
-- a parameter.
use my_tech_pulse.Base.{
  ℕ, Bool, false, ◌&&◌, ◌||◌, not, Option, none, some, [], ◌∷◌, List, ◌==◌, if◌then◌else◌, Text,
  text_eq, codes, ℤ, pos, leb_int, Time,
}
use my_tech_pulse.Unicode.{trim_space}

pub record Article : Type 0 where
  -- 0 for an article that is not one of the table.
  pub id : ℕ
  pub source : Text
  pub title : Text
  pub url : Text
  pub tags : List Text
  pub likes : ℤ
  pub published_at : Time
  pub external_id : Text
  pub author : Text

abbrev pub source_qiita : Text
source_qiita = codes "Qiita"

abbrev pub source_zenn : Text
source_zenn = codes "Zenn"

pub record Url : Type 0 where
  pub scheme : Text
  pub hostname : Text

-- `url.Parse`, with none for its error.
pub record Urls : Type 0 where
  pub parse : Text → Option Url

unfoldable pub is_blank : Text → Bool
is_blank s = text_eq (trim_space s) []

unfoldable pub is_https : Option Url → Bool
is_https none = false
is_https (some u) = text_eq u.scheme (codes "https") && not (text_eq u.hostname [])

-- The loop over the tags.
unfoldable pub has_blank : List Text → Bool
unfolding is_blank
has_blank [] = false
has_blank (tag ∷ tags) = is_blank tag || has_blank tags

module _ ⦃w : Urls⦄ where
  unfoldable pub validate : Article → Option Article
  unfolding is_blank is_https has_blank
  validate a =
      if not (text_eq a.source source_qiita) && not (text_eq a.source source_zenn)
      then none
      else if is_blank a.title
      then none
      else if is_blank a.url
      then none
      else if not (is_https (w.parse a.url))
      then none
      else if not (leb_int (pos 0) a.likes)
      then none
      else if a.published_at == 0
      then none
      else if has_blank a.tags
      then none
      else some a
