-- ===== src/TagMatch.antt =====
-- server/internal/articlefetch/tagmatch.go: from the tags of a fetched article to the numbers of the table
-- `tag`. The numbers in the table are different, so the unstable sort has one result.
pub mod All
pub mod Exact
mod Tests
use my_tech_pulse.Base.{
  ℕ, Bool, true, false, ◌&&◌, ◌||◌, not, Option, none, some, [], ◌∷◌, ◌++◌, List, ltb, ◌==◌,
  if◌then◌else◌, Text, Assoc, lookup, insert, sort_by,
}
use my_tech_pulse.Unicode.{Unicode, is_space}
use my_tech_pulse.Interest.{is_empty, normalize_tag}

pub record TagRef : Type 0 where
  pub id : ℕ
  pub name : Text

pub record TagMatcher : Type 0 where
  pub exact : Assoc ℕ
  pub compact : Assoc (List ℕ)

-- `compactKey`: without the white space.
unfoldable pub compact_key : Text → Text
unfolding is_space
compact_key [] = []
compact_key (c ∷ s) = let rest = compact_key s in if is_space c then rest else c ∷ rest

unfoldable pub ends_in : ℕ → List ℕ → Bool
ends_in id [] = false
ends_in id (x ∷ []) = x == id
ends_in id (x ∷ y ∷ ids) = ends_in id (y ∷ ids)

unfoldable pub ids_of : Option (List ℕ) → List ℕ
ids_of none = []
ids_of (some ids) = ids

unfoldable pub comes_first : TagRef → TagRef → Bool
comes_first a b = ltb a.id b.id

unfoldable pub put_exact : Text → ℕ → Assoc ℕ → Assoc ℕ
unfolding lookup insert
put_exact key id m = elim (lookup key m) [ none ↦ insert key id m | some old ↦ m ]

unfoldable pub put_compact : Text → ℕ → Assoc (List ℕ) → Assoc (List ℕ)
unfolding ids_of ends_in lookup insert
put_compact key id m =
    let ids = ids_of (lookup key m) in if ends_in id ids then m else insert key (ids ++ (id ∷ [])) m

-- The only number of a list.
unfoldable pub single : List ℕ → Option ℕ
single [] = none
single (id ∷ []) = some id
single (id ∷ other ∷ ids) = none

unfoldable pub has_id : ℕ → List ℕ → Bool
has_id id [] = false
has_id id (x ∷ ids) = (x == id) || has_id id ids

module _ ⦃u : Unicode⦄ where
  -- The loop of `NewTagMatcher`.
  unfoldable pub add_refs : List TagRef → TagMatcher → TagMatcher
  unfolding put_exact put_compact compact_key
  add_refs [] m = m
  add_refs (t ∷ tags) m =
      let key = normalize_tag t.name in
      let skip = add_refs tags m in
      let next = add_refs tags (record {
        exact = put_exact key t.id m.exact;
        compact = put_compact (compact_key key) t.id m.compact;
      }) in
      if is_empty key then skip else next

  unfoldable pub new_tag_matcher : List TagRef → TagMatcher
  unfolding add_refs comes_first sort_by
  new_tag_matcher tags = add_refs (sort_by comes_first tags) (record { exact = []; compact = [] })

  -- `Match`.
  unfoldable pub match_tag : TagMatcher → Text → Option ℕ
  unfolding compact_key single ids_of
  match_tag m name =
      let key = normalize_tag name in
      if is_empty key then none else elim (lookup key m.exact) [
        | some id ↦ some id
        | none ↦ single (ids_of (lookup (compact_key key) m.compact))
      ]

  -- What `MatchAll` does with one name.
  unfoldable pub append_new : Option ℕ → List ℕ → List ℕ
  unfolding has_id
  append_new none ids = ids
  append_new (some id) ids = if has_id id ids then ids else ids ++ (id ∷ [])

  unfoldable pub match_from : TagMatcher → List ℕ → List Text → List ℕ
  unfolding match_tag append_new
  match_from m ids [] = ids
  match_from m ids (name ∷ names) = match_from m (append_new (match_tag m name) ids) names

  -- `MatchAll`; `seen` is what is in the list.
  unfoldable pub match_all : TagMatcher → List Text → List ℕ
  unfolding match_from
  match_all m names = match_from m [] names
