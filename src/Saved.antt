-- ===== src/Saved.antt =====
-- server/internal/store/saved_articles.go: `Save` and `Unsave`, with the queries of
-- server/db/queries/saved_articles.sql. `Save` holds the lock on the user's row, so it is one step
-- for the saves of that user. Each query may fail, and a commit that fails is taken to leave nothing.
pub mod Limit
mod Tests
use my_tech_pulse.Base.{
  ℕ, ◌+◌, ◌-◌, ◌^◌, ◌≡◌, Bool, true, false, ◌&&◌, ◌||◌, not, Option, none, some, [], ◌∷◌, List, ltb,
  leb, ◌==◌, if◌then◌else◌, ℤ, pos, negsuc,
}

abbrev pub saved_articles_limit : ℕ
saved_articles_limit = 500

-- The tables `user`, `articles` and `saved_articles`, by their keys.
pub record Db : Type 0 where
  pub users : List ℕ
  pub articles : List ℕ
  pub saved : List (ℕ × ℕ)

-- Which calls of the database fail.
pub record Faults : Type 0 where
  pub begin_fails : Bool
  pub lock_fails : Bool
  pub exists_fails : Bool
  pub article_fails : Bool
  pub count_fails : Bool
  -- The article is deleted after it was seen, so that the foreign key refuses it.
  pub article_gone : Bool
  pub insert_fails : Bool
  pub commit_fails : Bool

-- The results of `Save`.
pub data Saving : Type 0 where
  created : Bool → Saving
  user_not_found article_not_found limit_reached store_error : Saving

unfoldable pub saved_user_id : ℤ → Option ℕ
saved_user_id (negsuc n) = none
saved_user_id (pos n) = if ltb n 1 || ltb (2 ^ 31 - 1) n then none else some n

unfoldable pub has_id : ℕ → List ℕ → Bool
has_id id [] = false
has_id id (j ∷ rest) = j == id || has_id id rest

-- `SavedArticleExists`.
unfoldable pub is_saved : ℕ → ℕ → List (ℕ × ℕ) → Bool
is_saved user article [] = false
is_saved user article (r ∷ rest) = (r.0 == user && r.1 == article) || is_saved user article rest

-- `CountSavedArticles`.
unfoldable pub count_saved : ℕ → List (ℕ × ℕ) → ℕ
count_saved user [] = 0
count_saved user (r ∷ rest) = let n = count_saved user rest in if r.0 == user then n + 1 else n

-- `InsertSavedArticle`, and whether there is a new row.
unfoldable pub insert_saved : ℕ → ℕ → List (ℕ × ℕ) → List (ℕ × ℕ) × Bool
insert_saved user article saved =
    if is_saved user article saved then (saved, false) else ((user, article) ∷ saved, true)

-- `DeleteSavedArticle`.
unfoldable pub delete_saved : ℕ → ℕ → List (ℕ × ℕ) → List (ℕ × ℕ)
delete_saved user article [] = []
delete_saved user article (r ∷ rest) =
    let next = delete_saved user article rest in
    if r.0 == user && r.1 == article then next else r ∷ next

-- `Save` from the insertion on.
unfoldable pub save_row : Faults → Db → ℕ → ℕ → Db × Saving
save_row f db user article =
    if f.article_gone
    then (db, article_not_found)
    else if f.insert_fails
    then (db, store_error)
    else if f.commit_fails
    then (db, store_error)
    else (
      record db { saved = (insert_saved user article db.saved).0 },
      created (insert_saved user article db.saved).1,
    )

-- `Save` with a user number that fits.
unfoldable pub save_for : Faults → Db → ℕ → ℕ → Db × Saving
save_for f db user article =
    if f.begin_fails || f.lock_fails
    then (db, store_error)
    else if not (has_id user db.users)
    then (db, user_not_found)
    else if f.exists_fails
    then (db, store_error)
    else if is_saved user article db.saved
    then (db, created false)
    else if f.article_fails
    then (db, store_error)
    else if not (has_id article db.articles)
    then (db, article_not_found)
    else if f.count_fails
    then (db, store_error)
    else if leb saved_articles_limit (count_saved user db.saved)
    then (db, limit_reached)
    else save_row f db user article

unfoldable pub save : Faults → Db → ℤ → ℕ → Db × Saving
save f db user article = elim (saved_user_id user) [
  | none ↦ (db, user_not_found)
  | some id ↦ save_for f db id article
]

-- `Unsave`: the tables after it, and whether it failed.
unfoldable pub unsave : Bool → Db → ℤ → ℕ → Db × Bool
unsave fails db user article = elim (saved_user_id user) [
  | none ↦ (db, false)
  | some id ↦
      if fails then (db, true) else (record db { saved = delete_saved id article db.saved }, false)
]
