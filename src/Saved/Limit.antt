-- ===== src/Saved/Limit.antt =====
-- What holds of the saved articles after any calls.
use my_tech_pulse.Base.{
  ℕ, ◌+◌, ◌≤◌, ◌<◌, ◌≡◌, ◌≢◌, ◌⊎◌, refl, Bool, true, false, ◌&&◌, not, some, [], ◌∷◌, List, ltb,
  ◌==◌, if◌then◌else◌, ℤ, arith, Bool-cases, Option-cases, inl, inr,
}
use my_tech_pulse.Saved.{
  Db, Faults, created, article_not_found, limit_reached, saved_user_id, has_id, is_saved,
  count_saved, insert_saved, delete_saved, save_row, save_for, save, unsave, saved_articles_limit,
}

abbrev pub IsUnique : List (ℕ × ℕ) → Type 0
IsUnique [] = Unit {0}
IsUnique (r ∷ rest) = (is_saved r.0 r.1 rest ≡ false) × IsUnique rest

abbrev pub InLimit : List (ℕ × ℕ) → Type 0
InLimit saved = (user : ℕ) → count_saved user saved ≤ saved_articles_limit

count_saved-delete_saved :
    (u user article : ℕ) (saved : List (ℕ × ℕ))
    → count_saved u (delete_saved user article saved) ≤ count_saved u saved
unfolding count_saved delete_saved
count_saved-delete_saved u user article [] = omega arith
count_saved-delete_saved u user article (r ∷ rest) =
    ground (arith, count_saved-delete_saved u user article rest)

is_saved-delete_saved :
    (u a user article : ℕ) (saved : List (ℕ × ℕ))
    → is_saved u a (delete_saved user article saved)
      ≡ (is_saved u a saved && not (u == user && a == article))
unfolding is_saved delete_saved
is_saved-delete_saved u a user article [] = refl
is_saved-delete_saved u a user article (r ∷ rest) =
    ground (arith, is_saved-delete_saved u a user article rest)

delete_saved-IsUnique :
    (user article : ℕ) (saved : List (ℕ × ℕ))
    → IsUnique saved
    → IsUnique (delete_saved user article saved)
unfolding delete_saved
delete_saved-IsUnique user article [] v = tt
delete_saved-IsUnique user article (r ∷ rest) v =
    elim (Bool-cases (r.0 == user && r.1 == article)) [
      | inl hit ↦ rw hit (delete_saved-IsUnique user article rest v.1)
      | inr miss ↦ rw miss (
        ground (arith, v.0, is_saved-delete_saved r.0 r.1 user article rest),
        delete_saved-IsUnique user article rest v.1,
      )
    ]

save_for-cases :
    (f : Faults) (db : Db) (user article : ℕ)
    → ((save_for f db user article).0 ≡ db)
      ⊎ ((is_saved user article db.saved ≡ false)
          × (count_saved user db.saved < saved_articles_limit)
          × ((save_for f db user article).0 ≡ record db { saved = (user, article) ∷ db.saved }))
unfolding save_for save_row insert_saved
save_for-cases f db user article = ground arith

save-cases :
    (f : Faults) (db : Db) (user : ℤ) (article : ℕ)
    → ((save f db user article).0 ≡ db)
      ⊎ ((id : ℕ) × (is_saved id article db.saved ≡ false)
          × (count_saved id db.saved < saved_articles_limit)
          × ((save f db user article).0 ≡ record db { saved = (id, article) ∷ db.saved }))
unfolding save
save-cases f db user article = elim (Option-cases (saved_user_id user)) [
  | inl none_such ↦ inl (ground (arith, none_such))
  | inr (id, fits) ↦ elim (save_for-cases f db id article) [
    | inl same ↦ inl (ground (arith, fits, same))
    | inr (fresh, few, more) ↦ inr (id, fresh, few, ground (arith, fits, more))
  ]
]

unsave-cases :
    (fails : Bool) (db : Db) (user : ℤ) (article : ℕ)
    → ((unsave fails db user article).0 ≡ db)
      ⊎ ((id : ℕ) × ((unsave fails db user article).0
            ≡ record db { saved = delete_saved id article db.saved }))
unfolding unsave
unsave-cases fails db user article = elim (Option-cases (saved_user_id user)) [
  | inl none_such ↦ inl (ground (arith, none_such))
  | inr (id, fits) ↦ elim (Bool-cases fails) [
    | inl failed ↦ inl (ground (arith, fits, failed))
    | inr worked ↦ inr (id, ground (arith, fits, worked))
  ]
]

-- The tables that saves and removals lead to, while users and articles come and go.
pub data Reach : Db → Type 0 where
  empty : Reach (record { users = []; articles = []; saved = [] })
  saves :
      (f : Faults) (db : Db) (user : ℤ) (article : ℕ) → Reach db → Reach (save f db user article).0
  unsaves :
      (fails : Bool) (db : Db) (user : ℤ) (article : ℕ)
      → Reach db
      → Reach (unsave fails db user article).0
  changes :
      (users articles : List ℕ) (db : Db)
      → Reach db
      → Reach (record db { users = users; articles = articles })

AreKept : List (ℕ × ℕ) → Type 0
AreKept saved = IsUnique saved × InLimit saved

more-AreKept :
    (user article : ℕ) (saved : List (ℕ × ℕ))
    → is_saved user article saved ≡ false
    → count_saved user saved < saved_articles_limit
    → AreKept saved
    → AreKept ((user, article) ∷ saved)
unfolding AreKept count_saved
more-AreKept user article saved fresh few v = ((fresh, v.0), λ u. ground (arith, v.1 u, few))

less-AreKept :
    (user article : ℕ) (saved : List (ℕ × ℕ))
    → AreKept saved
    → AreKept (delete_saved user article saved)
unfolding AreKept
less-AreKept user article saved v = (
  delete_saved-IsUnique user article saved v.0,
  λ u. omega (arith, count_saved-delete_saved u user article saved, v.1 u),
)

empty-AreKept : AreKept []
unfolding AreKept count_saved
empty-AreKept = (tt, λ u. omega arith)

Reach-AreKept : (db : Db) → Reach db → AreKept db.saved
Reach-AreKept _ empty = empty-AreKept
Reach-AreKept _ (saves f db user article r) = elim (save-cases f db user article) [
  | inl same ↦ rw same (Reach-AreKept db r)
  | inr (id, fresh, few, more) ↦
      rw more (more-AreKept id article db.saved fresh few (Reach-AreKept db r))
]
Reach-AreKept _ (unsaves fails db user article r) = elim (unsave-cases fails db user article) [
  | inl same ↦ rw same (Reach-AreKept db r)
  | inr (id, less) ↦ rw less (less-AreKept id article db.saved (Reach-AreKept db r))
]
Reach-AreKept _ (changes users articles db r) = Reach-AreKept db r

-- After any calls of `Save` and `Unsave`, by any users and whatever fails in them, no user has more
-- than 500 saved articles and no article is saved twice by a user.
pub saved_limit :
    (db : Db) (user : ℕ)
    → Reach db
    → (count_saved user db.saved ≤ saved_articles_limit) × IsUnique db.saved
unfolding AreKept
saved_limit db user r = ((Reach-AreKept db r).1 user, (Reach-AreKept db r).0)

-- No call of the database fails.
abbrev pub Works : Faults → Type 0
Works f =
    (f.begin_fails ≡ false)
    × (f.lock_fails ≡ false)
    × (f.exists_fails ≡ false)
    × (f.article_fails ≡ false)
    × (f.count_fails ≡ false)
    × (f.article_gone ≡ false)
    × (f.insert_fails ≡ false)
    × (f.commit_fails ≡ false)

-- Where nothing fails, `Save` of a user that there is saves an article that there is, once, as long as
-- the user has fewer than 500; to save it again is no error, also at the limit, and changes nothing.
pub save_lem :
    (f : Faults) (db : Db) (user : ℤ) (article id : ℕ)
    → Works f
    → saved_user_id user ≡ some id
    → has_id id db.users ≡ true
    → save f db user article ≡ (
        if is_saved id article db.saved
        then (db, created false)
        else if not (has_id article db.articles)
        then (db, article_not_found)
        else if ltb (count_saved id db.saved) saved_articles_limit
        then (record db { saved = (id, article) ∷ db.saved }, created true)
        else (db, limit_reached))
unfolding save save_for save_row insert_saved
save_lem f db user article id w fits there =
    ground (arith, w.0, w.1, w.2, w.3, w.4, w.5, w.6, w.7, fits, there)

-- After a `Save` that reports a new row, the article is saved and the user has one more; every other
-- answer leaves the tables as they were.
pub save-answer :
    (f : Faults) (db : Db) (user : ℤ) (article id : ℕ)
    → saved_user_id user ≡ some id
    → (((save f db user article).1 ≡ created true)
        × (is_saved id article (save f db user article).0.saved ≡ true)
        × (count_saved id (save f db user article).0.saved ≡ count_saved id db.saved + 1))
      ⊎ (((save f db user article).1 ≢ created true) × ((save f db user article).0 ≡ db))
unfolding save save_for save_row insert_saved is_saved count_saved
save-answer f db user article id fits = ground (arith, fits)

-- After `Unsave` the article is not saved by that user, whether it was before or not, and all else is
-- saved as before.
pub unsave_lem :
    (db : Db) (user : ℤ) (article id u a : ℕ)
    → saved_user_id user ≡ some id
    → is_saved u a (unsave false db user article).0.saved
      ≡ (is_saved u a db.saved && not (u == id && a == article))
unfolding unsave
unsave_lem db user article id u a fits =
    ground (arith, fits, is_saved-delete_saved u a id article db.saved)
