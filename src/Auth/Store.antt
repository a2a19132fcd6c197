-- ===== src/Auth/Store.antt =====
-- server/internal/store/auth.go with server/db/queries/users.sql, sessions.sql and signup.sql. The tables
-- are lists of rows; a constraint that a row would break is an error. Statement n of a call fails where
-- `down n` holds, and a transaction that does not reach its commit leaves nothing. The number of a new user
-- comes from the sequence of the table. `lower` and `btrim` of SQL are a parameter.
pub mod Valid
pub mod Registered
pub mod Rows
pub mod Written
use my_tech_pulse.Base.{
  ℕ, ◌+◌, ◌-◌, ◌*◌, ◌/◌, ◌^◌, Bool, true, false, ◌&&◌, ◌||◌, not, Option, none, some, [], ◌∷◌, ◌++◌,
  List, ltb, leb, ◌==◌, if◌then◌else◌, Text, text_eq, Time, min,
}
use my_tech_pulse.Unicode.{trim_space}
use my_tech_pulse.Interest.{scale}
use my_tech_pulse.Auth.{Role}

-- `lower(btrim(s))` in the database.
pub record Sql : Type 0 where
  pub fold : Text → Text

pub record UserRow : Type 0 where
  pub id : ℕ
  pub name : Text
  pub password : Text
  pub role : Role

pub record SessionRow : Type 0 where
  pub token_hash : Text
  pub owner : ℕ
  pub expires_at : Time

-- A row of `recommend`.
pub record InterestRow : Type 0 where
  pub owner : ℕ
  pub tag_id : ℕ
  pub match_int : ℕ

pub record TagRow : Type 0 where
  pub tag_id : ℕ
  pub tag_name : Text

pub record Db : Type 0 where
  pub users : List UserRow
  pub sessions : List SessionRow
  pub interests : List InterestRow
  pub tags : List TagRow

pub record User : Type 0 where
  pub id : ℕ
  pub username : Text
  pub role : Role

-- `toUser`.
unfoldable pub to_user : UserRow → User
to_user r = record { id = r.id; username = r.name; role = r.role }

pub record Session : Type 0 where
  pub user : User
  pub expires_at : Time

-- What a search in the tables answers.
pub data Found (A : Type 0) : Type 0 where
  found : A → Found A
  not_found store_failed : Found A

unfoldable pub user_by_name : Text → List UserRow → Option UserRow
user_by_name name [] = none
user_by_name name (r ∷ rest) =
    let next = user_by_name name rest in if text_eq r.name name then some r else next

unfoldable pub user_by_id : ℕ → List UserRow → Option UserRow
user_by_id id [] = none
user_by_id id (r ∷ rest) = let next = user_by_id id rest in if r.id == id then some r else next

unfoldable pub answer_of : Option UserRow → Found UserRow
answer_of none = not_found
answer_of (some r) = found r

-- `FindByUsername`.
unfoldable pub find_by_username : Bool → Db → Text → Found UserRow
unfolding user_by_name answer_of
find_by_username fails db name =
    if fails then store_failed else answer_of (user_by_name name db.users)

-- `userID32`: whether the number is that of a user.
unfoldable pub is_user_id : ℕ → Bool
is_user_id id = leb 1 id && leb id (2 ^ 31 - 1)

-- `FindByID`.
unfoldable pub find_by_id : Bool → Db → ℕ → Found UserRow
unfolding user_by_id answer_of is_user_id
find_by_id fails db id =
    if not (is_user_id id)
    then not_found
    else if fails
    then store_failed
    else answer_of (user_by_id id db.users)

-- The user of an unexpired session, and its end: the join of `FindSessionUser`.
unfoldable pub session_user : Text → Time → List UserRow → List SessionRow → Option Session
unfolding to_user
session_user hash now users [] = none
session_user hash now users (s ∷ rest) =
    let next = session_user hash now users rest in
    if text_eq s.token_hash hash && ltb now s.expires_at
    then elim (user_by_id s.owner users) [
      | none ↦ next
      | some r ↦ some (record { user = to_user r; expires_at = s.expires_at })
    ]
    else next

-- `timestamptz`: the time as a column of this type keeps it, cut to microseconds.
unfoldable pub timestamptz : Time → Time
timestamptz t = t / 1000 * 1000

-- `FindUser`.
unfoldable pub find_user : Bool → Db → Text → Time → Found Session
unfolding session_user timestamptz
find_user fails db hash now =
    if fails
    then store_failed
    else elim (session_user hash (timestamptz now) db.users db.sessions) [
      | none ↦ not_found
      | some s ↦ found s
    ]

unfoldable pub has_token : Text → List SessionRow → Bool
has_token hash [] = false
has_token hash (s ∷ rest) = text_eq s.token_hash hash || has_token hash rest

unfoldable pub has_user : ℕ → List UserRow → Bool
has_user id [] = false
has_user id (r ∷ rest) = (r.id == id) || has_user id rest

unfoldable pub has_name : Text → List UserRow → Bool
has_name name [] = false
has_name name (r ∷ rest) = text_eq r.name name || has_name name rest

-- `CreateSession`, with the primary key and the foreign key.
unfoldable pub insert_session : Db → Text → ℕ → Time → Option Db
unfolding has_token has_user
insert_session db hash owner expires =
    if has_token hash db.sessions || not (has_user owner db.users)
    then none
    else some (record db {
      sessions = record { token_hash = hash; owner = owner; expires_at = expires } ∷ db.sessions;
    })

-- `Create`: none for an error.
unfoldable pub create : Bool → Db → Text → ℕ → Time → Option Db
unfolding insert_session is_user_id timestamptz
create fails db hash owner expires =
    if not (is_user_id owner) || fails
    then none
    else insert_session db hash owner (timestamptz expires)

unfoldable pub without_token : Text → List SessionRow → List SessionRow
without_token hash [] = []
without_token hash (s ∷ rest) =
    let next = without_token hash rest in if text_eq s.token_hash hash then next else s ∷ next

unfoldable pub unexpired : Time → List SessionRow → List SessionRow
unexpired now [] = []
unexpired now (s ∷ rest) =
    let next = unexpired now rest in if leb s.expires_at now then next else s ∷ next

-- `Delete`.
unfoldable pub delete : Bool → Db → Text → Option Db
unfolding without_token
delete fails db hash =
    if fails then none else some (record db { sessions = without_token hash db.sessions })

-- `DeleteExpired`.
unfoldable pub delete_expired : Bool → Db → Time → Option Db
unfolding unexpired timestamptz
delete_expired fails db now =
    if fails then none else some (record db { sessions = unexpired (timestamptz now) db.sessions })

unfoldable pub has_tag_id : ℕ → List ℕ → Bool
has_tag_id id [] = false
has_tag_id id (t ∷ rest) = (t == id) || has_tag_id id rest

unfoldable pub has_interest : ℕ → ℕ → List InterestRow → Bool
has_interest owner tag [] = false
has_interest owner tag (r ∷ rest) =
    (r.owner == owner && r.tag_id == tag) || has_interest owner tag rest

-- `CreateInitialRecommendation` for each tag, from statement n on: the rows and the next statement.
unfoldable pub insert_interests :
    (ℕ → Bool) → ℕ → ℕ → List ℕ → List InterestRow → Option (ℕ × List InterestRow)
unfolding has_interest
insert_interests down n owner [] rows = some (n, rows)
insert_interests down n owner (tag ∷ tags) rows =
    let next =
      insert_interests down (n + 1) owner tags
        (record { owner = owner; tag_id = tag; match_int = scale } ∷ rows) in
    if down n || has_interest owner tag rows then none else next

-- `CreateUser`, with the unique name and number.
unfoldable pub insert_user : Db → UserRow → Option Db
unfolding has_user has_name
insert_user db r =
    if has_user r.id db.users || has_name r.name db.users
    then none
    else some (record db { users = r ∷ db.users })

-- The errors of `CreateWithInterestsAndSession`.
pub data SignupError : Type 0 where
  unknown_favorite_tag username_taken not_created : SignupError

pub data Created : Type 0 where
  created : User → Created
  refused : SignupError → Created

pub data Tagging : Type 0 where
  tags_found : ℕ → List ℕ → Tagging
  tags_refused : SignupError → Tagging

-- The transaction from the rows of `recommend` on.
unfoldable pub create_rows :
    (ℕ → Bool) → ℕ → Db → Db → UserRow → List ℕ → Text → Time → Db × Created
unfolding insert_interests insert_session to_user timestamptz
create_rows down n old db r ids hash expires =
    elim (insert_interests down n r.id ids db.interests) [
      | none ↦ (old, refused not_created)
      | some p ↦
          if down p.0
          then (old, refused not_created)
          else elim (insert_session (record db { interests = p.1 }) hash r.id
              (timestamptz expires)) [
                | none ↦ (old, refused not_created)
                | some new ↦
                    if down (p.0 + 1)
                    then (old, refused not_created)
                    else (new, created (to_user r))
              ]
    ]

-- The transaction from `CreateUser` on.
unfoldable pub create_tagged : (ℕ → Bool) → Db → UserRow → Text → Time → Tagging → Db × Created
unfolding insert_user create_rows
create_tagged down db r hash expires (tags_refused e) = (db, refused e)
create_tagged down db r hash expires (tags_found n ids) =
    if down n then (db, refused not_created) else elim (insert_user db r) [
      | none ↦ (db, refused username_taken)
      | some with_user ↦ create_rows down (n + 1) db with_user r ids hash expires
    ]

module _ ⦃q : Sql⦄ where
  -- `FindTagByNormalizedName`: the least number of the tags that match.
  unfoldable pub find_tag : Text → List TagRow → Option ℕ
  find_tag name [] = none
  find_tag name (r ∷ rest) =
      let next = find_tag name rest in
      if text_eq (q.fold r.tag_name) (q.fold name)
      then elim next [ none ↦ some r.tag_id | some id ↦ some (min r.tag_id id) ]
      else next

  -- The loop over the favorite tags, from statement n on.
  unfoldable pub find_tags : (ℕ → Bool) → ℕ → List TagRow → List ℕ → List Text → Tagging
  unfolding find_tag has_tag_id
  find_tags down n rows ids [] = tags_found n ids
  find_tags down n rows ids (name ∷ names) =
      if down n then tags_refused not_created else elim (find_tag (trim_space name) rows) [
        | none ↦ tags_refused unknown_favorite_tag
        | some id ↦
            find_tags down (n + 1) rows (if has_tag_id id ids then ids else ids ++ (id ∷ [])) names
      ]

  -- `CreateWithInterestsAndSession`, with the number that the new user would get.
  unfoldable pub create_with_interests_and_session :
      (ℕ → Bool) → Db → UserRow → List Text → Text → Time → Db × Created
  unfolding find_tags create_tagged
  create_with_interests_and_session down db r favorite_tags hash expires =
      if down 0
      then (db, refused not_created)
      else create_tagged down db r hash expires (find_tags down 1 db.tags [] favorite_tags)
