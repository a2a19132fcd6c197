-- ===== src/Auth/Service.antt =====
-- server/internal/auth/service.go: `Signup`, `Login`, `StartSession`, `Authenticate` and `Logout` over the
-- tables and the limiter. A call is given with what it meets: the clock, the random bytes, and the statements
-- that fail. The comparison with `DummyHash` only takes time and is left out. All errors of the store but
-- those that the service names are one.
pub mod Sessions
pub mod Login
pub mod Signup
pub mod Tables
pub mod Locked
pub mod Hiding
pub mod Registration
use my_tech_pulse.Base.{
  ℕ, ◌+◌, Bool, true, false, not, Option, none, some, [], ◌∷◌, List, if◌then◌else◌, Text, text_eq,
  Time, Duration,
}
use my_tech_pulse.Unicode.{Unicode}
use my_tech_pulse.TextCheck.{Characters}
use my_tech_pulse.LoginLimiter.{LoginLimiter, Verdict, allowed, too_many, check, failure, success}
use my_tech_pulse.Auth.{
  Bcrypt, Tokens, Policy, FieldError, tag_unknown, member, hash_password, compare_password,
  hash_token, new_token, validate_username, validate_password, invalid, validate_new_username,
  validate_new_password, normalize_tags,
}
use my_tech_pulse.Auth.Store.{
  Sql, UserRow, Db, User, to_user, Session, Found, found, not_found, store_failed, find_by_username,
  find_by_id, find_user, create, delete, delete_expired, SignupError, unknown_favorite_tag,
  username_taken, not_created, Created, created, refused, create_with_interests_and_session,
}

-- What one call meets. `checked_at`, `failed_at` and `now` are the three calls of the clock.
pub record Call : Type 0 where
  pub checked_at : Time
  pub failed_at : Time
  pub now : Time
  pub session_ttl : Duration
  pub ip : Text
  pub salt : Text
  pub raw : Option (List ℕ)
  pub new_id : ℕ
  pub down : ℕ → Bool

pub record Server : Type 0 where
  pub db : Db
  pub limiter : Option LoginLimiter

pub data AuthError : Type 0 where
  validation : List FieldError → AuthError
  too_many_attempts : Duration → AuthError
  invalid_credentials name_taken hash_failed token_failed store_error : AuthError

pub data Answer : Type 0 where
  signed_in : User → Text → Time → Answer
  denied : AuthError → Answer

pub data Started : Type 0 where
  started : Text → Time → Started
  not_started : AuthError → Started

pub data Identity : Type 0 where
  identified : Session → Identity
  unknown : AuthError → Identity

unfoldable pub clean : Bool → Db → Time → Db
unfolding delete_expired
clean fails db now = elim (delete_expired fails db now) [ none ↦ db | some cleaned ↦ cleaned ]

-- The errors of the registration.
unfoldable pub signup_error : SignupError → AuthError
signup_error unknown_favorite_tag = validation (tag_unknown ∷ [])
signup_error username_taken = name_taken
signup_error not_created = store_error

unfoldable pub signup_answer : Text → Time → Created → Answer
unfolding signup_error
signup_answer plain expires (created user) = signed_in user plain expires
signup_answer plain expires (refused e) = denied (signup_error e)

unfoldable pub session_answer : User → Started → Answer
session_answer user (started plain expires) = signed_in user plain expires
session_answer user (not_started e) = denied e

module _ ⦃k : Tokens⦄ where
  -- `startSession`, from statement n on.
  unfoldable pub start_session : Call → ℕ → Db → ℕ → Db × Started
  unfolding clean new_token create
  start_session c n db owner =
      let cleaned = clean (c.down n) db c.now in
      elim (new_token c.raw) [
        | none ↦ (cleaned, not_started token_failed)
        | some t ↦ elim (create (c.down (n + 1)) cleaned t.1 owner (c.now + c.session_ttl)) [
          | none ↦ (cleaned, not_started store_error)
          | some new ↦ (new, started t.0 (c.now + c.session_ttl))
        ]
      ]

  -- `StartSession` from the answer of `FindByID` on.
  unfoldable pub started_from : Call → Db → Found UserRow → Db × Answer
  unfolding start_session session_answer to_user
  started_from c db not_found = (db, denied invalid_credentials)
  started_from c db store_failed = (db, denied store_error)
  started_from c db (found r) =
      let s = start_session c 1 db r.id in (s.0, session_answer (to_user r) s.1)

  -- `StartSession`.
  unfoldable pub start_session_for : Call → Db → ℕ → Db × Answer
  unfolding find_by_id started_from
  start_session_for c db id = started_from c db (find_by_id (c.down 0) db id)

  -- `Authenticate`.
  unfoldable pub authenticate : Bool → Db → Text → Time → Identity
  unfolding find_user hash_token
  authenticate fails db token now =
      if text_eq token []
      then unknown invalid_credentials
      else elim (find_user fails db (hash_token token) now) [
        | not_found ↦ unknown invalid_credentials
        | store_failed ↦ unknown store_error
        | found s ↦ identified s
      ]

  -- `Logout`: the tables after it, and its error.
  unfoldable pub logout : Bool → Db → Text → Db × Option AuthError
  unfolding delete hash_token
  logout fails db token =
      if text_eq token [] then (db, none) else elim (delete fails db (hash_token token)) [
        | none ↦ (db, some store_error)
        | some new ↦ (new, none)
      ]

module _ ⦃u : Unicode⦄ where
  unfoldable pub check_limit : Call → Option LoginLimiter → Text → Verdict
  unfolding check
  check_limit c none name = allowed
  check_limit c (some l) name = check l name c.ip c.checked_at

  -- The limiter after a failed attempt; `threshold` is where it sweeps.
  unfoldable pub count_failure : ℕ → Call → Option LoginLimiter → Text → Option LoginLimiter
  unfolding failure
  count_failure threshold c none name = none
  count_failure threshold c (some l) name = some (failure threshold l name c.ip c.failed_at)

  unfoldable pub count_success : Option LoginLimiter → Text → Option LoginLimiter
  unfolding success
  count_success none name = none
  count_success (some l) name = some (success l name)

  module _ ⦃b : Bcrypt⦄ ⦃k : Tokens⦄ where
    -- `Login` once the password is right.
    unfoldable pub login_right : Call → Server → Text → UserRow → Server × Answer
    unfolding count_success start_session session_answer
    login_right c s name r =
        let t = start_session c 1 s.db r.id in
        (
          record { db = t.0; limiter = count_success s.limiter name },
          session_answer (to_user r) t.1,
        )

    unfoldable pub login_wrong : ℕ → Call → Server → Text → Server × Answer
    unfolding count_failure
    login_wrong threshold c s name = (
      record s { limiter = count_failure threshold c s.limiter name },
      denied invalid_credentials,
    )

    -- `Login` from the answer of `FindByUsername` on.
    unfoldable pub login_found : ℕ → Call → Server → Text → Text → Found UserRow → Server × Answer
    unfolding compare_password login_right login_wrong
    login_found threshold c s name password store_failed = (s, denied store_error)
    login_found threshold c s name password not_found = login_wrong threshold c s name
    login_found threshold c s name password (found r) =
        if compare_password r.password password
        then login_right c s name r
        else login_wrong threshold c s name

    unfoldable pub login_checked : ℕ → Call → Server → Text → Text → Server × Answer
    unfolding find_by_username login_found
    login_checked threshold c s name password =
        login_found threshold c s name password (find_by_username (c.down 0) s.db name)

    -- `Login` from the verdict of the limiter on.
    unfoldable pub login_limited : ℕ → Call → Server → Text → Text → Verdict → Server × Answer
    unfolding login_checked
    login_limited threshold c s name password (too_many wait) = (s, denied (too_many_attempts wait))
    login_limited threshold c s name password allowed = login_checked threshold c s name password

    -- `Login` from the errors of the input on.
    unfoldable pub login_valid : ℕ → Call → Server → Text → Text → List FieldError → Server × Answer
    unfolding check_limit login_limited
    login_valid threshold c s name password (e ∷ errors) = (s, denied (validation (e ∷ errors)))
    login_valid threshold c s name password [] =
        login_limited threshold c s name password (check_limit c s.limiter name)

    -- `Login`.
    unfoldable pub login : ℕ → Call → Server → Text → Text → Server × Answer
    unfolding validate_username validate_password invalid login_valid
    login threshold c s username password =
        let v = validate_username username in
        login_valid threshold c s v.0 password (invalid (v.1 ∷ validate_password password ∷ []))

    module _ ⦃t : Characters⦄ ⦃p : Policy⦄ ⦃q : Sql⦄ where
      -- `Signup` once the input is valid.
      unfoldable pub signup_valid : Call → Db → Text → Text → List Text → Db × Answer
      unfolding hash_password new_token signup_answer create_with_interests_and_session
      signup_valid c db name password tags = elim (hash_password c.salt password) [
        | none ↦ (db, denied hash_failed)
        | some hash ↦ elim (new_token c.raw) [
          | none ↦ (db, denied token_failed)
          | some token ↦
              let r : UserRow = record {
                id = c.new_id;
                name = name;
                password = hash;
                role = member;
              } in
              let s =
                create_with_interests_and_session c.down db r tags token.1
                  (c.now + c.session_ttl) in
              (s.0, signup_answer token.0 (c.now + c.session_ttl) s.1)
        ]
      ]

      -- `Signup` from the errors of the input on.
      unfoldable pub signup_checked :
          Call → Db → Text → Text → List Text → List FieldError → Db × Answer
      unfolding signup_valid
      signup_checked c db name password tags (e ∷ errors) = (db, denied (validation (e ∷ errors)))
      signup_checked c db name password tags [] = signup_valid c db name password tags

      -- `Signup`.
      unfoldable pub signup : Call → Db → Text → Text → List Text → Db × Answer
      unfolding validate_new_username validate_new_password normalize_tags invalid signup_checked
      signup c db username password favorite_tags =
          let v = validate_new_username username in
          let tags = normalize_tags favorite_tags in
          signup_checked c db v.0 password tags.0
            (invalid (v.1 ∷ validate_new_password password v.0 ∷ tags.1 ∷ []))
