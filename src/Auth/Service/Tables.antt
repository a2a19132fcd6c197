-- ===== src/Auth/Service/Tables.antt =====
-- The tables under any sequence of calls.
use my_tech_pulse.Base.{ℕ, ◌+◌, Bool, [], ◌∷◌, List, Text, Bool-cases, Option-cases, inl, inr}
use my_tech_pulse.Unicode.{Unicode}
use my_tech_pulse.TextCheck.{Characters}
use my_tech_pulse.LoginLimiter.{Verdict, allowed, too_many}
use my_tech_pulse.Auth.{
  Bcrypt, Tokens, Policy, FieldError, hash_password, compare_password, new_token, validate_username,
  validate_password, validate_new_username, validate_new_password, normalize_tags, invalid,
}
use my_tech_pulse.Auth.Store.{
  Sql, UserRow, Db, Found, found, not_found, store_failed, find_by_username, find_by_id,
}
use my_tech_pulse.Auth.Store.Valid.{IsValid, create_with_interests_and_session-IsValid}
use my_tech_pulse.Auth.Service.{
  Call, Server, check_limit, start_session_for, logout, started_from, login_right, login_wrong,
  login_found, login_valid, login_checked, login_limited, login, signup_valid, signup_checked,
  signup,
}
use my_tech_pulse.Auth.Service.Signup.{new_row}
use my_tech_pulse.Auth.Service.Sessions.{start_session-IsValid, logout-IsValid}

pub data Action : Type 0 where
  signing_up : Call → Text → Text → List Text → Action
  logging_in : Call → Text → Text → Action
  starting : Call → ℕ → Action
  logging_out : Bool → Text → Action

module _ ⦃u : Unicode⦄ ⦃b : Bcrypt⦄ ⦃k : Tokens⦄ ⦃t : Characters⦄ ⦃p : Policy⦄ ⦃q : Sql⦄ where
  -- The server after a call.
  unfoldable act : ℕ → Action → Server → Server
  act threshold (signing_up c username password tags) s = record s {
    db = (signup c s.db username password tags).0;
  }
  act threshold (logging_in c username password) s = (login threshold c s username password).0
  act threshold (starting c id) s = record s { db = (start_session_for c s.db id).0 }
  act threshold (logging_out fails token) s = record s { db = (logout fails s.db token).0 }

  unfoldable pub serve : ℕ → List Action → Server → Server
  unfolding act
  serve threshold [] s = s
  serve threshold (a ∷ actions) s = serve threshold actions (act threshold a s)

  start_session_for-IsValid :
      (c : Call) (db : Db) (id : ℕ) → IsValid db → IsValid (start_session_for c db id).0
  unfolding start_session_for
  start_session_for-IsValid c db id v = go (find_by_id (c.down 0) db id)
    where
      go : (f : Found UserRow) → IsValid (started_from c db f).0
      go (found r) = start_session-IsValid c 1 db r.id v
      go not_found = v
      go store_failed = v

  login_right-IsValid :
      (c : Call) (s : Server) (name : Text) (r : UserRow)
      → IsValid s.db
      → IsValid (login_right c s name r).0.db
  unfolding login_right
  login_right-IsValid c s name r v = start_session-IsValid c 1 s.db r.id v

  login_found-IsValid :
      (threshold : ℕ) (c : Call) (s : Server) (name password : Text) (f : Found UserRow)
      → IsValid s.db
      → IsValid (login_found threshold c s name password f).0.db
  unfolding login_found login_wrong
  login_found-IsValid threshold c s name password not_found v = v
  login_found-IsValid threshold c s name password store_failed v = v
  login_found-IsValid threshold c s name password (found r) v =
      elim (Bool-cases (compare_password r.password password)) [
        | inl right ↦ rw (right, login_found) (login_right-IsValid c s name r v)
        | inr wrong ↦ rw (wrong, login_found) v
      ]

  login_limited-IsValid :
      (threshold : ℕ) (c : Call) (s : Server) (name password : Text) (v : Verdict)
      → IsValid s.db
      → IsValid (login_limited threshold c s name password v).0.db
  unfolding login_limited login_checked
  login_limited-IsValid threshold c s name password (too_many w) v = v
  login_limited-IsValid threshold c s name password allowed v =
      login_found-IsValid threshold c s name password (find_by_username (c.down 0) s.db name) v

  login-IsValid :
      (threshold : ℕ) (c : Call) (s : Server) (username password : Text)
      → IsValid s.db
      → IsValid (login threshold c s username password).0.db
  unfolding login
  login-IsValid threshold c s username password v =
      go (invalid ((validate_username username).1 ∷ validate_password password ∷ []))
    where
      go :
          (errors : List FieldError)
          → IsValid (login_valid threshold c s (validate_username username).0 password errors).0.db
      go [] =
          login_limited-IsValid threshold c s (validate_username username).0 password
            (check_limit c s.limiter (validate_username username).0) v
      go (e ∷ errors) = v

  signup_valid-IsValid :
      (c : Call) (db : Db) (name password : Text) (tags : List Text)
      → IsValid db
      → IsValid (signup_valid c db name password tags).0
  unfolding signup_valid
  signup_valid-IsValid c db name password tags v =
      elim (Option-cases (hash_password c.salt password)) [
        | inl bad ↦ rw (bad, signup_valid) v
        | inr (hash, hashed) ↦ elim (Option-cases (new_token c.raw)) [
          | inl dry ↦ rw (hashed, signup_valid, dry) v
          | inr (token, filled) ↦
              rw (hashed, signup_valid, filled)
                (create_with_interests_and_session-IsValid c.down db (new_row c name hash) tags
                  token.1 (c.now + c.session_ttl) v)
        ]
      ]

  signup-IsValid :
      (c : Call) (db : Db) (username password : Text) (tags : List Text)
      → IsValid db
      → IsValid (signup c db username password tags).0
  unfolding signup
  signup-IsValid c db username password tags v = go (
      invalid (
        (validate_new_username username).1
        ∷ validate_new_password password (validate_new_username username).0
        ∷ (normalize_tags tags).1
        ∷ []))
    where
      go :
          (errors : List FieldError)
          → IsValid
              (signup_checked c db
                (validate_new_username username).0
                password
                (normalize_tags tags).0
                errors).0
      go [] =
          signup_valid-IsValid c db (validate_new_username username).0 password
            (normalize_tags tags).0 v
      go (e ∷ errors) = v

  act-IsValid :
      (threshold : ℕ) (a : Action) (s : Server) → IsValid s.db → IsValid (act threshold a s).db
  unfolding act
  act-IsValid threshold (signing_up c username password tags) s v =
      signup-IsValid c s.db username password tags v
  act-IsValid threshold (logging_in c username password) s v =
      login-IsValid threshold c s username password v
  act-IsValid threshold (starting c id) s v = start_session_for-IsValid c s.db id v
  act-IsValid threshold (logging_out fails token) s v = logout-IsValid fails s.db token v

  -- Whatever is called, in whatever order and whatever fails: no two users get one name or one number, no
  -- two sessions one token, no user two interests in a tag, and each session and interest belongs to a user
  -- that exists.
  pub serve-IsValid :
      (threshold : ℕ) (actions : List Action) (s : Server)
      → IsValid s.db
      → IsValid (serve threshold actions s).db
  unfolding serve
  serve-IsValid threshold [] s v = v
  serve-IsValid threshold (a ∷ actions) s v =
      serve-IsValid threshold actions (act threshold a s) (act-IsValid threshold a s v)
