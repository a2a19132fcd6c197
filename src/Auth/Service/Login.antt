-- ===== src/Auth/Service/Login.antt =====
-- `Login`: who comes in, and what the others are told.
use my_tech_pulse.Base.{
  ℕ, ◌≡◌, refl, sym, ap, ◌∙◌, Bool, true, false, Option, none, some, [], ◌∷◌, List, Text, text_eq,
  Time, arith, Bool-cases, Option-cases, inl, inr, text_eq_iff, none-ne-some, some-inj, subst,
}
use my_tech_pulse.Unicode.{Unicode, trim_space}
use my_tech_pulse.LoginLimiter.{LoginLimiter, Verdict, allowed, too_many}
use my_tech_pulse.Auth.{
  Bcrypt, Tokens, compare_password, validate_username, validate_password, invalid,
}
use my_tech_pulse.Auth.Store.{
  UserRow, Db, User, to_user, user_by_name, user_by_id, answer_of, find_by_username, has_user,
}
use my_tech_pulse.Auth.Store.Valid.{IsValid, AreUsers}
use my_tech_pulse.Auth.Service.{
  Call, Server, AuthError, too_many_attempts, invalid_credentials, Answer, signed_in, denied,
  Started, started, not_started, count_failure, session_answer, authenticate, check_limit,
  login_right, login_wrong, login_found, login_valid, login_checked, login_limited, login,
}
use my_tech_pulse.Auth.Service.Sessions.{until, start_session-authenticate}

user_by_name-name :
    (name : Text) (users : List UserRow) (r : UserRow)
    → user_by_name name users ≡ some r
    → r.name ≡ name
unfolding user_by_name
user_by_name-name name [] r e = absurd (none-ne-some e)
user_by_name-name name (s ∷ users) r e = elim (Bool-cases (text_eq s.name name)) [
  | inl same ↦
      ap (λ (x : UserRow). x.name) (sym (some-inj (rw (same, user_by_name) at e)))
      ∙ ground (arith, text_eq_iff s.name name)
  | inr other ↦ user_by_name-name name users r (rw (other, user_by_name) at e)
]

pub has_user-user_by_name :
    (name : Text) (users : List UserRow) (r : UserRow)
    → user_by_name name users ≡ some r
    → has_user r.id users ≡ true
unfolding user_by_name has_user
has_user-user_by_name name [] r e = absurd (none-ne-some e)
has_user-user_by_name name (s ∷ users) r e = elim (Bool-cases (text_eq s.name name)) [
  | inl same ↦
      subst (λ (x : UserRow). has_user x.id (s ∷ users) ≡ true)
        (some-inj (rw (same, user_by_name) at e)) (ground arith)
  | inr other ↦ ground (arith, has_user-user_by_name name users r (rw (other, user_by_name) at e))
]

-- The row of a name is the row of its number.
user_by_id-user_by_name :
    (name : Text) (users : List UserRow) (r : UserRow)
    → AreUsers users
    → user_by_name name users ≡ some r
    → user_by_id r.id users ≡ some r
unfolding user_by_name user_by_id
user_by_id-user_by_name name [] r v e = absurd (none-ne-some e)
user_by_id-user_by_name name (s ∷ users) r v e = elim (Bool-cases (text_eq s.name name)) [
  | inl same ↦
      subst (λ (x : UserRow). user_by_id x.id (s ∷ users) ≡ some x)
        (some-inj (rw (same, user_by_name) at e)) (ground arith)
  | inr other ↦
      let next = rw (other, user_by_name) at e in
      ground (
        arith,
        v.0,
        has_user-user_by_name name users r next,
        user_by_id-user_by_name name users r v.2 next,
      )
]

validate_username-name :
    (username : Text)
    → (validate_username username).1 ≡ none
    → (validate_username username).0 ≡ trim_space username
unfolding validate_username
validate_username-name username e = ground (arith, e)

module _ ⦃u : Unicode⦄ ⦃b : Bcrypt⦄ ⦃k : Tokens⦄ where
  abbrev Result : Type 0
  Result = Server × Answer

  denied-ne-signed_in :
      {s after : Server} {e : AuthError} {user : User} {plain : Text} {expires : Time}
      → ¬ (◌≡◌ {A = Result} (s, denied e) (after, signed_in user plain expires))
  denied-ne-signed_in e = cc

  -- What a login that comes in has passed.
  abbrev pub HasPassed : Call → Server → Text → Text → UserRow → Type 0
  HasPassed c s name password r =
      (user_by_name name s.db.users ≡ some r)
      × (compare_password r.password password ≡ true)
      × (check_limit c s.limiter name ≡ allowed)

  login_checked-passed :
      (threshold : ℕ) (c : Call) (s after : Server) (name password plain : Text) (user : User)
      (expires : Time)
      → login_checked threshold c s name password ≡ (after, signed_in user plain expires)
      → (r : UserRow) × (user_by_name name s.db.users ≡ some r)
        × (compare_password r.password password ≡ true)
        × (login_right c s name r ≡ (after, signed_in user plain expires))
  unfolding login_checked login_found find_by_username answer_of login_wrong
  login_checked-passed threshold c s after name password plain user expires e =
      elim (Bool-cases (c.down 0)) [
        | inl down ↦ absurd (denied-ne-signed_in (rw (down, login_checked) at e))
        | inr up ↦ elim (Option-cases (user_by_name name s.db.users)) [
          | inl missing ↦ absurd (denied-ne-signed_in (rw (up, missing, login_checked) at e))
          | inr (r, there) ↦ elim (Bool-cases (compare_password r.password password)) [
            | inr wrong ↦ absurd (denied-ne-signed_in (rw (up, there, wrong, login_checked) at e))
            | inl right ↦ (r, there, right, rw (up, there, right, login_checked) at e)
          ]
        ]
      ]

  -- The part of the login that the checks of the input let through.
  pub login-limited :
      (threshold : ℕ) (c : Call) (s : Server) (username password : Text)
      → (validate_username username).1 ≡ none
      → validate_password password ≡ none
      → login threshold c s username password
        ≡ login_limited threshold c s
            (trim_space username)
            password
            (check_limit c s.limiter (trim_space username))
  unfolding login login_valid invalid
  login-limited threshold c s username password good fine =
      rw (good, fine, login)
        (ap (λ name. login_limited threshold c s name password (check_limit c s.limiter name))
          (validate_username-name username good))

  login_limited-allowed :
      (threshold : ℕ) (c : Call) (s after : Server) (name password plain : Text) (user : User)
      (expires : Time) (v : Verdict)
      → login_limited threshold c s name password v ≡ (after, signed_in user plain expires)
      → (v ≡ allowed)
        × (login_checked threshold c s name password ≡ (after, signed_in user plain expires))
  unfolding login_limited
  login_limited-allowed threshold c s after name password plain user expires (too_many wait) e =
      absurd (denied-ne-signed_in e)
  login_limited-allowed threshold c s after name password plain user expires allowed e = (refl, e)

  login-checked :
      (threshold : ℕ) (c : Call) (s after : Server) (username password plain : Text) (user : User)
      (expires : Time)
      → login threshold c s username password ≡ (after, signed_in user plain expires)
      → (check_limit c s.limiter (trim_space username) ≡ allowed)
        × (login_checked threshold c s (trim_space username) password
            ≡ (after, signed_in user plain expires))
  unfolding login login_valid invalid
  login-checked threshold c s after username password plain user expires e =
      elim (Option-cases (validate_username username).1) [
        | inr (f, bad) ↦ elim (Option-cases (validate_password password)) [
          | inr (g, short) ↦ absurd (denied-ne-signed_in (rw (bad, short, login) at e))
          | inl fine ↦ absurd (denied-ne-signed_in (rw (bad, fine, login) at e))
        ]
        | inl good ↦ elim (Option-cases (validate_password password)) [
          | inr (g, short) ↦ absurd (denied-ne-signed_in (rw (good, short, login) at e))
          | inl fine ↦
              login_limited-allowed threshold c s after (trim_space username) password plain user
                expires _ (sym (login-limited threshold c s username password good fine) ∙ e)
        ]
      ]

  answer-inj :
      {x y : User} {p q : Text} {s t : Time}
      → signed_in x p s ≡ signed_in y q t
      → (x ≡ y) × (started p s ≡ started q t)
  answer-inj e = (cc, cc)

  pair_path : {x : Db × Started} {db : Db} {t : Started} → x.0 ≡ db → x.1 ≡ t → x ≡ (db, t)
  pair_path p q = rw (← p, ← q) refl

  session_answer-started :
      {db : Db} {after : Server} {l : Option LoginLimiter} {v user : User} {t : Started}
      {plain : Text} {expires : Time}
      → ◌≡◌ {A = Result}
          (record { db = db; limiter = l }, session_answer v t)
          (after, signed_in user plain expires)
      → (db ≡ after.db) × (v ≡ user) × (t ≡ started plain expires)
  unfolding session_answer
  session_answer-started {t = started p x} e =
      let same = answer-inj (ap (λ p. p.1) e) in (ap (λ p. p.0.db) e, same.0, same.1)
  session_answer-started {t = not_started x} e = absurd (denied-ne-signed_in e)

  -- A login comes in only where the limiter allows it, the trimmed name is that of a user and the password
  -- is that user's; the answer is that user, and the token is known as that user's until the session ends, as
  -- the table keeps the end to the microsecond, and not from then on.
  pub login_sound :
      (threshold : ℕ) (c : Call) (s after : Server) (username password plain : Text) (user : User)
      (expires now : Time) (byte : ℕ) (bytes : List ℕ)
      → IsValid s.db
      → c.raw ≡ some (byte ∷ bytes)
      → login threshold c s username password ≡ (after, signed_in user plain expires)
      → ((r : UserRow) × HasPassed c s (trim_space username) password r × (user ≡ to_user r))
        × (authenticate false after.db plain now ≡ until expires now user)
  unfolding login_right
  login_sound threshold c s after username password plain user expires now byte bytes v raw e =
      let checked = login-checked threshold c s after username password plain user expires e in
      let passed =
        login_checked-passed threshold c s after (trim_space username) password plain user expires
          checked.1 in
      let r = passed.0 in
      let there = passed.1 in
      let new = session_answer-started passed.3 in
      (
        (r, (there, passed.2, checked.0), sym new.1),
        start_session-authenticate c 1 byte bytes s.db after.db r.id plain expires now r raw
              (pair_path new.0 new.2)
              (user_by_id-user_by_name (trim_space username) s.db.users r v.users there)
            ∙ ap (until expires now) new.1,
      )

  -- Whether the password is that of the user found.
  unfoldable pub is_right : Option UserRow → Text → Bool
  is_right none password = false
  is_right (some r) password = compare_password r.password password

  -- An allowed login with an unknown name and one with a wrong password get the same answer, and both
  -- change nothing but that the limiter counts a failure.
  pub login-wrong :
      (threshold : ℕ) (c : Call) (s : Server) (username password : Text)
      → (validate_username username).1 ≡ none
      → validate_password password ≡ none
      → check_limit c s.limiter (trim_space username) ≡ allowed
      → c.down 0 ≡ false
      → is_right (user_by_name (trim_space username) s.db.users) password ≡ false
      → login threshold c s username password ≡ (
        record s { limiter = count_failure threshold c s.limiter (trim_space username) },
        denied invalid_credentials,
      )
  unfolding login_limited login_checked login_found login_wrong find_by_username answer_of is_right
  login-wrong threshold c s username password good fine allow up wrong =
      login-limited threshold c s username password good fine
      ∙ ap (login_limited threshold c s (trim_space username) password) allow
      ∙ elim (Option-cases (user_by_name (trim_space username) s.db.users)) [
        | inl missing ↦ rw (up, missing, login_checked) refl
        | inr (r, there) ↦ rw (up, there, login_checked, rw there at wrong) refl
      ]

  -- While the limiter refuses a name or an address, no password is looked at and nothing changes.
  pub login-locked :
      (threshold : ℕ) (c : Call) (s : Server) (username password : Text) (wait : ℕ)
      → (validate_username username).1 ≡ none
      → validate_password password ≡ none
      → check_limit c s.limiter (trim_space username) ≡ too_many wait
      → login threshold c s username password ≡ (s, denied (too_many_attempts wait))
  unfolding login_limited
  login-locked threshold c s username password wait good fine locked =
      login-limited threshold c s username password good fine
      ∙ ap (login_limited threshold c s (trim_space username) password) locked
