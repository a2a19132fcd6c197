-- ===== src/Auth/Service/Hiding.antt =====
-- What a `Login` without the right password shows of the tables.
use my_tech_pulse.Base.{
  ℕ, ◌≡◌, refl, false, Option, Text, if◌then◌else◌, Bool-cases, Option-cases, inl, inr,
}
use my_tech_pulse.Unicode.{Unicode, trim_space}
use my_tech_pulse.LoginLimiter.{LoginLimiter, Verdict, allowed, too_many}
use my_tech_pulse.Auth.{Bcrypt, Tokens, validate_username, validate_password, invalid}
use my_tech_pulse.Auth.Store.{Db, user_by_name, answer_of, find_by_username}
use my_tech_pulse.Auth.Service.{
  Call, Server, denied, store_error, invalid_credentials, Answer, check_limit, count_failure,
  login_found, login_wrong, login_valid, login_checked, login_limited, login,
}
use my_tech_pulse.Auth.Service.Login.{is_right, login-limited}

abbrev at : Db → Option LoginLimiter → Server
at db l = record { db = db; limiter = l }

-- Two runs answer the same and count the same, and each leaves its tables.
abbrev pub AreAlike : Server × Answer → Server × Answer → Db → Db → Type 0
AreAlike x y db other = (x.1 ≡ y.1) × (x.0.limiter ≡ y.0.limiter) × (x.0.db ≡ db) × (y.0.db ≡ other)

module _ ⦃u : Unicode⦄ ⦃b : Bcrypt⦄ ⦃k : Tokens⦄ where
  login_checked-wrong :
      (threshold : ℕ) (c : Call) (db : Db) (l : Option LoginLimiter) (name password : Text)
      → is_right (user_by_name name db.users) password ≡ false
      → login_checked threshold c (at db l) name password ≡ (
          if c.down 0
          then (at db l, denied store_error)
          else (at db (count_failure threshold c l name), denied invalid_credentials))
  unfolding login_checked login_found login_wrong find_by_username answer_of is_right
  login_checked-wrong threshold c db l name password wrong = elim (Bool-cases (c.down 0)) [
    | inl down ↦ rw (down, login_checked) refl
    | inr up ↦ elim (Option-cases (user_by_name name db.users)) [
      | inl missing ↦ rw (up, missing, login_checked) refl
      | inr (r, there) ↦ rw (up, there, login_checked, rw there at wrong) refl
    ]
  ]

  login_limited-hides :
      (threshold : ℕ) (c : Call) (db other : Db) (l : Option LoginLimiter) (name password : Text)
      (v : Verdict)
      → is_right (user_by_name name db.users) password ≡ false
      → is_right (user_by_name name other.users) password ≡ false
      → AreAlike
          (login_limited threshold c (at db l) name password v)
          (login_limited threshold c (at other l) name password v)
          db
          other
  unfolding login_limited
  login_limited-hides threshold c db other l name password (too_many wait) p q =
      (refl, refl, refl, refl)
  login_limited-hides threshold c db other l name password allowed p q =
      rw
        (
          login_checked-wrong threshold c db l name password p,
          login_checked-wrong threshold c other l name password q,
        )
        (elim (Bool-cases (c.down 0)) [
          | inl down ↦ rw down (refl, refl, refl, refl)
          | inr up ↦ rw up (refl, refl, refl, refl)
        ])

  -- A login shows nothing of the users to one without the right password: whatever stands in two databases, if
  -- in neither there is a user of the trimmed name whose password is the given one, then a login gets the same
  -- answer over both (so an unknown name and a wrong password are told alike), a limiter in one state counts it
  -- alike, and neither database changes. This holds of any input, verdict of the limiter and failing statement.
  pub login-hides :
      (threshold : ℕ) (c : Call) (db other : Db) (l : Option LoginLimiter)
      (username password : Text)
      → is_right (user_by_name (trim_space username) db.users) password ≡ false
      → is_right (user_by_name (trim_space username) other.users) password ≡ false
      → AreAlike
          (login threshold c (record { db = db; limiter = l }) username password)
          (login threshold c (record { db = other; limiter = l }) username password)
          db
          other
  unfolding login login_valid invalid
  login-hides threshold c db other l username password p q =
      elim (Option-cases (validate_username username).1) [
        | inr (e, bad) ↦ rw (bad, login) (refl, refl, refl, refl)
        | inl good ↦ elim (Option-cases (validate_password password)) [
          | inr (e, bad) ↦ rw (good, bad, login) (refl, refl, refl, refl)
          | inl fine ↦
              rw
                (
                  login-limited threshold c (at db l) username password good fine,
                  login-limited threshold c (at other l) username password good fine,
                )
                (login_limited-hides threshold c db other l (trim_space username) password
                  (check_limit c l (trim_space username)) p q)
        ]
      ]
