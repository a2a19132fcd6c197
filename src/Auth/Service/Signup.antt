-- ===== src/Auth/Service/Signup.antt =====
-- `Signup`, and the logins after it.
use my_tech_pulse.Base.{
  ℕ, ◌+◌, ◌≡◌, refl, sym, ap, ◌∙◌, true, false, Option, none, some, [], ◌∷◌, List, Text, Time,
  arith, Bool-cases, Option-cases, inl, inr, text_eq_iff, none-ne-some, some-inj, subst,
}
use my_tech_pulse.Unicode.{Unicode, trim_space}
use my_tech_pulse.TextCheck.{Characters}
use my_tech_pulse.LoginLimiter.{LoginLimiter, allowed}
use my_tech_pulse.Auth.{
  Bcrypt, Tokens, Policy, member, hash_password, compare_password, hash_token, new_token,
  valid_password, validate_username, validate_password, validate_new_username,
  validate_new_password, normalize_tags, invalid,
}
use my_tech_pulse.Auth.Store.{
  Sql, UserRow, Db, User, to_user, has_token, is_user_id, answer_of, find_by_username, Created,
  created, refused, create_with_interests_and_session,
}
use my_tech_pulse.Auth.Store.Registered.{HasRegistered, create_with_interests_and_session-created}
use my_tech_pulse.Auth.Service.{
  Call, Server, session_answer, AuthError, Answer, signed_in, denied, authenticate, check_limit,
  login_right, login_found, login_checked, login_limited, login, signup_answer, signup_valid,
  signup_checked, signup,
}
use my_tech_pulse.Auth.Service.Sessions.{until, start_session-started, insert_session-authenticate}
use my_tech_pulse.Auth.Service.Login.{login-limited, has_user-user_by_name}

pub validate_new_username-none :
    ⦃t : Characters⦄ (username : Text)
    → (validate_new_username username).1 ≡ none
    → ((validate_username username).1 ≡ none)
      × ((validate_new_username username).0 ≡ trim_space username)
unfolding validate_new_username validate_username
validate_new_username-none username e = (ground (arith, e), ground (arith, e))

module _ ⦃u : Unicode⦄ ⦃b : Bcrypt⦄ ⦃c : Policy⦄ where
  validate_new_password-none :
      (password name : Text)
      → validate_new_password password name ≡ none
      → valid_password password ≡ true
  unfolding validate_new_password valid_password
  validate_new_password-none [] name e = ground (arith, e)
  validate_new_password-none (x ∷ password) name e =
      ground (arith, e, text_eq_iff (x ∷ password) [])

pub hash_password-compare :
    ⦃b : Bcrypt⦄ (salt password hash : Text)
    → hash_password salt password ≡ some hash
    → compare_password hash password ≡ true
unfolding hash_password compare_password
hash_password-compare ⦃b⦄ salt password hash e = elim (Bool-cases (valid_password password)) [
  | inr bad ↦ absurd (none-ne-some (rw bad at e))
  | inl good ↦ rw (good, b.matches-generate salt password hash (rw good at e)) refl
]

-- The row of a new user.
abbrev pub new_row : Call → Text → Text → UserRow
new_row c name hash = record { id = c.new_id; name = name; password = hash; role = member }

denied-ne-signed_in :
    {db new : Db} {e : AuthError} {user : User} {plain : Text} {expires : Time}
    → ¬ (◌≡◌ {A = Db × Answer} (db, denied e) (new, signed_in user plain expires))
denied-ne-signed_in e = cc

answer-inj :
    {x y : User} {p q : Text} {s t : Time}
    → signed_in x p s ≡ signed_in y q t
    → (x ≡ y) × (p ≡ q) × (s ≡ t)
answer-inj e = (cc, cc, cc)

pair_path : {x : Db × Created} {db : Db} {m : Created} → x.0 ≡ db → x.1 ≡ m → x ≡ (db, m)
pair_path p q = rw (← p, ← q) refl

signup_answer-created :
    {db new : Db} {t plain : Text} {x expires : Time} {made : Created} {user : User}
    → ◌≡◌ {A = Db × Answer} (db, signup_answer t x made) (new, signed_in user plain expires)
    → (t ≡ plain) × (x ≡ expires) × (db ≡ new) × (made ≡ created user)
unfolding signup_answer
signup_answer-created {made = created v} e =
    let same = answer-inj (ap (λ p. p.1) e) in (same.1, same.2, ap (λ p. p.0) e, ap created same.0)
signup_answer-created {made = refused v} e = absurd (denied-ne-signed_in e)

module _ ⦃u : Unicode⦄ ⦃b : Bcrypt⦄ ⦃k : Tokens⦄ ⦃t : Characters⦄ ⦃p : Policy⦄ ⦃q : Sql⦄ where
  -- What a registration that signs in has written, for the trimmed name.
  abbrev pub HasSignedUp : Call → Db → Text → Text → User → Text → Time → Text → Type 0
  HasSignedUp c new name password user plain expires hash =
      (compare_password hash password ≡ true)
      × (to_user (new_row c name hash) ≡ user)
      × HasRegistered new (new_row c name hash) (hash_token plain) expires
      × ((raw : List ℕ) × (c.raw ≡ some raw) × (k.encode raw ≡ plain))

  signup_valid-signed_in :
      (c : Call) (db new : Db) (name password plain : Text) (tags : List Text) (user : User)
      (expires : Time)
      → signup_valid c db name password tags ≡ (new, signed_in user plain expires)
      → (hash : Text) × HasSignedUp c new name password user plain expires hash
  unfolding signup_valid new_token
  signup_valid-signed_in c db new name password plain tags user expires e =
      elim (Option-cases (hash_password c.salt password)) [
        | inl bad ↦ absurd (denied-ne-signed_in (rw (bad, signup_valid) at e))
        | inr (hash, hashed) ↦ elim (Option-cases c.raw) [
          | inl dry ↦ absurd (denied-ne-signed_in (rw (hashed, signup_valid, dry) at e))
          | inr (raw, filled) ↦
              finish hash hashed raw filled
                (signup_answer-created (rw (hashed, signup_valid, filled) at e))
        ]
      ]
    where
      written : Text → List ℕ → Db × Created
      written hash raw =
          create_with_interests_and_session c.down db (new_row c name hash) tags
            (hash_token (k.encode raw)) (c.now + c.session_ttl)

      finish :
          (hash : Text)
          → hash_password c.salt password ≡ some hash
          → (raw : List ℕ) → c.raw ≡ some raw
          → (k.encode raw ≡ plain)
            × (c.now + c.session_ttl ≡ expires)
            × ((written hash raw).0 ≡ new)
            × ((written hash raw).1 ≡ created user)
          → (hash : Text) × HasSignedUp c new name password user plain expires hash
      finish hash hashed raw filled same =
          let made =
            create_with_interests_and_session-created c.down db new (new_row c name hash) tags
              (hash_token (k.encode raw)) (c.now + c.session_ttl) user (pair_path same.2 same.3) in
          (
            hash,
            (
              hash_password-compare c.salt password hash hashed,
              made.0,
              rw (← same.0, ← same.1) made.1,
              (raw, filled, same.0),
            ),
          )

  signup-signed_in :
      (c : Call) (db new : Db) (username password plain : Text) (tags : List Text) (user : User)
      (expires : Time)
      → signup c db username password tags ≡ (new, signed_in user plain expires)
      → ((validate_username username).1 ≡ none)
        × (valid_password password ≡ true)
        × ((hash : Text) × HasSignedUp c new (trim_space username) password user plain expires hash)
  unfolding signup signup_checked invalid
  signup-signed_in c db new username password plain tags user expires e =
      elim (Option-cases (validate_new_username username).1) [
        | inr (f, bad) ↦ absurd (denied-ne-signed_in (rw (bad, signup) at e))
        | inl good ↦
            elim (Option-cases
              (validate_new_password password (validate_new_username username).0)) [
                | inr (f, bad) ↦ absurd (denied-ne-signed_in (rw (good, bad, signup) at e))
                | inl strong ↦ elim (Option-cases (normalize_tags tags).1) [
                  | inr (f, bad) ↦
                      absurd (denied-ne-signed_in (rw (good, strong, bad, signup) at e))
                  | inl known ↦
                      let name = validate_new_username-none username good in
                      (
                        name.0,
                        validate_new_password-none password (validate_new_username username).0
                            strong,
                        subst
                            (λ s.
                              (hash : Text) × HasSignedUp c new s password user plain expires hash)
                            name.1
                            (signup_valid-signed_in c db new (validate_new_username username).0
                              password plain (normalize_tags tags).0 user expires
                              (rw (good, strong, known, signup) at e)),
                      )
                ]
              ]
      ]

  -- A registration that signs in has written a user with the trimmed name, and its token is known as that
  -- user's until the session ends and not from then on.
  pub signup-authenticate :
      (c : Call) (db new : Db) (username password plain : Text) (tags : List Text) (user : User)
      (expires now : Time) (byte : ℕ) (bytes : List ℕ)
      → c.raw ≡ some (byte ∷ bytes)
      → signup c db username password tags ≡ (new, signed_in user plain expires)
      → (user.username ≡ trim_space username)
        × (authenticate false new plain now ≡ until expires now user)
  unfolding to_user
  signup-authenticate c db new username password plain tags user expires now byte bytes raw e =
      let done = signup-signed_in c db new username password plain tags user expires e in
      let hash = done.2.0 in
      let facts = done.2.1 in
      let same = facts.1 in
      let written = facts.2.1 in
      let token = facts.3 in
      (
        ap (λ (x : User). x.username) (sym same),
        insert_session-authenticate written.0 new c.new_id plain expires now
              (new_row c (trim_space username) hash) written.3 written.1
              (λ empty.
                k.encode_named byte bytes
                  (ap k.encode (some-inj (sym raw ∙ token.1)) ∙ token.2 ∙ empty))
            ∙ ap (until expires now) same,
      )

  -- After a registration that signs in, a login with the same name and password signs in the same user,
  -- where the limiter allows it, the two statements do not fail and the new token's hash is not one that is
  -- stored.
  pub signup-login :
      (threshold : ℕ) (c d : Call) (db new : Db) (l : Option LoginLimiter)
      (username password plain : Text) (tags : List Text) (user : User) (expires : Time)
      (raw : List ℕ)
      → signup c db username password tags ≡ (new, signed_in user plain expires)
      → is_user_id c.new_id ≡ true
      → check_limit d l (trim_space username) ≡ allowed
      → d.down 0 ≡ false
      → d.down 2 ≡ false
      → d.raw ≡ some raw
      → has_token (hash_token (k.encode raw)) new.sessions ≡ false
      → (login threshold d (record { db = new; limiter = l }) username password).1
        ≡ signed_in user (k.encode raw) (d.now + d.session_ttl)
  unfolding login_limited login_checked login_found find_by_username answer_of login_right
      session_answer validate_password
  signup-login threshold c d db new l username password plain tags user expires raw e id allow up
        stores filled free =
      let done = signup-signed_in c db new username password plain tags user expires e in
      let facts = done.2.1 in
      let name = trim_space username in
      let s : Server = record { db = new; limiter = l } in
      let there = facts.2.0 in
      ap (λ r. r.1)
        (login-limited threshold d s username password done.0 (rw done.1 refl)
          ∙ ap (login_limited threshold d s name password) allow)
      ∙ rw (up, there, login_checked, facts.0)
          (ap (session_answer (to_user (new_row c name done.2.0))) (
              start_session-started d 1 new c.new_id raw filled stores id
                (has_user-user_by_name name new.users (new_row c name done.2.0) there) free)
            ∙ ap (λ x. signed_in x (k.encode raw) (d.now + d.session_ttl)) facts.1)
