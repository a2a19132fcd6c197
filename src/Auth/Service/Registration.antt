-- ===== src/Auth/Service/Registration.antt =====
-- `Signup` as one transaction.
use my_tech_pulse.Base.{
  ℕ, ◌+◌, ◌≡◌, refl, sym, ap, ◌||◌, ◌≢◌, true, false, ◌⊎◌, some, ◌∷◌, ◌++◌, List, map, Text,
  Option-cases, inl, inr, subst, [], none,
}
use my_tech_pulse.Unicode.{Unicode, trim_space}
use my_tech_pulse.TextCheck.{Characters}
use my_tech_pulse.Auth.{
  Bcrypt, Tokens, Policy, hash_password, compare_password, hash_token, new_token,
  validate_new_username, validate_new_password, normalize_tags, invalid, FieldError, tag_unknown,
}
use my_tech_pulse.Auth.Store.{
  Sql, Db, Created, unknown_favorite_tag, username_taken, not_created, to_user, has_user, has_name,
  timestamptz, create_with_interests_and_session,
}
use my_tech_pulse.Auth.Store.Rows.{CannotStore, initial}
use my_tech_pulse.Auth.Store.Written.{
  IsOnce, IsRegistration, are_known, is_favorite, create_with_interests_and_session-IsRegistration,
}
use my_tech_pulse.Auth.Service.{
  Call, AuthError, validation, too_many_attempts, invalid_credentials, name_taken, hash_failed,
  token_failed, store_error, Answer, signed_in, denied, signup_answer, signup_valid, signup_checked,
  signup,
}
use my_tech_pulse.Auth.Service.Signup.{new_row, validate_new_username-none, hash_password-compare}

pair_path : {x y : Db} {a b : Answer} → x ≡ y → a ≡ b → ◌≡◌ {A = Db × Answer} (x, a) (y, b)
pair_path p q = rw (p, q) refl

module _ ⦃u : Unicode⦄ ⦃b : Bcrypt⦄ ⦃k : Tokens⦄ ⦃t : Characters⦄ ⦃p : Policy⦄ ⦃q : Sql⦄ where
  -- Why a registration is denied, by its error: the input has errors or a favorite tag is not known; the name
  -- or the number is taken; there is no hash or no token; or the rows cannot be stored.
  abbrev pub IsDeniedFor :
      Call → Db → Text → Text → List Text → List FieldError → AuthError → Type 0
  IsDeniedFor c db name password names errors (validation fields) =
      (errors ≢ []) ⊎ (are_known names db.tags ≡ false)
  IsDeniedFor c db name password names errors (too_many_attempts wait) = ⊥
  IsDeniedFor c db name password names errors invalid_credentials = ⊥
  IsDeniedFor c db name password names errors name_taken =
      (has_user c.new_id db.users || has_name name db.users) ≡ true
  IsDeniedFor c db name password names errors hash_failed = hash_password c.salt password ≡ none
  IsDeniedFor c db name password names errors token_failed = c.raw ≡ none
  IsDeniedFor c db name password names errors store_error =
      (raw : List ℕ) × (c.raw ≡ some raw)
      × CannotStore c.down db c.new_id (hash_token (k.encode raw))

  -- The tables and the answer of a registration under this name, for any tag number id: the old tables and an
  -- error, or the new rows in front of the old ones and the new user with its token.
  abbrev pub IsSignedUp :
      Call → Db → Text → Text → List Text → List FieldError → ℕ → Db × Answer → Type 0
  IsSignedUp c db name password names errors id x =
      ((e : AuthError) × (x ≡ (db, denied e)) × IsDeniedFor c db name password names errors e)
      ⊎ ((hash : Text) × (raw : List ℕ) × (ids : List ℕ) × (compare_password hash password ≡ true)
          × (c.raw ≡ some raw)
          × (has_user c.new_id db.users ≡ false)
          × (has_name name db.users ≡ false)
          × IsOnce id ids (is_favorite id names db.tags)
          × (x ≡ (
            record db {
              users = new_row c name hash ∷ db.users;
              sessions =
                  record {
                    token_hash = hash_token (k.encode raw);
                    owner = c.new_id;
                    expires_at = timestamptz (c.now + c.session_ttl);
                  }
                  ∷ db.sessions;
              interests = map (initial c.new_id) ids ++ db.interests;
            },
            signed_in (to_user (new_row c name hash)) (k.encode raw) (c.now + c.session_ttl),
          )))

  signup_valid-registration :
      (c : Call) (db : Db) (name password : Text) (names : List Text) (errors : List FieldError)
      (id : ℕ)
      → IsSignedUp c db name password names errors id (signup_valid c db name password names)
  unfolding signup_valid new_token signup_answer
  signup_valid-registration c db name password names errors id =
      elim (Option-cases (hash_password c.salt password)) [
        | inl bad ↦ rw (bad, signup_valid) (inl (hash_failed, refl, bad))
        | inr (hash, hashed) ↦ elim (Option-cases c.raw) [
          | inl dry ↦ rw (hashed, signup_valid, dry) (inl (token_failed, refl, refl))
          | inr (raw, filled) ↦
              subst (IsSignedUp c db name password names errors id)
                (sym (rw (hashed, signup_valid, filled) refl))
                (go hash hashed raw filled (
                  create_with_interests_and_session-IsRegistration c.down db (new_row c name hash)
                    names (hash_token (k.encode raw)) (c.now + c.session_ttl) id))
        ]
      ]
    where
      written : Text → List ℕ → Db × Created
      written hash raw =
          create_with_interests_and_session c.down db (new_row c name hash) names
            (hash_token (k.encode raw)) (c.now + c.session_ttl)

      go :
          (hash : Text)
          → hash_password c.salt password ≡ some hash
          → (raw : List ℕ) → c.raw ≡ some raw
          → IsRegistration c.down db
              (new_row c name hash)
              names
              (hash_token (k.encode raw))
              (c.now + c.session_ttl)
              id
              (written hash raw)
          → IsSignedUp c db name password names errors id (
            (written hash raw).0,
            signup_answer (k.encode raw) (c.now + c.session_ttl) (written hash raw).1,
          )
      go hash hashed raw filled (inl (unknown_favorite_tag, failed, cause)) =
          rw failed (inl (validation (tag_unknown ∷ []), refl, inr cause))
      go hash hashed raw filled (inl (username_taken, failed, cause)) =
          rw failed (inl (name_taken, refl, cause))
      go hash hashed raw filled (inl (not_created, failed, cause)) =
          rw failed (inl (store_error, refl, (raw, filled, cause)))
      go hash hashed raw filled (inr done) = inr (
        hash,
        raw,
        done.3.0,
        hash_password-compare c.salt password hash hashed,
        filled,
        done.1,
        done.2,
        done.3.1,
        pair_path done.3.2 (ap (signup_answer (k.encode raw) (c.now + c.session_ttl)) done.0),
      )

  -- The errors of the input.
  abbrev pub input_errors : Text → Text → List Text → List FieldError
  input_errors username password tags =
      let v = validate_new_username username in
      invalid (v.1 ∷ validate_new_password password v.0 ∷ (normalize_tags tags).1 ∷ [])

  -- A registration is all or nothing, for any input and any failing statement: either the tables are as they
  -- were and the answer is an error that has its cause (the input has errors, a favorite tag is in no row, the
  -- name or the number is taken, the hash or the random bytes fail, or a statement fails, the token is stored
  -- already or the number has weights already), or the trimmed name and the number were free, the answer is the new user
  -- with its token, and exactly these rows are new: the user under a hash of the password, its session under
  -- the hash of the token, and one row with the first weight for each tag of the table that a favorite tag
  -- names (for a tag number id: one row if some name finds it, and else none).
  pub signup-registration :
      (c : Call) (db : Db) (username password : Text) (tags : List Text) (id : ℕ)
      → IsSignedUp c db
          (trim_space username)
          password
          (normalize_tags tags).0
          (input_errors username password tags)
          id
          (signup c db username password tags)
  unfolding signup signup_checked invalid
  signup-registration c db username password tags id =
      elim (Option-cases (validate_new_username username).1) [
        | inr (f, bad) ↦ rw (bad, signup) (inl (_, refl, inl (λ q. cc)))
        | inl good ↦
            elim (Option-cases
              (validate_new_password password (validate_new_username username).0)) [
                | inr (f, bad) ↦ rw (good, bad, signup) (inl (_, refl, inl (λ q. cc)))
                | inl strong ↦ elim (Option-cases (normalize_tags tags).1) [
                  | inr (f, bad) ↦ rw (good, strong, bad, signup) (inl (_, refl, inl (λ q. cc)))
                  | inl known ↦
                      rw (good, strong, known, signup)
                        (subst
                          (λ n. IsSignedUp c db n password (normalize_tags tags).0 [] id (
                            signup_valid c db (validate_new_username username).0 password
                              (normalize_tags tags).0))
                          (validate_new_username-none username good).1
                          (signup_valid-registration c db (validate_new_username username).0
                            password (normalize_tags tags).0 [] id))
                ]
              ]
      ]
