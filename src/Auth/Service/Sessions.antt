-- ===== src/Auth/Service/Sessions.antt =====
-- Sessions: how long a token is known.
use my_tech_pulse.Base.{
  ℕ, ◌+◌, ◌≤◌, ◌≡◌, ◌≢◌, refl, sym, ap, ◌∙◌, Bool, true, false, ◌||◌, not, none, some, [], ◌∷◌,
  List, ltb, if◌then◌else◌, Text, text_eq, Time, arith, Bool-cases, Option-cases, inl, inr,
  text_eq_iff, none-ne-some, some-inj, subst,
}
use my_tech_pulse.Auth.{Tokens, hash_token, new_token}
use my_tech_pulse.Auth.Store.{
  UserRow, SessionRow, Db, User, to_user, find_user, user_by_id, is_user_id, session_user,
  has_token, has_user, insert_session, timestamptz, create, without_token, unexpired, delete,
  delete_expired,
}
use my_tech_pulse.Auth.Store.Valid.{
  IsValid, insert_session-IsValid, delete_expired-IsValid, delete-IsValid, has_token-unexpired,
}
use my_tech_pulse.Auth.Service.{
  Call, AuthError, invalid_credentials, Started, started, not_started, Identity, identified,
  unknown, clean, start_session, authenticate, logout,
}

pub session_user-none :
    (hash : Text) (now : Time) (users : List UserRow) (rows : List SessionRow)
    → has_token hash rows ≡ false
    → session_user hash now users rows ≡ none
unfolding session_user has_token
session_user-none hash now users [] e = refl
session_user-none hash now users (s ∷ rows) e =
    ground (arith, e, session_user-none hash now users rows)

has_token-without_token :
    (hash : Text) (rows : List SessionRow) → has_token hash (without_token hash rows) ≡ false
unfolding has_token without_token
has_token-without_token hash [] = refl
has_token-without_token hash (s ∷ rows) = ground (arith, has_token-without_token hash rows)

session_user-without_token :
    (hash key : Text) (now : Time) (users : List UserRow) (rows : List SessionRow)
    → hash ≢ key
    → session_user hash now users (without_token key rows) ≡ session_user hash now users rows
unfolding session_user without_token
session_user-without_token hash key now users [] n = refl
session_user-without_token hash key now users (s ∷ rows) n = ground (
  arith,
  session_user-without_token hash key now users rows n,
  text_eq_iff s.token_hash hash,
  text_eq_iff s.token_hash key,
)

session_user-unexpired :
    (hash : Text) (before now : Time) (users : List UserRow) (rows : List SessionRow)
    → before ≤ now
    → session_user hash now users (unexpired before rows) ≡ session_user hash now users rows
unfolding session_user unexpired
session_user-unexpired hash before now users [] le = refl
session_user-unexpired hash before now users (s ∷ rows) le =
    ground (arith, session_user-unexpired hash before now users rows le)

pub create-insert_session :
    (fails : Bool) (db new : Db) (hash : Text) (owner : ℕ) (expires : Time)
    → create fails db hash owner expires ≡ some new
    → insert_session db hash owner (timestamptz expires) ≡ some new
unfolding create
create-insert_session fails db new hash owner expires e =
    elim (Bool-cases (not (is_user_id owner) || fails)) [
      | inl broken ↦ absurd (none-ne-some (rw broken at e))
      | inr up ↦ rw up at e
    ]

-- The row that a new session is.
abbrev pub session_row : Text → ℕ → Time → SessionRow
session_row hash owner expires = record { token_hash = hash; owner = owner; expires_at = expires }

pub insert_session-row :
    (db new : Db) (hash : Text) (owner : ℕ) (expires : Time)
    → insert_session db hash owner expires ≡ some new
    → (record db { sessions = session_row hash owner expires ∷ db.sessions } ≡ new)
      × (has_token hash db.sessions ≡ false)
      × (has_user owner db.users ≡ true)
unfolding insert_session
insert_session-row db new hash owner expires e =
    elim (Bool-cases (has_token hash db.sessions || not (has_user owner db.users))) [
      | inl broken ↦ absurd (none-ne-some (rw broken at e))
      | inr free ↦ (some-inj (rw free at e), ground (arith, free), ground (arith, free))
    ]

module _ ⦃k : Tokens⦄ where
  -- What a known token is answered: the user until the session ends, to the microsecond.
  unfoldable pub until : Time → Time → User → Identity
  unfolding timestamptz
  until expires now user =
      if ltb (timestamptz now) (timestamptz expires)
      then identified (record { user = user; expires_at = timestamptz expires })
      else unknown invalid_credentials

  answered-ne-nothing : {e : AuthError} → ¬ (some e ≡ none)
  answered-ne-nothing e = cc

  -- A logout that returns no error ends the session of its token at once, and it changes nothing for a
  -- token with another hash.
  pub logout-authenticate :
      (fails broken : Bool) (db new : Db) (token other : Text) (now : Time)
      → logout fails db token ≡ (new, none)
      → hash_token other ≢ hash_token token
      → (authenticate false new token now ≡ unknown invalid_credentials)
        × (authenticate broken new other now ≡ authenticate broken db other now)
  unfolding logout authenticate delete find_user
  logout-authenticate fails broken db new token other now e n =
      elim (Bool-cases (text_eq token [])) [
        | inl empty ↦ subst Ended (ap (λ p. p.0) (rw empty at e)) (rw empty refl, refl)
        | inr named ↦ elim (Bool-cases fails) [
          | inl down ↦ absurd (answered-ne-nothing (ap (λ p. p.1) (rw (named, down) at e)))
          | inr up ↦ subst Ended (ap (λ p. p.0) (rw (named, up) at e)) (
            rw
                (
                  named,
                  session_user-none (hash_token token) (timestamptz now) db.users
                      (without_token (hash_token token) db.sessions)
                      (has_token-without_token (hash_token token) db.sessions),
                )
                refl,
            rw
                (session_user-without_token (hash_token other) (hash_token token) (timestamptz now)
                  db.users db.sessions n)
                refl,
          )
        ]
      ]
    where
      Ended : Db → Type 0
      Ended d =
          (authenticate false d token now ≡ unknown invalid_credentials)
          × (authenticate broken d other now ≡ authenticate broken db other now)

  -- What a started session is.
  abbrev pub IsStarted : Call → ℕ → Db → ℕ → Db → Text → Time → Type 0
  IsStarted c n db owner new plain expires =
      (expires ≡ c.now + c.session_ttl)
      × (insert_session (clean (c.down n) db c.now) (hash_token plain) owner (timestamptz expires)
          ≡ some new)

  failed-ne-started :
      {db new : Db} {e : AuthError} {plain : Text} {expires : Time}
      → ¬ (◌≡◌ {A = Db × Started} (db, not_started e) (new, started plain expires))
  failed-ne-started e = cc

  started-inj :
      {db new : Db} {p q : Text} {s t : Time}
      → ◌≡◌ {A = Db × Started} (db, started p s) (new, started q t)
      → (db ≡ new) × (p ≡ q) × (s ≡ t)
  started-inj e = (cc, cc, cc)

  start_session-IsStarted :
      (c : Call) (n : ℕ) (db new : Db) (owner : ℕ) (plain : Text) (expires : Time)
      → start_session c n db owner ≡ (new, started plain expires)
      → IsStarted c n db owner new plain expires
        × ((raw : List ℕ) × (c.raw ≡ some raw) × (plain ≡ k.encode raw))
  unfolding start_session new_token create
  start_session-IsStarted c n db new owner plain expires e = elim (Option-cases c.raw) [
    | inl dry ↦ absurd (failed-ne-started (rw (dry, start_session) at e))
    | inr (raw, filled) ↦
        elim (Option-cases (
          create (c.down (n + 1)) (clean (c.down n) db c.now) (hash_token (k.encode raw)) owner
            (c.now + c.session_ttl))) [
              | inl refused ↦ absurd (failed-ne-started (rw (filled, start_session, refused) at e))
              | inr (made, ok) ↦
                  finish raw filled made ok (started-inj (rw (filled, start_session, ok) at e))
            ]
  ]
    where
      finish :
          (raw : List ℕ)
          → c.raw ≡ some raw
          → (made : Db)
          → create
              (c.down (n + 1))
              (clean (c.down n) db c.now)
              (hash_token (k.encode raw))
              owner
              (c.now + c.session_ttl)
            ≡ some made
          → (made ≡ new) × (k.encode raw ≡ plain) × (c.now + c.session_ttl ≡ expires)
          → IsStarted c n db owner new plain expires
            × ((raw : List ℕ) × (c.raw ≡ some raw) × (plain ≡ k.encode raw))
      finish raw filled made ok same = (
        (
          sym same.2,
          rw (← same.0, ← same.1, ← same.2)
              (create-insert_session (c.down (n + 1)) (clean (c.down n) db c.now) made
                (hash_token (k.encode raw)) owner (c.now + c.session_ttl) ok),
        ),
        (raw, filled, sym same.1),
      )

  pub insert_session-authenticate :
      (db new : Db) (owner : ℕ) (plain : Text) (expires now : Time) (r : UserRow)
      → insert_session db (hash_token plain) owner (timestamptz expires) ≡ some new
      → user_by_id owner db.users ≡ some r
      → plain ≢ []
      → authenticate false new plain now ≡ until expires now (to_user r)
  unfolding authenticate find_user until
  insert_session-authenticate db new owner plain expires now r e user named =
      let row = insert_session-row db new (hash_token plain) owner (timestamptz expires) e in
      subst (λ d. authenticate false d plain now ≡ until expires now (to_user r)) row.0
        (ground (
          arith,
          text_eq_iff plain [],
          named,
          text_eq_iff (hash_token plain) (hash_token plain),
          user,
          session_user-none (hash_token plain) (timestamptz now) db.users db.sessions row.1,
        ))

  pub clean-users : (fails : Bool) (db : Db) (now : Time) → (clean fails db now).users ≡ db.users
  unfolding clean
  clean-users fails db now = ground arith

  clean-has_token :
      (fails : Bool) (db : Db) (now : Time) (hash : Text)
      → has_token hash db.sessions ≡ false
      → has_token hash (clean fails db now).sessions ≡ false
  unfolding clean delete_expired
  clean-has_token true db now hash e = e
  clean-has_token false db now hash e = has_token-unexpired hash (timestamptz now) db.sessions e

  create-some :
      (db : Db) (hash : Text) (owner : ℕ) (expires : Time)
      → is_user_id owner ≡ true
      → has_user owner db.users ≡ true
      → has_token hash db.sessions ≡ false
      → (new : Db) × (create false db hash owner expires ≡ some new)
  unfolding create insert_session
  create-some db hash owner expires id user free = rw (id, user, free) (_, refl)

  -- A session is started for a user with a new token, where the statement that stores it does not fail.
  pub start_session-started :
      (c : Call) (n : ℕ) (db : Db) (owner : ℕ) (raw : List ℕ)
      → c.raw ≡ some raw
      → c.down (n + 1) ≡ false
      → is_user_id owner ≡ true
      → has_user owner db.users ≡ true
      → has_token (hash_token (k.encode raw)) db.sessions ≡ false
      → (start_session c n db owner).1 ≡ started (k.encode raw) (c.now + c.session_ttl)
  unfolding start_session new_token
  start_session-started c n db owner raw filled up id user free =
      let cleaned = clean (c.down n) db c.now in
      let made =
        create-some cleaned (hash_token (k.encode raw)) owner (c.now + c.session_ttl) id
          (rw (clean-users (c.down n) db c.now) user)
          (clean-has_token (c.down n) db c.now (hash_token (k.encode raw)) free) in
      rw (filled, start_session, up, made.1) refl

  -- A token that was just made is known, as that of its user, until it expires and not from then on.
  pub start_session-authenticate :
      (c : Call) (n b : ℕ) (bytes : List ℕ) (db new : Db) (owner : ℕ) (plain : Text)
      (expires now : Time) (r : UserRow)
      → c.raw ≡ some (b ∷ bytes)
      → start_session c n db owner ≡ (new, started plain expires)
      → user_by_id owner db.users ≡ some r
      → authenticate false new plain now ≡ until expires now (to_user r)
  start_session-authenticate c n b bytes db new owner plain expires now r raw e user =
      let s = start_session-IsStarted c n db new owner plain expires e in
      insert_session-authenticate (clean (c.down n) db c.now) new owner plain expires now r s.0.1
        (rw (clean-users (c.down n) db c.now) user)
        (λ empty.
          k.encode_named b bytes (ap k.encode (some-inj (sym raw ∙ s.1.1)) ∙ sym s.1.2 ∙ empty))

  pub clean-IsValid :
      (fails : Bool) (db : Db) (now : Time) → IsValid db → IsValid (clean fails db now)
  unfolding clean
  clean-IsValid fails db now v = elim (Option-cases (delete_expired fails db now)) [
    | inl down ↦ rw (down, clean) v
    | inr (new, done) ↦ rw (done, clean) (delete_expired-IsValid fails db new now v done)
  ]

  pub start_session-IsValid :
      (c : Call) (n : ℕ) (db : Db) (owner : ℕ) → IsValid db → IsValid (start_session c n db owner).0
  unfolding start_session
  start_session-IsValid c n db owner v =
      let cleaned = clean (c.down n) db c.now in
      let w = clean-IsValid (c.down n) db c.now v in
      elim (Option-cases (new_token c.raw)) [
        | inl dry ↦ rw (dry, start_session) w
        | inr (t, filled) ↦
            elim (Option-cases
              (create (c.down (n + 1)) cleaned t.1 owner (c.now + c.session_ttl))) [
                | inl down ↦ rw (filled, start_session, down) w
                | inr (new, done) ↦
                    rw (filled, start_session, done)
                      (insert_session-IsValid cleaned new t.1 owner
                        (timestamptz (c.now + c.session_ttl)) w
                        (create-insert_session (c.down (n + 1)) cleaned new t.1 owner
                          (c.now + c.session_ttl) done))
              ]
      ]

  pub logout-IsValid :
      (fails : Bool) (db : Db) (token : Text) → IsValid db → IsValid (logout fails db token).0
  unfolding logout
  logout-IsValid fails db token v = elim (Bool-cases (text_eq token [])) [
    | inl empty ↦ rw empty v
    | inr named ↦ elim (Option-cases (delete fails db (hash_token token))) [
      | inl down ↦ rw (named, down) v
      | inr (new, done) ↦ rw (named, done) (delete-IsValid fails db new (hash_token token) v done)
    ]
  ]
