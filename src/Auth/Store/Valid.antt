-- ===== src/Auth/Store/Valid.antt =====
-- The constraints of the tables, which the statements keep.
use my_tech_pulse.Base.{
  ℕ, ◌+◌, ◌≡◌, refl, Bool, true, false, ◌||◌, not, some, [], ◌∷◌, List, leb, Text, text_eq, Time,
  arith, Bool-cases, Option-cases, inl, inr, none-ne-some, some-inj, subst,
}
use my_tech_pulse.Auth.Store.{
  Sql, UserRow, SessionRow, InterestRow, Db, has_token, has_user, has_name, insert_session,
  timestamptz, without_token, unexpired, delete, delete_expired, has_interest, insert_interests,
  insert_user, Tagging, tags_found, tags_refused, create_rows, create_tagged, find_tags,
  create_with_interests_and_session,
}

-- No two users with one number or one name.
abbrev pub AreUsers : List UserRow → Type 0
AreUsers [] = Unit {0}
AreUsers (r ∷ rest) = (has_user r.id rest ≡ false) × (has_name r.name rest ≡ false) × AreUsers rest

-- No two sessions with one token, and none without its user.
abbrev pub AreSessions : List UserRow → List SessionRow → Type 0
AreSessions users [] = Unit {0}
AreSessions users (s ∷ rest) =
    (has_token s.token_hash rest ≡ false) × (has_user s.owner users ≡ true) × AreSessions users rest

-- At most one interest of a user in a tag, and none without its user.
abbrev pub AreInterests : List UserRow → List InterestRow → Type 0
AreInterests users [] = Unit {0}
AreInterests users (r ∷ rest) =
    (has_interest r.owner r.tag_id rest ≡ false)
    × (has_user r.owner users ≡ true)
    × AreInterests users rest

pub record IsValid (db : Db) : Type 0 where
  pub users : AreUsers db.users
  pub sessions : AreSessions db.users db.sessions
  pub interests : AreInterests db.users db.interests

user_sessions :
    (r : UserRow) (users : List UserRow) (rows : List SessionRow)
    → AreSessions users rows
    → AreSessions (r ∷ users) rows
unfolding has_user
user_sessions r users [] v = tt
user_sessions r users (s ∷ rows) v = (v.0, ground (arith, v.1), user_sessions r users rows v.2)

user_interests :
    (r : UserRow) (users : List UserRow) (rows : List InterestRow)
    → AreInterests users rows
    → AreInterests (r ∷ users) rows
unfolding has_user
user_interests r users [] v = tt
user_interests r users (s ∷ rows) v = (v.0, ground (arith, v.1), user_interests r users rows v.2)

insert_user-IsValid :
    (db new : Db) (r : UserRow) → IsValid db → insert_user db r ≡ some new → IsValid new
unfolding insert_user
insert_user-IsValid db new r v e =
    elim (Bool-cases (has_user r.id db.users || has_name r.name db.users)) [
      | inl taken ↦ absurd (none-ne-some (rw taken at e))
      | inr free ↦ subst IsValid (some-inj (rw free at e)) (record {
        users = (ground (arith, free), ground (arith, free), v.users);
        sessions = user_sessions r db.users db.sessions v.sessions;
        interests = user_interests r db.users db.interests v.interests;
      })
    ]

pub insert_session-IsValid :
    (db new : Db) (hash : Text) (owner : ℕ) (expires : Time)
    → IsValid db
    → insert_session db hash owner expires ≡ some new
    → IsValid new
unfolding insert_session
insert_session-IsValid db new hash owner expires v e =
    elim (Bool-cases (has_token hash db.sessions || not (has_user owner db.users))) [
      | inl broken ↦ absurd (none-ne-some (rw broken at e))
      | inr free ↦ subst IsValid (some-inj (rw free at e)) (record {
        users = v.users;
        sessions = (ground (arith, free), ground (arith, free), v.sessions);
        interests = v.interests;
      })
    ]

has_token-without_token :
    (hash key : Text) (rows : List SessionRow)
    → has_token hash rows ≡ false
    → has_token hash (without_token key rows) ≡ false
unfolding has_token without_token
has_token-without_token hash key [] e = refl
has_token-without_token hash key (s ∷ rows) e =
    ground (arith, has_token-without_token hash key rows)

without_token-AreSessions :
    (users : List UserRow) (key : Text) (rows : List SessionRow)
    → AreSessions users rows
    → AreSessions users (without_token key rows)
unfolding without_token
without_token-AreSessions users key [] v = tt
without_token-AreSessions users key (s ∷ rows) v = elim (Bool-cases (text_eq s.token_hash key)) [
  | inl gone ↦ rw gone (without_token-AreSessions users key rows v.2)
  | inr kept ↦ rw kept (
    has_token-without_token s.token_hash key rows v.0,
    v.1,
    without_token-AreSessions users key rows v.2,
  )
]

pub has_token-unexpired :
    (hash : Text) (now : Time) (rows : List SessionRow)
    → has_token hash rows ≡ false
    → has_token hash (unexpired now rows) ≡ false
unfolding has_token unexpired
has_token-unexpired hash now [] e = refl
has_token-unexpired hash now (s ∷ rows) e = ground (arith, has_token-unexpired hash now rows)

unexpired-AreSessions :
    (users : List UserRow) (now : Time) (rows : List SessionRow)
    → AreSessions users rows
    → AreSessions users (unexpired now rows)
unfolding unexpired
unexpired-AreSessions users now [] v = tt
unexpired-AreSessions users now (s ∷ rows) v = elim (Bool-cases (leb s.expires_at now)) [
  | inl gone ↦ rw gone (unexpired-AreSessions users now rows v.2)
  | inr kept ↦
      rw kept (
        has_token-unexpired s.token_hash now rows v.0,
        v.1,
        unexpired-AreSessions users now rows v.2,
      )
]

pub delete-IsValid :
    (fails : Bool) (db new : Db) (hash : Text)
    → IsValid db
    → delete fails db hash ≡ some new
    → IsValid new
unfolding delete
delete-IsValid true db new hash v e = absurd (none-ne-some e)
delete-IsValid false db new hash v e = subst IsValid (some-inj e) (record {
  users = v.users;
  sessions = without_token-AreSessions db.users hash db.sessions v.sessions;
  interests = v.interests;
})

pub delete_expired-IsValid :
    (fails : Bool) (db new : Db) (now : Time)
    → IsValid db
    → delete_expired fails db now ≡ some new
    → IsValid new
unfolding delete_expired
delete_expired-IsValid true db new now v e = absurd (none-ne-some e)
delete_expired-IsValid false db new now v e = subst IsValid (some-inj e) (record {
  users = v.users;
  sessions = unexpired-AreSessions db.users (timestamptz now) db.sessions v.sessions;
  interests = v.interests;
})

insert_interests-AreInterests :
    (users : List UserRow) (down : ℕ → Bool) (n owner : ℕ) (tags : List ℕ) (rows : List InterestRow)
    (p : ℕ × List InterestRow)
    → has_user owner users ≡ true
    → AreInterests users rows
    → insert_interests down n owner tags rows ≡ some p
    → AreInterests users p.1
unfolding insert_interests
insert_interests-AreInterests users down n owner [] rows p u v e =
    subst (λ o. AreInterests users o.1) (some-inj e) v
insert_interests-AreInterests users down n owner (tag ∷ tags) rows p u v e =
    elim (Bool-cases (down n || has_interest owner tag rows)) [
      | inl broken ↦ absurd (none-ne-some (rw (broken, insert_interests) at e))
      | inr free ↦
          insert_interests-AreInterests users down (n + 1) owner tags _ p u
            (ground (arith, free), u, v) (rw (free, insert_interests) at e)
    ]

create_rows-IsValid :
    (down : ℕ → Bool) (n : ℕ) (old db : Db) (r : UserRow) (ids : List ℕ) (hash : Text)
    (expires : Time)
    → IsValid old
    → IsValid db
    → has_user r.id db.users ≡ true
    → IsValid (create_rows down n old db r ids hash expires).0
unfolding create_rows
create_rows-IsValid down n old db r ids hash expires v w u =
    elim (Option-cases (insert_interests down n r.id ids db.interests)) [
      | inl broken ↦ rw (broken, create_rows) v
      | inr (p, rows) ↦ elim (Bool-cases (down p.0)) [
        | inl broken ↦ rw (rows, create_rows, broken) v
        | inr up ↦
            let with_rows : IsValid (record db { interests = p.1 }) = record {
              users = w.users;
              sessions = w.sessions;
              interests =
                  insert_interests-AreInterests db.users down n r.id ids db.interests p u
                    w.interests rows;
            } in
            elim (Option-cases
              (insert_session (record db { interests = p.1 }) hash r.id (timestamptz expires))) [
                | inl broken ↦ rw (rows, create_rows, up, broken) v
                | inr (new, made) ↦ elim (Bool-cases (down (p.0 + 1))) [
                  | inl broken ↦ rw (rows, create_rows, up, made, broken) v
                  | inr done ↦
                      rw (rows, create_rows, up, made, done)
                        (insert_session-IsValid _ new hash r.id (timestamptz expires) with_rows
                          made)
                ]
              ]
      ]
    ]

has_user-insert_user :
    (db new : Db) (r : UserRow) → insert_user db r ≡ some new → has_user r.id new.users ≡ true
unfolding insert_user has_user
has_user-insert_user db new r e =
    elim (Bool-cases (has_user r.id db.users || has_name r.name db.users)) [
      | inl taken ↦ absurd (none-ne-some (rw taken at e))
      | inr free ↦
          subst (λ d. has_user r.id d.users ≡ true) (some-inj (rw free at e)) (ground arith)
    ]

create_tagged-IsValid :
    (down : ℕ → Bool) (db : Db) (r : UserRow) (hash : Text) (expires : Time) (f : Tagging)
    → IsValid db
    → IsValid (create_tagged down db r hash expires f).0
unfolding create_tagged
create_tagged-IsValid down db r hash expires (tags_refused e) v = v
create_tagged-IsValid down db r hash expires (tags_found n ids) v = elim (Bool-cases (down n)) [
  | inl broken ↦ rw broken v
  | inr up ↦ elim (Option-cases (insert_user db r)) [
    | inl taken ↦ rw (up, taken) v
    | inr (new, made) ↦
        rw (up, made)
          (create_rows-IsValid down (n + 1) db new r ids hash expires v
            (insert_user-IsValid db new r v made) (has_user-insert_user db new r made))
  ]
]

module _ ⦃q : Sql⦄ where
  -- The registration keeps the tables valid, whatever fails.
  pub create_with_interests_and_session-IsValid :
      (down : ℕ → Bool) (db : Db) (r : UserRow) (favorite_tags : List Text) (hash : Text)
      (expires : Time)
      → IsValid db
      → IsValid (create_with_interests_and_session down db r favorite_tags hash expires).0
  unfolding create_with_interests_and_session
  create_with_interests_and_session-IsValid down db r favorite_tags hash expires v =
      elim (Bool-cases (down 0)) [
        | inl broken ↦ rw broken v
        | inr up ↦ rw up (
            create_tagged-IsValid down db r hash expires (find_tags down 1 db.tags [] favorite_tags)
              v)
      ]
