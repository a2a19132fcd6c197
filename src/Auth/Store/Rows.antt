-- ===== src/Auth/Store/Rows.antt =====
-- The rows that the transaction of a registration writes, or why it cannot.
use my_tech_pulse.Base.{
  ℕ, ◌+◌, ◌≡◌, refl, sym, ap, ◌≤◌, ◌<◌, ◌∙◌, Bool, true, false, ◌||◌, ◌⊎◌, none, some, [], ◌∷◌,
  ◌++◌, List, map, ◌==◌, if◌then◌else◌, count_if, Text, Time, arith, Bool-cases, Option-cases, inl,
  inr, none-ne-some, some-inj,
}
use my_tech_pulse.Interest.{scale}
use my_tech_pulse.Auth.Store.{
  UserRow, InterestRow, Db, to_user, has_user, has_name, timestamptz, insert_session,
  insert_interests, insert_user, has_interest, has_token, not_created, Created, created, refused,
  create_rows,
}

-- The weight that a new user gets for a favorite tag.
abbrev pub initial : ℕ → ℕ → InterestRow
initial owner tag = record { owner = owner; tag_id = tag; match_int = scale }

pub turn : List ℕ → List ℕ → List ℕ
turn [] acc = acc
turn (x ∷ xs) acc = turn xs (x ∷ acc)

pub count_if-turn :
    (p : ℕ → Bool) (xs acc : List ℕ) → count_if p (turn xs acc) ≡ count_if p xs + count_if p acc
unfolding turn count_if
count_if-turn p [] acc = ground arith
count_if-turn p (x ∷ xs) acc = ground (arith, count_if-turn p xs (x ∷ acc))

insert_interests-rows :
    (down : ℕ → Bool) (n owner : ℕ) (tags acc : List ℕ) (old : List InterestRow)
    (p : ℕ × List InterestRow)
    → insert_interests down n owner tags (map (initial owner) acc ++ old) ≡ some p
    → p.1 ≡ map (initial owner) (turn tags acc) ++ old
unfolding insert_interests turn
insert_interests-rows down n owner [] acc old p e =
    ap (λ (x : ℕ × List InterestRow). x.1) (sym (some-inj e))
insert_interests-rows down n owner (tag ∷ tags) acc old p e =
    elim (Bool-cases (down n || has_interest owner tag (map (initial owner) acc ++ old))) [
      | inl broken ↦ absurd (none-ne-some (rw (broken, insert_interests) at e))
      | inr free ↦
          insert_interests-rows down (n + 1) owner tags (tag ∷ acc) old p
            (rw (free, insert_interests) at e)
    ]

-- The tables with the session of the user r and these rows of `recommend`.
abbrev pub with_session : Db → UserRow → Text → Time → List InterestRow → Db
with_session db r hash expires rows = record db {
  sessions =
      record { token_hash = hash; owner = r.id; expires_at = timestamptz expires } ∷ db.sessions;
  interests = rows;
}

-- Why rows cannot be stored: a statement fails, the token is known, or the number has weights already.
abbrev pub CannotStore : (ℕ → Bool) → Db → ℕ → Text → Type 0
CannotStore down old owner hash =
    ((n : ℕ) × (down n ≡ true))
    ⊎ (has_token hash old.sessions ≡ true)
    ⊎ ((tag : ℕ) × (has_interest owner tag old.interests ≡ true))

abbrev pub HasWritten :
    (ℕ → Bool) → Db → Db → UserRow → List ℕ → Text → Time → Db × Created → Type 0
HasWritten down old db r ids hash expires x =
    ((x ≡ (old, refused not_created)) × CannotStore down db r.id hash)
    ⊎ ((x.1 ≡ created (to_user r))
        × (x.0 ≡ with_session db r hash expires (map (initial r.id) ids ++ db.interests)))

-- No number stands twice.
abbrev AreDistinct : List ℕ → Type 0
AreDistinct ids = (id : ℕ) → count_if (λ t. t == id) ids ≤ 1

has_interest-initial :
    (owner tag : ℕ) (acc : List ℕ) (old : List InterestRow)
    → has_interest owner tag (map (initial owner) acc ++ old) ≡ true
    → (0 < count_if (λ t. t == tag) acc) ⊎ (has_interest owner tag old ≡ true)
unfolding has_interest count_if
has_interest-initial owner tag [] old e = inr e
has_interest-initial owner tag (x ∷ acc) old e =
    ground (arith, e, has_interest-initial owner tag acc old)

insert_interests-none :
    (down : ℕ → Bool) (n owner : ℕ) (tags acc : List ℕ) (old : List InterestRow)
    → AreDistinct (turn tags acc)
    → insert_interests down n owner tags (map (initial owner) acc ++ old) ≡ none
    → ((m : ℕ) × (down m ≡ true)) ⊎ ((tag : ℕ) × (has_interest owner tag old ≡ true))
unfolding insert_interests turn count_if
insert_interests-none down n owner [] acc old d e = absurd (none-ne-some (sym e))
insert_interests-none down n owner (tag ∷ tags) acc old d e = elim (Bool-cases (down n)) [
  | inl broken ↦ inl (n, broken)
  | inr up ↦ elim (Bool-cases (has_interest owner tag (map (initial owner) acc ++ old))) [
    | inr free ↦
        insert_interests-none down (n + 1) owner tags (tag ∷ acc) old d
          (rw (up, free, insert_interests) at e)
    | inl there ↦ elim (has_interest-initial owner tag acc old there) [
      | inr before ↦ inr (tag, before)
      | inl twice ↦
          absurd (ground (arith, d tag, count_if-turn (λ t. t == tag) tags (tag ∷ acc), twice))
    ]
  ]
]

insert_session-none :
    (db : Db) (hash : Text) (owner : ℕ) (t : Time)
    → has_user owner db.users ≡ true
    → insert_session db hash owner t ≡ none
    → has_token hash db.sessions ≡ true
unfolding insert_session
insert_session-none db hash owner t user e = ground (arith, user, e)

insert_session-new :
    (db new : Db) (hash : Text) (owner : ℕ) (t : Time)
    → insert_session db hash owner t ≡ some new
    → new ≡ record db {
      sessions = record { token_hash = hash; owner = owner; expires_at = t } ∷ db.sessions;
    }
unfolding insert_session
insert_session-new db new hash owner t e = ground (arith, e)

pub create_rows-written :
    (down : ℕ → Bool) (n : ℕ) (old db : Db) (r : UserRow) (ids : List ℕ) (hash : Text)
    (expires : Time)
    → AreDistinct (turn ids [])
    → has_user r.id db.users ≡ true
    → HasWritten down old db r
        (turn ids [])
        hash
        expires
        (create_rows down n old db r ids hash expires)
unfolding create_rows
create_rows-written down n old db r ids hash expires distinct user =
    elim (Option-cases (insert_interests down n r.id ids db.interests)) [
      | inl broken ↦
          rw (broken, create_rows)
            (inl (
              refl,
              cannot (insert_interests-none down n r.id ids [] db.interests distinct broken),
            ))
      | inr (p, rows) ↦ elim (Bool-cases (down p.0)) [
        | inl broken ↦ rw (rows, create_rows, broken) (inl (refl, inl (p.0, broken)))
        | inr up ↦
            elim (Option-cases
              (insert_session (record db { interests = p.1 }) hash r.id (timestamptz expires))) [
                | inl broken ↦
                    rw (rows, create_rows, up, broken)
                      (inl (
                        refl,
                        inr (
                            inl (
                              insert_session-none (record db { interests = p.1 }) hash r.id
                                (timestamptz expires) user broken)),
                      ))
                | inr (made, ok) ↦ elim (Bool-cases (down (p.0 + 1))) [
                  | inl broken ↦
                      rw (rows, create_rows, up, ok, broken) (inl (refl, inl (p.0 + 1, broken)))
                  | inr done ↦
                      rw (rows, create_rows, up, ok, done)
                        (inr (
                          refl,
                          insert_session-new (record db { interests = p.1 }) made hash r.id
                                (timestamptz expires) ok
                              ∙ ap (with_session db r hash expires)
                                  (insert_interests-rows down n r.id ids [] db.interests p rows),
                        ))
                ]
              ]
      ]
    ]
  where
    cannot :
        ((m : ℕ) × (down m ≡ true)) ⊎ ((tag : ℕ) × (has_interest r.id tag db.interests ≡ true))
        → CannotStore down db r.id hash
    cannot (inl broken) = inl broken
    cannot (inr there) = inr (inr there)

pub insert_user-none :
    (db : Db) (r : UserRow)
    → insert_user db r ≡ none
    → (has_user r.id db.users || has_name r.name db.users) ≡ true
unfolding insert_user
insert_user-none db r e = ground (arith, e)

pub has_user-first : (r : UserRow) (db : Db) → has_user r.id (r ∷ db.users) ≡ true
unfolding has_user
has_user-first r db = ground arith

pub at_most_once : {n : ℕ} (here : Bool) → n ≡ (if here then 1 else 0) → n ≤ 1
at_most_once here e = ground (arith, e)

pub insert_user-new :
    (db new : Db) (r : UserRow)
    → insert_user db r ≡ some new
    → (has_user r.id db.users ≡ false)
      × (has_name r.name db.users ≡ false)
      × (new ≡ record db { users = r ∷ db.users })
unfolding insert_user
insert_user-new db new r e = (ground (arith, e), ground (arith, e), ground (arith, e))
