-- ===== src/Auth/Store/Registered.antt =====
-- What a registration that succeeds has written.
use my_tech_pulse.Base.{
  ℕ, ◌+◌, ◌≡◌, refl, sym, ap, ◌∙◌, Bool, ◌||◌, some, [], List, Text, Time, arith, Bool-cases,
  Option-cases, inl, inr, text_eq_iff, none-ne-some, some-inj, subst,
}
use my_tech_pulse.Auth.Store.{
  Sql, UserRow, Db, User, to_user, user_by_name, user_by_id, has_user, has_name, insert_session,
  timestamptz, insert_interests, insert_user, Created, created, refused, SignupError, Tagging,
  tags_found, tags_refused, create_rows, create_tagged, find_tags,
  create_with_interests_and_session,
}

-- The tables `new` have the user r, under its name and its number, and its first session.
abbrev pub HasRegistered : Db → UserRow → Text → Time → Type 0
HasRegistered new r hash expires =
    (user_by_name r.name new.users ≡ some r)
    × ((mid : Db) × (user_by_id r.id mid.users ≡ some r)
        × (mid.users ≡ new.users)
        × (insert_session mid hash r.id (timestamptz expires) ≡ some new))

refused-ne-created :
    {db new : Db} {e : SignupError} {user : User}
    → ¬ (◌≡◌ {A = Db × Created} (db, refused e) (new, created user))
refused-ne-created e = cc

created-inj :
    {db new : Db} {x user : User}
    → ◌≡◌ {A = Db × Created} (db, created x) (new, created user)
    → (db ≡ new) × (x ≡ user)
created-inj e = (ap (λ p. p.0) e, cc)

insert_session-users :
    (db new : Db) (hash : Text) (owner : ℕ) (expires : Time)
    → insert_session db hash owner expires ≡ some new
    → db.users ≡ new.users
unfolding insert_session
insert_session-users db new hash owner expires e = ground (arith, e)

create_rows-created :
    (down : ℕ → Bool) (n : ℕ) (old db new : Db) (r : UserRow) (ids : List ℕ) (hash : Text)
    (expires : Time) (user : User)
    → create_rows down n old db r ids hash expires ≡ (new, created user)
    → (to_user r ≡ user)
      × ((mid : Db) × (mid.users ≡ db.users)
          × (insert_session mid hash r.id (timestamptz expires) ≡ some new))
unfolding create_rows
create_rows-created down n old db new r ids hash expires user e =
    elim (Option-cases (insert_interests down n r.id ids db.interests)) [
      | inl broken ↦ absurd (refused-ne-created (rw (broken, create_rows) at e))
      | inr (p, rows) ↦ elim (Bool-cases (down p.0)) [
        | inl broken ↦ absurd (refused-ne-created (rw (rows, create_rows, broken) at e))
        | inr up ↦
            elim (Option-cases
              (insert_session (record db { interests = p.1 }) hash r.id (timestamptz expires))) [
                | inl broken ↦ absurd (refused-ne-created (rw (rows, create_rows, up, broken) at e))
                | inr (made, ok) ↦ elim (Bool-cases (down (p.0 + 1))) [
                  | inl broken ↦
                      absurd (refused-ne-created (rw (rows, create_rows, up, ok, broken) at e))
                  | inr done ↦
                      let same = created-inj (rw (rows, create_rows, up, ok, done) at e) in
                      (same.1, (record db { interests = p.1 }, refl, ok ∙ ap some same.0))
                ]
              ]
      ]
    ]

insert_user-row :
    (db new : Db) (r : UserRow)
    → insert_user db r ≡ some new
    → (user_by_name r.name new.users ≡ some r) × (user_by_id r.id new.users ≡ some r)
unfolding insert_user user_by_name user_by_id
insert_user-row db new r e =
    elim (Bool-cases (has_user r.id db.users || has_name r.name db.users)) [
      | inl taken ↦ absurd (none-ne-some (rw taken at e))
      | inr free ↦
          subst
            (λ (d : Db).
              (user_by_name r.name d.users ≡ some r) × (user_by_id r.id d.users ≡ some r))
            (some-inj (rw free at e)) (ground (arith, text_eq_iff r.name r.name), ground arith)
    ]

create_tagged-created :
    (down : ℕ → Bool) (db new : Db) (r : UserRow) (hash : Text) (expires : Time) (f : Tagging)
    (user : User)
    → create_tagged down db r hash expires f ≡ (new, created user)
    → (to_user r ≡ user) × HasRegistered new r hash expires
unfolding create_tagged
create_tagged-created down db new r hash expires (tags_refused x) user e =
    absurd (refused-ne-created e)
create_tagged-created down db new r hash expires (tags_found n ids) user e =
    elim (Bool-cases (down n)) [
      | inl broken ↦ absurd (refused-ne-created (rw broken at e))
      | inr up ↦ elim (Option-cases (insert_user db r)) [
        | inl taken ↦ absurd (refused-ne-created (rw (up, taken) at e))
        | inr (with_user, made) ↦
            let row = insert_user-row db with_user r made in
            let rest =
              create_rows-created down (n + 1) db with_user new r ids hash expires user
                (rw (up, made) at e) in
            let mid = rest.1.0 in
            let same = insert_session-users mid new hash r.id (timestamptz expires) rest.1.2 in
            (
              rest.0,
              (
                subst (λ users. user_by_name r.name users ≡ some r) (sym rest.1.1 ∙ same) row.0,
                (
                  mid,
                  subst (λ users. user_by_id r.id users ≡ some r) (sym rest.1.1) row.1,
                  same,
                  rest.1.2,
                ),
              ),
            )
      ]
    ]

module _ ⦃q : Sql⦄ where
  pub create_with_interests_and_session-created :
      (down : ℕ → Bool) (db new : Db) (r : UserRow) (favorite_tags : List Text) (hash : Text)
      (expires : Time) (user : User)
      → create_with_interests_and_session down db r favorite_tags hash expires ≡ (new, created user)
      → (to_user r ≡ user) × HasRegistered new r hash expires
  unfolding create_with_interests_and_session
  create_with_interests_and_session-created down db new r favorite_tags hash expires user e =
      elim (Bool-cases (down 0)) [
        | inl broken ↦ absurd (refused-ne-created (rw broken at e))
        | inr up ↦
            create_tagged-created down db new r hash expires
              (find_tags down 1 db.tags [] favorite_tags) user (rw up at e)
      ]
