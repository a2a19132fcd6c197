-- ===== src/Auth/Store/Written.antt =====
-- All that a registration writes, and that it leaves nothing where it fails.
use my_tech_pulse.Base.{
  ℕ, ◌+◌, ◌≡◌, refl, ap, subst, ◌∙◌, Bool, true, false, ◌||◌, ◌&&◌, ◌⊎◌, none, some, [], ◌∷◌, ◌++◌,
  List, map, ◌==◌, if◌then◌else◌, count_if, Text, Time, arith, Bool-cases, Option-cases, inl, inr,
}
use my_tech_pulse.Unicode.{trim_space}
use my_tech_pulse.Auth.Store.{
  Sql, UserRow, TagRow, Db, to_user, has_user, has_name, has_tag_id, timestamptz, insert_user,
  not_created, unknown_favorite_tag, username_taken, Created, created, refused, SignupError,
  Tagging, tags_found, tags_refused, create_tagged, find_tag, find_tags,
  create_with_interests_and_session,
}
use my_tech_pulse.Auth.Store.Rows.{
  initial, turn, count_if-turn, CannotStore, with_session, create_rows-written, insert_user-none,
  has_user-first, at_most_once, insert_user-new,
}

count_if-snoc :
    (p : ℕ → Bool) (ids : List ℕ) (i : ℕ)
    → count_if p (ids ++ (i ∷ [])) ≡ count_if p ids + (if p i then 1 else 0)
unfolding count_if
count_if-snoc p [] i = ground arith
count_if-snoc p (x ∷ ids) i = ground (arith, count_if-snoc p ids i)

has_tag_id-snoc :
    (id : ℕ) (ids : List ℕ) (i : ℕ)
    → has_tag_id id (ids ++ (i ∷ [])) ≡ (has_tag_id id ids || (i == id))
unfolding has_tag_id
has_tag_id-snoc id [] i = ground arith
has_tag_id-snoc id (x ∷ ids) i = ground (arith, has_tag_id-snoc id ids i)

-- The number stands once in the list, or not at all.
abbrev pub IsOnce : ℕ → List ℕ → Bool → Type 0
IsOnce id ids here = count_if (λ t. t == id) ids ≡ (if here then 1 else 0)

-- A number that is added if it is not there yet.
abbrev add_id : ℕ → List ℕ → List ℕ
add_id i ids = if has_tag_id i ids then ids else ids ++ (i ∷ [])

has_tag_id-same :
    (i id : ℕ) (ids : List ℕ) → (i == id) ≡ true → has_tag_id i ids ≡ has_tag_id id ids
unfolding has_tag_id
has_tag_id-same i id [] e = refl
has_tag_id-same i id (x ∷ ids) e = ground (arith, has_tag_id-same i id ids)

has_tag_id-add_id :
    (i id : ℕ) (ids : List ℕ) → has_tag_id id (add_id i ids) ≡ (has_tag_id id ids || (i == id))
has_tag_id-add_id i id ids = ground (arith, has_tag_id-snoc id ids i, has_tag_id-same i id ids)

add_id-IsOnce :
    (i id : ℕ) (ids : List ℕ)
    → IsOnce id ids (has_tag_id id ids)
    → IsOnce id (add_id i ids) (has_tag_id id (add_id i ids))
add_id-IsOnce i id ids once = ground (
  arith,
  has_tag_id-add_id i id ids,
  has_tag_id-same i id ids,
  count_if-snoc (λ t. t == id) ids i,
)

refused-ne-found : {e : SignupError} {n : ℕ} {ids : List ℕ} → ¬ (tags_refused e ≡ tags_found n ids)
refused-ne-found e = cc

found-ne-refused : {e : SignupError} {n : ℕ} {ids : List ℕ} → ¬ (tags_found n ids ≡ tags_refused e)
found-ne-refused e = cc

refused-inj : {e f : SignupError} → tags_refused e ≡ tags_refused f → e ≡ f
refused-inj e = cc

found-inj : {m n : ℕ} {ids out : List ℕ} → tags_found m ids ≡ tags_found n out → ids ≡ out
found-inj e = cc

module _ ⦃q : Sql⦄ where
  -- Whether one of the names is that of the tag with this number.
  unfoldable pub is_favorite : ℕ → List Text → List TagRow → Bool
  is_favorite id [] rows = false
  is_favorite id (name ∷ names) rows =
      (elim (find_tag (trim_space name) rows) [ none ↦ false | some i ↦ i == id ])
      || is_favorite id names rows

  -- Whether each of the names is that of a tag.
  unfoldable pub are_known : List Text → List TagRow → Bool
  are_known [] rows = true
  are_known (name ∷ names) rows =
      (elim (find_tag (trim_space name) rows) [ none ↦ false | some i ↦ true ])
      && are_known names rows

  -- Why a registration is refused, by its error.
  abbrev pub HasCause : (ℕ → Bool) → Db → ℕ → Text → List Text → Text → SignupError → Type 0
  HasCause down old id name names hash unknown_favorite_tag = are_known names old.tags ≡ false
  HasCause down old id name names hash username_taken =
      (has_user id old.users || has_name name old.users) ≡ true
  HasCause down old id name names hash not_created = CannotStore down old id hash

  find_tags-refused :
      (down : ℕ → Bool) (n : ℕ) (old : Db) (id : ℕ) (name hash : Text) (ids : List ℕ)
      (names : List Text) (e : SignupError)
      → find_tags down n old.tags ids names ≡ tags_refused e
      → HasCause down old id name names hash e
  unfolding find_tags are_known
  find_tags-refused down n old id name hash ids [] e q = absurd (found-ne-refused q)
  find_tags-refused down n old id name hash ids (tag ∷ names) e q = elim (Bool-cases (down n)) [
    | inl broken ↦
        subst (HasCause down old id name (tag ∷ names) hash) (refused-inj (rw broken at q))
          (inl (n, broken))
    | inr up ↦ elim (Option-cases (find_tag (trim_space tag) old.tags)) [
      | inl missing ↦
          subst (HasCause down old id name (tag ∷ names) hash) (refused-inj (rw (up, missing) at q))
            (rw missing refl)
      | inr (i, there) ↦ more i there e (
          find_tags-refused down (n + 1) old id name hash (add_id i ids) names e
            (rw (up, there) at q))
    ]
  ]
    where
      more :
          (i : ℕ)
          → find_tag (trim_space tag) old.tags ≡ some i
          → (x : SignupError) → HasCause down old id name names hash x
          → HasCause down old id name (tag ∷ names) hash x
      more i there unknown_favorite_tag c = rw there c
      more i there username_taken c = c
      more i there not_created c = c

  find_tags-IsOnce :
      (down : ℕ → Bool) (n m id : ℕ) (rows : List TagRow) (ids out : List ℕ) (names : List Text)
      → IsOnce id ids (has_tag_id id ids)
      → find_tags down n rows ids names ≡ tags_found m out
      → IsOnce id out (has_tag_id id ids || is_favorite id names rows)
  unfolding find_tags is_favorite
  find_tags-IsOnce down n m id rows ids out [] once e = rw (← found-inj e) (ground (arith, once))
  find_tags-IsOnce down n m id rows ids out (name ∷ names) once e = elim (Bool-cases (down n)) [
    | inl broken ↦ absurd (refused-ne-found (rw broken at e))
    | inr up ↦ elim (Option-cases (find_tag (trim_space name) rows)) [
      | inl missing ↦ absurd (refused-ne-found (rw (up, missing) at e))
      | inr (i, there) ↦ rw there (
          ground (
            arith,
            has_tag_id-add_id i id ids,
            find_tags-IsOnce down (n + 1) m id rows (add_id i ids) out names
                (add_id-IsOnce i id ids once) (rw (up, there) at e),
          ))
    ]
  ]

  turned-IsOnce :
      (down : ℕ → Bool) (n id : ℕ) (rows : List TagRow) (ids : List ℕ) (names : List Text)
      → find_tags down 1 rows [] names ≡ tags_found n ids
      → IsOnce id (turn ids []) (is_favorite id names rows)
  unfolding count_if has_tag_id
  turned-IsOnce down n id rows ids names e = ground (
    arith,
    count_if-turn (λ t. t == id) ids [],
    find_tags-IsOnce down 1 n id rows [] ids names refl e,
  )

  -- What a registration leaves, for any tag number id: the old tables with an error, or the user, whose name
  -- and number were free, in front of the old users, its session in front of the old sessions, and one row
  -- with the first weight for each of the tags, in front of the old rows.
  abbrev pub IsRegistration :
      (ℕ → Bool) → Db → UserRow → List Text → Text → Time → ℕ → Db × Created → Type 0
  IsRegistration down old r names hash expires id x =
      ((e : SignupError) × (x ≡ (old, refused e)) × HasCause down old r.id r.name names hash e)
      ⊎ ((x.1 ≡ created (to_user r))
          × (has_user r.id old.users ≡ false)
          × (has_name r.name old.users ≡ false)
          × ((ids : List ℕ) × IsOnce id ids (is_favorite id names old.tags)
              × (x.0 ≡ record old {
                users = r ∷ old.users;
                sessions =
                    record { token_hash = hash; owner = r.id; expires_at = timestamptz expires }
                    ∷ old.sessions;
                interests = map (initial r.id) ids ++ old.interests;
              })))

  create_tagged-IsRegistration :
      (down : ℕ → Bool) (old : Db) (r : UserRow) (names : List Text) (hash : Text) (expires : Time)
      (id : ℕ) (f : Tagging)
      → find_tags down 1 old.tags [] names ≡ f
      → IsRegistration down old r names hash expires id (create_tagged down old r hash expires f)
  unfolding create_tagged
  create_tagged-IsRegistration down old r names hash expires id (tags_refused e) found =
      inl (e, refl, find_tags-refused down 1 old r.id r.name hash [] names e found)
  create_tagged-IsRegistration down old r names hash expires id (tags_found n ids) found =
      elim (Bool-cases (down n)) [
        | inl broken ↦ rw broken (inl (not_created, refl, inl (n, broken)))
        | inr up ↦ elim (Option-cases (insert_user old r)) [
          | inl taken ↦ rw (up, taken) (inl (username_taken, refl, insert_user-none old r taken))
          | inr (made, ok) ↦
              rw (up, ok)
                (let new = insert_user-new old made r ok in
                  elim (create_rows-written down (n + 1) old made r ids hash expires
                    (λ x. at_most_once _ (turned-IsOnce down n x old.tags ids names found))
                    (rw new.2 (has_user-first r old))) [
                      | inl failed ↦ inl (
                        not_created,
                        failed.0,
                        subst (λ (d : Db). CannotStore down d r.id hash) new.2 failed.1,
                      )
                      | inr done ↦ inr (
                        done.0,
                        new.0,
                        new.1,
                        (
                          turn ids [],
                          turned-IsOnce down n id old.tags ids names found,
                          done.1
                              ∙ ap
                                  (λ (d : Db).
                                    with_session d r hash expires
                                      (map (initial r.id) (turn ids []) ++ d.interests))
                                  new.2,
                        ),
                      )
                    ])
        ]
      ]

  pub create_with_interests_and_session-IsRegistration :
      (down : ℕ → Bool) (old : Db) (r : UserRow) (names : List Text) (hash : Text) (expires : Time)
      (id : ℕ)
      → IsRegistration down old r names hash expires id
          (create_with_interests_and_session down old r names hash expires)
  unfolding create_with_interests_and_session
  create_with_interests_and_session-IsRegistration down old r names hash expires id =
      elim (Bool-cases (down 0)) [
        | inl broken ↦ rw broken (inl (not_created, refl, inl (0, broken)))
        | inr up ↦ rw up (
            create_tagged-IsRegistration down old r names hash expires id
              (find_tags down 1 old.tags [] names) refl)
      ]
