-- ===== src/TagMatch/All.antt =====
-- What `MatchAll` collects.
use my_tech_pulse.Base.{
  ℕ, ◌≡◌, refl, sym, ap, ◌∙◌, Bool, false, ◌||◌, Option, none, some, [], ◌∷◌, ◌++◌, List, ◌==◌,
  Text, arith, Bool-cases, inl, inr,
}
use my_tech_pulse.Unicode.{Unicode}
use my_tech_pulse.TagMatch.{TagMatcher, has_id, match_tag, append_new, match_from, match_all}

has_id-append :
    (id x : ℕ) (ids : List ℕ) → has_id id (ids ++ (x ∷ [])) ≡ (has_id id ids || (x == id))
unfolding has_id
has_id-append id x [] = ground arith
has_id-append id x (y ∷ ids) = ground (arith, has_id-append id x ids)

-- No number twice.
abbrev pub AreDistinct : List ℕ → Type 0
AreDistinct [] = Unit {0}
AreDistinct (x ∷ ids) = (has_id x ids ≡ false) × AreDistinct ids

append-AreDistinct :
    (x : ℕ) (ids : List ℕ) → has_id x ids ≡ false → AreDistinct ids → AreDistinct (ids ++ (x ∷ []))
unfolding has_id
append-AreDistinct x [] n d = (refl, tt)
append-AreDistinct x (y ∷ ids) n d = (
  ground (arith, n, d.0, has_id-append y x ids),
  append-AreDistinct x ids (ground (arith, n)) d.1,
)

module _ ⦃u : Unicode⦄ where
  -- Whether a name is matched to the number.
  unfoldable pub is_match : TagMatcher → ℕ → List Text → Bool
  is_match m id [] = false
  is_match m id (name ∷ names) =
      elim (match_tag m name) [ none ↦ false | some x ↦ x == id ] || is_match m id names

  append_new-AreDistinct :
      (o : Option ℕ) (ids : List ℕ) → AreDistinct ids → AreDistinct (append_new o ids)
  unfolding append_new
  append_new-AreDistinct none ids d = d
  append_new-AreDistinct (some x) ids d = elim (Bool-cases (has_id x ids)) [
    | inl old ↦ rw old d
    | inr new ↦ rw new (append-AreDistinct x ids new d)
  ]

  has_id-append_new :
      (id : ℕ) (o : Option ℕ) (ids : List ℕ)
      → has_id id (append_new o ids) ≡ (has_id id ids || elim o [ none ↦ false | some x ↦ x == id ])
  unfolding append_new
  has_id-append_new id none ids = ground arith
  has_id-append_new id (some x) ids = elim (Bool-cases (has_id x ids)) [
    | inl old ↦ elim (Bool-cases (x == id)) [
      | inl same ↦
          let e : x ≡ id = ground (arith, same) in
          rw (old, same) (ap (λ i. has_id i ids) (sym e) ∙ ground (arith, old))
      | inr other ↦ rw (old, other) (ground arith)
    ]
    | inr new ↦ rw new (has_id-append id x ids)
  ]

  match_from-AreDistinct :
      (m : TagMatcher) (ids : List ℕ) (names : List Text)
      → AreDistinct ids
      → AreDistinct (match_from m ids names)
  unfolding match_from
  match_from-AreDistinct m ids [] d = d
  match_from-AreDistinct m ids (name ∷ names) d =
      match_from-AreDistinct m (append_new (match_tag m name) ids) names
        (append_new-AreDistinct (match_tag m name) ids d)

  has_id-match_from :
      (m : TagMatcher) (id : ℕ) (ids : List ℕ) (names : List Text)
      → has_id id (match_from m ids names) ≡ (has_id id ids || is_match m id names)
  unfolding match_from is_match
  has_id-match_from m id ids [] = ground arith
  has_id-match_from m id ids (name ∷ names) = ground (
    arith,
    has_id-match_from m id (append_new (match_tag m name) ids) names,
    has_id-append_new id (match_tag m name) ids,
  )

  -- `MatchAll` gives each number once, and exactly the numbers that a name is matched to.
  pub match_all_lem :
      (m : TagMatcher) (id : ℕ) (names : List Text)
      → AreDistinct (match_all m names) × (has_id id (match_all m names) ≡ is_match m id names)
  unfolding match_all has_id
  match_all_lem m id names = (match_from-AreDistinct m [] names tt, has_id-match_from m id [] names)
