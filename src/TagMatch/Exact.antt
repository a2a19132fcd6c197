-- ===== src/TagMatch/Exact.antt =====
-- The name that is in the table, up to case and the white space around it.
use my_tech_pulse.Base.{
  ℕ, ◌≤◌, ◌≡◌, refl, sym, ap, ◌∙◌, Bool, true, false, Option, none, some, [], ◌∷◌, List, ltb,
  if◌then◌else◌, Text, text_eq, text_eq_iff, Assoc, lookup, lookup-insert, sort_by, insert_by, All,
  arith, Bool-cases, Option-cases, inl, inr, min,
}
use my_tech_pulse.Unicode.{Unicode}
use my_tech_pulse.Interest.{is_empty, normalize_tag}
use my_tech_pulse.TagMatch.{
  TagRef, TagMatcher, comes_first, put_exact, put_compact, compact_key, add_refs, new_tag_matcher,
  match_tag,
}

-- The lesser number, if there is one.
unfoldable pub least : Option ℕ → Option ℕ → Option ℕ
least none b = b
least (some x) none = some x
least (some x) (some y) = some (min x y)

-- The one in front, if there is one.
unfoldable first_of : Option ℕ → Option ℕ → Option ℕ
first_of none b = b
first_of (some x) b = some x

least-swap : (a b c : Option ℕ) → least a (least b c) ≡ least b (least a c)
unfolding least
least-swap none b c = refl
least-swap (some x) none c = refl
least-swap (some x) (some y) none = ground arith
least-swap (some x) (some y) (some z) = ground arith

abbrev AreSorted : List TagRef → Type 0
AreSorted [] = Unit {0}
AreSorted (t ∷ tags) = All (λ (s : TagRef). t.id ≤ s.id) tags × AreSorted tags

insert_by-All :
    (n : ℕ) (t : TagRef) (tags : List TagRef)
    → n ≤ t.id
    → All (λ (s : TagRef). n ≤ s.id) tags
    → All (λ (s : TagRef). n ≤ s.id) (insert_by comes_first t tags)
unfolding insert_by
insert_by-All n t [] h a = (h, tt)
insert_by-All n t (s ∷ tags) h a = elim (Bool-cases (comes_first s t)) [
  | inl first ↦ rw first (a.0, insert_by-All n t tags h a.1)
  | inr later ↦ rw later (h, a)
]

All-le :
    (m n : ℕ) (tags : List TagRef)
    → m ≤ n
    → All (λ (s : TagRef). n ≤ s.id) tags
    → All (λ (s : TagRef). m ≤ s.id) tags
All-le m n [] h a = tt
All-le m n (s ∷ tags) h a = (omega (arith, h, a.0), All-le m n tags h a.1)

insert_by-AreSorted :
    (t : TagRef) (tags : List TagRef) → AreSorted tags → AreSorted (insert_by comes_first t tags)
unfolding insert_by comes_first
insert_by-AreSorted t [] v = (tt, tt)
insert_by-AreSorted t (s ∷ tags) v = elim (Bool-cases (ltb s.id t.id)) [
  | inl first ↦
      rw first
        (insert_by-All s.id t tags (ground (arith, first)) v.0, insert_by-AreSorted t tags v.1)
  | inr later ↦
      let le : t.id ≤ s.id = ground (arith, later) in
      rw later ((le, All-le t.id s.id tags le v.0), v)
]

sort_by-AreSorted : (tags : List TagRef) → AreSorted (sort_by comes_first tags)
unfolding sort_by
sort_by-AreSorted [] = tt
sort_by-AreSorted (t ∷ tags) =
    insert_by-AreSorted t (sort_by comes_first tags) (sort_by-AreSorted tags)

put_exact-lookup :
    (k key : Text) (id : ℕ) (m : Assoc ℕ)
    → lookup k (put_exact key id m)
      ≡ first_of (lookup k m) (if text_eq key k then some id else none)
unfolding put_exact first_of
put_exact-lookup k key id m = elim (Option-cases (lookup key m)) [
  | inl new ↦ ground (arith, new, lookup-insert k key id m, text_eq_iff key k)
  | inr (old, there) ↦ ground (arith, there, text_eq_iff key k)
]

true-ne-false : ¬ (true ≡ false)
true-ne-false e = cc

module _ ⦃u : Unicode⦄ where
  -- The number of the tag, if its name has the key.
  unfoldable pub id_for : Text → TagRef → Option ℕ
  id_for k t = if text_eq (normalize_tag t.name) k then some t.id else none

  -- The least number of the tags whose name has the key.
  unfoldable pub least_id : Text → List TagRef → Option ℕ
  unfolding id_for least
  least_id k [] = none
  least_id k (t ∷ tags) = least (id_for k t) (least_id k tags)

  least_id-insert_by :
      (k : Text) (t : TagRef) (tags : List TagRef)
      → least_id k (insert_by comes_first t tags) ≡ least_id k (t ∷ tags)
  unfolding least_id insert_by
  least_id-insert_by k t [] = refl
  least_id-insert_by k t (s ∷ tags) = elim (Bool-cases (comes_first s t)) [
    | inl first ↦
        rw (first, least_id-insert_by k t tags)
          (least-swap (id_for k s) (id_for k t) (least_id k tags))
    | inr later ↦ rw later refl
  ]

  least_id-sort_by :
      (k : Text) (tags : List TagRef) → least_id k (sort_by comes_first tags) ≡ least_id k tags
  unfolding least_id sort_by
  least_id-sort_by k [] = refl
  least_id-sort_by k (t ∷ tags) =
      least_id-insert_by k t (sort_by comes_first tags)
      ∙ ap (least (id_for k t)) (least_id-sort_by k tags)

  least_id-All :
      (k : Text) (n : ℕ) (tags : List TagRef)
      → All (λ (s : TagRef). n ≤ s.id) tags
      → least (some n) (least_id k tags) ≡ some n
  unfolding least_id least id_for
  least_id-All k n [] a = refl
  least_id-All k n (t ∷ tags) a = ground (arith, a.0, least_id-All k n tags a.1)

  id_for-blank :
      (k : Text) (t : TagRef)
      → is_empty k ≡ false
      → is_empty (normalize_tag t.name) ≡ true
      → id_for k t ≡ none
  unfolding id_for
  id_for-blank k t n blank = ground (
    arith,
    n,
    text_eq_iff (normalize_tag t.name) k,
    λ (e : normalize_tag t.name ≡ k). true-ne-false (sym blank ∙ ap is_empty e ∙ n),
  )

  first_of-none : (o : Option ℕ) → first_of o none ≡ o
  unfolding first_of
  first_of-none none = refl
  first_of-none (some x) = refl

  first_or_least :
      (old : Option ℕ) (same : Bool) (id : ℕ) (rest : Option ℕ)
      → least (some id) rest ≡ some id
      → first_of (first_of old (if same then some id else none)) rest
        ≡ first_of old (least (if same then some id else none) rest)
  unfolding least first_of
  first_or_least (some x) same id rest e = refl
  first_or_least none true id rest e = sym e
  first_or_least none false id rest e = refl

  add_refs-exact :
      (k : Text) (tags : List TagRef) (m : TagMatcher)
      → is_empty k ≡ false
      → AreSorted tags
      → lookup k (add_refs tags m).exact ≡ first_of (lookup k m.exact) (least_id k tags)
  unfolding add_refs least_id id_for
  add_refs-exact k [] m n v = sym (first_of-none (lookup k m.exact))
  add_refs-exact k (t ∷ tags) m n v = elim (Bool-cases (is_empty (normalize_tag t.name))) [
    | inl blank ↦
        rw (blank, add_refs)
          (add_refs-exact k tags m n v.1
            ∙ ap (first_of (lookup k m.exact))
                (sym (ap (λ o. least o (least_id k tags)) (id_for-blank k t n blank))))
    | inr key ↦
        rw (key, add_refs)
          (add_refs-exact k tags
              (record {
                exact = put_exact (normalize_tag t.name) t.id m.exact;
                compact = put_compact (compact_key (normalize_tag t.name)) t.id m.compact;
              })
              n v.1
            ∙ rw (put_exact-lookup k (normalize_tag t.name) t.id m.exact) (
                first_or_least (lookup k m.exact) (text_eq (normalize_tag t.name) k) t.id
                  (least_id k tags) (least_id-All k t.id tags v.0)))
  ]

  -- A name that is that of a tag, up to case and the white space around it, is matched to the tag, and to
  -- the one with the least number where several tags have that name, whatever the order of the table.
  pub match_tag-least :
      (tags : List TagRef) (name : Text) (id : ℕ)
      → is_empty (normalize_tag name) ≡ false
      → least_id (normalize_tag name) tags ≡ some id
      → match_tag (new_tag_matcher tags) name ≡ some id
  unfolding match_tag new_tag_matcher lookup first_of
  match_tag-least tags name id n there =
      let k = normalize_tag name in
      let exact : lookup k (new_tag_matcher tags).exact ≡ some id =
        add_refs-exact k (sort_by comes_first tags) (record { exact = []; compact = [] }) n
          (sort_by-AreSorted tags)
        ∙ least_id-sort_by k tags
        ∙ there in
      rw (n, exact) refl
