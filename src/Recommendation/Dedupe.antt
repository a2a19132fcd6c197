-- ===== src/Recommendation/Dedupe.antt =====
-- `dedupe` keeps one article for each address, with the tags of all that have it.
use my_tech_pulse.Base.{
  ℕ, zero, suc, ◌≡◌, ◌≢◌, refl, sym, ap, ◌∙◌, Bool, true, false, ◌&&◌, ◌||◌, Option, none, some, [],
  ◌∷◌, ◌++◌, List, length, if◌then◌else◌, Text, text_eq, text_eq_iff, Assoc, lookup, insert,
  lookup-insert, arith, Option-cases, inl, inr,
}
use my_tech_pulse.Unicode.{Unicode}
use my_tech_pulse.Article.{Article}
use my_tech_pulse.Interest.{has}
use my_tech_pulse.Recommendation.{merge_tags, add_tags, edit_at, dedupe_from, dedupe}
use my_tech_pulse.Recommendation.Merge.{keys, merge_tags_lem, has-keys-append, has_nothing}

unfoldable pub has_url : Text → List Article → Bool
has_url url [] = false
has_url url (a ∷ rest) = text_eq a.url url || has_url url rest

-- No two of the articles have one address.
abbrev pub HasDistinctUrls : List Article → Type 0
HasDistinctUrls [] = Unit {0}
HasDistinctUrls (a ∷ rest) = (has_url a.url rest ≡ false) × HasDistinctUrls rest

unfoldable after : Option ℕ → Option ℕ
after none = none
after (some i) = some (suc i)

-- The first article with the address.
unfoldable place_of : Text → List Article → Option ℕ
unfolding after
place_of url [] = none
place_of url (a ∷ rest) =
    let later = place_of url rest in if text_eq a.url url then some 0 else after later

-- All tags of the articles with the address.
unfoldable pub tags_of : Text → List Article → List Text
tags_of url [] = []
tags_of url (a ∷ rest) =
    let later = tags_of url rest in if text_eq a.url url then a.tags ++ later else later

place_of-none :
    (url : Text) (out : List Article) → place_of url out ≡ none → has_url url out ≡ false
unfolding place_of has_url
place_of-none url [] e = refl
place_of-none url (a ∷ rest) e =
    ground (arith, Option-cases (place_of url rest), place_of-none url rest)

place_of-some :
    (url : Text) (out : List Article) (i : ℕ) → place_of url out ≡ some i → has_url url out ≡ true
unfolding place_of has_url
place_of-some url [] i e = absurd (cc)
place_of-some url (a ∷ rest) zero e = ground (arith, Option-cases (place_of url rest))
place_of-some url (a ∷ rest) (suc i) e =
    ground (arith, Option-cases (place_of url rest), place_of-some url rest i)

place_of-append :
    (url : Text) (out : List Article) (a : Article)
    → place_of url (out ++ (a ∷ [])) ≡ (elim (place_of url out) [
      | some i ↦ some i
      | none ↦ (if text_eq a.url url then some (length out) else none)
    ])
unfolding place_of
place_of-append url [] a = ground arith
place_of-append url (b ∷ rest) a =
    ground (arith, Option-cases (place_of url rest), place_of-append url rest a)

pub has_url-append :
    (url : Text) (out rest : List Article)
    → has_url url (out ++ rest) ≡ (has_url url out || has_url url rest)
unfolding has_url
has_url-append url [] rest = refl
has_url-append url (a ∷ out) rest = ground (arith, has_url-append url out rest)

append-HasDistinctUrls :
    (out : List Article) (a : Article)
    → has_url a.url out ≡ false
    → HasDistinctUrls out
    → HasDistinctUrls (out ++ (a ∷ []))
unfolding has_url
append-HasDistinctUrls [] a f d = (refl, tt)
append-HasDistinctUrls (b ∷ rest) a f d = (
  has_url-append b.url rest (a ∷ [])
      ∙ ground (arith, d.0, text_eq_iff a.url b.url, text_eq_iff b.url a.url),
  append-HasDistinctUrls rest a (ground (arith, f)) d.1,
)

module _ ⦃u : Unicode⦄ where
  place_of-edit_at :
      (url : Text) (i : ℕ) (tags : List Text) (out : List Article)
      → place_of url (edit_at i (add_tags tags) out) ≡ place_of url out
  unfolding place_of edit_at add_tags
  place_of-edit_at url i tags [] = refl
  place_of-edit_at url zero tags (a ∷ rest) = refl
  place_of-edit_at url (suc i) tags (a ∷ rest) = ground (arith, place_of-edit_at url i tags rest)

  has_url-edit_at :
      (url : Text) (i : ℕ) (tags : List Text) (out : List Article)
      → has_url url (edit_at i (add_tags tags) out) ≡ has_url url out
  unfolding has_url edit_at add_tags
  has_url-edit_at url i tags [] = refl
  has_url-edit_at url zero tags (a ∷ rest) = refl
  has_url-edit_at url (suc i) tags (a ∷ rest) = ground (arith, has_url-edit_at url i tags rest)

  edit_at-HasDistinctUrls :
      (i : ℕ) (tags : List Text) (out : List Article)
      → HasDistinctUrls out
      → HasDistinctUrls (edit_at i (add_tags tags) out)
  unfolding edit_at add_tags
  edit_at-HasDistinctUrls i tags [] d = tt
  edit_at-HasDistinctUrls zero tags (a ∷ rest) d = d
  edit_at-HasDistinctUrls (suc i) tags (a ∷ rest) d =
      (has_url-edit_at a.url i tags rest ∙ d.0, edit_at-HasDistinctUrls i tags rest d.1)

  add_tags-url : (tags : List Text) (a : Article) → (add_tags tags a).url ≡ a.url
  unfolding add_tags
  add_tags-url tags a = refl

  add_tags-keys :
      (k : Text) (a : Article) → k ≢ [] → has k (keys (add_tags [] a).tags) ≡ has k (keys a.tags)
  unfolding add_tags
  add_tags-keys k a n = (merge_tags_lem k a.tags [] n).1 ∙ ground (arith, has_nothing k)

  -- The index that the loop keeps.
  abbrev Agrees : Assoc ℕ → List Article → Type 0
  Agrees by_url out = (url : Text) → lookup url by_url ≡ place_of url out

  Agrees-insert :
      (by_url : Assoc ℕ) (out : List Article) (a b : Article)
      → b.url ≡ a.url
      → place_of a.url out ≡ none
      → Agrees by_url out
      → Agrees (insert a.url (length out) by_url) (out ++ (b ∷ []))
  Agrees-insert by_url out a b same new g url =
      lookup-insert url a.url (length out) by_url
      ∙ ground (
        arith,
        g url,
        same,
        new,
        place_of-append url out b,
        Option-cases (place_of url out),
        text_eq_iff a.url url,
        text_eq_iff b.url url,
      )

  dedupe_from-HasDistinctUrls :
      (by_url : Assoc ℕ) (out items : List Article)
      → Agrees by_url out
      → HasDistinctUrls out
      → HasDistinctUrls (dedupe_from by_url out items)
  unfolding dedupe_from
  dedupe_from-HasDistinctUrls by_url out [] g d = d
  dedupe_from-HasDistinctUrls by_url out (item ∷ items) g d =
      elim (Option-cases (lookup item.url by_url)) [
        | inr (i, found) ↦
            rw (found, dedupe_from)
              (dedupe_from-HasDistinctUrls by_url (edit_at i (add_tags item.tags) out) items
                (λ url. g url ∙ sym (place_of-edit_at url i item.tags out))
                (edit_at-HasDistinctUrls i item.tags out d))
        | inl missing ↦
            let new : place_of item.url out ≡ none = sym (g item.url) ∙ missing in
            rw (missing, dedupe_from)
              (dedupe_from-HasDistinctUrls (insert item.url (length out) by_url)
                (out ++ (add_tags [] item ∷ [])) items
                (Agrees-insert by_url out item (add_tags [] item) (add_tags-url [] item) new g)
                (append-HasDistinctUrls out (add_tags [] item)
                  (ap (λ url. has_url url out) (add_tags-url [] item)
                    ∙ place_of-none item.url out new)
                  d))
      ]

  tags_of-edit_at :
      (k url w : Text) (i : ℕ) (tags : List Text) (out : List Article)
      → k ≢ []
      → place_of w out ≡ some i
      → has k (keys (tags_of url (edit_at i (add_tags tags) out)))
        ≡ (has k (keys (tags_of url out)) || (text_eq w url && has k (keys tags)))
  unfolding place_of edit_at add_tags tags_of after
  tags_of-edit_at k url w i tags [] n e = absurd (cc)
  tags_of-edit_at k url w zero tags (a ∷ rest) n e = ground (
    arith,
    text_eq_iff a.url w,
    text_eq_iff a.url url,
    text_eq_iff w url,
    Option-cases (place_of w rest),
    (merge_tags_lem k a.tags tags n).1,
    has-keys-append k (merge_tags a.tags tags) (tags_of url rest),
    has-keys-append k a.tags (tags_of url rest),
  )
  tags_of-edit_at k url w (suc i) tags (a ∷ rest) n e = ground (
    arith,
    text_eq_iff a.url w,
    text_eq_iff a.url url,
    text_eq_iff w url,
    Option-cases (place_of w rest),
    tags_of-edit_at k url w i tags rest n,
    has-keys-append k a.tags (tags_of url (edit_at i (add_tags tags) rest)),
    has-keys-append k a.tags (tags_of url rest),
  )

  tags_of-append :
      (k url : Text) (out : List Article) (a : Article)
      → has k (keys (tags_of url (out ++ (a ∷ []))))
        ≡ (has k (keys (tags_of url out)) || (text_eq a.url url && has k (keys a.tags)))
  unfolding tags_of
  tags_of-append k url [] a = ground (arith, has-keys-append k a.tags [], has_nothing k)
  tags_of-append k url (b ∷ rest) a = ground (
    arith,
    tags_of-append k url rest a,
    has-keys-append k b.tags (tags_of url (rest ++ (a ∷ []))),
    has-keys-append k b.tags (tags_of url rest),
  )

  found-Agrees :
      (by_url : Assoc ℕ) (out : List Article) (i : ℕ) (tags : List Text)
      → Agrees by_url out
      → Agrees by_url (edit_at i (add_tags tags) out)
  found-Agrees by_url out i tags g url = g url ∙ sym (place_of-edit_at url i tags out)

  missing-Agrees :
      (by_url : Assoc ℕ) (out : List Article) (item : Article)
      → lookup item.url by_url ≡ none
      → Agrees by_url out
      → Agrees (insert item.url (length out) by_url) (out ++ (add_tags [] item ∷ []))
  missing-Agrees by_url out item missing g =
      Agrees-insert by_url out item (add_tags [] item) (add_tags-url [] item)
        (sym (g item.url) ∙ missing) g

  dedupe_from-has_url :
      (url : Text) (by_url : Assoc ℕ) (out items : List Article)
      → Agrees by_url out
      → has_url url (dedupe_from by_url out items) ≡ (has_url url out || has_url url items)
  unfolding dedupe_from has_url
  dedupe_from-has_url url by_url out [] g = ground arith
  dedupe_from-has_url url by_url out (item ∷ items) g =
      elim (Option-cases (lookup item.url by_url)) [
        | inr (i, found) ↦
            rw (found, dedupe_from)
              (dedupe_from-has_url url by_url (edit_at i (add_tags item.tags) out) items
                  (found-Agrees by_url out i item.tags g)
                ∙ ground (
                  arith,
                  has_url-edit_at url i item.tags out,
                  text_eq_iff item.url url,
                  place_of-some item.url out i (sym (g item.url) ∙ found),
                ))
        | inl missing ↦
            rw (missing, dedupe_from)
              (dedupe_from-has_url url (insert item.url (length out) by_url)
                  (out ++ (add_tags [] item ∷ [])) items (missing-Agrees by_url out item missing g)
                ∙ ground
                    (arith, has_url-append url out (add_tags [] item ∷ []), add_tags-url [] item))
      ]

  dedupe_from-tags_of :
      (k url : Text) (by_url : Assoc ℕ) (out items : List Article)
      → k ≢ []
      → Agrees by_url out
      → has k (keys (tags_of url (dedupe_from by_url out items)))
        ≡ (has k (keys (tags_of url out)) || has k (keys (tags_of url items)))
  unfolding dedupe_from tags_of
  dedupe_from-tags_of k url by_url out [] n g = ground (arith, has_nothing k)
  dedupe_from-tags_of k url by_url out (item ∷ items) n g =
      elim (Option-cases (lookup item.url by_url)) [
        | inr (i, found) ↦
            rw (found, dedupe_from)
              (dedupe_from-tags_of k url by_url (edit_at i (add_tags item.tags) out) items n
                  (found-Agrees by_url out i item.tags g)
                ∙ ground (
                  arith,
                  tags_of-edit_at k url item.url i item.tags out n (sym (g item.url) ∙ found),
                  has-keys-append k item.tags (tags_of url items),
                ))
        | inl missing ↦
            rw (missing, dedupe_from)
              (dedupe_from-tags_of k url (insert item.url (length out) by_url)
                  (out ++ (add_tags [] item ∷ [])) items n
                  (missing-Agrees by_url out item missing g)
                ∙ ground (
                  arith,
                  tags_of-append k url out (add_tags [] item),
                  add_tags-url [] item,
                  add_tags-keys k item n,
                  has-keys-append k item.tags (tags_of url items),
                ))
      ]

  start-Agrees : Agrees [] []
  unfolding lookup place_of
  start-Agrees url = refl

  pub dedupe-HasDistinctUrls : (items : List Article) → HasDistinctUrls (dedupe items)
  unfolding dedupe
  dedupe-HasDistinctUrls items = dedupe_from-HasDistinctUrls [] [] items start-Agrees tt

  -- `dedupe` keeps exactly the addresses that there are, one article for each, and the article of an
  -- address has the tags, up to their spelling, of all articles that had it.
  pub dedupe_lem :
      (k url : Text) (items : List Article)
      → k ≢ []
      → HasDistinctUrls (dedupe items)
        × (has_url url (dedupe items) ≡ has_url url items)
        × (has k (keys (tags_of url (dedupe items))) ≡ has k (keys (tags_of url items)))
  unfolding dedupe has_url tags_of has
  dedupe_lem k url items n = (
    dedupe_from-HasDistinctUrls [] [] items start-Agrees tt,
    dedupe_from-has_url url [] [] items start-Agrees,
    dedupe_from-tags_of k url [] [] items n start-Agrees,
  )
