-- ===== src/Recommendation/Feed/Ranked.antt =====
-- What the lists of a feed keep of the articles that go into them.
use my_tech_pulse.Base.{
  ℕ, zero, suc, ◌≤◌, ◌≡◌, refl, sym, ap, ◌∙◌, subst, false, [], ◌∷◌, ◌++◌, List, map, Text,
  text_eq_iff, length, length-take, take, take-All, append-All, sort_by, insert_by, sort_by-All,
  All, Assoc, lookup, insert, arith, Bool-cases, Option-cases, inl, inr, ℤ,
}
use my_tech_pulse.Unicode.{Unicode}
use my_tech_pulse.Article.{Article}
use my_tech_pulse.Interest.{Weight}
use my_tech_pulse.Recommendation.{
  ScoredArticle, scored_before, scored, score_articles, rank_limit, dedupe, dedupe_from, add_tags,
  edit_at, weight_map,
}
use my_tech_pulse.Recommendation.Dedupe.{
  has_url, HasDistinctUrls, dedupe-HasDistinctUrls, has_url-append,
}

abbrev articles_of : List ScoredArticle → List Article
articles_of xs = map (λ s. s.article) xs

has_url-insert_by :
    (url : Text) (x : ScoredArticle) (xs : List ScoredArticle)
    → has_url url (articles_of (insert_by scored_before x xs)) ≡ has_url url (articles_of (x ∷ xs))
unfolding has_url insert_by
has_url-insert_by url x [] = refl
has_url-insert_by url x (y ∷ ys) = ground (arith, has_url-insert_by url x ys)

insert_by-HasDistinctUrls :
    (x : ScoredArticle) (xs : List ScoredArticle)
    → has_url x.article.url (articles_of xs) ≡ false
    → HasDistinctUrls (articles_of xs)
    → HasDistinctUrls (articles_of (insert_by scored_before x xs))
unfolding insert_by has_url
insert_by-HasDistinctUrls x [] f d = (refl, tt)
insert_by-HasDistinctUrls x (y ∷ ys) f d = elim (Bool-cases (scored_before y x)) [
  | inr last ↦ rw last (f, d)
  | inl first ↦ rw first (
    has_url-insert_by y.article.url x ys
        ∙ ground (
          arith,
          f,
          d.0,
          text_eq_iff x.article.url y.article.url,
          text_eq_iff y.article.url x.article.url,
        ),
    insert_by-HasDistinctUrls x ys (ground (arith, f)) d.1,
  )
]

has_url-sort_by :
    (url : Text) (xs : List ScoredArticle)
    → has_url url (articles_of (sort_by scored_before xs)) ≡ has_url url (articles_of xs)
unfolding sort_by has_url
has_url-sort_by url [] = refl
has_url-sort_by url (x ∷ xs) =
    has_url-insert_by url x (sort_by scored_before xs) ∙ ground (arith, has_url-sort_by url xs)

sort_by-HasDistinctUrls :
    (xs : List ScoredArticle)
    → HasDistinctUrls (articles_of xs)
    → HasDistinctUrls (articles_of (sort_by scored_before xs))
unfolding sort_by
sort_by-HasDistinctUrls [] d = tt
sort_by-HasDistinctUrls (x ∷ xs) d =
    insert_by-HasDistinctUrls x (sort_by scored_before xs) (has_url-sort_by x.article.url xs ∙ d.0)
      (sort_by-HasDistinctUrls xs d.1)

has_url-take :
    (url : Text) (n : ℕ) (xs : List ScoredArticle)
    → has_url url (articles_of xs) ≡ false
    → has_url url (articles_of (take n xs)) ≡ false
unfolding has_url
has_url-take url zero xs f = refl
has_url-take url (suc n) [] f = refl
has_url-take url (suc n) (x ∷ xs) f = ground (arith, has_url-take url n xs)

take-HasDistinctUrls :
    (n : ℕ) (xs : List ScoredArticle)
    → HasDistinctUrls (articles_of xs)
    → HasDistinctUrls (articles_of (take n xs))
take-HasDistinctUrls zero xs d = tt
take-HasDistinctUrls (suc n) [] d = tt
take-HasDistinctUrls (suc n) (x ∷ xs) d =
    (has_url-take x.article.url n xs d.0, take-HasDistinctUrls n xs d.1)

length-articles_of : (xs : List ScoredArticle) → length (articles_of xs) ≡ length xs
length-articles_of [] = refl
length-articles_of (x ∷ xs) = ap suc (length-articles_of xs)

articles_of-All :
    (P : Article → Type 0) (xs : List ScoredArticle)
    → All (λ s. P s.article) xs
    → All P (articles_of xs)
articles_of-All P [] a = tt
articles_of-All P (x ∷ xs) a = (a.0, articles_of-All P xs a.1)

clear_of :
    (x : Article) (xs ys : List Article)
    → All (λ a. has_url a.url (x ∷ xs) ≡ false) ys
    → has_url x.url ys ≡ false
unfolding has_url
clear_of x xs [] n = refl
clear_of x xs (y ∷ ys) n =
    ground (arith, n.0, clear_of x xs ys n.1, text_eq_iff x.url y.url, text_eq_iff y.url x.url)

clear_rest :
    (x : Article) (xs ys : List Article)
    → All (λ a. has_url a.url (x ∷ xs) ≡ false) ys
    → All (λ a. has_url a.url xs ≡ false) ys
unfolding has_url
clear_rest x xs [] n = tt
clear_rest x xs (y ∷ ys) n = (ground (arith, n.0), clear_rest x xs ys n.1)

pub append-HasDistinctUrls :
    (xs ys : List Article)
    → HasDistinctUrls xs
    → HasDistinctUrls ys
    → All (λ a. has_url a.url xs ≡ false) ys
    → HasDistinctUrls (xs ++ ys)
unfolding has_url
append-HasDistinctUrls [] ys d e n = e
append-HasDistinctUrls (x ∷ xs) ys d e n = (
  has_url-append x.url xs ys ∙ ground (arith, d.0, clear_of x xs ys n),
  append-HasDistinctUrls xs ys d.1 e (clear_rest x xs ys n),
)

-- Articles with addresses that are not among the chosen ones.
abbrev pub AreNew : List Article → List Article → Type 0
AreNew ranked items = All (λ a. has_url a.url ranked ≡ false) items

-- The list of one provider: ten articles at most, with different addresses, all of them as P says.
abbrev pub IsList : (Article → Type 0) → List Article → Type 0
IsList P xs = (length xs ≤ 10) × HasDistinctUrls xs × All P xs

module _ ⦃u : Unicode⦄ where
  -- What an article keeps when tags are merged into its own.
  abbrev pub KeepsUnderTags : (Article → Type 0) → Type 0
  KeepsUnderTags P = (a : Article) (tags : List Text) → P a → P (add_tags tags a)

  articles_of-scored :
      (m : Assoc ℤ) (items : List Article) → articles_of (map (scored m) items) ≡ items
  unfolding scored
  articles_of-scored m [] = refl
  articles_of-scored m (a ∷ items) = ap (λ xs. a ∷ xs) (articles_of-scored m items)

  pub length-rank_limit-le :
      (weights : List Weight) (items : List Article) (n : ℕ)
      → length (rank_limit weights items n) ≤ n
  unfolding rank_limit
  length-rank_limit-le weights items n =
      let xs = score_articles weights items in
      omega (arith, length-articles_of (take n xs), length-take n xs)

  pub rank_limit-HasDistinctUrls :
      (weights : List Weight) (items : List Article) (n : ℕ)
      → HasDistinctUrls items
      → HasDistinctUrls (rank_limit weights items n)
  unfolding rank_limit score_articles
  rank_limit-HasDistinctUrls weights items n d =
      let m = weight_map weights [] in
      take-HasDistinctUrls n (sort_by scored_before (map (scored m) items)) (
        sort_by-HasDistinctUrls (map (scored m) items)
          (subst HasDistinctUrls (sym (articles_of-scored m items)) d))

  scored-All :
      (P : Article → Type 0) (m : Assoc ℤ) (items : List Article)
      → All P items
      → All (λ s. P s.article) (map (scored m) items)
  unfolding scored
  scored-All P m [] a = tt
  scored-All P m (x ∷ items) a = (a.0, scored-All P m items a.1)

  pub rank_limit-All :
      (P : Article → Type 0) (weights : List Weight) (items : List Article) (n : ℕ)
      → All P items
      → All P (rank_limit weights items n)
  unfolding rank_limit score_articles
  rank_limit-All P weights items n a =
      let m = weight_map weights [] in
      articles_of-All P (take n (sort_by scored_before (map (scored m) items))) (
        take-All (λ s. P s.article) n (sort_by scored_before (map (scored m) items))
          (sort_by-All scored_before (λ s. P s.article) (map (scored m) items)
            (scored-All P m items a)))

  edit_at-All :
      (P : Article → Type 0) (i : ℕ) (tags : List Text) (out : List Article)
      → KeepsUnderTags P
      → All P out
      → All P (edit_at i (add_tags tags) out)
  unfolding edit_at add_tags
  edit_at-All P i tags [] g a = tt
  edit_at-All P zero tags (x ∷ out) g a = (g x tags a.0, a.1)
  edit_at-All P (suc i) tags (x ∷ out) g a = (a.0, edit_at-All P i tags out g a.1)

  dedupe_from-All :
      (P : Article → Type 0) (by_url : Assoc ℕ) (out items : List Article)
      → KeepsUnderTags P
      → All P out
      → All P items
      → All P (dedupe_from by_url out items)
  unfolding dedupe_from add_tags
  dedupe_from-All P by_url out [] g a b = a
  dedupe_from-All P by_url out (item ∷ items) g a b = elim (Option-cases (lookup item.url by_url)) [
    | inr (i, found) ↦
        rw (found, dedupe_from)
          (dedupe_from-All P by_url (edit_at i (add_tags item.tags) out) items g
            (edit_at-All P i item.tags out g a) b.1)
    | inl missing ↦
        rw (missing, dedupe_from)
          (dedupe_from-All P (insert item.url (length out) by_url) (out ++ (add_tags [] item ∷ []))
            items g (append-All P out (add_tags [] item ∷ []) a (g item [] b.0, tt)) b.1)
  ]

  pub dedupe-All :
      (P : Article → Type 0) (items : List Article)
      → KeepsUnderTags P
      → All P items
      → All P (dedupe items)
  unfolding dedupe
  dedupe-All P items g a = dedupe_from-All P [] [] items g tt a

  pub ranked-IsList :
      (P : Article → Type 0) (weights : List Weight) (items : List Article)
      → KeepsUnderTags P
      → All P items
      → IsList P (rank_limit weights (dedupe items) 10)
  ranked-IsList P weights items g a = (
    length-rank_limit-le weights (dedupe items) 10,
    rank_limit-HasDistinctUrls weights (dedupe items) 10 (dedupe-HasDistinctUrls items),
    rank_limit-All P weights (dedupe items) 10 (dedupe-All P items g a),
  )
