-- ===== src/Recommendation/Feed/Live/Warnings.antt =====
-- Which providers a live feed warns of.
use my_tech_pulse.Base.{
  ◌≡◌, refl, sym, ap, Bool, true, false, ◌&&◌, ◌||◌, Option, none, some, [], ◌∷◌, ◌++◌, List,
  if◌then◌else◌, Time, arith, Bool-cases, inl, inr,
}
use my_tech_pulse.Unicode.{Unicode}
use my_tech_pulse.Article.{Article, Urls, validate}
use my_tech_pulse.Interest.{Weight}
use my_tech_pulse.Recommendation.Feed.{Provider, qiita, zenn, Feed, shown, all_providers_failed}
use my_tech_pulse.Recommendation.Feed.Live.{
  Request, SearchResult, Flags, Collected, nothing_collected, set_flags, place, collect_item,
  collect_items, collect_reply, collect, warnings_of, all_failed, get_live, reply_failed,
  reply_came, item_failed,
}

unfoldable pub is_for : Provider → Request → Bool
is_for qiita r = elim r.provider [ qiita ↦ true | zenn ↦ false ]
is_for zenn r = elim r.provider [ qiita ↦ false | zenn ↦ true ]

unfoldable flags_of : Provider → Collected → Flags
flags_of qiita c = c.qiita_flags
flags_of zenn c = c.zenn_flags

all_failed-ne-shown : (f : Feed) → ¬ (all_providers_failed ≡ shown f)
all_failed-ne-shown f e = cc

shown-inj : {f g : Feed} → shown f ≡ shown g → f ≡ g
shown-inj e = cc

module _ ⦃u : Unicode⦄ ⦃w : Urls⦄ where
  -- Whether an article of the reply does not pass the check.
  unfoldable pub has_invalid : List Article → Bool
  has_invalid [] = false
  has_invalid (a ∷ items) = elim (validate a) [ none ↦ true | some b ↦ has_invalid items ]

  unfoldable pub is_bad : Option (List Article) → Bool
  unfolding has_invalid
  is_bad none = true
  is_bad (some items) = has_invalid items

  -- Whether a reply of the provider is an error or holds an article that does not pass the check.
  unfoldable pub has_bad_reply : Provider → List SearchResult → Bool
  unfolding is_bad is_for
  has_bad_reply p [] = false
  has_bad_reply p (b ∷ replies) = (is_for p b.request && is_bad b.items) || has_bad_reply p replies

  set_flags-failed :
      (p : Provider) (r : Request) (g : Flags → Flags) (c : Collected)
      → flags_of p (set_flags r.provider g c)
        ≡ (if is_for p r then g (flags_of p c) else flags_of p c)
  unfolding set_flags flags_of is_for
  set_flags-failed p r g c = ground arith

  place-flags :
      (p : Provider) (now : Time) (r : Request) (a : Article) (c : Collected)
      → flags_of p (place now r a c) ≡ flags_of p c
  unfolding place flags_of
  place-flags p now r a c = ground arith

  collect_item-failed :
      (p : Provider) (now : Time) (r : Request) (o : Option Article) (c : Collected)
      → (flags_of p (collect_item now r o c)).has_failed
        ≡ ((is_for p r && elim o [ none ↦ true | some b ↦ false ]) || (flags_of p c).has_failed)
  unfolding collect_item
  collect_item-failed p now r none c = ground (arith, set_flags-failed p r item_failed c)
  collect_item-failed p now r (some a) c = ground (arith, place-flags p now r a c)

  collect_items-failed :
      (p : Provider) (now : Time) (r : Request) (items : List Article) (c : Collected)
      → (flags_of p (collect_items now r items c)).has_failed
        ≡ ((is_for p r && has_invalid items) || (flags_of p c).has_failed)
  unfolding collect_items has_invalid
  collect_items-failed p now r [] c = ground arith
  collect_items-failed p now r (a ∷ items) c =
      let ih = collect_items-failed p now r items (collect_item now r (validate a) c) in
      let head = collect_item-failed p now r (validate a) c in ground (arith, ih, head)

  collect_reply-failed :
      (p : Provider) (now : Time) (r : Request) (o : Option (List Article)) (c : Collected)
      → (flags_of p (collect_reply now r o c)).has_failed
        ≡ ((is_for p r && is_bad o) || (flags_of p c).has_failed)
  unfolding collect_reply is_bad
  collect_reply-failed p now r none c = ground (arith, set_flags-failed p r reply_failed c)
  collect_reply-failed p now r (some items) c = ground (
    arith,
    collect_items-failed p now r items (set_flags r.provider reply_came c),
    set_flags-failed p r reply_came c,
  )

  collect-failed :
      (p : Provider) (now : Time) (replies : List SearchResult) (c : Collected)
      → (flags_of p (collect now replies c)).has_failed
        ≡ (has_bad_reply p replies || (flags_of p c).has_failed)
  unfolding collect has_bad_reply
  collect-failed p now [] c = refl
  collect-failed p now (b ∷ replies) c = ground (
    arith,
    collect-failed p now replies (collect_reply now b.request b.items c),
    collect_reply-failed p now b.request b.items c,
  )

  -- A feed made from replies warns of qiita if some reply of qiita is an error or holds an article that does not
  -- pass the check, then of zenn under the same condition, and of nothing else: the arrival order does not matter.
  pub get_live-warnings :
      (weights : List Weight) (now : Time) (replies : List SearchResult) (f : Feed)
      → get_live weights now replies ≡ shown f
      → f.warnings
        ≡ (if has_bad_reply qiita replies then qiita ∷ [] else [])
          ++ (if has_bad_reply zenn replies then zenn ∷ [] else [])
  unfolding get_live warnings_of flags_of
  get_live-warnings weights now replies f e =
      let q = collect-failed qiita now replies nothing_collected in
      let z = collect-failed zenn now replies nothing_collected in
      elim (Bool-cases (all_failed (collect now replies nothing_collected))) [
        | inl t ↦ absurd (all_failed-ne-shown f (rw (t, get_live) at e))
        | inr t ↦
            let same = sym (ap (λ g. g.warnings) (shown-inj (rw (t, get_live) at e))) in
            rw same (ground (arith, q, z))
      ]

  -- `Get` gives up only where the replies of both providers are bad.
  pub get_live-all_failed :
      (weights : List Weight) (now : Time) (replies : List SearchResult)
      → get_live weights now replies ≡ all_providers_failed
      → (has_bad_reply qiita replies && has_bad_reply zenn replies) ≡ true
  unfolding get_live all_failed flags_of
  get_live-all_failed weights now replies e =
      let q = collect-failed qiita now replies nothing_collected in
      let z = collect-failed zenn now replies nothing_collected in ground (arith, q, z, e)
