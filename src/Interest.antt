-- ===== src/Interest.antt =====
-- server/internal/interest: the weights of a user's tags. A weight is an int64: the values here are
-- integers, and the sum in `clamp(value + boost)` wraps around as the code's does. What `clamp` gives is
-- never negative and stands as a natural number. A Go map that is only a set is the list of its keys;
-- its order stands for the order in which `range` happens to visit them.
pub mod Keys
pub mod Boosts
pub mod Updates
pub mod Learning
pub mod Bounds
pub mod Top
mod Tests
use my_tech_pulse.Base.{
  ℕ, zero, suc, ◌+◌, ◌-◌, ◌*◌, ◌/◌, ◌^◌, ◌≡◌, Bool, true, false, ◌&&◌, ◌||◌, not, Option, none,
  some, [], ◌∷◌, ◌++◌, List, map, ltb, leb, ◌==◌, if◌then◌else◌, Text, text_eq, text_lt, Assoc,
  lookup, insert, take,
}
use my_tech_pulse.Unicode.{Unicode, fold}
pub use my_tech_pulse.Base.{ℤ, pos, negsuc}

abbrev pub scale : ℕ
scale = 10_000

abbrev pub decay_numerator : ℕ
decay_numerator = 8

abbrev pub decay_denominator : ℕ
decay_denominator = 10

abbrev pub click_boost : ℕ
click_boost = 2_000

abbrev pub save_boost : ℕ
save_boost = 3_000

pub record Weight : Type 0 where
  -- 0 for a tag that has no row yet.
  pub tag_id : ℕ
  pub tag : Text
  pub value : ℤ

unfoldable pub clamp : ℤ → ℕ
clamp (negsuc n) = 0
clamp (pos n) = if ltb scale n then scale else n

-- `value + boost` in an int64.
unfoldable pub add_int64 : ℤ → ℕ → ℤ
add_int64 (pos n) k = if ltb (n + k) (2 ^ 63) then pos (n + k) else negsuc (2 ^ 64 - 1 - (n + k))
add_int64 (negsuc n) k = if leb k n then negsuc (n - k) else pos (k - n - 1)

unfoldable pub decay : Weight → Weight
decay w = record w { value = pos (clamp w.value * decay_numerator / decay_denominator) }

unfoldable pub boosted : ℕ → Weight → Weight
boosted boost w = record w { value = pos (clamp (add_int64 w.value boost)) }

unfoldable pub is_empty : Text → Bool
is_empty [] = true
is_empty (c ∷ s) = false

-- Whether the set has the key.
unfoldable pub has : Text → List Text → Bool
has k [] = false
has k (j ∷ keys) = text_eq j k || has k keys

unfoldable pub update_at : ℕ → (Weight → Weight) → List Weight → List Weight
update_at i f [] = []
update_at zero f (w ∷ ws) = f w ∷ ws
update_at (suc i) f (w ∷ ws) = w ∷ update_at i f ws

-- The loop over the set: boosts the rows that there are, and collects the other keys.
unfoldable pub boost_keys : ℕ → Assoc ℕ → List Text → List Weight → List Weight × List Text
boost_keys boost by_tag [] out = (out, [])
boost_keys boost by_tag (k ∷ keys) out = elim (lookup k by_tag) [
  | some i ↦ boost_keys boost by_tag keys (update_at i (boosted boost) out)
  | none ↦ let r = boost_keys boost by_tag keys out in (r.0, k ∷ r.1)
]

-- `sort.Strings`, by insertion.
unfoldable pub insert_sorted : Text → List Text → List Text
insert_sorted k [] = k ∷ []
insert_sorted k (j ∷ keys) = if text_lt j k then j ∷ insert_sorted k keys else k ∷ j ∷ keys

unfoldable pub sort_texts : List Text → List Text
unfolding insert_sorted
sort_texts [] = []
sort_texts (k ∷ keys) = insert_sorted k (sort_texts keys)

unfoldable pub new_weight : ℕ → Text → Weight
new_weight boost tag = record { tag_id = 0; tag = tag; value = pos boost }

module _ ⦃u : Unicode⦄ where
  unfoldable pub normalize_tag : Text → Text
  normalize_tag tag = fold tag

  -- `ValidateCurrent`: whether two rows have the same key.
  unfoldable pub collides : List Text → List Weight → Bool
  collides seen [] = false
  collides seen (w ∷ ws) =
      let rest = collides seen ws in
      let more = collides (normalize_tag w.tag ∷ seen) ws in
      if is_empty (normalize_tag w.tag) then rest else has (normalize_tag w.tag) seen || more

  unfoldable pub validate_current : List Weight → Bool
  validate_current current = not (collides [] current)

  -- `byTag`.
  unfoldable pub tag_index : ℕ → List Weight → Assoc ℕ → Assoc ℕ
  tag_index i [] m = m
  tag_index i (w ∷ ws) m =
      tag_index (i + 1) ws
        (if is_empty (normalize_tag w.tag) then m else insert (normalize_tag w.tag) i m)

  -- `clickedSet` and `savedSet`.
  unfoldable pub key_set : List Text → List Text
  key_set [] = []
  key_set (raw ∷ raws) =
      let keys = key_set raws in
      if is_empty (normalize_tag raw) || has (normalize_tag raw) keys
      then keys
      else normalize_tag raw ∷ keys

  -- What both updates do with the rows: the boosts, then the new tags in order.
  unfoldable pub apply_boosts : ℕ → List Weight → List Text → List Weight → List Weight
  apply_boosts boost current raws out =
      let r = boost_keys boost (tag_index 0 current []) (key_set raws) out in
      r.0 ++ map (new_weight boost) (sort_texts r.1)

  -- `UpdateOnClick`: none is the error.
  unfoldable pub update_on_click : List Weight → List Text → Option (List Weight)
  update_on_click current clicked =
      if not (validate_current current)
      then none
      else some (apply_boosts click_boost current clicked (map decay current))

  unfoldable pub update_on_save : List Weight → List Text → Option (List Weight)
  update_on_save current saved =
      if not (validate_current current)
      then none
      else some (apply_boosts save_boost current saved current)
