-- ===== src/TextCheck/Runs.antt =====
-- Where in a tag a character may stand.
use my_tech_pulse.Base.{
  ℕ, ◌≤◌, ◌≡◌, refl, true, false, ◌&&◌, ◌||◌, not, [], ◌∷◌, ◌++◌, ◌==◌, Text, length, arith,
  text_eq_iff,
}
use my_tech_pulse.Unicode.{trim_space}
use my_tech_pulse.TextCheck.{
  Characters, hidden, is_tag_char, accepts, accepts_from, valid_tag, max_tag_chars,
}

-- The character before the rest of a text: the last one of the part in front, or `prev`.
unfoldable pub last_of : ℕ → Text → ℕ
last_of prev [] = prev
last_of prev (c ∷ s) = last_of c s

module _ ⦃t : Characters⦄ where
  accepts_from-append :
      (prev : ℕ) (s r : Text)
      → accepts_from prev (s ++ r) ≡ (accepts_from prev s && accepts_from (last_of prev s) r)
  unfolding accepts_from last_of
  accepts_from-append prev [] r = refl
  accepts_from-append prev (c ∷ s) r = ground (arith, accepts_from-append c s r)

  -- A tag that is accepted has 1 to 50 characters, is its own trimmed form, and wherever it is cut in
  -- two before a character c, that character is not hidden, is a space, a letter, a number, a symbol or
  -- a mark, is no space after a space, and no mark after a space.
  pub valid_tag-cut :
      (s r : Text) (c : ℕ)
      → valid_tag (s ++ c ∷ r) ≡ true
      → (1 ≤ length (s ++ c ∷ r))
        × (length (s ++ c ∷ r) ≤ max_tag_chars)
        × (s ++ c ∷ r ≡ trim_space (s ++ c ∷ r))
        × (hidden c ≡ false)
        × (((c == 32) || is_tag_char c || t.is_mark c) ≡ true)
        × (((c == 32) && (last_of 0 s == 32)) ≡ false)
        × ((not (c == 32) && not (is_tag_char c) && (last_of 0 s == 32)) ≡ false)
  unfolding valid_tag accepts_from accepts
  valid_tag-cut s r c e =
      let split = accepts_from-append 0 s (c ∷ r) in
      let same = text_eq_iff (s ++ c ∷ r) (trim_space (s ++ c ∷ r)) in
      (
        ground (arith, e),
        ground (arith, e),
        ground (arith, e, same),
        ground (arith, e, split),
        ground (arith, e, split),
        ground (arith, e, split),
        ground (arith, e, split),
      )
