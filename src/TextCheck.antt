-- ===== src/TextCheck.antt =====
-- server/internal/platform/textcheck/textcheck.go: which tags and user names may be used. The tables of
-- the package unicode are a parameter. A Text is valid UTF-8, so the tests of `utf8.ValidString` fall away.
pub mod Runs
use my_tech_pulse.Base.{
  ℕ, Bool, true, false, ◌&&◌, ◌||◌, not, [], ◌∷◌, List, ltb, leb, ◌==◌, if◌then◌else◌, Text,
  text_eq, codes, length,
}
use my_tech_pulse.Unicode.{trim_space}

-- The tables of the package unicode that the checks read.
pub record Characters : Type 0 where
  pub is_graphic : ℕ → Bool
  pub is_ignorable : ℕ → Bool
  pub is_selector : ℕ → Bool
  pub is_letter : ℕ → Bool
  pub is_number : ℕ → Bool
  pub is_mark : ℕ → Bool

abbrev pub max_tag_chars : ℕ
max_tag_chars = 50

abbrev pub max_username_chars : ℕ
max_username_chars = 50

abbrev pub braille_blank : ℕ
braille_blank = 0x2800

-- `utf8.RuneError`.
abbrev pub rune_error : ℕ
rune_error = 0xFFFD

abbrev pub tag_symbols : Text
tag_symbols = codes ".+#-_/()（）&'・"

unfoldable pub has_code : ℕ → Text → Bool
has_code c [] = false
has_code c (d ∷ s) = (d == c) || has_code c s

module _ ⦃t : Characters⦄ where
  unfoldable pub hidden : ℕ → Bool
  hidden c =
      (c == rune_error)
      || not (t.is_graphic c)
      || (c == braille_blank)
      || t.is_ignorable c
      || t.is_selector c

  unfoldable pub has_hidden_rune : Text → Bool
  has_hidden_rune [] = false
  has_hidden_rune (c ∷ s) = hidden c || has_hidden_rune s

  unfoldable pub is_tag_char : ℕ → Bool
  unfolding has_code
  is_tag_char c = t.is_letter c || t.is_number c || has_code c tag_symbols

  -- The switch of the loop: whether the loop goes on after the character c, with `prev` before it.
  unfoldable pub accepts : ℕ → ℕ → Bool
  unfolding hidden is_tag_char
  accepts prev c =
      if hidden c
      then false
      else if c == 32
      then not (prev == 32)
      else if is_tag_char c
      then true
      else if t.is_mark c
      then not ((prev == 0) || (prev == 32))
      else false

  -- The loop of `ValidTag`.
  unfoldable pub accepts_from : ℕ → Text → Bool
  unfolding accepts
  accepts_from prev [] = true
  accepts_from prev (c ∷ s) = accepts prev c && accepts_from c s

  unfoldable pub valid_tag : Text → Bool
  unfolding accepts_from
  valid_tag tag =
      if not (text_eq tag (trim_space tag))
      then false
      else if ltb (length tag) 1 || ltb max_tag_chars (length tag)
      then false
      else accepts_from 0 tag

  unfoldable pub valid_username : Text → Bool
  unfolding has_hidden_rune
  valid_username name =
      leb 1 (length name) && leb (length name) max_username_chars && not (has_hidden_rune name)
