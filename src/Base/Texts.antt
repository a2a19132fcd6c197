-- ===== src/Base/Texts.antt =====
-- Texts as lists of code points: Go strings that are valid UTF-8. The order of UTF-8 bytes is the
-- order of the code points, so `<` on strings is `text_lt` here.
use Prim.Native.Nat.{ℕ, compare, Ordering}
use Prim.Native.Char.{code}
use Prim.Native.String.{String}
use mathlib.Core.Path.{◌≡◌, refl}
use mathlib.Core.Logic.{◌↔◌, ◌⊎◌, inl, inr}
use mathlib.Core.Bool.{Bool, true, false, ◌&&◌}
use mathlib.Core.List.{List, [], ◌∷◌}
use native.Mathlib.Omega.{arith}
use my_tech_pulse.Base.Tests.{◌==◌}

abbrev pub Text : Type 0
Text = List ℕ

abbrev pub codes : String → Text
codes String.[] = []
codes (String.◌∷◌ c s) = code c ∷ codes s

unfoldable pub text_eq : Text → Text → Bool
text_eq [] [] = true
text_eq (a ∷ s) (b ∷ t) = (a == b) && text_eq s t
text_eq _ _ = false

pub text_eq_refl : (s : Text) → text_eq s s ≡ true
unfolding text_eq
text_eq_refl [] = refl
text_eq_refl (a ∷ s) = ground (arith, text_eq_refl s)

text_eq_sound : (s t : Text) → text_eq s t ≡ true → s ≡ t
unfolding text_eq
text_eq_sound [] [] h = refl
text_eq_sound [] (b ∷ t) h = cc
text_eq_sound (a ∷ s) [] h = cc
text_eq_sound (a ∷ s) (b ∷ t) h = ground (arith, text_eq_sound s t)

text_eq_complete : (s t : Text) → s ≡ t → text_eq s t ≡ true
text_eq_complete s t e = rw e (text_eq_refl t)

pub text_eq_iff : (s t : Text) → (text_eq s t ≡ true) ↔ (s ≡ t)
text_eq_iff s t = (text_eq_sound s t, text_eq_complete s t)

unfoldable pub text_lt : Text → Text → Bool
text_lt [] [] = false
text_lt [] (b ∷ t) = true
text_lt (a ∷ s) [] = false
text_lt (a ∷ s) (b ∷ t) = elim (compare a b) [
  | Ordering.lt ↦ true
  | Ordering.eq ↦ text_lt s t
  | Ordering.gt ↦ false
]

pub text_lt_asym : (s t : Text) → text_lt s t ≡ true → text_lt t s ≡ false
unfolding text_lt
text_lt_asym [] [] e = refl
text_lt_asym [] (b ∷ t) e = refl
text_lt_asym (a ∷ s) [] e = cc
text_lt_asym (a ∷ s) (b ∷ t) e = ground (arith, text_lt_asym s t)

-- Of two texts one comes first, or they are equal.
pub text_lt_total : (s t : Text) → text_lt t s ≡ false → (text_lt s t ≡ true) ⊎ (s ≡ t)
unfolding text_lt
text_lt_total [] [] e = inr refl
text_lt_total [] (b ∷ t) e = inl refl
text_lt_total (a ∷ s) [] e = absurd cc
text_lt_total (a ∷ s) (b ∷ t) e = ground (arith, e, text_lt_total s t)
