-- ===== src/Base/Maps.antt =====
-- Go maps with string keys, as association lists. A map that the code builds has each key once
-- (`IsMap`); the order of the entries stands for the order in which `range` happens to visit them.
use mathlib.Core.Path.{◌≡◌, refl, sym, ◌∙◌, subst}
use mathlib.Core.Logic.{inl, inr}
use mathlib.Core.Bool.{Bool}
use mathlib.Core.List.{List, [], ◌∷◌}
use mathlib.Core.Option.{Option, none, some}
use native.Mathlib.Omega.{arith}
use my_tech_pulse.Base.Tests.{if◌then◌else◌, Bool-cases}
use my_tech_pulse.Base.Texts.{Text, text_eq, text_eq_iff, text_eq_refl}

abbrev pub Assoc {ℓ} : Type ℓ → Type ℓ
Assoc V = List (Text × V)

some_inj {ℓ} : {V : Type ℓ} {v w : V} → some v ≡ some w → v ≡ w
some_inj e = cc

none-ne-some {ℓ} : {V : Type ℓ} (v : V) → ¬ (none ≡ some v)
none-ne-some v e = cc

module _ {ℓ} {V : Type ℓ} where
  unfoldable pub lookup : Text → Assoc V → Option V
  lookup k [] = none
  lookup k ((j, v) ∷ m) = if text_eq j k then some v else lookup k m

  unfoldable pub insert : Text → V → Assoc V → Assoc V
  insert k v [] = (k, v) ∷ []
  insert k v ((j, w) ∷ m) = if text_eq j k then (j, v) ∷ m else (j, w) ∷ insert k v m

  unfoldable pub remove : Text → Assoc V → Assoc V
  remove k [] = []
  remove k ((j, v) ∷ m) = let rest = remove k m in if text_eq j k then rest else (j, v) ∷ rest

  -- Keeps the entries whose value passes the test.
  unfoldable pub retain : (V → Bool) → Assoc V → Assoc V
  retain keep [] = []
  retain keep ((j, v) ∷ m) = let rest = retain keep m in if keep v then (j, v) ∷ rest else rest

  abbrev pub IsMap : Assoc V → Type ℓ
  IsMap [] = Unit
  IsMap ((j, v) ∷ m) = (lookup j m ≡ none) × IsMap m

  unfoldable pub keep_if : (V → Bool) → Option V → Option V
  keep_if keep none = none
  keep_if keep (some v) = if keep v then some v else none

  pub lookup-insert :
      (j k : Text) (v : V) (m : Assoc V)
      → lookup j (insert k v m) ≡ (if text_eq k j then some v else lookup j m)
  unfolding lookup insert
  lookup-insert j k v [] = refl
  lookup-insert j k v ((i, w) ∷ m) =
      ground (arith, text_eq_iff k j, text_eq_iff i k, text_eq_iff i j, lookup-insert j k v m)

  pub lookup-insert_self : (k : Text) (v : V) (m : Assoc V) → lookup k (insert k v m) ≡ some v
  lookup-insert_self k v m = rw (lookup-insert k k v m, text_eq_refl k)

  pub lookup-remove :
      (j k : Text) (m : Assoc V)
      → lookup j (remove k m) ≡ (if text_eq k j then none else lookup j m)
  unfolding lookup remove
  lookup-remove j k [] = ground arith
  lookup-remove j k ((i, w) ∷ m) =
      ground (arith, text_eq_iff k j, text_eq_iff i k, text_eq_iff i j, lookup-remove j k m)

  pub lookup-retain :
      (j : Text) (keep : V → Bool) (m : Assoc V)
      → IsMap m
      → lookup j (retain keep m) ≡ keep_if keep (lookup j m)
  unfolding lookup retain keep_if
  lookup-retain j keep [] h = refl
  lookup-retain j keep ((i, w) ∷ m) h = ground (arith, text_eq_iff i j, lookup-retain j keep m h.1)

  pub insert-IsMap : (k : Text) (v : V) (m : Assoc V) → IsMap m → IsMap (insert k v m)
  unfolding lookup insert
  insert-IsMap k v [] h = (refl, tt)
  insert-IsMap k v ((i, w) ∷ m) h = elim (Bool-cases (text_eq i k)) [
    | inl e ↦ rw e h
    | inr e ↦ rw e (
      rw (lookup-insert i k v m) (ground (arith, text_eq_iff i k, text_eq_iff k i)),
      insert-IsMap k v m h.1,
    )
  ]

  pub remove-IsMap : (k : Text) (m : Assoc V) → IsMap m → IsMap (remove k m)
  unfolding remove
  remove-IsMap k [] h = tt
  remove-IsMap k ((i, w) ∷ m) h = elim (Bool-cases (text_eq i k)) [
    | inl e ↦ rw e (remove-IsMap k m h.1)
    | inr e ↦ rw e (ground (arith, lookup-remove i k m), remove-IsMap k m h.1)
  ]

  pub retain-IsMap : (keep : V → Bool) (m : Assoc V) → IsMap m → IsMap (retain keep m)
  unfolding retain keep_if
  retain-IsMap keep [] h = tt
  retain-IsMap keep ((i, w) ∷ m) h = elim (Bool-cases (keep w)) [
    | inl e ↦ rw e (ground (arith, lookup-retain i keep m), retain-IsMap keep m h.1)
    | inr e ↦ rw e (retain-IsMap keep m h.1)
  ]

  -- Every value that a lookup can give satisfies P.
  abbrev pub Every {κ} : (V → Type κ) → Assoc V → Type (ℓ ⊔ κ)
  Every P m = (k : Text) (v : V) → lookup k m ≡ some v → P v

  pub insert-Every {κ} :
      (P : V → Type κ) (k : Text) (v : V) (m : Assoc V) → P v → Every P m → Every P (insert k v m)
  insert-Every P k v m p h j w e = elim (Bool-cases (text_eq k j)) [
    | inl hit ↦ subst P (some_inj (sym (rw (lookup-insert j k v m, hit)) ∙ e)) p
    | inr miss ↦ h j w (rw (lookup-insert j k v m, miss) at e)
  ]

  pub remove-Every {κ} :
      (P : V → Type κ) (k : Text) (m : Assoc V) → Every P m → Every P (remove k m)
  remove-Every P k m h j w e = elim (Bool-cases (text_eq k j)) [
    | inl hit ↦ absurd (none-ne-some w (rw (lookup-remove j k m, hit) at e))
    | inr miss ↦ h j w (rw (lookup-remove j k m, miss) at e)
  ]

  pub retain-Every {κ} :
      (P : V → Type κ) (keep : V → Bool) (m : Assoc V)
      → IsMap m
      → Every P m
      → Every P (retain keep m)
  unfolding keep_if
  retain-Every P keep m i h j w e = h j w (kept (lookup j m) (sym (lookup-retain j keep m i) ∙ e))
    where
      kept : (o : Option V) → keep_if keep o ≡ some w → o ≡ some w
      kept none q = cc
      kept (some x) q = ground arith
