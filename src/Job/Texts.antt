-- ===== src/Job/Texts.antt =====
-- Texts that must not be shown, and joined messages.
use my_tech_pulse.Base.{
  ℕ, zero, suc, ◌≡◌, refl, ap, ◌∙◌, true, false, ◌||◌, [], ◌∷◌, ◌++◌, List, Text, codes, take, All,
  arith,
}
use my_tech_pulse.TextCheck.{has_code}
use my_tech_pulse.Job.{starts_with, contains, bad_texts, join, join_messages}

starts_with-space :
    (p s r : Text) → has_code 32 p ≡ false → starts_with p (s ++ 32 ∷ r) ≡ starts_with p s
unfolding starts_with has_code
starts_with-space [] s r e = refl
starts_with-space (c ∷ p) [] r e = ground (arith, e)
starts_with-space (c ∷ p) (d ∷ s) r e = ground (arith, e, starts_with-space p s r)

contains-space :
    (c : ℕ) (p s r : Text)
    → has_code 32 (c ∷ p) ≡ false
    → contains (s ++ 32 ∷ r) (c ∷ p) ≡ (contains s (c ∷ p) || contains r (c ∷ p))
unfolding contains starts_with has_code
contains-space c p [] r e = ground (arith, e)
contains-space c p (d ∷ s) r e =
    ground (arith, e, contains-space c p s r e, starts_with-space (c ∷ p) (d ∷ s) r e)

starts_with-take : (p s : Text) (n : ℕ) → starts_with p s ≡ false → starts_with p (take n s) ≡ false
unfolding starts_with
starts_with-take [] s n e = e
starts_with-take (c ∷ p) s zero e = refl
starts_with-take (c ∷ p) [] (suc n) e = refl
starts_with-take (c ∷ p) (d ∷ s) (suc n) e = ground (arith, e, starts_with-take p s n)

contains-take :
    (c : ℕ) (p s : Text) (n : ℕ) → contains s (c ∷ p) ≡ false → contains (take n s) (c ∷ p) ≡ false
unfolding contains starts_with
contains-take c p s zero e = refl
contains-take c p [] (suc n) e = refl
contains-take c p (d ∷ s) (suc n) e =
    ground (arith, e, contains-take c p s n, starts_with-take (c ∷ p) (d ∷ s) (suc n))

false-ne-true : ¬ (false ≡ true)
false-ne-true e = cc

-- A text that can be looked for in a joined message piece by piece.
abbrev pub IsPlain : Text → Type 0
IsPlain [] = false ≡ true
IsPlain (c ∷ p) = (has_code 32 (c ∷ p) ≡ false) × (contains (codes "/") (c ∷ p) ≡ false)

contains-join :
    (p : Text) (messages : List Text)
    → IsPlain p
    → All (λ m. contains m p ≡ false) messages
    → contains (join messages) p ≡ false
unfolding join contains starts_with
contains-join [] messages plain a = absurd (false-ne-true plain)
contains-join (c ∷ p) [] plain a = refl
contains-join (c ∷ p) (m ∷ []) plain a = a.0
contains-join (c ∷ p) (m ∷ n ∷ messages) plain a =
    let rest = join (n ∷ messages) in
    contains-space c p m (47 ∷ 32 ∷ rest) plain.0
    ∙ ap (λ b. b || contains (47 ∷ 32 ∷ rest) (c ∷ p)) a.0
    ∙ contains-space c p (47 ∷ []) rest plain.0
    ∙ ap (λ b. b || contains rest (c ∷ p)) plain.1
    ∙ contains-join (c ∷ p) (n ∷ messages) plain a.1

-- None of the texts that must not be shown occurs.
abbrev pub IsClean : Text → Type 0
IsClean s = All (λ p. contains s p ≡ false) bad_texts

pub bad_texts-IsPlain : All IsPlain bad_texts
unfolding has_code contains starts_with
bad_texts-IsPlain = ((refl, refl), ((refl, refl), ((refl, refl), ((refl, refl), tt))))

contains-join_messages :
    (p : Text) (messages : List Text)
    → IsPlain p
    → All (λ m. contains m p ≡ false) messages
    → contains (join_messages messages) p ≡ false
unfolding join_messages
contains-join_messages [] messages plain a = absurd (false-ne-true plain)
contains-join_messages (c ∷ p) messages plain a =
    contains-take c p (join messages) 500 (contains-join (c ∷ p) messages plain a)

module _ {A : Type 0} where
  All-heads : (P Q : A → Type 0) (xs : List A) → All (λ x. P x × Q x) xs → All P xs
  All-heads P Q [] a = tt
  All-heads P Q (x ∷ xs) a = (a.0.0, All-heads P Q xs a.1)

  All-tails : (P Q : A → Type 0) (xs : List A) → All (λ x. P x × Q x) xs → All Q xs
  All-tails P Q [] a = tt
  All-tails P Q (x ∷ xs) a = (a.0.1, All-tails P Q xs a.1)

pub join_messages-All :
    (bads : List Text) (messages : List Text)
    → All IsPlain bads
    → All (λ m. All (λ p. contains m p ≡ false) bads) messages
    → All (λ p. contains (join_messages messages) p ≡ false) bads
join_messages-All [] messages plain a = tt
join_messages-All (p ∷ bads) messages plain a = (
  contains-join_messages p messages plain.0 (
      All-heads (λ m. contains m p ≡ false) (λ m. All (λ q. contains m q ≡ false) bads) messages a),
  join_messages-All bads messages plain.1 (
      All-tails (λ m. contains m p ≡ false) (λ m. All (λ q. contains m q ≡ false) bads) messages a),
)
