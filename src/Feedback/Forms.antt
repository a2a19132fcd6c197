-- ===== src/Feedback/Forms.antt =====
-- The forms that `ValidateDefinition` accepts, and what they ask.
use my_tech_pulse.Base.{
  ℕ, ◌≡◌, ◌⊎◌, inl, inr, refl, ap, true, false, ◌&&◌, not, none, some, [], ◌∷◌, List, ◌==◌,
  if◌then◌else◌, ℤ, pos, negsuc, leb_int, int_eq, arith, Bool-cases, Option-cases,
}
use my_tech_pulse.Feedback.{
  Question, Form, first_loop, is_root, roots, refers_to, second_loop, with_roots,
  validate_definition, root_id, is_shown, followups_for, followup_score_max, accepted, not_a_score,
  not_the_root, valid_score, validate_overall, is_nonempty,
}

-- The questions that are not the root.
unfoldable pub others : List Question → List Question
others [] = []
others (q ∷ rest) = let next = others rest in if is_root q then next else q ∷ next

int_eq_sound : (m n : ℤ) → int_eq m n ≡ true → m ≡ n
unfolding int_eq
int_eq_sound (pos m) (pos n) e = ap pos (ground arith)
int_eq_sound (pos m) (negsuc n) e = cc
int_eq_sound (negsuc m) (pos n) e = cc
int_eq_sound (negsuc m) (negsuc n) e = ap negsuc (ground arith)

cons-injective : {p q : Question} {ps qs : List Question} → p ∷ ps ≡ q ∷ qs → p ≡ q
cons-injective e = cc

-- What the two loops leave of a question.
abbrev IsAsked : Question → Type 0
IsAsked q =
    (((is_root q ≡ true) × (q.display_if_score_max ≡ none))
      ⊎ ((is_root q ≡ false) × (q.display_if_score_max ≡ some followup_score_max)))

question-IsAsked :
    (root : ℕ) (seen rest : List Question) (q : Question)
    → first_loop seen (q ∷ rest) ≡ none
    → refers_to root q ≡ true
    → IsAsked q
unfolding first_loop refers_to is_root
question-IsAsked root seen rest q f r = elim (Option-cases q.display_if_score_max) [
  | inl no_max ↦ ground (arith, f, r, no_max, Option-cases q.display_if_question)
  | inr (m, max) ↦
      ground
        (arith, f, r, max, int_eq_sound m followup_score_max, Option-cases q.display_if_question)
]

first_loop-rest :
    (seen rest : List Question) (q : Question)
    → first_loop seen (q ∷ rest) ≡ none
    → first_loop (q ∷ seen) rest ≡ none
unfolding first_loop
first_loop-rest seen rest q f =
    ground (arith, f, Option-cases q.display_if_question, Option-cases q.display_if_score_max)

second_loop-both :
    (root : ℕ) (rest : List Question) (q : Question)
    → second_loop root (q ∷ rest) ≡ none
    → (refers_to root q ≡ true) × (second_loop root rest ≡ none)
unfolding second_loop
second_loop-both root rest q s = ground arith

followups_for-others :
    (root : ℕ) (seen questions : List Question) (score : ℤ)
    → first_loop seen questions ≡ none
    → second_loop root questions ≡ none
    → followups_for questions score
      ≡ (if leb_int score followup_score_max then others questions else [])
unfolding followups_for others is_shown
followups_for-others root seen [] score f s = ground arith
followups_for-others root seen (q ∷ rest) score f s =
    let (asked, s') = second_loop-both root rest q s in
    ground (
      arith,
      question-IsAsked root seen rest q f asked,
      followups_for-others root (q ∷ seen) rest score (first_loop-rest seen rest q f) s',
    )

with_roots-one :
    (rs questions : List Question)
    → with_roots rs questions ≡ none
    → (root : Question) × (rs ≡ root ∷ []) × (second_loop root.id questions ≡ none)
unfolding with_roots
with_roots-one [] questions e = absurd cc
with_roots-one (root ∷ []) questions e = (root, refl, e)
with_roots-one (r ∷ t ∷ rest) questions e = absurd cc

validate_definition-loops :
    (f : Form)
    → validate_definition f ≡ none
    → (first_loop [] f.questions ≡ none) × (with_roots (roots f.questions) f.questions ≡ none)
unfolding validate_definition
validate_definition-loops f e = ground (arith, e, Option-cases (first_loop [] f.questions))

roots-root_id :
    (questions rest : List Question) (root : Question)
    → roots questions ≡ root ∷ rest
    → root_id questions ≡ root.id
unfolding roots root_id
roots-root_id [] rest root e = absurd cc
roots-root_id (q ∷ questions) rest root e = elim (Bool-cases (is_root q)) [
  | inl first ↦ rw first (ap (λ x. x.id) (cons-injective (rw (first, roots) at e)))
  | inr later ↦ rw later (roots-root_id questions rest root (rw (later, roots) at e))
]

-- A form that `ValidateDefinition` accepts has exactly one root, and asks all other questions after a
-- score of at most two and none after a higher score.
pub validate_definition-followups :
    (f : Form) (score : ℤ)
    → validate_definition f ≡ none
    → ((root : Question) × (roots f.questions ≡ root ∷ []))
      × (followups_for f.questions score
          ≡ (if leb_int score followup_score_max then others f.questions else []))
validate_definition-followups f score e =
    let (first, second) = validate_definition-loops f e in
    let (root, one, s) = with_roots-one (roots f.questions) f.questions second in
    ((root, one), followups_for-others root.id [] f.questions score first s)

-- On an accepted form, an overall answer is accepted exactly if its score is one to five and it is
-- for the root, and follow-up questions come after it exactly if the score is at most two and there
-- is another question.
pub validate_overall_lem :
    (f : Form) (root : Question) (question : ℕ) (score : ℤ)
    → validate_definition f ≡ none
    → roots f.questions ≡ root ∷ []
    → validate_overall f question score ≡ (
        if not (leb_int (pos 1) score && leb_int score (pos 5))
        then not_a_score
        else if not (root.id == question)
        then not_the_root
        else accepted (leb_int score (pos 2) && is_nonempty (others f.questions)))
unfolding validate_overall valid_score is_nonempty
validate_overall_lem f root question score e one =
    ground
      (arith, (validate_definition-followups f score e).1, roots-root_id f.questions [] root one)
