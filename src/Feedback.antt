-- ===== src/Feedback.antt =====
-- server/internal/userfeedback/definition.go: the rules of a feedback form and of the answers to it.
-- Identifiers are natural numbers, scores and orders integers. The texts of the errors stand as
-- constructors. A set of Go is the list of what was added to it.
pub mod Forms
pub mod Answers
mod Tests
use my_tech_pulse.Base.{
  ℕ, ◌≡◌, Bool, true, false, ◌&&◌, ◌||◌, not, Option, none, some, [], ◌∷◌, List, ◌==◌,
  if◌then◌else◌, Text, text_eq, ℤ, pos, negsuc, leb_int, int_eq,
}

abbrev pub followup_score_max : ℤ
followup_score_max = pos 2

abbrev pub min_score : ℤ
min_score = pos 1

abbrev pub max_score : ℤ
max_score = pos 5

pub record Question : Type 0 where
  pub id : ℕ
  pub key : Text
  pub sort_order : ℤ
  pub is_required : Bool
  pub display_if_question : Option ℕ
  pub display_if_score_max : Option ℤ

pub record Form : Type 0 where
  pub cooldown_days : ℤ
  pub questions : List Question

pub data DefinitionError : Type 0 where
  bad_cooldown repeated no_reference not_one_root bad_condition : DefinitionError

-- `keys[q.Key] || orders[q.SortOrder]`, the questions before it in `seen`.
unfoldable pub repeats : Question → List Question → Bool
repeats q [] = false
repeats q (p ∷ seen) = text_eq p.key q.key || int_eq p.sort_order q.sort_order || repeats q seen

-- The first loop of `ValidateDefinition`: the error, or none.
unfoldable pub first_loop : List Question → List Question → Option DefinitionError
first_loop seen [] = none
first_loop seen (q ∷ rest) =
    let next = first_loop (q ∷ seen) rest in
    if repeats q seen then some repeated else elim q.display_if_question [
      | some id ↦ next
      | none ↦ elim q.display_if_score_max [ none ↦ next | some m ↦ some no_reference ]
    ]

unfoldable pub is_root : Question → Bool
is_root q = elim q.display_if_question [ none ↦ true | some id ↦ false ]

unfoldable pub roots : List Question → List Question
unfolding is_root
roots [] = []
roots (q ∷ rest) = let next = roots rest in if is_root q then q ∷ next else next

-- Whether a question of the second loop is about the root, with the threshold 2.
unfoldable pub refers_to : ℕ → Question → Bool
refers_to root q = elim q.display_if_question [
  | none ↦ true
  | some id ↦ elim q.display_if_score_max [
    | none ↦ false
    | some m ↦ (id == root) && int_eq m followup_score_max
  ]
]

unfoldable pub second_loop : ℕ → List Question → Option DefinitionError
unfolding refers_to
second_loop root [] = none
second_loop root (q ∷ rest) =
    let next = second_loop root rest in if refers_to root q then next else some bad_condition

unfoldable pub with_roots : List Question → List Question → Option DefinitionError
with_roots (root ∷ []) questions = second_loop root.id questions
with_roots [] questions = some not_one_root
with_roots (r ∷ s ∷ rest) questions = some not_one_root

unfoldable pub validate_definition : Form → Option DefinitionError
validate_definition f =
    if not (leb_int (pos 1) f.cooldown_days)
    then some bad_cooldown
    else elim (first_loop [] f.questions) [
      | some e ↦ some e
      | none ↦ with_roots (roots f.questions) f.questions
    ]

-- `Form.Root`, by its id; 0 where there is none.
unfoldable pub root_id : List Question → ℕ
unfolding is_root
root_id [] = 0
root_id (q ∷ rest) = let next = root_id rest in if is_root q then q.id else next

unfoldable pub is_shown : ℤ → Question → Bool
is_shown score q = elim q.display_if_score_max [ none ↦ false | some m ↦ leb_int score m ]

-- `Form.FollowupsFor`.
unfoldable pub followups_for : List Question → ℤ → List Question
unfolding is_shown
followups_for [] score = []
followups_for (q ∷ rest) score =
    let next = followups_for rest score in if is_shown score q then q ∷ next else next

unfoldable pub valid_score : ℤ → Bool
valid_score score = leb_int min_score score && leb_int score max_score

-- Whether there are follow-up questions, or the error.
pub data Overall : Type 0 where
  accepted : Bool → Overall
  not_a_score not_the_root : Overall

unfoldable pub is_nonempty : List Question → Bool
is_nonempty [] = false
is_nonempty (q ∷ rest) = true

unfoldable pub validate_overall : Form → ℕ → ℤ → Overall
unfolding is_nonempty
validate_overall f question score =
    if not (valid_score score)
    then not_a_score
    else if not (root_id f.questions == question)
    then not_the_root
    else accepted (is_nonempty (followups_for f.questions score))

pub record Answer : Type 0 where
  pub question_id : ℕ
  pub score : ℤ

pub data AnswerError : Type 0 where
  no_followup bad_answer missing_answer : AnswerError

unfoldable pub has_question : ℕ → List Question → Bool
has_question id [] = false
has_question id (q ∷ rest) = q.id == id || has_question id rest

unfoldable pub has_answer : ℕ → List Answer → Bool
has_answer id [] = false
has_answer id (a ∷ rest) = a.question_id == id || has_answer id rest

-- The loop over the answers, those before in `seen`.
unfoldable pub answers_ok : List Question → List Answer → List Answer → Bool
unfolding has_question has_answer
answers_ok expected seen [] = true
answers_ok expected seen (a ∷ rest) =
    let next = answers_ok expected (a ∷ seen) rest in
    if not (has_question a.question_id expected)
      || has_answer a.question_id seen
      || not (valid_score a.score)
    then false
    else next

-- The loop over the expected questions.
unfoldable pub all_answered : List Question → List Answer → Bool
unfolding has_answer
all_answered [] answers = true
all_answered (q ∷ rest) answers =
    let next = all_answered rest answers in
    if q.is_required && not (has_answer q.id answers) then false else next

-- `ValidateFollowup`: the error, or none.
unfoldable pub validate_followup : Form → ℤ → List Answer → Option AnswerError
unfolding is_nonempty
validate_followup f overall answers =
    let expected = followups_for f.questions overall in
    if not (is_nonempty expected)
    then some no_followup
    else if not (answers_ok expected [] answers)
    then some bad_answer
    else if not (all_answered expected answers)
    then some missing_answer
    else none
