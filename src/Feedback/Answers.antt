-- ===== src/Feedback/Answers.antt =====
-- The follow-up answers that `ValidateFollowup` accepts.
use my_tech_pulse.Base.{◌≡◌, ◌↔◌, ◌⊎◌, refl, true, false, none, [], ◌∷◌, List, ℤ, arith, All}
use my_tech_pulse.Feedback.{
  Question, Form, followups_for, valid_score, is_nonempty, Answer, has_question, has_answer,
  answers_ok, all_answered, validate_followup,
}

-- No two answers are for the same question, nor for one that is answered in `seen`.
abbrev pub Distinct : List Answer → List Answer → Type 0
Distinct seen [] = Unit {0}
Distinct seen (a ∷ rest) = (has_answer a.question_id seen ≡ false) × Distinct (a ∷ seen) rest

-- An answer to one of the questions, with a score.
abbrev pub IsExpected : List Question → Answer → Type 0
IsExpected expected a = (has_question a.question_id expected ≡ true) × (valid_score a.score ≡ true)

-- The question may be left out, or is answered.
abbrev pub IsAnswered : List Answer → Question → Type 0
IsAnswered answers q = (q.is_required ≡ false) ⊎ (has_answer q.id answers ≡ true)

answers_ok_sound :
    (expected : List Question) (seen answers : List Answer)
    → answers_ok expected seen answers ≡ true
    → All (IsExpected expected) answers × Distinct seen answers
unfolding answers_ok
answers_ok_sound expected seen [] e = (tt, tt)
answers_ok_sound expected seen (a ∷ rest) e =
    let (all, distinct) = answers_ok_sound expected (a ∷ seen) rest (ground (arith, e)) in
    (((ground (arith, e), ground (arith, e)), all), (ground (arith, e), distinct))

answers_ok_complete :
    (expected : List Question) (seen answers : List Answer)
    → All (IsExpected expected) answers
    → Distinct seen answers
    → answers_ok expected seen answers ≡ true
unfolding answers_ok
answers_ok_complete expected seen [] a d = refl
answers_ok_complete expected seen (b ∷ rest) a d =
    ground (arith, a.0, d.0, answers_ok_complete expected (b ∷ seen) rest a.1 d.1)

all_answered_sound :
    (expected : List Question) (answers : List Answer)
    → all_answered expected answers ≡ true
    → All (IsAnswered answers) expected
unfolding all_answered
all_answered_sound [] answers e = tt
all_answered_sound (q ∷ rest) answers e =
    (ground (arith, e), all_answered_sound rest answers (ground (arith, e)))

all_answered_complete :
    (expected : List Question) (answers : List Answer)
    → All (IsAnswered answers) expected
    → all_answered expected answers ≡ true
unfolding all_answered
all_answered_complete [] answers a = refl
all_answered_complete (q ∷ rest) answers a =
    ground (arith, a.0, all_answered_complete rest answers a.1)

-- The answers to a list of questions that are complete and as asked.
abbrev pub AreComplete : List Question → List Answer → Type 0
AreComplete expected answers =
    (is_nonempty expected ≡ true)
    × All (IsExpected expected) answers
    × Distinct [] answers
    × All (IsAnswered answers) expected

validate_followup-parts :
    (f : Form) (overall : ℤ) (answers : List Answer)
    → validate_followup f overall answers ≡ none
    → (is_nonempty (followups_for f.questions overall) ≡ true)
      × (answers_ok (followups_for f.questions overall) [] answers ≡ true)
      × (all_answered (followups_for f.questions overall) answers ≡ true)
unfolding validate_followup
validate_followup-parts f overall answers e = ground arith

validate_followup-whole :
    (f : Form) (overall : ℤ) (answers : List Answer)
    → is_nonempty (followups_for f.questions overall) ≡ true
    → answers_ok (followups_for f.questions overall) [] answers ≡ true
    → all_answered (followups_for f.questions overall) answers ≡ true
    → validate_followup f overall answers ≡ none
unfolding validate_followup
validate_followup-whole f overall answers a b c = ground arith

-- `ValidateFollowup` accepts exactly the answers that are for distinct follow-up questions of the
-- overall score, of which there is one, with scores from one to five, and that leave no required one
-- out.
pub validate_followup_iff :
    (f : Form) (overall : ℤ) (answers : List Answer)
    → (validate_followup f overall answers ≡ none)
      ↔ AreComplete (followups_for f.questions overall) answers
validate_followup_iff f overall answers = (
  λ e.
      let (some_question, ok, all) = validate_followup-parts f overall answers e in
      let (expected, distinct) =
        answers_ok_sound (followups_for f.questions overall) [] answers ok in
      (
        some_question,
        expected,
        distinct,
        all_answered_sound (followups_for f.questions overall) answers all,
      ),
  λ c.
      validate_followup-whole f overall answers c.0
        (answers_ok_complete (followups_for f.questions overall) [] answers c.1 c.2)
        (all_answered_complete (followups_for f.questions overall) answers c.3),
)
