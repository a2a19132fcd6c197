-- ===== src/Feedback/Tests.antt =====
-- A form with one follow-up question, and instances of the theorems.
use my_tech_pulse.Base.{
  ◌≡◌, ◌↔◌, refl, true, false, none, some, [], ◌∷◌, List, if◌then◌else◌, text_eq, codes, pos,
  negsuc, leb_int, int_eq,
}
use my_tech_pulse.Feedback.{
  Question, Form, repeated, not_one_root, bad_condition, repeats, first_loop, is_root, roots,
  refers_to, second_loop, with_roots, validate_definition, root_id, is_shown, followups_for,
  followup_score_max, accepted, not_a_score, valid_score, validate_overall, is_nonempty, Answer,
  missing_answer, has_question, has_answer, answers_ok, all_answered, validate_followup,
}
use my_tech_pulse.Feedback.Forms.{others, validate_definition-followups}
use my_tech_pulse.Feedback.Answers.{AreComplete, validate_followup_iff}

program : Unit {0}
unfolding repeats first_loop is_root roots refers_to second_loop with_roots validate_definition
    root_id is_shown followups_for valid_score validate_overall is_nonempty has_question has_answer
    answers_ok all_answered validate_followup others text_eq leb_int int_eq
program = tt

abbrev overall : Question
overall = record {
  id = 7;
  key = codes "overall";
  sort_order = pos 1;
  is_required = true;
  display_if_question = none;
  display_if_score_max = none;
}

abbrev why : Question
why = record {
  id = 8;
  key = codes "why";
  sort_order = pos 2;
  is_required = true;
  display_if_question = some 7;
  display_if_score_max = some (pos 2);
}

abbrev form : Form
form = record { cooldown_days = pos 30; questions = overall ∷ why ∷ [] }

form_ok : validate_definition form ≡ none
unfolding program
form_ok = refl

twice : validate_definition (record form { questions = overall ∷ why ∷ why ∷ [] }) ≡ some repeated
unfolding program
twice = refl

other_threshold :
    validate_definition (record form {
      questions = overall ∷ record why { display_if_score_max = some (pos 3) } ∷ [];
    })
    ≡ some bad_condition
unfolding program
other_threshold = refl

no_root : validate_definition (record form { questions = why ∷ [] }) ≡ some not_one_root
unfolding program
no_root = refl

good : validate_overall form 7 (pos 4) ≡ accepted false
unfolding program
good = refl

bad : validate_overall form 7 (pos 1) ≡ accepted true
unfolding program
bad = refl

negative : validate_overall form 7 (negsuc 0) ≡ not_a_score
unfolding program
negative = refl

left_out : validate_followup form (pos 1) [] ≡ some missing_answer
unfolding program
left_out = refl

one_root : roots (overall ∷ why ∷ []) ≡ overall ∷ []
unfolding program
one_root = refl

validate_definition-followups_example :
    ((root : Question) × (roots (overall ∷ why ∷ []) ≡ root ∷ []))
    × (followups_for (overall ∷ why ∷ []) (pos 2)
        ≡ (if leb_int (pos 2) followup_score_max then others (overall ∷ why ∷ []) else []))
validate_definition-followups_example = validate_definition-followups form (pos 2) form_ok

abbrev reply : List Answer
reply = record { question_id = 8; score = pos 3 } ∷ []

validate_followup_iff_example :
    (validate_followup form (pos 2) reply ≡ none)
    ↔ AreComplete (followups_for (overall ∷ why ∷ []) (pos 2)) reply
validate_followup_iff_example = validate_followup_iff form (pos 2) reply
