-- ===== src/Job/Problems.antt =====
-- What the status of a fetch says, whatever order the workers take.
use my_tech_pulse.Base.{
  ℕ, ◌+◌, ◌-◌, ◌≡◌, refl, ap, ◌∙◌, Bool, true, false, ◌&&◌, ◌||◌, not, Option, none, some, [], ◌∷◌,
  List, ltb, ◌==◌, if◌then◌else◌, Text, Time, arith, Bool-cases, inl, inr,
}
use my_tech_pulse.Unicode.{Unicode}
use my_tech_pulse.Article.{Article}
use my_tech_pulse.TagMatch.{TagRef, TagMatcher, new_tag_matcher}
use my_tech_pulse.Scheduler.{succeeded, partial, failed}
use my_tech_pulse.Job.{
  FetchError, Outcome, has_message, add_message, add_ok, add_failed, add_failed_msg, add_invalid,
  cut, truncate, Progress, at_start, ArticleRecord, FetchTag, Saving, stored, save_failed,
  save_interrupted, save, qiita_max_page, qiita_retention, zenn_retention, msg_low_rate,
  msg_page_limit, msg_page_too_big, msg_call_limit, msg_zenn_down,
}
use my_tech_pulse.Job.Qiita.{
  PageAnswer, page_read, page_too_large, calls_used_up, page_interrupted, rate_limited, page_failed,
  PageTurn, QiitaEvent, qiita_skipped, qiita_page, note_rate, warn_page_limit, page_records,
  count_page, page_answer, qiita_turn, qiita_event, run_qiita,
}
use my_tech_pulse.Job.Zenn.{
  TopicAnswer, topic_read, topic_interrupted, topic_failed, ZennEvent, zenn_skipped, zenn_topic,
  topic_records, count_topic, count_topic_failure, zenn_turn, zenn_event, run_zenn,
}
use my_tech_pulse.Job.Execute.{Ending, has_ended, has_problem, status_of, result_of, execute}

-- What a status depends on, of a provider or of events: a problem, something read, articles lost by the store.
pub record Marks : Type 0 where
  pub problem : Bool
  pub read : Bool
  pub lost : Bool

unfoldable both : Marks → Marks → Marks
both a b = record {
  problem = a.problem || b.problem;
  read = a.read || b.read;
  lost = a.lost || b.lost;
}

unfoldable marks_of : Progress → Marks
unfolding has_problem
marks_of f = record {
  problem = has_problem f.outcome;
  read = ltb 0 f.outcome.ok;
  lost = f.db_failed;
}

abbrev trouble : Marks
trouble = record { problem = true; read = false; lost = false }

-- Articles to save: nothing to do, or what the store answers.
unfoldable save_marks : List ArticleRecord → Saving → Marks
save_marks [] saving = record { problem = false; read = true; lost = false }
save_marks (r ∷ records) (stored n) = record { problem = false; read = true; lost = false }
save_marks (r ∷ records) save_failed = record { problem = false; read = false; lost = true }
save_marks (r ∷ records) save_interrupted = record { problem = false; read = false; lost = false }

unfoldable topic_marks : Time → FetchTag → Saving → TopicAnswer → Marks
unfolding save_marks
topic_marks cutoff tag saving (topic_read articles) =
    save_marks (topic_records cutoff tag.id articles) saving
topic_marks cutoff tag saving topic_interrupted = trouble
topic_marks cutoff tag saving (topic_failed e) = trouble

unfoldable pub zenn_marks : Time → List ZennEvent → Marks
unfolding both topic_marks
zenn_marks cutoff [] = record { problem = false; read = false; lost = false }
zenn_marks cutoff (zenn_skipped ∷ events) = both trouble (zenn_marks cutoff events)
zenn_marks cutoff (zenn_topic t ∷ events) =
    both (topic_marks cutoff t.tag t.saving t.answer) (zenn_marks cutoff events)

-- What is stopped has a problem.
abbrev IsExplained : Progress → Type 0
IsExplained f = (not f.stopped || has_problem f.outcome) ≡ true

add_message-same :
    (msg : Text) (o : Outcome)
    → ((add_message msg o).ok ≡ o.ok)
      × ((add_message msg o).failures ≡ o.failures)
      × ((add_message msg o).truncated ≡ o.truncated)
unfolding add_message
add_message-same msg o = elim (Bool-cases (has_message msg o.messages)) [
  | inl old ↦ rw old (refl, refl, refl)
  | inr new ↦ rw new (refl, refl, refl)
]

save-marks :
    (records : List ArticleRecord) (saving : Saving) (topic : Text) (articles : List Article)
    (f : Progress)
    → marks_of (count_topic topic articles (save records saving f))
      ≡ both (save_marks records saving) (marks_of f)
unfolding save save_marks count_topic marks_of both add_ok has_problem
save-marks [] saving topic [] f = ground arith
save-marks [] saving topic (x ∷ articles) f = ground arith
save-marks (r ∷ records) (stored n) topic [] f = ground arith
save-marks (r ∷ records) (stored n) topic (x ∷ articles) f = ground arith
save-marks (r ∷ records) save_failed topic articles f = ground arith
save-marks (r ∷ records) save_interrupted topic articles f = ground arith

count_topic_failure-marks :
    (e : FetchError) (f : Progress) → marks_of (count_topic_failure e f) ≡ both trouble (marks_of f)
unfolding count_topic_failure marks_of both has_problem add_failed add_failed_msg truncate cut
count_topic_failure-marks e f = ground (
  arith,
  add_message-same _ (record f.outcome { failures = f.outcome.failures + 1 }),
  add_message-same msg_zenn_down (cut (add_failed e f.outcome)),
)

cut-marks :
    (f : Progress) → marks_of (record f { outcome = cut f.outcome }) ≡ both trouble (marks_of f)
unfolding cut marks_of both has_problem
cut-marks f = ground arith

zenn_turn-marks :
    (cutoff : Time) (tag : FetchTag) (saving : Saving) (answer : TopicAnswer) (f : Progress)
    → marks_of (zenn_turn cutoff tag saving answer f)
      ≡ both (topic_marks cutoff tag saving answer) (marks_of f)
unfolding zenn_turn topic_marks marks_of
zenn_turn-marks cutoff tag saving (topic_read articles) f =
    save-marks (topic_records cutoff tag.id articles) saving tag.zenn_topic articles
      (record f { consecutive = 0 })
zenn_turn-marks cutoff tag saving topic_interrupted f = cut-marks f
zenn_turn-marks cutoff tag saving (topic_failed e) f = count_topic_failure-marks e f

both-swap : (a b c : Marks) → both a (both b c) ≡ both (both b a) c
unfolding both
both-swap a b c = ground arith

run_zenn-marks :
    (cutoff : Time) (events : List ZennEvent) (f : Progress)
    → marks_of (run_zenn cutoff events f) ≡ both (zenn_marks cutoff events) (marks_of f)
unfolding run_zenn zenn_event zenn_marks both marks_of
run_zenn-marks cutoff [] f = refl
run_zenn-marks cutoff (zenn_skipped ∷ events) f =
    run_zenn-marks cutoff events _
    ∙ ap (both (zenn_marks cutoff events)) (cut-marks f)
    ∙ both-swap (zenn_marks cutoff events) trouble (marks_of f)
run_zenn-marks cutoff (zenn_topic t ∷ events) f =
    run_zenn-marks cutoff events _
    ∙ ap (both (zenn_marks cutoff events)) (zenn_turn-marks cutoff t.tag t.saving t.answer f)
    ∙ both-swap (zenn_marks cutoff events) (topic_marks cutoff t.tag t.saving t.answer) (marks_of f)

-- What few calls remaining add: a problem.
unfoldable rate_marks : Bool → Marks
rate_marks low = record { problem = low; read = false; lost = false }

note_rate-marks :
    (low : Bool) (f : Progress)
    → IsExplained f
    → (marks_of (note_rate low f) ≡ both (rate_marks low) (marks_of f))
      × IsExplained (note_rate low f)
unfolding note_rate marks_of both has_problem truncate cut rate_marks
note_rate-marks false f x = (refl, x)
note_rate-marks true f x = elim (Bool-cases f.stopped) [
  | inl old ↦ rw old (ground (arith, x, old), ground (arith, x, old))
  | inr new ↦
      let same = add_message-same msg_low_rate (cut f.outcome) in
      rw new (ground (arith, same), ground (arith, same))
]

warn_page_limit-marks :
    (page : ℕ) (f : Progress)
    → (marks_of (warn_page_limit page f) ≡ marks_of f)
      × ((warn_page_limit page f).stopped ≡ f.stopped)
unfolding warn_page_limit marks_of has_problem
warn_page_limit-marks page f = elim (Bool-cases (page == qiita_max_page)) [
  | inl last ↦ rw last (ground (arith, add_message-same msg_page_limit f.outcome), refl)
  | inr more ↦ rw more (refl, refl)
]

-- The marks of a page, once the rate is noted.
unfoldable answer_marks : ⦃u : Unicode⦄ → TagMatcher → Time → Saving → PageAnswer → Marks
unfolding save_marks
answer_marks m cutoff saving (page_read articles full invalid) =
    save_marks (page_records m cutoff articles) saving
answer_marks m cutoff saving page_too_large = trouble
answer_marks m cutoff saving calls_used_up = trouble
answer_marks m cutoff saving page_interrupted = trouble
answer_marks m cutoff saving (rate_limited e) = trouble
answer_marks m cutoff saving (page_failed e) = trouble

-- After an event the marks are known, and what is stopped has a problem.
abbrev Known : Marks → Progress → Progress → Type 0
Known a f g = (marks_of g ≡ both a (marks_of f)) × IsExplained g

count_page-marks :
    (page : ℕ) (full : Bool) (n : ℕ) (f : Progress)
    → IsExplained f
    → Known
        (record { problem = false; read = true; lost = false })
        f
        (count_page page full (f, some n)).0
unfolding count_page marks_of both has_problem add_ok
count_page-marks page false n f x = (ground arith, x)
count_page-marks page true n f x =
    let g : Progress = record f { outcome = add_ok n f.outcome } in
    let w = warn_page_limit-marks page g in (ground (arith, w.0), ground (arith, w.0, w.1, x))

lost_page :
    (page : ℕ) (full : Bool) (f : Progress)
    → IsExplained f
    → Known
        (record { problem = false; read = false; lost = true })
        f
        (count_page page full (record f { db_failed = true }, none)).0
unfolding count_page marks_of both has_problem
lost_page page full f x = (ground arith, x)

unsaved_page :
    (page : ℕ) (full : Bool) (f : Progress)
    → IsExplained f
    → Known
        (record { problem = false; read = false; lost = false })
        f
        (count_page page full (f, none)).0
unfolding count_page marks_of both has_problem
unsaved_page page full f x = (ground arith, x)

save_page-marks :
    (records : List ArticleRecord) (saving : Saving) (page : ℕ) (full : Bool) (f : Progress)
    → IsExplained f
    → Known (save_marks records saving) f (count_page page full (save records saving f)).0
unfolding save save_marks
save_page-marks [] saving page full f x = count_page-marks page full 0 f x
save_page-marks (r ∷ records) (stored n) page full f x = count_page-marks page full n f x
save_page-marks (r ∷ records) save_failed page full f x = lost_page page full f x
save_page-marks (r ∷ records) save_interrupted page full f x = unsaved_page page full f x

add_failed-marks :
    (msg : Text) (stop : Bool) (f : Progress)
    → Known trouble f (record f { stopped = stop; outcome = add_failed_msg msg f.outcome })
unfolding marks_of both has_problem add_failed_msg
add_failed-marks msg stop f =
    let same = add_message-same msg (record f.outcome { failures = f.outcome.failures + 1 }) in
    (ground (arith, same), ground (arith, same))

warned-marks :
    (page : ℕ) (a : Marks) (f g : Progress) → Known a f g → Known a f (warn_page_limit page g)
unfolding marks_of has_problem
warned-marks page a f g k =
    let w = warn_page_limit-marks page g in (w.0 ∙ k.0, ground (arith, w.0, w.1, k.1))

truncate-marks :
    (msg : Text) (f : Progress)
    → Known trouble f (record f { stopped = true; outcome = truncate msg f.outcome })
unfolding marks_of both has_problem truncate cut
truncate-marks msg f =
    let same = add_message-same msg (cut f.outcome) in (ground (arith, same), ground (arith, same))

page_answer-marks :
    ⦃u : Unicode⦄ (m : TagMatcher) (cutoff : Time) (page : ℕ) (saving : Saving)
    (answer : PageAnswer) (f : Progress)
    → IsExplained f
    → Known (answer_marks m cutoff saving answer) f (page_answer m cutoff page saving answer f).0
unfolding page_answer answer_marks add_failed add_failed_msg cut marks_of has_problem both
    add_invalid truncate
page_answer-marks m cutoff page saving (page_read articles full invalid) f x =
    save_page-marks (page_records m cutoff articles) saving page full
      (record f { outcome = add_invalid invalid f.outcome }) x
page_answer-marks m cutoff page saving page_too_large f x =
    warned-marks page trouble f _ (add_failed-marks msg_page_too_big f.stopped f)
page_answer-marks m cutoff page saving calls_used_up f x = truncate-marks msg_call_limit f
page_answer-marks m cutoff page saving page_interrupted f x = (cut-marks f, ground arith)
page_answer-marks m cutoff page saving (rate_limited e) f x = add_failed-marks _ true f
page_answer-marks m cutoff page saving (page_failed e) f x = add_failed-marks _ f.stopped f

skipped-IsExplained : (f : Progress) → IsExplained (record f { outcome = cut f.outcome })
unfolding cut has_problem
skipped-IsExplained f = ground arith

module _ ⦃u : Unicode⦄ where
  unfoldable pub qiita_marks : TagMatcher → Time → List QiitaEvent → Marks
  unfolding both rate_marks answer_marks
  qiita_marks m cutoff [] = record { problem = false; read = false; lost = false }
  qiita_marks m cutoff (qiita_skipped ∷ events) = both trouble (qiita_marks m cutoff events)
  qiita_marks m cutoff (qiita_page t ∷ events) =
      both (both (rate_marks t.low_rate) (answer_marks m cutoff t.saving t.answer))
        (qiita_marks m cutoff events)

  qiita_turn-marks :
      (m : TagMatcher) (cutoff : Time) (t : PageTurn) (f : Progress)
      → IsExplained f
      → Known
          (both (rate_marks t.low_rate) (answer_marks m cutoff t.saving t.answer))
          f
          (qiita_turn m cutoff t f).0
  unfolding qiita_turn
  qiita_turn-marks m cutoff t f x =
      let noted = note_rate-marks t.low_rate f x in
      let answered =
        page_answer-marks m cutoff t.page t.saving t.answer (note_rate t.low_rate f) noted.1 in
      (
        answered.0
            ∙ ap (both (answer_marks m cutoff t.saving t.answer)) noted.0
            ∙ both-swap (answer_marks m cutoff t.saving t.answer) (rate_marks t.low_rate)
                (marks_of f),
        answered.1,
      )

  run_qiita-marks :
      (m : TagMatcher) (cutoff : Time) (events : List QiitaEvent) (f : Progress)
      → IsExplained f
      → marks_of (run_qiita m cutoff events f) ≡ both (qiita_marks m cutoff events) (marks_of f)
  unfolding run_qiita qiita_event qiita_marks both marks_of
  run_qiita-marks m cutoff [] f x = refl
  run_qiita-marks m cutoff (qiita_skipped ∷ events) f x =
      run_qiita-marks m cutoff events _ (skipped-IsExplained f)
      ∙ ap (both (qiita_marks m cutoff events)) (cut-marks f)
      ∙ both-swap (qiita_marks m cutoff events) trouble (marks_of f)
  run_qiita-marks m cutoff (qiita_page t ∷ events) f x =
      let turn = qiita_turn-marks m cutoff t f x in
      run_qiita-marks m cutoff events _ turn.1
      ∙ ap (both (qiita_marks m cutoff events)) turn.0
      ∙ both-swap (qiita_marks m cutoff events)
          (both (rate_marks t.low_rate) (answer_marks m cutoff t.saving t.answer)) (marks_of f)

  -- The status of a fetch whose lists of tags were read depends only on which events there were, not on
  -- their order: it failed if the store lost articles, or if nothing was read and there was a problem or the
  -- context ended; it succeeded if there was none of these; otherwise it is partial.
  pub execute-status :
      (tags : List TagRef) (fetch_tags : List FetchTag) (now : Time) (qs : List QiitaEvent)
      (zs : List ZennEvent) (ending : Ending) (qiita zenn : Option ℕ)
      → let q = qiita_marks (new_tag_matcher tags) (now - qiita_retention) qs in
        let z = zenn_marks (now - zenn_retention) zs in
        let problem = q.problem || z.problem || has_ended ending in
        (execute (some tags) (some fetch_tags) now qs zs ending qiita zenn).status ≡ (
          if q.lost || z.lost
          then failed
          else if not (q.read || z.read) && problem
          then failed
          else if problem
          then partial
          else succeeded)
  unfolding execute result_of status_of marks_of both has_problem
  execute-status tags fetch_tags now qs zs ending qiita zenn =
      let q = run_qiita-marks (new_tag_matcher tags) (now - qiita_retention) qs at_start refl in
      let z = run_zenn-marks (now - zenn_retention) zs at_start in ground (arith, q, z)
