-- ===== src/Job/Messages.antt =====
-- The message of a fetch, which is stored and shown.
use my_tech_pulse.Base.{
  ℕ, ◌+◌, ◌-◌, ◌≤◌, ◌≡◌, refl, Bool, true, false, ◌&&◌, ◌||◌, not, Option, none, some, [], ◌∷◌,
  ◌++◌, List, leb, ◌==◌, if◌then◌else◌, Text, length, length-take, All, append-All, Time, arith,
  Bool-cases, inl, inr,
}
use my_tech_pulse.Unicode.{Unicode}
use my_tech_pulse.Article.{Article}
use my_tech_pulse.TagMatch.{TagRef, TagMatcher, new_tag_matcher}
use my_tech_pulse.Job.{
  FetchError, provider_error, over_limit, deadline_exceeded, canceled, unclassified, starts_with,
  contains, has_bad, bad_texts, safe_text, describe, join, join_messages, Outcome, has_message,
  add_message, add_ok, add_failed, add_failed_msg, add_invalid, cut, truncate, Progress, at_start,
  ArticleRecord, FetchTag, Saving, stored, save_failed, save_interrupted, save, qiita_max_page,
  qiita_retention, zenn_retention, zenn_max_consecutive_failures, msg_low_rate, msg_page_limit,
  msg_page_too_big, msg_call_limit, msg_zenn_down, msg_fetch_failed, msg_timeout, msg_canceled,
  msg_save_failed, msg_tags_failed,
}
use my_tech_pulse.Job.Qiita.{
  PageAnswer, page_read, page_too_large, calls_used_up, page_interrupted, rate_limited, page_failed,
  QiitaEvent, qiita_skipped, qiita_page, note_rate, warn_page_limit, page_records, count_page,
  page_answer, qiita_turn, qiita_event, run_qiita,
}
use my_tech_pulse.Job.Zenn.{
  TopicAnswer, topic_read, topic_interrupted, topic_failed, ZennEvent, zenn_skipped, zenn_topic,
  topic_records, count_topic, count_topic_failure, zenn_turn, zenn_event, run_zenn,
}
use my_tech_pulse.Job.Execute.{
  Ending, alive, timed_out, interrupted, ending_messages, result_of, execute,
}
use my_tech_pulse.Job.Texts.{IsClean, join_messages-All, bad_texts-IsPlain}

abbrev AllClean : List Text → Type 0
AllClean messages = All IsClean messages

has_bad-All :
    (s : Text) (bads : List Text) → has_bad s bads ≡ false → All (λ p. contains s p ≡ false) bads
unfolding has_bad
has_bad-All s [] e = tt
has_bad-All s (p ∷ bads) e = (ground (arith, e), has_bad-All s bads (ground (arith, e)))

fixed : (s : Text) → has_bad s bad_texts ≡ false → IsClean s
fixed s e = has_bad-All s bad_texts e

fetch_failed-IsClean : IsClean msg_fetch_failed
unfolding has_bad contains starts_with
fetch_failed-IsClean = fixed msg_fetch_failed refl

safe_text-IsClean : (s : Text) → IsClean (safe_text s)
unfolding safe_text
safe_text-IsClean s = elim (Bool-cases (has_bad s bad_texts)) [
  | inl bad ↦ rw bad fetch_failed-IsClean
  | inr good ↦ rw good (fixed s good)
]

describe-IsClean : (e : FetchError) → IsClean (describe e)
unfolding describe has_bad contains starts_with
describe-IsClean (provider_error s) = safe_text-IsClean s
describe-IsClean over_limit = fixed msg_call_limit refl
describe-IsClean deadline_exceeded = fixed msg_timeout refl
describe-IsClean canceled = fixed msg_canceled refl
describe-IsClean unclassified = fetch_failed-IsClean

add_message-AllClean :
    (msg : Text) (o : Outcome)
    → IsClean msg
    → AllClean o.messages
    → AllClean (add_message msg o).messages
unfolding add_message
add_message-AllClean msg o c a = elim (Bool-cases (has_message msg o.messages)) [
  | inl old ↦ rw old a
  | inr new ↦ rw new (append-All IsClean o.messages (msg ∷ []) a (c, tt))
]

add_failed-AllClean :
    (e : FetchError) (o : Outcome) → AllClean o.messages → AllClean (add_failed e o).messages
unfolding add_failed add_failed_msg
add_failed-AllClean e o a = add_message-AllClean (describe e) _ (describe-IsClean e) a

truncate-AllClean :
    (msg : Text) (o : Outcome)
    → IsClean msg
    → AllClean o.messages
    → AllClean (truncate msg o).messages
unfolding truncate cut
truncate-AllClean msg o c a = add_message-AllClean msg _ c a

count_topic-AllClean :
    (topic : Text) (articles : List Article) (records : List ArticleRecord) (saving : Saving)
    (f : Progress)
    → AllClean f.outcome.messages
    → AllClean (count_topic topic articles (save records saving f)).outcome.messages
unfolding count_topic save add_ok
count_topic-AllClean topic [] [] saving f a = a
count_topic-AllClean topic (x ∷ articles) [] saving f a = a
count_topic-AllClean topic [] (r ∷ records) (stored n) f a = a
count_topic-AllClean topic (x ∷ articles) (r ∷ records) (stored n) f a = a
count_topic-AllClean topic articles (r ∷ records) save_failed f a = a
count_topic-AllClean topic articles (r ∷ records) save_interrupted f a = a

zenn_down-IsClean : IsClean msg_zenn_down
unfolding has_bad contains starts_with
zenn_down-IsClean = fixed msg_zenn_down refl

zenn_turn-AllClean :
    (cutoff : Time) (tag : FetchTag) (saving : Saving) (answer : TopicAnswer) (f : Progress)
    → AllClean f.outcome.messages
    → AllClean (zenn_turn cutoff tag saving answer f).outcome.messages
unfolding zenn_turn cut count_topic_failure
zenn_turn-AllClean cutoff tag saving (topic_read articles) f a =
    count_topic-AllClean tag.zenn_topic articles (topic_records cutoff tag.id articles) saving
      (record f { consecutive = 0 }) a
zenn_turn-AllClean cutoff tag saving topic_interrupted f a = a
zenn_turn-AllClean cutoff tag saving (topic_failed e) f a =
    elim (Bool-cases (leb zenn_max_consecutive_failures (f.consecutive + 1) && not f.stopped)) [
      | inl down ↦ rw down (
          truncate-AllClean msg_zenn_down (add_failed e f.outcome) zenn_down-IsClean
            (add_failed-AllClean e f.outcome a))
      | inr up ↦ rw up (add_failed-AllClean e f.outcome a)
    ]

run_zenn-AllClean :
    (cutoff : Time) (events : List ZennEvent) (f : Progress)
    → AllClean f.outcome.messages
    → AllClean (run_zenn cutoff events f).outcome.messages
unfolding run_zenn zenn_event cut
run_zenn-AllClean cutoff [] f a = a
run_zenn-AllClean cutoff (zenn_skipped ∷ events) f a = run_zenn-AllClean cutoff events _ a
run_zenn-AllClean cutoff (zenn_topic t ∷ events) f a =
    run_zenn-AllClean cutoff events _ (zenn_turn-AllClean cutoff t.tag t.saving t.answer f a)

low_rate-IsClean : IsClean msg_low_rate
unfolding has_bad contains starts_with
low_rate-IsClean = fixed msg_low_rate refl

page_limit-IsClean : IsClean msg_page_limit
unfolding has_bad contains starts_with
page_limit-IsClean = fixed msg_page_limit refl

page_too_big-IsClean : IsClean msg_page_too_big
unfolding has_bad contains starts_with
page_too_big-IsClean = fixed msg_page_too_big refl

call_limit-IsClean : IsClean msg_call_limit
unfolding has_bad contains starts_with
call_limit-IsClean = fixed msg_call_limit refl

tags_failed-IsClean : IsClean msg_tags_failed
unfolding has_bad contains starts_with
tags_failed-IsClean = fixed msg_tags_failed refl

save_failed-IsClean : IsClean msg_save_failed
unfolding has_bad contains starts_with
save_failed-IsClean = fixed msg_save_failed refl

ending-AllClean : (ending : Ending) → AllClean (ending_messages ending)
unfolding ending_messages has_bad contains starts_with
ending-AllClean alive = tt
ending-AllClean timed_out = (fixed msg_timeout refl, tt)
ending-AllClean interrupted = (fixed msg_canceled refl, tt)

note_rate-AllClean :
    (low : Bool) (f : Progress)
    → AllClean f.outcome.messages
    → AllClean (note_rate low f).outcome.messages
unfolding note_rate
note_rate-AllClean low f a = elim (Bool-cases (low && not f.stopped)) [
  | inl first ↦ rw first (truncate-AllClean msg_low_rate f.outcome low_rate-IsClean a)
  | inr other ↦ rw other a
]

warn_page_limit-AllClean :
    (page : ℕ) (f : Progress)
    → AllClean f.outcome.messages
    → AllClean (warn_page_limit page f).outcome.messages
unfolding warn_page_limit
warn_page_limit-AllClean page f a = elim (Bool-cases (page == qiita_max_page)) [
  | inl last ↦ rw last (add_message-AllClean msg_page_limit f.outcome page_limit-IsClean a)
  | inr more ↦ rw more a
]

count_page-AllClean :
    (page : ℕ) (full : Bool) (saved : Option ℕ) (f : Progress)
    → AllClean f.outcome.messages
    → AllClean (count_page page full (f, saved)).0.outcome.messages
unfolding count_page add_ok
count_page-AllClean page full none f a = a
count_page-AllClean page false (some n) f a = a
count_page-AllClean page true (some n) f a =
    warn_page_limit-AllClean page (record f { outcome = add_ok n f.outcome }) a

save_page-AllClean :
    (page : ℕ) (full : Bool) (records : List ArticleRecord) (saving : Saving) (f : Progress)
    → AllClean f.outcome.messages
    → AllClean (count_page page full (save records saving f)).0.outcome.messages
unfolding save
save_page-AllClean page full [] saving f a = count_page-AllClean page full (some 0) f a
save_page-AllClean page full (r ∷ records) (stored n) f a =
    count_page-AllClean page full (some n) f a
save_page-AllClean page full (r ∷ records) save_failed f a =
    count_page-AllClean page full none (record f { db_failed = true }) a
save_page-AllClean page full (r ∷ records) save_interrupted f a =
    count_page-AllClean page full none f a

lost-AllClean : (b : Bool) → AllClean (if b then msg_save_failed ∷ [] else [])
lost-AllClean true = (save_failed-IsClean, tt)
lost-AllClean false = tt

module _ ⦃u : Unicode⦄ where
  page_answer-AllClean :
      (m : TagMatcher) (cutoff : Time) (page : ℕ) (saving : Saving) (answer : PageAnswer)
      (f : Progress)
      → AllClean f.outcome.messages
      → AllClean (page_answer m cutoff page saving answer f).0.outcome.messages
  unfolding page_answer cut add_invalid add_failed_msg
  page_answer-AllClean m cutoff page saving (page_read articles full invalid) f a =
      save_page-AllClean page full (page_records m cutoff articles) saving
        (record f { outcome = add_invalid invalid f.outcome }) a
  page_answer-AllClean m cutoff page saving page_too_large f a =
      warn_page_limit-AllClean page
        (record f { outcome = add_failed_msg msg_page_too_big f.outcome })
        (add_message-AllClean msg_page_too_big _ page_too_big-IsClean a)
  page_answer-AllClean m cutoff page saving calls_used_up f a =
      truncate-AllClean msg_call_limit f.outcome call_limit-IsClean a
  page_answer-AllClean m cutoff page saving page_interrupted f a = a
  page_answer-AllClean m cutoff page saving (rate_limited e) f a = add_failed-AllClean e f.outcome a
  page_answer-AllClean m cutoff page saving (page_failed e) f a = add_failed-AllClean e f.outcome a

  run_qiita-AllClean :
      (m : TagMatcher) (cutoff : Time) (events : List QiitaEvent) (f : Progress)
      → AllClean f.outcome.messages
      → AllClean (run_qiita m cutoff events f).outcome.messages
  unfolding run_qiita qiita_event qiita_turn cut
  run_qiita-AllClean m cutoff [] f a = a
  run_qiita-AllClean m cutoff (qiita_skipped ∷ events) f a = run_qiita-AllClean m cutoff events _ a
  run_qiita-AllClean m cutoff (qiita_page t ∷ events) f a = run_qiita-AllClean m cutoff events _ (
      page_answer-AllClean m cutoff t.page t.saving t.answer (note_rate t.low_rate f)
        (note_rate-AllClean t.low_rate f a))

  -- Whatever the providers answer and in whatever order, the message of a fetch has at most 500 characters
  -- and holds neither an address nor a token: none of "://", "Bearer", "Authorization" and "token=".
  pub execute-message :
      (tags : Option (List TagRef)) (fetch_tags : Option (List FetchTag)) (now : Time)
      (qs : List QiitaEvent) (zs : List ZennEvent) (ending : Ending) (qiita zenn : Option ℕ)
      → (length (execute tags fetch_tags now qs zs ending qiita zenn).message ≤ 500)
        × IsClean (execute tags fetch_tags now qs zs ending qiita zenn).message
  unfolding execute result_of join_messages
  execute-message none fetch_tags now qs zs ending qiita zenn = (omega arith, tags_failed-IsClean)
  execute-message (some tags) none now qs zs ending qiita zenn = (omega arith, tags_failed-IsClean)
  execute-message (some tags) (some fetch_tags) now qs zs ending qiita zenn =
      let q = run_qiita (new_tag_matcher tags) (now - qiita_retention) qs at_start in
      let z = run_zenn (now - zenn_retention) zs at_start in
      let last = if q.db_failed || z.db_failed then msg_save_failed ∷ [] else [] in
      let all = q.outcome.messages ++ z.outcome.messages ++ ending_messages ending ++ last in
      (
        omega (arith, length-take 500 (join all)),
        join_messages-All bad_texts all bad_texts-IsPlain (
            append-All IsClean (q.outcome.messages ++ z.outcome.messages ++ ending_messages ending)
              last
              (append-All IsClean (q.outcome.messages ++ z.outcome.messages)
                (ending_messages ending)
                (append-All IsClean q.outcome.messages z.outcome.messages
                  (run_qiita-AllClean (new_tag_matcher tags) (now - qiita_retention) qs at_start tt)
                  (run_zenn-AllClean (now - zenn_retention) zs at_start tt))
                (ending-AllClean ending))
              (lost-AllClean (q.db_failed || z.db_failed))),
      )
