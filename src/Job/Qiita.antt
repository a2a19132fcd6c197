-- ===== src/Job/Qiita.antt =====
-- `fetchQiita`: the pages of each day. An event is a page that a worker asks for, or a day or a page that
-- it skips because the fetch has stopped or its context has ended.
use my_tech_pulse.Base.{
  ℕ, Bool, true, false, ◌&&◌, not, Option, none, some, [], ◌∷◌, List, ltb, ◌==◌, if◌then◌else◌,
  Time,
}
use my_tech_pulse.Unicode.{Unicode}
use my_tech_pulse.TagMatch.{TagMatcher, match_all}
use my_tech_pulse.Article.{Article}
use my_tech_pulse.Job.{
  FetchError, add_message, add_ok, add_failed, add_failed_msg, add_invalid, cut, truncate, Progress,
  on_outcome, ArticleRecord, Saving, save, qiita_max_page, msg_low_rate, msg_page_limit,
  msg_page_too_big, msg_call_limit,
}

-- The answer of `caller.do` for one page.
pub data PageAnswer : Type 0 where
  page_read : List Article → Bool → ℕ → PageAnswer
  page_too_large calls_used_up page_interrupted : PageAnswer
  rate_limited page_failed : FetchError → PageAnswer

-- A page, whether a try of it saw few calls remaining, its answer, and what saving it answers.
pub record PageTurn : Type 0 where
  pub page : ℕ
  pub low_rate : Bool
  pub answer : PageAnswer
  pub saving : Saving

pub data QiitaEvent : Type 0 where
  qiita_skipped : QiitaEvent
  qiita_page : PageTurn → QiitaEvent

-- The calls that are left are too few: the first to see it stops the fetch.
unfoldable pub note_rate : Bool → Progress → Progress
unfolding truncate
note_rate low f =
    if low && not f.stopped
    then record f { stopped = true; outcome = truncate msg_low_rate f.outcome }
    else f

unfoldable pub warn_page_limit : ℕ → Progress → Progress
unfolding add_message
warn_page_limit page f =
    if page == qiita_max_page then on_outcome (add_message msg_page_limit) f else f

-- A page that was saved, and whether the next one follows.
unfoldable pub count_page : ℕ → Bool → Progress × Option ℕ → Progress × Bool
unfolding add_ok warn_page_limit
count_page page full (f, none) = (f, false)
count_page page full (f, some n) =
    if full
    then (warn_page_limit page (on_outcome (add_ok n) f), true)
    else (on_outcome (add_ok n) f, false)

module _ ⦃u : Unicode⦄ where
  -- The articles of a page from the cutoff on, with the tags of the table.
  unfoldable pub page_records : TagMatcher → Time → List Article → List ArticleRecord
  unfolding match_all
  page_records m cutoff [] = []
  page_records m cutoff (a ∷ articles) =
      let rest = page_records m cutoff articles in
      if ltb a.published_at cutoff
      then rest
      else record { article = a; tag_ids = match_all m a.tags } ∷ rest

  -- The answer for a page: what it does, and whether the day goes on with the next page.
  unfoldable pub page_answer :
      TagMatcher → Time → ℕ → Saving → PageAnswer → Progress → Progress × Bool
  unfolding truncate cut add_failed add_failed_msg add_invalid warn_page_limit page_records
      count_page save
  page_answer m cutoff page saving page_too_large f =
      (warn_page_limit page (on_outcome (add_failed_msg msg_page_too_big) f), true)
  page_answer m cutoff page saving calls_used_up f =
      (record f { stopped = true; outcome = truncate msg_call_limit f.outcome }, false)
  page_answer m cutoff page saving page_interrupted f = (on_outcome cut f, false)
  page_answer m cutoff page saving (rate_limited e) f =
      (record f { stopped = true; outcome = add_failed e f.outcome }, false)
  page_answer m cutoff page saving (page_failed e) f = (on_outcome (add_failed e) f, false)
  page_answer m cutoff page saving (page_read articles full invalid) f =
      count_page page full
        (save (page_records m cutoff articles) saving (on_outcome (add_invalid invalid) f))

  -- One round of the loop of `qiitaDay`.
  unfoldable pub qiita_turn : TagMatcher → Time → PageTurn → Progress → Progress × Bool
  unfolding note_rate page_answer
  qiita_turn m cutoff t f = page_answer m cutoff t.page t.saving t.answer (note_rate t.low_rate f)

  unfoldable pub qiita_event : TagMatcher → Time → QiitaEvent → Progress → Progress
  unfolding qiita_turn cut
  qiita_event m cutoff qiita_skipped f = on_outcome cut f
  qiita_event m cutoff (qiita_page t) f = (qiita_turn m cutoff t f).0

  unfoldable pub run_qiita : TagMatcher → Time → List QiitaEvent → Progress → Progress
  unfolding qiita_event
  run_qiita m cutoff [] f = f
  run_qiita m cutoff (e ∷ events) f = run_qiita m cutoff events (qiita_event m cutoff e f)
