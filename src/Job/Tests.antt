-- ===== src/Job/Tests.antt =====
-- A fetch with concrete answers, and instances of the theorems.
use my_tech_pulse.Base.{
  ◌+◌, ◌-◌, ◌*◌, ◌≤◌, ◌≡◌, refl, true, false, ◌&&◌, ◌||◌, not, none, some, [], ◌∷◌, ◌++◌, List,
  if◌then◌else◌, codes, text_eq, length, lookup, insert, insert_by, sort_by, Time, day, hour, arith,
  pos,
}
use my_tech_pulse.Unicode.{
  Unicode, ascii, fold, to_lower, trim_space, is_space, trim_left, trim_right, trim_cons,
}
use my_tech_pulse.Interest.{is_empty, normalize_tag}
use my_tech_pulse.Article.{Article, source_qiita}
use my_tech_pulse.Scheduler.{succeeded, partial, failed}
use my_tech_pulse.TagMatch.{
  TagRef, comes_first, put_exact, put_compact, compact_key, ends_in, ids_of, single, has_id,
  add_refs, new_tag_matcher, match_tag, append_new, match_from, match_all,
}
use my_tech_pulse.Job.{
  provider_error, starts_with, contains, has_bad, safe_text, describe, join, join_messages,
  has_message, add_message, add_ok, add_failed, add_failed_msg, add_invalid, cut, truncate, stored,
  save, FetchTag, msg_timeout, msg_page_too_big, msg_fetch_failed, zenn_retention, qiita_retention,
}
use my_tech_pulse.Job.Qiita.{
  page_read, page_too_large, QiitaEvent, qiita_page, qiita_skipped, note_rate, warn_page_limit,
  page_records, count_page, page_answer, qiita_turn, qiita_event, run_qiita,
}
use my_tech_pulse.Job.Zenn.{
  topic_failed, ZennEvent, zenn_topic, topic_records, count_topic, count_topic_failure, zenn_turn,
  zenn_event, run_zenn,
}
use my_tech_pulse.Job.Execute.{
  timed_out, deleted_of, retain, ending_messages, has_ended, has_problem, status_of, result_of,
  execute,
}
use my_tech_pulse.Job.Problems.{qiita_marks, zenn_marks, execute-status}
use my_tech_pulse.Job.Texts.{IsClean}
use my_tech_pulse.Job.Messages.{execute-message}
use my_tech_pulse.Job.Pages.{Round, pages_from, qiita_day, qiita_day-events}
use my_tech_pulse.Job.{at_start}
use my_tech_pulse.Job.Days.{day_of, days_from, qiita_days, has_day, qiita_days_lem}

program : Unit {0}
unfolding is_empty normalize_tag fold to_lower trim_space is_space trim_left trim_right trim_cons
    text_eq lookup insert insert_by sort_by comes_first put_exact put_compact compact_key ends_in
    ids_of single has_id add_refs new_tag_matcher match_tag append_new match_from match_all
    starts_with contains has_bad safe_text describe join join_messages has_message add_message
    add_ok add_failed add_failed_msg add_invalid cut truncate save note_rate warn_page_limit
    page_records count_page page_answer qiita_turn qiita_event run_qiita topic_records count_topic
    count_topic_failure zenn_turn zenn_event run_zenn deleted_of retain ending_messages has_ended
    has_problem status_of result_of execute day_of days_from qiita_days has_day pages_from qiita_day
program = tt

instance abbrev table : Unicode
table = ascii

abbrev now : Time
now = 100 * day

abbrev tags : List TagRef
tags = record { id = 2; name = codes "Go" } ∷ []

abbrev fetch_tags : List FetchTag
fetch_tags = record { id = 2; name = codes "Go"; zenn_topic = codes "go" } ∷ []

abbrev guide : Article
guide = record {
  id = 0;
  source = source_qiita;
  title = codes "Guide";
  url = codes "q/1";
  tags = codes "Go" ∷ [];
  likes = pos 3;
  published_at = now - day;
  external_id = codes "1";
  author = codes "a";
}

abbrev qiita_events : List QiitaEvent
qiita_events =
    qiita_page (record {
      page = 1;
      low_rate = false;
      answer = page_read (guide ∷ []) true 0;
      saving = stored 1;
    })
    ∷ qiita_page (record { page = 2; low_rate = false; answer = page_too_large; saving = stored 0 })
    ∷ qiita_skipped
    ∷ []

abbrev zenn_events : List ZennEvent
zenn_events =
    zenn_topic (record {
      tag = record { id = 2; name = codes "Go"; zenn_topic = codes "go" };
      answer = topic_failed (provider_error (codes "GET https://example.com"));
      saving = stored 0;
    })
    ∷ []

fetched :
    execute (some tags) (some fetch_tags) now qiita_events zenn_events timed_out (some 3) none
    ≡ record {
      status = partial;
      message = msg_page_too_big ++ codes " / " ++ msg_fetch_failed ++ codes " / " ++ msg_timeout;
      upserted = 1;
      deleted = 3;
    }
unfolding program
fetched = refl

execute-status_example :
    (execute
      (some tags)
      (some fetch_tags)
      now
      qiita_events
      zenn_events
      timed_out
      (some 3)
      none).status
    ≡ (if (qiita_marks (new_tag_matcher tags) (now - qiita_retention) qiita_events).lost
          || (zenn_marks (now - zenn_retention) zenn_events).lost
        then failed
        else if not (
              (qiita_marks (new_tag_matcher tags) (now - qiita_retention) qiita_events).read
              || (zenn_marks (now - zenn_retention) zenn_events).read)
            && ((qiita_marks (new_tag_matcher tags) (now - qiita_retention) qiita_events).problem
                || (zenn_marks (now - zenn_retention) zenn_events).problem
                || has_ended timed_out)
        then failed
        else if (qiita_marks (new_tag_matcher tags) (now - qiita_retention) qiita_events).problem
            || (zenn_marks (now - zenn_retention) zenn_events).problem
            || has_ended timed_out
        then partial
        else succeeded)
execute-status_example =
    execute-status tags fetch_tags now qiita_events zenn_events timed_out (some 3) none

execute-message_example :
    (length
        (execute
          (some tags)
          (some fetch_tags)
          now
          qiita_events
          zenn_events
          timed_out
          (some 3)
          none).message
      ≤ 500)
    × IsClean
        (execute
          (some tags)
          (some fetch_tags)
          now
          qiita_events
          zenn_events
          timed_out
          (some 3)
          none).message
execute-message_example =
    execute-message (some tags) (some fetch_tags) now qiita_events zenn_events timed_out (some 3)
      none

seven :
    qiita_days (now + 20 * hour)
    ≡ 101 * day ∷ 100 * day ∷ 99 * day ∷ 98 * day ∷ 97 * day ∷ 96 * day ∷ 95 * day ∷ []
unfolding program
seven = refl

qiita_days_lem_example :
    (has_day (day_of (now - 2 * day)) (qiita_days now) ≡ true)
    × (has_day (day_of (now - 2 * day + 9 * hour)) (qiita_days now) ≡ true)
qiita_days_lem_example =
    qiita_days_lem now (now - 2 * day) (omega arith) (omega arith) (omega arith)

abbrev rounds : List Round
rounds =
    record {
      has_ended = false;
      turn = record {
        page = 0;
        low_rate = false;
        answer = page_read (guide ∷ []) true 0;
        saving = stored 1;
      };
    }
    ∷ record {
      has_ended = false;
      turn = record {
        page = 0;
        low_rate = true;
        answer = page_read (guide ∷ []) true 0;
        saving = stored 1;
      };
    }
    ∷ record {
      has_ended = false;
      turn = record {
        page = 0;
        low_rate = false;
        answer = page_read (guide ∷ []) true 0;
        saving = stored 1;
      };
    }
    ∷ []

two_pages :
    (qiita_day (new_tag_matcher tags) (now - qiita_retention) rounds at_start).outcome.ok ≡ 2
unfolding program
two_pages = refl

qiita_day-events_example :
    (events : List QiitaEvent) × (qiita_day
        (new_tag_matcher tags)
        (now - qiita_retention)
        rounds
        at_start
      ≡ run_qiita (new_tag_matcher tags) (now - qiita_retention) events at_start)
    × (length events ≤ 100)
qiita_day-events_example =
    qiita_day-events (new_tag_matcher tags) (now - qiita_retention) rounds at_start
