-- ===== src/Job/Execute.antt =====
-- `Execute`: the result of one fetch from the events of both providers.
use my_tech_pulse.Base.{
  ℕ, ◌+◌, ◌-◌, Bool, true, false, ◌&&◌, ◌||◌, Option, none, some, [], ◌∷◌, ◌++◌, List, ltb, ◌==◌,
  if◌then◌else◌, Text, Time,
}
use my_tech_pulse.Unicode.{Unicode}
use my_tech_pulse.TagMatch.{TagRef, new_tag_matcher}
use my_tech_pulse.Scheduler.{Status, succeeded, partial, failed}
use my_tech_pulse.Job.{
  Outcome, Progress, at_start, FetchTag, join_messages, qiita_retention, zenn_retention,
  msg_tags_failed, msg_timeout, msg_canceled, msg_save_failed,
}
use my_tech_pulse.Job.Qiita.{QiitaEvent, run_qiita}
use my_tech_pulse.Job.Zenn.{ZennEvent, run_zenn}

-- How the context of the run stands at the end.
pub data Ending : Type 0 where
  alive timed_out interrupted : Ending

-- `Result`, without the numbers of requests.
pub record Result : Type 0 where
  pub status : Status
  pub message : Text
  pub upserted : ℕ
  pub deleted : ℕ

-- What `DeleteExpired` answers for a provider.
unfoldable pub deleted_of : Option ℕ → ℕ
deleted_of none = 0
deleted_of (some n) = n

-- `retain`, given the answers for the articles of Qiita and of Zenn.
unfoldable pub retain : Option ℕ → Option ℕ → ℕ
unfolding deleted_of
retain qiita zenn = deleted_of qiita + deleted_of zenn

unfoldable pub ending_messages : Ending → List Text
ending_messages alive = []
ending_messages timed_out = msg_timeout ∷ []
ending_messages interrupted = msg_canceled ∷ []

unfoldable pub has_ended : Ending → Bool
has_ended alive = false
has_ended timed_out = true
has_ended interrupted = true

-- `anyProblem`, without the context, of one provider.
unfoldable pub has_problem : Outcome → Bool
has_problem o = ltb 0 o.failures || o.truncated

unfoldable pub status_of : Bool → Bool → ℕ → Status
status_of db_failed any_problem ok =
    if db_failed
    then failed
    else if (ok == 0) && any_problem
    then failed
    else if any_problem
    then partial
    else succeeded

-- The result from what both providers have come to.
unfoldable pub result_of : Progress → Progress → Ending → ℕ → Result
unfolding ending_messages has_ended has_problem status_of join_messages
result_of q z ending deleted =
    let db_failed = q.db_failed || z.db_failed in
    record {
      status =
          status_of db_failed (has_problem q.outcome || has_problem z.outcome || has_ended ending)
            (q.outcome.ok + z.outcome.ok);
      message = join_messages (
          q.outcome.messages
          ++ z.outcome.messages
          ++ ending_messages ending
          ++ (if db_failed then msg_save_failed ∷ [] else []));
      upserted = q.outcome.upserted + z.outcome.upserted;
      deleted = deleted;
    }

abbrev pub no_tags : Result
no_tags = record { status = failed; message = msg_tags_failed; upserted = 0; deleted = 0 }

module _ ⦃u : Unicode⦄ where
  -- `Execute`, given the two lists of tags, the time, the events, the end of the context and the answers of
  -- `DeleteExpired`.
  unfoldable pub execute :
      Option (List TagRef)
      → Option (List FetchTag)
      → Time
      → List QiitaEvent
      → List ZennEvent
      → Ending
      → Option ℕ
      → Option ℕ
      → Result
  unfolding new_tag_matcher run_qiita run_zenn result_of retain
  execute none fetch_tags now qs zs ending qiita zenn = no_tags
  execute (some tags) none now qs zs ending qiita zenn = no_tags
  execute (some tags) (some fetch_tags) now qs zs ending qiita zenn =
      result_of (run_qiita (new_tag_matcher tags) (now - qiita_retention) qs at_start)
        (run_zenn (now - zenn_retention) zs at_start) ending (retain qiita zenn)
