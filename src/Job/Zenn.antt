-- ===== src/Job/Zenn.antt =====
-- `fetchZenn`: the topics. An event is a topic that a worker takes from the channel.
use my_tech_pulse.Base.{
  ℕ, ◌+◌, true, ◌&&◌, not, Option, none, some, [], ◌∷◌, ◌++◌, List, ltb, leb, if◌then◌else◌, Text,
  Time,
}
use my_tech_pulse.Article.{Article}
use my_tech_pulse.Job.{
  FetchError, add_ok, add_failed, cut, truncate, Progress, on_outcome, ArticleRecord, FetchTag,
  Saving, save, zenn_max_consecutive_failures, msg_zenn_down,
}

pub data TopicAnswer : Type 0 where
  topic_read : List Article → TopicAnswer
  topic_interrupted : TopicAnswer
  topic_failed : FetchError → TopicAnswer

pub record TopicTurn : Type 0 where
  pub tag : FetchTag
  pub answer : TopicAnswer
  pub saving : Saving

pub data ZennEvent : Type 0 where
  zenn_skipped : ZennEvent
  zenn_topic : TopicTurn → ZennEvent

-- The articles of a topic from the cutoff on, with the tag of the topic.
unfoldable pub topic_records : Time → ℕ → List Article → List ArticleRecord
topic_records cutoff tag [] = []
topic_records cutoff tag (a ∷ articles) =
    let rest = topic_records cutoff tag articles in
    if ltb a.published_at cutoff then rest else record { article = a; tag_ids = tag ∷ [] } ∷ rest

-- A topic that was read and saved.
unfoldable pub count_topic : Text → List Article → Progress × Option ℕ → Progress
unfolding add_ok
count_topic topic articles (f, none) = f
count_topic topic [] (f, some n) =
    on_outcome (λ o. record o { zero_topics = o.zero_topics ++ (topic ∷ []) })
      (on_outcome (add_ok n) f)
count_topic topic (a ∷ articles) (f, some n) = on_outcome (add_ok n) f

-- A topic that failed: the tenth failure in a row stops the fetch.
unfoldable pub count_topic_failure : FetchError → Progress → Progress
unfolding add_failed truncate
count_topic_failure e f =
    let g = record f { outcome = add_failed e f.outcome; consecutive = f.consecutive + 1 } in
    if leb zenn_max_consecutive_failures (f.consecutive + 1) && not f.stopped
    then record g { stopped = true; outcome = truncate msg_zenn_down g.outcome }
    else g

unfoldable pub zenn_turn : Time → FetchTag → Saving → TopicAnswer → Progress → Progress
unfolding cut count_topic_failure count_topic topic_records save
zenn_turn cutoff tag saving topic_interrupted f = on_outcome cut f
zenn_turn cutoff tag saving (topic_failed e) f = count_topic_failure e f
zenn_turn cutoff tag saving (topic_read articles) f =
    count_topic tag.zenn_topic articles
      (save (topic_records cutoff tag.id articles) saving (record f { consecutive = 0 }))

unfoldable pub zenn_event : Time → ZennEvent → Progress → Progress
unfolding zenn_turn cut
zenn_event cutoff zenn_skipped f = on_outcome cut f
zenn_event cutoff (zenn_topic t) f = zenn_turn cutoff t.tag t.saving t.answer f

unfoldable pub run_zenn : Time → List ZennEvent → Progress → Progress
unfolding zenn_event
run_zenn cutoff [] f = f
run_zenn cutoff (e ∷ events) f = run_zenn cutoff events (zenn_event cutoff e f)
