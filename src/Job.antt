-- ===== src/Job.antt =====
-- server/internal/articlefetch/job.go: what one fetch makes of the answers of Qiita and Zenn. The workers
-- share the outcome of their provider, and what one of them does with one page or topic is an event; the
-- events of a provider come in the order in which the workers happen to reach them. What a call of
-- `caller.do` and of the store answers is data. The two requests counters are left out (see Retry), and so are
-- the log lines.
pub mod Zenn
pub mod Qiita
pub mod Execute
pub mod Problems
pub mod Texts
pub mod Messages
pub mod Days
pub mod Pages
mod Tests
use my_tech_pulse.Base.{
  ℕ, ◌+◌, ◌-◌, ◌*◌, Bool, true, false, ◌&&◌, ◌||◌, not, Option, none, some, [], ◌∷◌, ◌++◌, List,
  ltb, leb, ◌==◌, if◌then◌else◌, Text, text_eq, codes, take, Time, Duration, day,
}
use my_tech_pulse.Article.{Article}

abbrev pub qiita_retention : Duration
qiita_retention = 5 * day

abbrev pub zenn_retention : Duration
zenn_retention = 30 * day

abbrev pub qiita_max_page : ℕ
qiita_max_page = 100

abbrev pub zenn_max_consecutive_failures : ℕ
zenn_max_consecutive_failures = 10

abbrev pub max_message_runes : ℕ
max_message_runes = 500

abbrev pub msg_save_failed : Text
msg_save_failed = codes "記事の保存に失敗しました"

abbrev pub msg_call_limit : Text
msg_call_limit = codes "Qiitaの呼び出しの上限に達したため、途中で止めました"

abbrev pub msg_low_rate : Text
msg_low_rate = codes "Qiitaの残りの呼び出し回数が少ないため、途中で止めました"

abbrev pub msg_timeout : Text
msg_timeout = codes "実行時間の上限に達しました"

abbrev pub msg_canceled : Text
msg_canceled = codes "実行が中断されました"

abbrev pub msg_fetch_failed : Text
msg_fetch_failed = codes "取得に失敗しました"

abbrev pub msg_page_limit : Text
msg_page_limit = codes "Qiitaの1日分が検索の上限に達したため、取りこぼしの可能性があります"

abbrev pub msg_zenn_down : Text
msg_zenn_down = codes "Zennの失敗が続いたため、残りのトピックを取りに行きませんでした"

abbrev pub msg_tags_failed : Text
msg_tags_failed = codes "タグの一覧を読めませんでした"

abbrev pub msg_page_too_big : Text
msg_page_too_big = codes "Qiitaの応答が大きすぎるページを飛ばしました"

-- An error of a call, as far as `describe` tells them apart.
pub data FetchError : Type 0 where
  provider_error : Text → FetchError
  over_limit deadline_exceeded canceled unclassified : FetchError

unfoldable pub starts_with : Text → Text → Bool
starts_with [] s = true
starts_with (c ∷ p) [] = false
starts_with (c ∷ p) (d ∷ s) = (c == d) && starts_with p s

-- `strings.Contains`.
unfoldable pub contains : Text → Text → Bool
unfolding starts_with
contains [] p = starts_with p []
contains (c ∷ s) p = starts_with p (c ∷ s) || contains s p

unfoldable pub has_bad : Text → List Text → Bool
unfolding contains
has_bad s [] = false
has_bad s (bad ∷ rest) = contains s bad || has_bad s rest

abbrev pub bad_texts : List Text
bad_texts = codes "://" ∷ codes "Bearer" ∷ codes "Authorization" ∷ codes "token=" ∷ []

unfoldable pub safe_text : Text → Text
unfolding has_bad
safe_text s = if has_bad s bad_texts then msg_fetch_failed else s

unfoldable pub describe : FetchError → Text
unfolding safe_text
describe (provider_error s) = safe_text s
describe over_limit = msg_call_limit
describe deadline_exceeded = msg_timeout
describe canceled = msg_canceled
describe unclassified = msg_fetch_failed

-- `strings.Join` with " / ".
unfoldable pub join : List Text → Text
join [] = []
join (m ∷ []) = m
join (m ∷ n ∷ messages) = m ++ (codes " / " ++ join (n ∷ messages))

unfoldable pub join_messages : List Text → Text
unfolding join
join_messages messages = take max_message_runes (join messages)

pub record Outcome : Type 0 where
  -- The units that were read.
  pub ok : ℕ
  -- The units that were not.
  pub failures : ℕ
  pub truncated : Bool
  pub upserted : ℕ
  pub invalid : ℕ
  pub messages : List Text
  pub zero_topics : List Text

unfoldable pub has_message : Text → List Text → Bool
has_message msg [] = false
has_message msg (m ∷ messages) = text_eq m msg || has_message msg messages

unfoldable pub add_message : Text → Outcome → Outcome
unfolding has_message
add_message msg o =
    if has_message msg o.messages then o else record o { messages = o.messages ++ (msg ∷ []) }

unfoldable pub add_ok : ℕ → Outcome → Outcome
add_ok saved o = record o { ok = o.ok + 1; upserted = o.upserted + saved }

unfoldable pub add_failed_msg : Text → Outcome → Outcome
unfolding add_message
add_failed_msg msg o = add_message msg (record o { failures = o.failures + 1 })

unfoldable pub add_failed : FetchError → Outcome → Outcome
unfolding add_failed_msg describe
add_failed e o = add_failed_msg (describe e) o

unfoldable pub add_invalid : ℕ → Outcome → Outcome
add_invalid n o = record o { invalid = o.invalid + n }

-- `truncate` with the empty message.
unfoldable pub cut : Outcome → Outcome
cut o = record o { truncated = true }

unfoldable pub truncate : Text → Outcome → Outcome
unfolding cut add_message
truncate msg o = add_message msg (cut o)

-- What the workers of one provider share: `stopped` of Qiita or `down` of Zenn, `consecutive`, and
-- whether one of them has called `dbFailure.fail`.
pub record Progress : Type 0 where
  pub outcome : Outcome
  pub stopped : Bool
  pub consecutive : ℕ
  pub db_failed : Bool

abbrev pub nothing_yet : Outcome
nothing_yet = record {
  ok = 0;
  failures = 0;
  truncated = false;
  upserted = 0;
  invalid = 0;
  messages = [];
  zero_topics = [];
}

abbrev pub at_start : Progress
at_start = record { outcome = nothing_yet; stopped = false; consecutive = 0; db_failed = false }

pub record ArticleRecord : Type 0 where
  pub article : Article
  pub tag_ids : List ℕ

pub record FetchTag : Type 0 where
  pub id : ℕ
  pub name : Text
  pub zenn_topic : Text

-- What `SaveArticles` answers; an error counts against the store only while the run's context lives.
pub data Saving : Type 0 where
  stored : ℕ → Saving
  save_failed save_interrupted : Saving

-- `save`: the number of saved articles, and none where it is not ok.
unfoldable pub save : List ArticleRecord → Saving → Progress → Progress × Option ℕ
save [] a f = (f, some 0)
save (r ∷ records) (stored n) f = (f, some n)
save (r ∷ records) save_failed f = (record f { db_failed = true }, none)
save (r ∷ records) save_interrupted f = (f, none)

abbrev pub on_outcome : (Outcome → Outcome) → Progress → Progress
on_outcome g f = record f { outcome = g f.outcome }
