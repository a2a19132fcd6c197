-- ===== src/Lib.antt =====
-- Models of the server of MyTechPulse (`server/`, in Go), which stores articles of Qiita and Zenn,
-- serves each user a feed by interest, and protects its sign-in and its API with limiters.
--
-- The parts that are modelled, and how they meet:
--   * Base: what the files share; texts, Go maps as association lists, times, tests and lists.
--     Unicode: `strings.ToLower`, `strings.TrimSpace` and unicode.IsSpace as a record of what the
--     code relies on, with the instance `ascii`.
--   * LoginLimiter: server/internal/auth/limiter.go. `Check`, `CheckIP`, `AllowBegin`, `Failure`,
--     `FailureIP`, `Success`, `ipWait`, `entryFor` and `sweep` are `check`, `check_ip`, `allow_begin`,
--     `failure`, `failure_ip`, `success`, `ip_wait`, `entry_for` and `sweep`. The sign-in handlers call
--     `Check` before they look at a password and `Failure` or `Success` after. The children are
--     about the lock of an account (Lockout, Attempts), about an address (Addresses, Begins), and about
--     the sweep, which the threshold puts off (Current, Sweeping).
--   * RateLimit: server/internal/platform/ratelimit/ratelimit.go, the token bucket in front of the
--     handlers. `New`, `PerWindow`, `Allow`, `Wait`, `Take`, `touch`, `refill`, `untilOne`, `sweep`,
--     `RetryAfterSeconds` are `new`, `per_window`, `allow`, `wait`, `take_one`, `touch`, `refill`,
--     `until_one`, `sweep`, `retry_after_seconds`. Available says what a key has left, Touch and Calls
--     how the calls change it, Rate what they add up to, Waiting whether a refused call is told the
--     right wait.
--   * Slots: server/internal/articlefetch/schedule.go, the three daily times of the fetch.
--   * Scheduler: server/internal/articlefetch/scheduler.go on the table `fetch_runs`, with the queries
--     `InsertFetchRun`, `FinishFetchRun`, `ListFetchRunsForSlot` and `AbandonStaleFetchRuns` of
--     server/db/queries/articles.sql. `decide` and `step` keep their names. Decide and History are about
--     one call, Reachable about any sequence of calls, Spacing about the delays between them, Progress
--     about the run that is due.
--   * Retry: server/internal/articlefetch/retry.go, the number of calls and the retries of the fetch.
--     `counter.take` is `take_call`, `caller.do` is `do_call`. The counter is shared by the workers of a
--     run: each turn of `do` is given how often other workers called `take` before it.
--   * Pacer: server/internal/articlefetch/pacer.go, the gap between the starts of the calls. A call of
--     `do` waits for its start there before it is counted.
--   * Interest: server/internal/interest, how clicks and saves move the weights of a user's tags:
--     `NormalizeTag`, `ValidateCurrent`, `UpdateOnClick` and `UpdateOnSave` are `normalize_tag`,
--     `validate_current`, `update_on_click` and `update_on_save`. Keys and Boosts are about the map
--     `byTag` and the loop, Learning reads a list of rows as a function from tags to weights, Bounds
--     is about the values, and Top is server/internal/interest/top.go.
--   * Feedback: server/internal/userfeedback/definition.go, which forms may be used and which answers
--     are accepted: `validate_definition`, `root_id`, `followups_for`, `validate_overall` and
--     `validate_followup`.
--   * Saved: server/internal/store/saved_articles.go, `Save` and `Unsave` (`save` and `unsave`), with
--     five queries of server/db/queries/saved_articles.sql.
--   * Article: server/internal/article/model.go, the check of an article (`validate`).
--   * Recommendation: server/internal/recommendation. `ScoreArticles`, `mergeTags`, `dedupe` and
--     `rankLimit` keep their names, in snake case. Feed has `fillWithPopular`, `validArticlesSince` and
--     `getFromDB`, which read the stored articles; Feed/Live has `Get` with the searches at the
--     providers, whose replies arrive in any order. Score, Merge and Dedupe are about one function
--     each, Feed/Ranked and Feed/Checked about the lists, Feed/Stored and Feed/Live/Warnings about
--     the two feeds. `Get` uses `top` and `validate_current` of Interest.
--   * TextCheck: server/internal/platform/textcheck/textcheck.go, which tags and user names may be used.
--   * Auth: server/internal/auth. The checks of the input (service.go, policy.go), password.go and
--     session.go are in Auth; Auth/Store has server/internal/store/auth.go over the tables, with the
--     queries of users.sql, sessions.sql and signup.sql; Auth/Service has `Signup`, `Login`,
--     `StartSession`, `Authenticate` and `Logout` as `signup`, `login`, `start_session_for`,
--     `authenticate` and `logout`. `Login` asks and tells LoginLimiter, and `Signup` checks tags with
--     TextCheck. Store/Valid and Service/Tables are about the constraints of the tables,
--     Store/Registered, Store/Rows, Store/Written, Service/Signup and Service/Registration about a registration,
--     Service/Sessions about tokens, Service/Login about who comes in, Service/Hiding about what a
--     login that fails shows, Service/Locked about the limiter in front.
--   * TagMatch: server/internal/articlefetch/tagmatch.go, from the tags of a fetched article to the table
--     `tag`: `new_tag_matcher`, `match_tag` and `match_all`.
--   * Job: server/internal/articlefetch/job.go, the body of one fetch. Job has the methods of `outcome`,
--     `save`, `describe` and `joinMessages`; Job/Qiita and Job/Zenn what a worker does with one page or
--     topic, Job/Execute `Execute` and `retain`, Job/Days `qiitaDays`, Job/Pages the loop of
--     `qiitaDay`. An event is one round of a worker, and
--     the events of a provider come in any order. Problems is about the status, Texts and Messages are
--     about the message. The status is what the run of Scheduler ends with.
--
-- State is passed explicitly. A method under a mutex, and a step under the advisory lock, is one
-- function; an interleaving of goroutines is a list of such steps. A clock is an argument. What the
-- database, the job or a context does in one call is data that the theorems range over.
--
-- Numbers. Times and durations are nanoseconds in ℕ, from Go's zero time on. `lockoutBase << level` keeps
-- the wrap-around of its int64; the other sums of times stay far below 2^63 and are plain. The buckets
-- count in float64 tokens; the model counts the exact time that a bucket is worth, `tokens * every`, and
-- keeps the margin `epsilon` as 1 in 10^9 and the rounding of `untilOne`, where the float64 under
-- `math.Ceil` may add a nanosecond, as the parameter `Floats` says. A `timestamptz` keeps microseconds:
-- `timestamptz` cuts the times that go into the queries of sessions. The shifts of `backoff` are at
-- most 2. Texts are code points, for strings that are valid UTF-8.
--
-- Bounds and fuel: `days_from` of Job/Days takes the largest number of days, seven, where the loop
-- of `qiitaDays` ends by itself; no other function runs on fuel. The loop of `do` runs along the list of what its turns
-- meet, and four turns are enough for an answer. The sweep threshold of LoginLimiter is a parameter of the
-- operations, 10,000 in the code.
--
-- Not modelled: SQL beyond the queries named above, HTTP handlers, WebAuthn, the insides of bcrypt and SHA-256, the clients of
-- Qiita and Zenn, configuration, logging, and the generated code under server/internal/store/dbgen, which
-- is input and output around the logic above; the front end, which is
-- not Go.
pub mod Article
pub mod Auth
pub mod Base
pub mod Feedback
pub mod Interest
pub mod Job
pub mod LoginLimiter
pub mod Pacer
pub mod RateLimit
pub mod Recommendation
pub mod Retry
pub mod Saved
pub mod Scheduler
pub mod Slots
pub mod TagMatch
pub mod TextCheck
pub mod Unicode
