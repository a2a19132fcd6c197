-- ===== src/Job/Days.antt =====
-- `qiitaDays`: the days that Qiita is asked for.
use my_tech_pulse.Base.{
  ℕ, zero, suc, ◌+◌, ◌-◌, ◌*◌, ◌/◌, ◌%◌, ◌≤◌, ◌<◌, ◌≡◌, Bool, true, false, ◌||◌, [], ◌∷◌, List, ltb,
  ◌==◌, if◌then◌else◌, Time, day, hour, arith, Bool-cases, inl, inr,
}
use my_tech_pulse.Job.{qiita_retention}

-- The midnight in UTC at the start of a day.
unfoldable pub day_of : Time → Time
day_of t = t - t % day

-- The loop from `end` down to `start`, for at most n days.
unfoldable pub days_from : ℕ → Time → Time → List Time
days_from zero start d = []
days_from (suc n) start d =
    let rest = days_from n start (d - day) in if ltb d start then [] else d ∷ rest

-- The loop ends after at most seven days.
unfoldable pub qiita_days : Time → List Time
unfolding day_of days_from
qiita_days now = days_from 7 (day_of (now - qiita_retention)) (day_of (now + 9 * hour))

unfoldable pub has_day : Time → List Time → Bool
has_day d [] = false
has_day d (e ∷ days) = (e == d) || has_day d days

has_day-days_from :
    (n q s e : ℕ)
    → 1 ≤ s
    → s ≤ q
    → q ≤ e
    → e < s + n
    → has_day (q * day) (days_from n (s * day) (e * day)) ≡ true
unfolding has_day days_from
has_day-days_from zero q s e one low high short = absurd (omega (arith, low, high, short))
has_day-days_from (suc n) q s e one low high short = elim (Bool-cases (q == e)) [
  | inl last ↦ ground (arith, last, low, high)
  | inr other ↦
      let before : e * day - day ≡ (e - 1) * day = omega arith in
      ground (
        arith,
        before,
        other,
        low,
        high,
        has_day-days_from n q s (e - 1) one low (ground (arith, other, high))
            (ground (arith, other, low, high, short)),
      )
]

day_of-times : (t : Time) → day_of t ≡ t / day * day
unfolding day_of
day_of-times t = omega arith

-- An instant that is still kept lies in one of the days that Qiita is asked for, whether Qiita counts days
-- in UTC or in Japanese time, nine hours ahead.
pub qiita_days_lem :
    (now t : Time)
    → qiita_retention + day ≤ now
    → now ≤ t + qiita_retention
    → t ≤ now
    → (has_day (day_of t) (qiita_days now) ≡ true)
      × (has_day (day_of (t + 9 * hour)) (qiita_days now) ≡ true)
unfolding qiita_days
qiita_days_lem now t old kept past = (
  listed t (omega (arith, kept)) (omega (arith, past)),
  listed (t + 9 * hour) (omega (arith, kept)) (omega (arith, past)),
)
  where
    listed :
        (u : Time)
        → now - qiita_retention ≤ u
        → u ≤ now + 9 * hour
        → has_day
            (day_of u)
            (days_from 7 (day_of (now - qiita_retention)) (day_of (now + 9 * hour)))
          ≡ true
    listed u low high =
        rw (day_of-times u, day_of-times (now - qiita_retention), day_of-times (now + 9 * hour))
          (has_day-days_from 7 (u / day) ((now - qiita_retention) / day) ((now + 9 * hour) / day)
            (omega (arith, old)) (omega (arith, low)) (omega (arith, high)) (omega (arith, old)))
