-- ===== src/Slots.antt =====
-- server/internal/articlefetch/schedule.go: the three daily times of the article fetch, 6:00, 11:30
-- and 16:30 in Japan. A time counts from midnight UTC of the first day of year 1, and Go's time has
-- no leap seconds, so a day starts at each multiple of `day`. `Location` is taken as its fixed zone of
-- nine hours, which Asia/Tokyo is at every time since 1951.
mod Tests
use my_tech_pulse.Base.{
  ℕ, ◌+◌, ◌-◌, ◌*◌, ◌/◌, ◌≤◌, ◌<◌, ◌≡◌, refl, ◌⊎◌, inl, inr, [], ◌∷◌, List, Bool, true, false, ltb,
  leb, if◌then◌else◌, arith, Time, Duration, minute, hour, day,
}

pub record SlotTime : Type 0 where
  pub hour_of : ℕ
  pub minute_of : ℕ

abbrev pub slot_times : List SlotTime
slot_times =
    record { hour_of = 6; minute_of = 0 }
    ∷ record { hour_of = 11; minute_of = 30 }
    ∷ record { hour_of = 16; minute_of = 30 }
    ∷ []

-- `Location`: how far the local clock is ahead.
abbrev pub zone : Duration
zone = 9 * hour

-- The time of day `s` on the local date of `t`.
unfoldable pub slot_on : Time → SlotTime → Time
slot_on t s = (t + zone) / day * day + s.hour_of * hour + s.minute_of * minute - zone

-- The loop of `LatestSlot`, over the times of day from the last.
unfoldable pub latest_from : Time → List SlotTime → Time → Time
latest_from now [] before = before
latest_from now (s ∷ rest) before =
    if leb (slot_on now s) now then slot_on now s else latest_from now rest before

abbrev pub first_slot_time : SlotTime
first_slot_time = record { hour_of = 6; minute_of = 0 }

abbrev pub last_slot_time : SlotTime
last_slot_time = record { hour_of = 16; minute_of = 30 }

unfoldable pub latest_slot : Time → Time
unfolding latest_from slot_on
latest_slot now =
    latest_from now
      (last_slot_time ∷ record { hour_of = 11; minute_of = 30 } ∷ first_slot_time ∷ [])
      (slot_on (now - day) last_slot_time)

-- The loop of `NextSlot`.
unfoldable pub next_from : Time → List SlotTime → Time → Time
next_from now [] after = after
next_from now (s ∷ rest) after =
    if ltb now (slot_on now s) then slot_on now s else next_from now rest after

unfoldable pub next_slot : Time → Time
unfolding next_from slot_on
next_slot now = next_from now slot_times (slot_on (now + day) first_slot_time)

-- The times of the fetch: one of the three times of a local day.
pub data IsSlot (t : Time) : Type 0 where
  morning : (d : ℕ) → t + zone ≡ d * day + 6 * hour → IsSlot t
  noon : (d : ℕ) → t + zone ≡ d * day + 11 * hour + 30 * minute → IsSlot t
  evening : (d : ℕ) → t + zone ≡ d * day + 16 * hour + 30 * minute → IsSlot t

if_either {ℓ} : (P : Time → Type ℓ) (b : Bool) (x y : Time) → P x → P y → P (if b then x else y)
if_either P true x y p q = p
if_either P false x y p q = q

slot_on-IsSlot :
    (t : Time)
    → day ≤ t
    → IsSlot (slot_on t first_slot_time)
      × IsSlot (slot_on t (record { hour_of = 11; minute_of = 30 }))
      × IsSlot (slot_on t last_slot_time)
unfolding slot_on
slot_on-IsSlot t h = (
  morning ((t + zone) / day) (omega arith),
  noon ((t + zone) / day) (omega arith),
  evening ((t + zone) / day) (omega arith),
)

slot_on-IsSlot_last : (t : Time) → IsSlot (slot_on t last_slot_time)
unfolding slot_on
slot_on-IsSlot_last t = evening ((t + zone) / day) (omega arith)

latest_slot-IsSlot : (now : Time) → day ≤ now → IsSlot (latest_slot now)
unfolding latest_slot
latest_slot-IsSlot now h =
    let (a, b, c) = slot_on-IsSlot now h in
    if_either IsSlot _ _ _ c
      (if_either IsSlot _ _ _ b (if_either IsSlot _ _ _ a (slot_on-IsSlot_last (now - day))))

next_slot-IsSlot : (now : Time) → day ≤ now → IsSlot (next_slot now)
unfolding next_slot
next_slot-IsSlot now h =
    let (a, b, c) = slot_on-IsSlot now h in
    if_either IsSlot _ _ _ a (
      if_either IsSlot _ _ _ b
        (if_either IsSlot _ _ _ c (slot_on-IsSlot (now + day) (omega arith)).0))

latest_slot-last : (now s : Time) → day ≤ now → IsSlot s → s ≤ now → s ≤ latest_slot now
unfolding latest_slot
latest_slot-last now s h (morning d e) le = ground arith
latest_slot-last now s h (noon d e) le = ground arith
latest_slot-last now s h (evening d e) le = ground arith

next_slot-first : (now s : Time) → day ≤ now → IsSlot s → now < s → next_slot now ≤ s
unfolding next_slot
next_slot-first now s h (morning d e) lt = ground arith
next_slot-first now s h (noon d e) lt = ground arith
next_slot-first now s h (evening d e) lt = ground arith

-- `LatestSlot` gives one of the three daily times, not after `now`, and no later one that is not
-- after `now` either.
pub latest_slot_lem :
    (now s : Time)
    → day ≤ now
    → IsSlot s
    → s ≤ now
    → IsSlot (latest_slot now) × (latest_slot now ≤ now) × (s ≤ latest_slot now)
unfolding latest_slot
latest_slot_lem now s h i le =
    (latest_slot-IsSlot now h, ground arith, latest_slot-last now s h i le)

-- `NextSlot` gives one of the daily times, after `now`, and no earlier one that is after `now`.
pub next_slot_lem :
    (now s : Time)
    → day ≤ now
    → IsSlot s
    → now < s
    → IsSlot (next_slot now) × (now < next_slot now) × (next_slot now ≤ s)
unfolding next_slot
next_slot_lem now s h i lt = (next_slot-IsSlot now h, ground arith, next_slot-first now s h i lt)
