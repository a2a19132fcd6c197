-- ===== src/Pacer.antt =====
-- server/internal/articlefetch/pacer.go: the starts of the calls of several goroutines. `wait` reserves
-- its start under the lock, which is one step here, and then waits for it; a cancelled wait keeps its
-- reservation.
mod Tests
use my_tech_pulse.Base.{
  ℕ, ◌+◌, ◌≤◌, ◌≡◌, refl, [], ◌∷◌, List, ltb, if◌then◌else◌, Time, Duration, arith, All,
}

pub record Pacer : Type 0 where
  pub gap : Duration
  pub next : Time

unfoldable pub new_pacer : Duration → Pacer
new_pacer gap = record { gap = gap; next = 0 }

-- The first half of `wait`: the pacer after it, and the time at which the caller may start.
unfoldable pub reserve : Pacer → Time → Pacer × Time
reserve p now =
    let start = if ltb p.next now then now else p.next in (record p { next = start + p.gap }, start)

-- The starts that calls at these times get, in the order in which they take the lock.
unfoldable pub starts : Pacer → List Time → List Time
unfolding reserve
starts p [] = []
starts p (now ∷ rest) = let later = starts (reserve p now).0 rest in (reserve p now).1 ∷ later

-- Each start is at least the gap after every one before it.
abbrev pub IsSpaced : Duration → List Time → Type 0
IsSpaced gap [] = Unit {0}
IsSpaced gap (s ∷ rest) = All (λ t. s + gap ≤ t) rest × IsSpaced gap rest

-- Each start is not before its call.
abbrev pub NotEarly : List Time → List Time → Type 0
NotEarly [] _ = Unit {0}
NotEarly (now ∷ nows) [] = ⊥
NotEarly (now ∷ nows) (s ∷ rest) = (now ≤ s) × NotEarly nows rest

starts-later :
    (m : Time) (p : Pacer) (nows : List Time) → m ≤ p.next → All (λ t. m ≤ t) (starts p nows)
unfolding starts reserve
starts-later m p [] h = tt
starts-later m p (now ∷ nows) h =
    (ground arith, starts-later m (reserve p now).0 nows (ground arith))

starts-IsSpaced : (p : Pacer) (nows : List Time) → IsSpaced p.gap (starts p nows)
unfolding starts reserve
starts-IsSpaced p [] = tt
starts-IsSpaced p (now ∷ nows) = (
  starts-later ((reserve p now).1 + p.gap) (reserve p now).0 nows (omega arith),
  starts-IsSpaced (reserve p now).0 nows,
)

starts-NotEarly : (p : Pacer) (nows : List Time) → NotEarly nows (starts p nows)
unfolding starts reserve
starts-NotEarly p [] = tt
starts-NotEarly p (now ∷ nows) = (ground arith, starts-NotEarly (reserve p now).0 nows)

-- Whatever the clocks of the callers say, and in whatever order they take the lock, any two starts are
-- at least the gap apart and none is before its call.
pub starts_apart :
    (p : Pacer) (nows : List Time) → IsSpaced p.gap (starts p nows) × NotEarly nows (starts p nows)
starts_apart p nows = (starts-IsSpaced p nows, starts-NotEarly p nows)
