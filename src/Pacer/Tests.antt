-- ===== src/Pacer/Tests.antt =====
-- Three calls at nearly the same time.
use my_tech_pulse.Base.{◌+◌, ◌*◌, ◌≡◌, refl, [], ◌∷◌, List, Time, second}
use my_tech_pulse.Pacer.{Pacer, new_pacer, reserve, starts, IsSpaced, NotEarly, starts_apart}

abbrev pacer : Pacer
pacer = record { gap = second; next = 0 }

abbrev start : Time
start = 1000 * second

abbrev nows : List Time
nows = start ∷ (start + 5) ∷ (start + 3) ∷ (start + 60 * second) ∷ []

spread :
    starts (new_pacer second) nows
    ≡ start ∷ (start + second) ∷ (start + 2 * second) ∷ (start + 60 * second) ∷ []
unfolding new_pacer starts reserve
spread = refl

starts_apart_example : IsSpaced second (starts pacer nows) × NotEarly nows (starts pacer nows)
starts_apart_example = starts_apart pacer nows
