-- ===== src/Slots/Tests.antt =====
-- `LatestSlot` and `NextSlot` on concrete times, counted here from a local midnight.
use my_tech_pulse.Base.{◌+◌, ◌-◌, ◌*◌, ◌≡◌, ◌≤◌, refl, Time, hour, minute, day, arith}
use my_tech_pulse.Slots.{
  slot_on, latest_from, latest_slot, next_from, next_slot, IsSlot, morning, zone, latest_slot_lem,
}

-- 00:00 in Tokyo.
abbrev midnight : Time
midnight = 800 * day - zone

program : Unit {0}
unfolding slot_on latest_from latest_slot next_from next_slot
program = tt

night : latest_slot (midnight + 5 * hour + 59 * minute) ≡ midnight - day + 16 * hour + 30 * minute
unfolding program
night = refl

sharp : latest_slot (midnight + 6 * hour) ≡ midnight + 6 * hour
unfolding program
sharp = refl

next : next_slot (midnight + 11 * hour + 30 * minute) ≡ midnight + 16 * hour + 30 * minute
unfolding program
next = refl

tomorrow : next_slot (midnight + 20 * hour) ≡ midnight + day + 6 * hour
unfolding program
tomorrow = refl

six : IsSlot (midnight + 6 * hour)
six = morning 800 (omega arith)

latest_slot_lem_example :
    IsSlot (latest_slot (midnight + 8 * hour))
    × (latest_slot (midnight + 8 * hour) ≤ midnight + 8 * hour)
    × (midnight + 6 * hour ≤ latest_slot (midnight + 8 * hour))
latest_slot_lem_example =
    latest_slot_lem (midnight + 8 * hour) (midnight + 6 * hour) (omega arith) six (omega arith)
