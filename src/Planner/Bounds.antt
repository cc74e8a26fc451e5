-- ===== src/Planner/Bounds.antt =====
-- The local times that `_resolve_natural_datetime` returns.
use life_os_vnex.Prelude.{
  ℕ, ◌+◌, ◌*◌, ◌≤◌, ◌<◌, String, ◌≡◌, some, List, [], ◌∷◌, arith, or_default, inl, inr,
  Option-cases, if◌then◌else◌,
}
use life_os_vnex.Prelude.Env.{Env}
use life_os_vnex.Planner.{time_re, hour_in, minute_in}
use life_os_vnex.Prelude.Regex.{find_match}
use life_os_vnex.Planner.{
  LocalTime, days_until, next_weekday, target_day, clock_time, part_of_day, time_from_text, zone_of,
  resolve_at, norm,
}

days_until-bounds : (weekday day : ℕ) → (1 ≤ days_until weekday day) × (days_until weekday day ≤ 7)
unfolding days_until
days_until-bounds w d = ground arith

next_weekday-bounds :
    (ws : List (String × ℕ)) (low : String) (day d : ℕ)
    → next_weekday ws low day ≡ some d
    → (day ≤ d) × (d ≤ day + 7)
unfolding next_weekday
next_weekday-bounds [] low day d h = cc
next_weekday-bounds ((n, w) ∷ ws) low day d h =
    ground (arith, days_until-bounds w day, next_weekday-bounds ws low day d)

target_day-bounds :
    (low : String) (day d : ℕ) → target_day low day ≡ some d → (day ≤ d) × (d ≤ day + 7)
unfolding target_day
target_day-bounds low day d h = ground (arith, next_weekday-bounds _ low day d)

part_of_day-bound : (low : String) → or_default (part_of_day low) (9 * 60) < 1440
unfolding part_of_day
part_of_day-bound low = ground arith

clock_time-bound : (h m : ℕ) (low : String) → or_default (clock_time h m low) (9 * 60) < 1440
unfolding clock_time
clock_time-bound h m low = ground (arith, part_of_day-bound low)

time_from_text-bound : (low : String) → or_default (time_from_text low) (9 * 60) < 1440
unfolding time_from_text
time_from_text-bound low = elim (Option-cases (find_match time_re low)) [
  | inl e ↦ rw (e, or_default) (part_of_day-bound low)
  | inr (m, e) ↦ rw (e, or_default) (clock_time-bound (hour_in m) (minute_in m) low)
]

-- A time that is resolved from a text falls on a day from the present one, in the local time zone, to
-- a week later, at a minute of that day, in the given time zone, or in UTC when that is unknown.
pub resolve_at-bounds :
    (env : Env) (text timezone : String) (now : ℕ) (t : LocalTime)
    → resolve_at env text timezone now ≡ some t
    → (env.local_day t.zone now ≤ t.day)
      × (t.day ≤ env.local_day t.zone now + 7)
      × (t.minute < 1440)
      × (t.zone ≡ (if env.knows_zone timezone then timezone else "UTC"))
unfolding resolve_at zone_of
resolve_at-bounds env text timezone now t h = ground (
  arith,
  target_day-bounds (norm text) (env.local_day (zone_of env timezone) now),
  time_from_text-bound (norm text),
)
