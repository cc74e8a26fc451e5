-- ===== src/Planner/Dates.antt =====
-- `_norm`, `_zone`, `_time_from_text` and `_resolve_natural_datetime`.
use Prim.Native.Char.{code}
use life_os_vnex.Prelude.{
  ℕ, ◌+◌, ◌-◌, ◌*◌, ◌%◌, String, ◌&&◌, Option, none, some, List, [], ◌∷◌, ltb, leb, eqb,
  if◌then◌else◌, ◌==◌, or_default,
}
use life_os_vnex.Prelude.Text.{strip, lower, compact, has}
use life_os_vnex.Prelude.Env.{Env}
use life_os_vnex.Prelude.Regex.{
  Re, Found, seqs, one_or_more, optional, space, digit, choice, find_match, group_of,
}
use life_os_vnex.State.{Action, pure, ◌>>=◌, utc_now}

unfoldable pub norm : String → String
norm s = compact (lower (strip s))

-- A local time: the ordinal of its day, its minute of the day and its time zone.
pub record LocalTime : Type 0 where
  pub day : ℕ
  pub minute : ℕ
  pub zone : String

-- `WEEKDAYS`
abbrev pub weekdays : List (String × ℕ)
weekdays =
    ("monday", 0)
    ∷ ("tuesday", 1)
    ∷ ("wednesday", 2)
    ∷ ("thursday", 3)
    ∷ ("friday", 4)
    ∷ ("saturday", 5)
    ∷ ("sunday", 6)
    ∷ []

-- `date.weekday()`
abbrev pub weekday_of : ℕ → ℕ
weekday_of day = (day + 6) % 7

-- The days to the next such weekday, a week when it is today's.
unfoldable pub days_until : ℕ → ℕ → ℕ
days_until weekday day =
    let days = (weekday + (7 - weekday_of day)) % 7 in if eqb days 0 then 7 else days

unfoldable pub next_weekday : List (String × ℕ) → String → ℕ → Option ℕ
unfolding days_until
next_weekday [] low day = none
next_weekday ((name, weekday) ∷ ws) low day =
    if has low name then some (day + days_until weekday day) else next_weekday ws low day

-- The day that a text names, seen from `day`.
unfoldable pub target_day : String → ℕ → Option ℕ
unfolding next_weekday
target_day low day =
    if has low "tomorrow"
    then some (day + 1)
    else if has low "today"
    then some day
    else next_weekday weekdays low day

-- `\bat\s+(\d{1,2})(?::(\d{2}))?\s*(am|pm)?\b`
abbrev pub time_re : Re
time_re = seqs (
    Re.edge
    ∷ Re.text "at"
    ∷ one_or_more space
    ∷ Re.group 1 (Re.seq digit (optional digit))
    ∷ optional (Re.seq (Re.text ":") (Re.group 2 (Re.seq digit digit)))
    ∷ Re.star space
    ∷ optional (Re.group 3 (choice ("am" ∷ "pm" ∷ [])))
    ∷ Re.edge
    ∷ [])

-- `int` of a text of digits, from what was read before it.
number_from : ℕ → String → ℕ
number_from n String.[] = n
number_from n (String.◌∷◌ c s) = number_from (n * 10 + (code c - 48)) s

-- The hour of a match on a clock of twenty-four.
unfoldable pub hour_of : ℕ → Option String → ℕ
hour_of hour suffix =
    let later = if or_default suffix "" == "pm" && ltb hour 12 then hour + 12 else hour in
    if or_default suffix "" == "am" && eqb later 12 then 0 else later

-- The time that the word for a part of the day stands for, in minutes.
unfoldable pub part_of_day : String → Option ℕ
part_of_day low =
    if has low "morning"
    then some (9 * 60)
    else if has low "afternoon"
    then some (14 * 60)
    else if has low "evening"
    then some (18 * 60)
    else if has low "night"
    then some (20 * 60)
    else none

-- A match of the pattern, when its hour and minute are those of a clock.
unfoldable pub clock_time : ℕ → ℕ → String → Option ℕ
unfolding part_of_day
clock_time hour minute low =
    if leb hour 23 && leb minute 59 then some (hour * 60 + minute) else part_of_day low

-- The hour and the minute of a match; without a minute it is 0.
unfoldable pub hour_in : Found → ℕ
unfolding number_from hour_of
hour_in m = hour_of (number_from 0 (or_default (group_of 1 m) "")) (group_of 3 m)

unfoldable pub minute_in : Found → ℕ
unfolding number_from
minute_in m = number_from 0 (or_default (group_of 2 m) "0")

-- `_time_from_text`, in minutes
unfoldable pub time_from_text : String → Option ℕ
unfolding clock_time hour_in minute_in part_of_day
time_from_text low = elim (find_match time_re low) [
  | none ↦ part_of_day low
  | some m ↦ clock_time (hour_in m) (minute_in m) low
]

module _ (env : Env) where
  -- `_zone`
  unfoldable pub zone_of : String → String
  zone_of timezone = if env.knows_zone timezone then timezone else "UTC"

  -- The local time that a text names when it is read at the instant `now`.
  unfoldable pub resolve_at : String → String → ℕ → Option LocalTime
  unfolding zone_of target_day time_from_text norm
  resolve_at text timezone now =
      let zone = zone_of timezone in
      elim (target_day (norm text) (env.local_day zone now)) [
        | none ↦ none
        | some day ↦ some (record {
          day = day;
          minute = or_default (time_from_text (norm text)) (9 * 60);
          zone = zone;
        })
      ]

  -- `_resolve_natural_datetime`
  unfoldable pub resolve_datetime : String → String → Action (Option LocalTime)
  unfolding resolve_at utc_now
  resolve_datetime text timezone = do now ← utc_now env; pure (resolve_at text timezone now)
