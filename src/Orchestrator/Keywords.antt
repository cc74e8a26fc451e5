-- ===== src/Orchestrator/Keywords.antt =====
-- The keyword tests of the router, each on the lowered text.
use life_os_vnex.Prelude.{String, Bool, ◌||◌, List, [], ◌∷◌}
use life_os_vnex.Prelude.Text.{has, has_any}

abbrev pub prayers : List String
prayers = "fajr" ∷ "dhuhr" ∷ "asr" ∷ "maghrib" ∷ "isha" ∷ []

unfoldable pub looks_like_finance : String → Bool
looks_like_finance low =
    has_any low
      ("spent" ∷ "paid" ∷ "expense" ∷ "income" ∷ "salary" ∷ "mad" ∷ "usd" ∷ "eur" ∷ "$" ∷ "€" ∷ [])

unfoldable pub looks_like_work : String → Bool
looks_like_work low =
    has_any low
      ("work" ∷ "task" ∷ "todo" ∷ "submit" ∷ "deadline" ∷ "blocker" ∷ "hr" ∷ "workday" ∷ [])

unfoldable pub looks_like_health : String → Bool
looks_like_health low =
    has_any low ("sleep" ∷ "water" ∷ "gym" ∷ "workout" ∷ "walk" ∷ "meal" ∷ "health" ∷ "energy" ∷ [])

unfoldable pub looks_like_family : String → Bool
looks_like_family low =
    has_any low ("family" ∷ "wife" ∷ "parents" ∷ "mother" ∷ "father" ∷ "call my" ∷ "visit" ∷ [])

unfoldable pub looks_like_prayer : String → Bool
looks_like_prayer low = has_any low prayers || has low "prayer"

unfoldable pub looks_like_research : String → Bool
looks_like_research low =
    has_any low ("research" ∷ "find sources" ∷ "investigate" ∷ "compare" ∷ "summarize" ∷ [])

unfoldable pub looks_like_memory : String → Bool
looks_like_memory low = has_any low ("remember that" ∷ "important:" ∷ "save this" ∷ "memory:" ∷ [])

unfoldable pub looks_like_job : String → Bool
looks_like_job low =
    has_any low ("every day" ∷ "every weekday" ∷ "daily at" ∷ "weekly" ∷ "remind me every" ∷ [])
