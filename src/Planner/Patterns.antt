-- ===== src/Planner/Patterns.antt =====
-- The patterns of the planner, and the tests on a message that is normalised.
use life_os_vnex.Prelude.{
  String, Bool, false, not, ◌||◌, ◌&&◌, Option, none, some, List, [], ◌∷◌, ℕ, any, if◌then◌else◌,
  ◌==◌,
}
use life_os_vnex.Prelude.Text.{has, starts_with, member}
use life_os_vnex.Prelude.Regex.{Re, seqs, one_or_more, optional, space, choice, words, matches}

-- `EXPLICIT_TASK_RE`
abbrev pub explicit_task_re : Re
explicit_task_re = seqs (
    Re.begin
    ∷ choice ("create" ∷ "add" ∷ "make" ∷ [])
    ∷ one_or_more space
    ∷ optional (Re.seq (Re.text "a") (one_or_more space))
    ∷ choice ("task" ∷ "todo" ∷ [])
    ∷ Re.edge
    ∷ [])

-- `remind me|set (a )?reminder|create (a )?reminder`
abbrev pub reminder_start : Re
reminder_start = Re.alt (Re.text "remind me") (
    Re.alt (seqs (Re.text "set " ∷ optional (Re.text "a ") ∷ Re.text "reminder" ∷ []))
      (seqs (Re.text "create " ∷ optional (Re.text "a ") ∷ Re.text "reminder" ∷ [])))

-- `EXPLICIT_REMINDER_RE`
abbrev pub explicit_reminder_re : Re
explicit_reminder_re = seqs (Re.begin ∷ reminder_start ∷ Re.edge ∷ [])

-- `EXPLICIT_COMPLETE_RE`
abbrev pub explicit_complete_re : Re
explicit_complete_re = seqs (Re.begin ∷ choice ("mark" ∷ "complete" ∷ "finish" ∷ []) ∷ Re.edge ∷ [])

-- `i need to|need to|i should|should|have to|got to`
abbrev pub implicit_words : List String
implicit_words = "i need to" ∷ "need to" ∷ "i should" ∷ "should" ∷ "have to" ∷ "got to" ∷ []

-- `IMPLICIT_ACTION_RE`
abbrev pub implicit_action_re : Re
implicit_action_re = words implicit_words

-- `MEMORY_RE`
abbrev pub memory_re : Re
memory_re = words (
    "remember that" ∷ "remember this" ∷ "i prefer" ∷ "my preference" ∷ "from now on" ∷ "always"
    ∷ "never" ∷ [])

-- `RECURRING_RE`
abbrev pub recurring_re : Re
recurring_re =
    words ("every" ∷ "daily" ∷ "weekly" ∷ "monthly" ∷ "weekdays" ∷ "weekend" ∷ "each" ∷ [])

-- `DESTRUCTIVE_RE`
abbrev pub destructive_re : Re
destructive_re = words (
    "delete" ∷ "remove permanently" ∷ "wipe" ∷ "destroy" ∷ "drop table" ∷ "reset" ∷ "factory reset"
    ∷ [])

-- `FILE_TERMINAL_RE`
abbrev pub file_terminal_re : Re
file_terminal_re = words (
    "terminal" ∷ "shell" ∷ "command line" ∷ "bash" ∷ "run `" ∷ "run npm" ∷ "run docker"
    ∷ "write file" ∷ "edit file" ∷ "read file" ∷ "open file" ∷ "provider" ∷ "model setting"
    ∷ "api key" ∷ "credential" ∷ "send email" ∷ "post to" ∷ "transfer" ∷ "pay" ∷ [])

-- `^(a|b|…)$`
abbrev whole : List String → Re
whole ts = seqs (Re.begin ∷ choice ts ∷ Re.dollar ∷ [])

-- `APPROVE_RE`
abbrev pub approve_re : Re
approve_re = whole (
    "yes" ∷ "yep" ∷ "yeah" ∷ "do it" ∷ "go ahead" ∷ "create it" ∷ "create them" ∷ "add it"
    ∷ "add them" ∷ "sure" ∷ "ok" ∷ "okay" ∷ [])

-- `REJECT_RE`
abbrev pub reject_re : Re
reject_re = whole (
    "no" ∷ "nope" ∷ "ignore" ∷ "ignore it" ∷ "cancel" ∷ "cancel it" ∷ "don't" ∷ "do not"
    ∷ "never mind" ∷ "nevermind" ∷ [])

-- `ASK_RE`
abbrev pub ask_re : Re
ask_re =
    words
      ("what exactly" ∷ "what will" ∷ "show me" ∷ "details" ∷ "what are you" ∷ "what would" ∷ [])

-- `REVISE_RE`
abbrev pub revise_re : Re
revise_re = words (
    "make it" ∷ "change" ∷ "instead" ∷ "only" ∷ "first" ∷ "second" ∷ "third" ∷ "saturday" ∷ "sunday"
    ∷ "monday" ∷ "tomorrow" ∷ "morning" ∷ "evening" ∷ [])

-- `ORPHAN_REVISION_RE`
abbrev pub orphan_revision_re : Re
orphan_revision_re =
    seqs (Re.begin ∷ choice ("make" ∷ "change" ∷ "only" ∷ "instead" ∷ []) ∷ Re.edge ∷ [])

-- `QUESTION_STARTS`
abbrev pub question_starts : List String
question_starts =
    "what " ∷ "why " ∷ "how " ∷ "when " ∷ "where " ∷ "who " ∷ "which " ∷ "can you explain"
    ∷ "give me " ∷ "suggest " ∷ "recommend " ∷ []

-- `s.endswith("?")`
ends_in_mark : String → Bool
ends_in_mark String.[] = false
ends_in_mark (String.◌∷◌ c s) = let rest = ends_in_mark s in String.◌∷◌ c s == "?" || rest

-- `_is_advice_or_question`
unfoldable pub is_question : String → Bool
unfolding ends_in_mark starts_with
is_question low = ends_in_mark low || any (starts_with low) question_starts

-- `_is_explicit_action`
unfoldable pub is_explicit_action : String → Bool
unfolding matches
is_explicit_action low =
    matches explicit_task_re low
    || matches explicit_reminder_re low
    || matches explicit_complete_re low

-- `DESTRUCTIVE_RE.search(lower) or FILE_TERMINAL_RE.search(lower)`
unfoldable pub is_risky : String → Bool
unfolding matches
is_risky low = matches destructive_re low || matches file_terminal_re low

unfoldable pub is_memory : String → Bool
unfolding matches
is_memory low = matches memory_re low

-- `RECURRING_RE.search(lower) and ("remind me" in lower or "reminder" in lower)`
unfoldable pub is_recurring_reminder : String → Bool
unfolding matches has
is_recurring_reminder low = matches recurring_re low && (has low "remind me" || has low "reminder")

-- `ORPHAN_REVISION_RE.search(lower) and not EXPLICIT_TASK_RE.search(lower)`
unfoldable pub is_orphan : String → Bool
unfolding matches
is_orphan low = matches orphan_revision_re low && not (matches explicit_task_re low)

abbrev pub greetings : List String
greetings = "hi" ∷ "hey" ∷ "hello" ∷ "yo" ∷ "salam" ∷ "thanks" ∷ "thank you" ∷ []

unfoldable pub is_greeting : String → Bool
unfolding member
is_greeting low = member low greetings

-- A message that says that a task is done.
unfoldable pub is_completion : String → Bool
unfolding matches has starts_with
is_completion low =
    matches explicit_complete_re low && has low "done" || starts_with low "mark " && has low "done"

-- `_ordinal_index`
unfoldable pub ordinal_index : String → Option ℕ
unfolding has
ordinal_index low =
    if has low "first"
    then some 0
    else if has low "second"
    then some 1
    else if has low "third"
    then some 2
    else none
