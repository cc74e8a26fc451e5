-- ===== src/Planner/Titles.antt =====
-- The titles that the planner cuts out of a message.
use life_os_vnex.Prelude.{ℕ, String, Bool, not, ◌||◌, none, some, [], ◌∷◌, if◌then◌else◌, eqb, ◌==◌}
use Prim.Native.Char.{code}
use life_os_vnex.Prelude.Text.{compact, strip, take_text, rstrip_by}
use life_os_vnex.Prelude.Regex.{
  Re, seqs, one_or_more, optional, space, digit, choice, words, find_match, group_of, remove,
}
use life_os_vnex.Planner.Patterns.{implicit_words, reminder_start}

-- `.`
abbrev any_char : Re
any_char = Re.set (λ n. not (eqb n 10))

abbrev spaces : Re
spaces = Re.star space

lstrip_by : (ℕ → Bool) → String → String
lstrip_by p String.[] = String.[]
lstrip_by p (String.◌∷◌ c s) =
    let rest = lstrip_by p s in if p (code c) then rest else String.◌∷◌ c s

-- `_title`
unfoldable pub short_title : String → String → String
unfolding compact take_text rstrip_by
short_title text fallback =
    let short = compact text in
    if short == ""
    then fallback
    else rstrip_by (λ n. eqb n b' ' || eqb n b'.' || eqb n b',') (take_text 120 short)

-- `\b(on\s+)?(monday|…)\b`
abbrev day_re : Re
day_re = seqs (
    Re.edge
    ∷ optional (Re.seq (Re.text "on") (one_or_more space))
    ∷ choice
        ("monday" ∷ "tuesday" ∷ "wednesday" ∷ "thursday" ∷ "friday" ∷ "saturday" ∷ "sunday" ∷ [])
    ∷ Re.edge
    ∷ [])

-- `\bat\s+\d{1,2}(:\d{2})?\s*(am|pm)?\b`
abbrev at_re : Re
at_re = seqs (
    Re.edge
    ∷ Re.text "at"
    ∷ one_or_more space
    ∷ digit
    ∷ optional digit
    ∷ optional (seqs (Re.text ":" ∷ digit ∷ digit ∷ []))
    ∷ spaces
    ∷ optional (choice ("am" ∷ "pm" ∷ []))
    ∷ Re.edge
    ∷ [])

abbrev outer : ℕ → Bool
outer n = eqb n b' ' || eqb n b'.'

-- `_clean_title`
unfoldable pub clean_title : String → String → String
unfolding remove compact lstrip_by rstrip_by short_title
clean_title text fallback =
    let undated = remove day_re (remove (words ("today" ∷ "tomorrow" ∷ [])) text) in
    let untimed =
      remove (words ("morning" ∷ "afternoon" ∷ "evening" ∷ "night" ∷ [])) (remove at_re undated) in
    short_title (rstrip_by outer (lstrip_by outer (compact untimed))) fallback

-- `_after_task_prefix`
unfoldable pub after_task_prefix : String → String
unfolding remove strip
after_task_prefix text = strip (
    remove
      (seqs (
        Re.begin
        ∷ choice ("create" ∷ "add" ∷ "make" ∷ [])
        ∷ one_or_more space
        ∷ optional (Re.seq (Re.text "a") (one_or_more space))
        ∷ choice ("task" ∷ "todo" ∷ [])
        ∷ spaces
        ∷ optional (choice ("to" ∷ "for" ∷ []))
        ∷ spaces
        ∷ []))
      text)

-- `_after_implicit_prefix`
unfoldable pub after_implicit_prefix : String → String
unfolding remove strip
after_implicit_prefix text = strip (
    remove
      (seqs (Re.begin ∷ Re.lazy any_char ∷ Re.edge ∷ choice implicit_words ∷ Re.edge ∷ spaces ∷ []))
      text)

-- `\bto\s+(.+)$`
abbrev to_re : Re
to_re = seqs (
    Re.edge ∷ Re.text "to" ∷ one_or_more space ∷ Re.group 1 (one_or_more any_char) ∷ Re.dollar ∷ [])

-- What `_after_to` keeps without a match of its pattern.
unfoldable pub after_reminder : String → String
unfolding remove strip
after_reminder text = strip (remove (seqs (Re.begin ∷ reminder_start ∷ spaces ∷ [])) text)

-- `_after_to`
unfoldable pub after_to : String → String
unfolding find_match group_of strip after_reminder
after_to text = elim (find_match to_re text) [
  | none ↦ after_reminder text
  | some m ↦ elim (group_of 1 m) [ none ↦ after_reminder text | some rest ↦ strip rest ]
]

-- `_completion_query`
unfoldable pub query_of : String → String
unfolding remove clean_title
query_of text =
    let bare =
      remove (seqs (Re.begin ∷ choice ("mark" ∷ "complete" ∷ "finish" ∷ []) ∷ spaces ∷ [])) text in
    let named =
      remove
        (seqs
          (Re.edge ∷ optional (choice ("the" ∷ "a" ∷ [])) ∷ spaces ∷ Re.text "task" ∷ Re.edge ∷ []))
        bare in
    clean_title (remove (words ("done" ∷ [])) named) "task"
