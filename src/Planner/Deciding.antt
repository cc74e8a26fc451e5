-- ===== src/Planner/Deciding.antt =====
-- `_deterministic_plan` and `_policy_override_plan`.
use life_os_vnex.Prelude.{
  String, not, ◌&&◌, ◌||◌, ℕ, Option, none, some, List, [], ◌∷◌, if◌then◌else◌, ◌==◌,
}
use life_os_vnex.Prelude.Text.{strip, compact, has}
use life_os_vnex.Prelude.Json.{str, float, hundredths, object, array, fields_of}
use life_os_vnex.Prelude.Env.{Env}
use life_os_vnex.Prelude.Regex.{matches}
use life_os_vnex.Planner.Dates.{norm}
use life_os_vnex.Planner.Plans.{TurnPlan, answer, clarification}
use life_os_vnex.Planner.Patterns.{
  explicit_task_re, explicit_reminder_re, implicit_action_re, destructive_re, recurring_re,
  is_question, is_explicit_action, is_risky, is_memory, is_recurring_reminder, is_greeting,
  is_completion, is_orphan,
}
use life_os_vnex.Planner.Titles.{short_title}
use life_os_vnex.Planner.Local.{
  advice_answer, formal_review_plan, complete_task_plan, recurring_reminder_plan,
  explicit_task_plan, explicit_reminder_plan, implicit_task_plan,
}

abbrev pub base_events : List String
base_events = "received_input" ∷ "understanding_request" ∷ []

-- The plan for a request to a file, the terminal, a provider, or one that destroys.
unfoldable pub risky_plan : String → String → TurnPlan
unfolding formal_review_plan short_title matches
risky_plan text low =
    formal_review_plan "terminal.run_proposal" (short_title text "Risky request")
      "File, terminal, provider, external, or destructive action requires formal review."
      (fields_of (
        (
          "command",
          object (
              ("command_type", str "none") ∷ ("payload", object (("request", str text) ∷ [])) ∷ []),
        )
        ∷ ("source_text", str text)
        ∷ []))
      (if matches destructive_re low then "destructive" else "high") base_events

-- The plan for a preference or a fact to remember.
unfoldable pub memory_plan : String → String → TurnPlan
unfolding formal_review_plan short_title has
memory_plan text low =
    formal_review_plan "memory_candidate.create" (short_title text "Memory candidate")
      "Memory and preference writes need confirmation and evidence review."
      (fields_of (
        (
          "command",
          object (
              ("command_type", str "memory_fact.create")
              ∷ (
                "payload",
                object (
                    ("fact_kind", str (if has low "prefer" then "preference" else "note"))
                    ∷ ("domain", str "planning")
                    ∷ ("statement_md", str text)
                    ∷ ("confidence", float (hundredths 70))
                    ∷ ("sensitivity", str "normal")
                    ∷ ("evidence_refs", array [])
                    ∷ []),
              )
              ∷ []),
        )
        ∷ ("source_text", str text)
        ∷ []))
      "sensitive" base_events

module _ (env : Env) (timezone : String) where
  -- The branches of `_deterministic_plan` on a compacted text and its normal form.
  unfoldable pub plan_text : ℕ → String → String → TurnPlan
  unfolding is_greeting is_question is_explicit_action is_risky is_memory is_recurring_reminder
      is_completion matches advice_answer risky_plan memory_plan recurring_reminder_plan
      explicit_reminder_plan explicit_task_plan complete_task_plan implicit_task_plan
  plan_text now text low =
      if text == ""
      then clarification "I got an empty message. What would you like me to do?"
          "What would you like me to do?" base_events
      else if is_greeting low
      then answer "Hey. I am here. Send me a question, task, reminder, or correction." base_events
      else if is_question low && not (is_explicit_action low)
      then answer (advice_answer text) base_events
      else if is_risky low
      then risky_plan text low
      else if is_memory low
      then memory_plan text low
      else if is_recurring_reminder low
      then recurring_reminder_plan timezone text base_events
      else if matches explicit_reminder_re low && matches recurring_re low
      then recurring_reminder_plan timezone text base_events
      else if matches explicit_reminder_re low
      then explicit_reminder_plan env timezone now text base_events
      else if matches explicit_task_re low
      then explicit_task_plan env timezone now text base_events
      else if is_completion low
      then complete_task_plan text base_events
      else if matches implicit_action_re low
      then implicit_task_plan env timezone now text base_events
      else answer "I heard you. I did not change anything." base_events

  -- `_deterministic_plan`
  unfoldable pub deterministic_plan : ℕ → String → TurnPlan
  deterministic_plan now message =
      let text = compact (strip message) in plan_text now text (norm text)

  -- `_policy_override_plan`
  unfoldable pub policy_override : ℕ → String → Option TurnPlan
  policy_override now message =
      let low = norm message in
      if is_orphan low
      then some (
          clarification "I do not have a pending proposal to edit. What should I create or change?"
            "What should I create or change?" base_events)
      else if is_risky low || is_memory low || is_recurring_reminder low
      then some (deterministic_plan now message)
      else none
