-- ===== src/Planner/Local.antt =====
-- `_deterministic_plan` and the plans it is made of. A time in the message is read at the instant `now`.
use life_os_vnex.Prelude.{
  String, ◌&&◌, Bool, true, false, ℕ, Option, none, some, List, [], ◌∷◌, ◌++◌, if◌then◌else◌,
}
use life_os_vnex.Prelude.Text.{◌⧺◌, has}
use life_os_vnex.Prelude.Json.{Json, Fields, bool, str, hundredths, object, fields_of, set}
use life_os_vnex.Prelude.Env.{Env}
use life_os_vnex.Planner.Dates.{LocalTime, norm, resolve_at}
use life_os_vnex.Planner.Plans.{PlanMode, TurnPlan, clarification, single}
use life_os_vnex.Planner.Titles.{
  clean_title, after_task_prefix, after_implicit_prefix, after_to, query_of,
}

-- `_advice_answer`
unfoldable pub advice_answer : String → String
unfolding has norm
advice_answer text =
    let low = norm text in
    if has low "cheap" && has low "protein" && has low "dinner"
    then "Try eggs with lentils or tuna over rice with yogurt on the side. Cheap, high protein, and low effort."
    else "I can answer this without changing LifeOS state. No task, log, or memory was created."

-- `_formal_review_plan`
unfoldable pub formal_review_plan :
    String → String → String → Fields → String → List String → TurnPlan
formal_review_plan type summary reason draft risk events =
    single PlanMode.formal_review "This needs formal review before I act."
      (record {
        type = type;
        summary = summary;
        confidence = hundredths 78;
        risk = risk;
        requires_confirmation = true;
        formal_review_required = true;
        draft = draft;
        reason = some reason;
      })
      (events ++ "planned_action" ∷ "formal_review_created" ∷ [])

-- The draft of a command.
abbrev draft_of : Bool → String → String → String → Json → Fields
draft_of explicit type text command payload = fields_of (
    ("explicit", bool explicit)
    ∷ ("proposal_type", str type)
    ∷ ("source_text", str text)
    ∷ ("command", object (("command_type", str command) ∷ ("payload", payload) ∷ []))
    ∷ [])

-- `_complete_task_plan`
unfoldable pub complete_task_plan : String → List String → TurnPlan
unfolding query_of
complete_task_plan text events =
    let query = query_of text in
    single PlanMode.execute_now ("Done - marked matching task complete: " ⧺ query ⧺ ".")
      (record {
        type = "task.complete";
        summary = "Mark task done: " ⧺ query;
        confidence = hundredths 82;
        risk = "low";
        requires_confirmation = false;
        formal_review_required = false;
        draft = fields_of (
            ("explicit", bool true)
            ∷ ("proposal_type", str "task.complete")
            ∷ ("source_text", str text)
            ∷ ("lookup", object (("title_contains", str query) ∷ []))
            ∷ (
              "command",
              object (
                  ("command_type", str "life_item.update")
                  ∷ ("payload", object (("updates", object (("status", str "done") ∷ [])) ∷ []))
                  ∷ []),
            )
            ∷ []);
        reason = none;
      })
      events

-- `_job_payload`
unfoldable pub job_payload : String → String → String → Json → Json → String → Json
job_payload name description schedule_type schedule command timezone = object (
    ("name", str name)
    ∷ ("description_md", str description)
    ∷ ("schedule_type", str schedule_type)
    ∷ ("schedule", schedule)
    ∷ ("timezone", str timezone)
    ∷ ("target_agent_id", str "daily-planner")
    ∷ ("command", command)
    ∷ ("approval_policy", str "ask_for_mutations")
    ∷ ("enabled", bool true)
    ∷ [])

abbrev notify : String → Json
notify title = object (("type", str "notify") ∷ ("text", str title) ∷ [])

-- `_recurring_reminder_plan`
unfoldable pub recurring_reminder_plan : String → String → List String → TurnPlan
unfolding clean_title after_to job_payload formal_review_plan
recurring_reminder_plan timezone text events =
    let title = clean_title (after_to text) "Recurring reminder" in
    formal_review_plan "job.create_recurring" ("Create recurring reminder: " ⧺ title)
      "Recurring jobs need review before activation."
      (draft_of true "job.create_recurring" text "job.create" (
        job_payload ("Recurring reminder: " ⧺ title) text "recurring"
          (object (("source_text", str text) ∷ [])) (notify title) timezone))
      "medium" events

module _ (env : Env) where
  -- `value.isoformat()`
  abbrev iso_time : LocalTime → Json
  iso_time t = str (env.iso_local t.zone t.day t.minute)

  -- The payload of a task with its time, when the message names one.
  unfoldable pub task_payload : String → String → List (String × Json) → Option LocalTime → Json
  unfolding set
  task_payload title text metadata due =
      let payload = fields_of (
        ("domain", str "planning")
        ∷ ("item_type", str "task")
        ∷ ("title", str title)
        ∷ ("description_md", str text)
        ∷ ("priority", str "normal")
        ∷ ("status", str "open")
        ∷ ("metadata", object (("source", str "conversation_action_loop") ∷ metadata))
        ∷ []) in
      elim due [ none ↦ Json.obj payload | some t ↦ Json.obj (set "due_at" (iso_time t) payload) ]

  module _ (timezone : String) (now : ℕ) where
    -- `_explicit_task_plan`
    unfoldable pub explicit_task_plan : String → List String → TurnPlan
    unfolding clean_title after_task_prefix resolve_at task_payload
    explicit_task_plan text events =
        let title = clean_title (after_task_prefix text) "New task" in
        single PlanMode.execute_now ("Done - task created: " ⧺ title ⧺ ".")
          (record {
            type = "task.create";
            summary = "Create task: " ⧺ title;
            confidence = hundredths 90;
            risk = "low";
            requires_confirmation = false;
            formal_review_required = false;
            draft =
                draft_of true "task.create" text "life_item.create"
                  (task_payload title text [] (resolve_at env text timezone now));
            reason = none;
          })
          events

    -- `_explicit_reminder_plan` at the time that the message names.
    unfoldable pub reminder_plan_at : String → List String → LocalTime → TurnPlan
    unfolding clean_title after_to job_payload
    reminder_plan_at text events t =
        let title = clean_title (after_to text) "Reminder" in
        single PlanMode.execute_now
          ("Done - reminder created for " ⧺ env.friendly t.zone t.day t.minute ⧺ ".")
          (record {
            type = "reminder.create";
            summary = "Create reminder: " ⧺ title;
            confidence = hundredths 90;
            risk = "low";
            requires_confirmation = false;
            formal_review_required = false;
            draft = draft_of true "reminder.create" text "job.create" (
                job_payload ("Reminder: " ⧺ title) text "one_time"
                  (object (("run_at", iso_time t) ∷ ("source_text", str text) ∷ [])) (notify title)
                  timezone);
            reason = none;
          })
          events

    -- `_explicit_reminder_plan`
    unfoldable pub explicit_reminder_plan : String → List String → TurnPlan
    unfolding resolve_at reminder_plan_at
    explicit_reminder_plan text events = elim (resolve_at env text timezone now) [
      | none ↦ clarification "When should I remind you?" "When should I remind you?" events
      | some t ↦ reminder_plan_at text events t
    ]

    -- `_implicit_task_plan`
    unfoldable pub implicit_task_plan : String → List String → TurnPlan
    unfolding clean_title after_implicit_prefix resolve_at task_payload
    implicit_task_plan text events =
        let title = clean_title (after_implicit_prefix text) "New task" in
        single PlanMode.propose_inline ("I can create a task for this: " ⧺ title)
          (record {
            type = "task.create";
            summary = "Create task: " ⧺ title;
            confidence = hundredths 76;
            risk = "low";
            requires_confirmation = true;
            formal_review_required = false;
            draft = draft_of false "task.create" text "life_item.create" (
                task_payload title text (("inferred", bool true) ∷ [])
                  (resolve_at env text timezone now));
            reason = some "Inferred useful action from natural language.";
          })
          events
