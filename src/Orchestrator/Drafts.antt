-- ===== src/Orchestrator/Drafts.antt =====
-- The draft that each branch of the router writes.
use life_os_vnex.Prelude.{
  String, Bool, true, false, Option, none, some, List, [], ◌∷◌, eqb, if◌then◌else◌, ◌==◌,
  or_default, find?,
}
use life_os_vnex.Prelude.Text.{◌⧺◌, lower, has, compact, take_text, rstrip}
use life_os_vnex.Prelude.Json.{Json, Float, Fields, str, object, array, fields_of, hundredths}
use life_os_vnex.Prelude.Env.{Env}
use life_os_vnex.Orchestrator.Amount.{Money, parse_amount}

pub record Draft : Type 0 where
  pub agent_id : String
  pub domain : String
  pub sensitivity : String
  pub intent_labels : List String
  pub confidence : Float
  pub risk_level : String
  pub title : String
  pub body_md : String
  pub proposed_action : Fields
  pub needs_review : Bool
  pub missing_context : Option (List Json)

-- `{"command_type": …, "risk_level": …, "payload": …}`
abbrev pub action : String → String → List (String × Json) → Fields
action command risk payload =
    fields_of
      (("command_type", str command) ∷ ("risk_level", str risk) ∷ ("payload", object payload) ∷ [])

unfoldable pub compact_title : String → String → String
compact_title text fallback =
    let stripped = compact text in
    if stripped == "" then fallback else rstrip (take_text 80 stripped)

-- The payload of a `life_item.create` draft.
abbrev pub item_payload : String → String → String → String → String → List (String × Json)
item_payload domain item_type title text capture_id =
    ("domain", str domain)
    ∷ ("item_type", str item_type)
    ∷ ("title", str title)
    ∷ ("description_md", str text)
    ∷ ("priority", str "normal")
    ∷ ("status", str "open")
    ∷ ("source_capture_id", str capture_id)
    ∷ []

unfoldable pub work_draft : String → String → Draft
work_draft capture_id text =
    let title = compact_title text "Work task" in
    record {
      agent_id = "work.generic";
      domain = "work";
      sensitivity = "normal";
      intent_labels = "task" ∷ "work" ∷ [];
      confidence = hundredths 76;
      risk_level = "durable_state_mutation";
      title = "Work task candidate";
      body_md = "AI draft from capture:\n\n> " ⧺ text ⧺ "\n\nProposed work task: **" ⧺ title ⧺ "**";
      proposed_action =
          action "life_item.create" "durable_state_mutation"
            (item_payload "work" "task" title text capture_id);
      needs_review = true;
      missing_context = none;
    }

-- `amount or 'unclear'` in the body.
amount_text : Env → Money → String
amount_text env a = if eqb a.value 0 then "unclear" else env.repr (Json.float (Float.num a.value))

unfoldable pub finance_draft : Env → String → String → Draft
unfolding amount_text
finance_draft env capture_id text =
    let a = parse_amount text in
    record {
      agent_id = "finance";
      domain = "finance";
      sensitivity = "finance";
      intent_labels = "finance" ∷ "expense" ∷ [];
      confidence = if eqb a.value 0 then hundredths 45 else hundredths 74;
      risk_level = "finance_mutation";
      title = "Finance entry candidate";
      body_md =
          "Parsed finance capture:\n\n> "
          ⧺ text
          ⧺ "\n\nAmount: **"
          ⧺ amount_text env a
          ⧺ " "
          ⧺ a.currency
          ⧺ "**";
      proposed_action = action "finance_entry.create" "finance_mutation" (
          ("entry_type", str "expense")
          ∷ ("amount", if a.matched then Json.float (Float.num a.value) else Json.int 0)
          ∷ ("currency", str a.currency)
          ∷ ("category", str "uncategorized")
          ∷ ("note_md", str text)
          ∷ ("source_capture_id", str capture_id)
          ∷ []);
      needs_review = true;
      missing_context = some (
          if eqb a.value 0
          then object
              (("field", str "amount") ∷ ("question", str "What amount should be recorded?") ∷ [])
            ∷ []
          else []);
    }

unfoldable pub health_draft : String → String → Draft
health_draft capture_id text = record {
  agent_id = "health-fitness";
  domain = "health";
  sensitivity = "health";
  intent_labels = "health_log" ∷ [];
  confidence = hundredths 78;
  risk_level = "durable_state_mutation";
  title = "Health log candidate";
  body_md = "Proposed health log from:\n\n> " ⧺ text;
  proposed_action = action "daily_log.create" "durable_state_mutation" (
      ("domain", str "health")
      ∷ ("log_type", str (if has (lower text) "water" then "water" else "health_note"))
      ∷ ("value", object (("text", str text) ∷ []))
      ∷ ("source_capture_id", str capture_id)
      ∷ ("confidence", Json.float (hundredths 78))
      ∷ []);
  needs_review = true;
  missing_context = none;
}

-- `next((item for item in PRAYERS if item in lower), "fajr")`
unfoldable pub named_prayer : List String → String → String
named_prayer order low = or_default (find? (has low) order) "fajr"

unfoldable pub prayer_status : String → String
prayer_status low =
    if has low "on time" then "on_time" else if has low "late" then "late" else "unknown"

unfoldable pub prayer_draft : List String → String → String → String → Draft
prayer_draft order capture_id text platform =
    let low = lower text in
    let prayer = named_prayer order low in
    let status = prayer_status low in
    record {
      agent_id = "deen-prayer";
      domain = "deen";
      sensitivity = "normal";
      intent_labels = "prayer_log" ∷ [];
      confidence = hundredths 82;
      risk_level = "durable_state_mutation";
      title = "Prayer log candidate";
      body_md = "Proposed prayer log: **" ⧺ prayer ⧺ "** as **" ⧺ status ⧺ "**.";
      proposed_action = action "prayer_log.create" "durable_state_mutation" (
          ("prayer", str prayer)
          ∷ ("status", str status)
          ∷ ("source_platform", str platform)
          ∷ ("source_capture_id", str capture_id)
          ∷ []);
      needs_review = true;
      missing_context = none;
    }

unfoldable pub family_draft : String → String → Draft
family_draft capture_id text = record {
  agent_id = "family-commitments";
  domain = "family";
  sensitivity = "family";
  intent_labels = "commitment" ∷ "family" ∷ [];
  confidence = hundredths 72;
  risk_level = "durable_state_mutation";
  title = "Family commitment candidate";
  body_md = "Sensitive family/personal commitment draft:\n\n> " ⧺ text;
  proposed_action =
      action "life_item.create" "durable_state_mutation" (
        item_payload "family" "commitment" (compact_title text "Family commitment") text
          capture_id);
  needs_review = true;
  missing_context = none;
}

unfoldable pub research_draft : String → String → Draft
research_draft capture_id text = record {
  agent_id = "research";
  domain = "research";
  sensitivity = "normal";
  intent_labels = "research_topic" ∷ [];
  confidence = hundredths 80;
  risk_level = "durable_state_mutation";
  title = "Research queue candidate";
  body_md = "Proposed research item:\n\n> " ⧺ text;
  proposed_action =
      action "life_item.create" "durable_state_mutation"
        (item_payload "research" "task" (compact_title text "Research topic") text capture_id);
  needs_review = true;
  missing_context = none;
}

unfoldable pub job_draft : String → String → Draft
job_draft capture_id text = record {
  agent_id = "daily-planner";
  domain = "planning";
  sensitivity = "normal";
  intent_labels = "automation" ∷ "reminder" ∷ [];
  confidence = hundredths 70;
  risk_level = "durable_state_mutation";
  title = "Automation/job candidate";
  body_md = "Proposed scheduled job from:\n\n> " ⧺ text;
  proposed_action = action "job.create" "durable_state_mutation" (
      ("name", str (compact_title text "Scheduled reminder"))
      ∷ ("description_md", str text)
      ∷ ("schedule_type", str "natural_language")
      ∷ ("schedule", object (("source_text", str text) ∷ []))
      ∷ ("target_agent_id", str "daily-planner")
      ∷ ("command", object (("type", str "notify") ∷ ("text", str text) ∷ []))
      ∷ ("source_capture_id", str capture_id)
      ∷ []);
  needs_review = true;
  missing_context = none;
}

-- `text or "Empty capture"`
abbrev pub statement_of : String → String
statement_of text = if text == "" then "Empty capture" else text

unfoldable pub memory_draft : String → String → Draft
memory_draft capture_id text = record {
  agent_id = "memory-curator";
  domain = "memory";
  sensitivity = "normal";
  intent_labels = "memory_candidate" ∷ [];
  confidence = hundredths 62;
  risk_level = "durable_memory_write";
  title = "Memory candidate";
  body_md = "Possible durable memory candidate:\n\n> " ⧺ statement_of text;
  proposed_action = action "memory_fact.create" "durable_memory_write" (
      ("fact_kind", str "note")
      ∷ ("domain", str "planning")
      ∷ ("statement_md", str (statement_of text))
      ∷ ("confidence", Json.float (hundredths 62))
      ∷ ("sensitivity", str "normal")
      ∷ (
        "evidence_refs",
        array (object (("kind", str "raw_capture") ∷ ("id", str capture_id) ∷ []) ∷ []),
      )
      ∷ []);
  needs_review = true;
  missing_context = none;
}

unfoldable pub raw_note_draft : String → String → Draft
raw_note_draft capture_id text = record {
  agent_id = "memory-curator";
  domain = "ledger";
  sensitivity = "normal";
  intent_labels = "raw_note" ∷ [];
  confidence = hundredths 88;
  risk_level = "safe_internal_read";
  title = "Raw note archived";
  body_md = "Raw note captured without durable memory promotion:\n\n> " ⧺ statement_of text;
  proposed_action = action "none" "safe_internal_read" (
      ("source_capture_id", str capture_id)
      ∷ ("summary", str (compact_title (statement_of text) "Raw note"))
      ∷ []);
  needs_review = false;
  missing_context = none;
}
