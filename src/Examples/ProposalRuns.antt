-- ===== src/Examples/ProposalRuns.antt =====
-- Runs of the proposals, the reviews and the dates of a text.
use life_os_vnex.Prelude.{
  ◌+◌, ◌≤◌, ◌<◌, true, false, ◌≡◌, refl, some, none, List, [], ◌∷◌, ◌++◌, length, if◌then◌else◌,
}
use life_os_vnex.Prelude.Text.{member, has, lower, strip, compact}
use life_os_vnex.Prelude.Json.{str, end, object, fields_of, hundredths}
use life_os_vnex.State.{Store, PendingActionProposal, ReviewItem, Message, ok, find_row}
use life_os_vnex.Prelude.Text.{take_text}
use mathlib.Core.Bool.{xor}
use life_os_vnex.Prelude.Regex.{find_match, group_of}
use life_os_vnex.Planner.{
  zone_of, target_day, time_from_text, hour_in, minute_in, hour_of, clock_time, norm, LocalTime,
  resolve_at,
}
use life_os_vnex.Planner.Bounds.{resolve_at-bounds}
use life_os_vnex.Proposals.{
  ActionProposal, Origin, inline_row, Decision, execute_proposal, decide_proposal,
  persist_proposals,
}
use life_os_vnex.Proposals.Execution.{Executing, execute_ends}
use life_os_vnex.Proposals.Machine.{IsStep, closed_is_final, decide-IsStep}
use life_os_vnex.Proposals.Created.{Rows, persist_adds}
use life_os_vnex.Reviews.{Choice, DecisionRequest, decide_found}
use life_os_vnex.Reviews.Statuses.{Deciding, decide_ends}
use life_os_vnex.Examples.{sample_env, empty_store}

abbrev message : Message
message = record {
  id = "msg_1";
  session_id = some "ses_1";
  run_id = none;
  role = "user";
  content_md = some "add a task to pay rent";
  content_json = none;
  source_platform = some "web";
  source_external_channel_id = none;
  source_external_thread_id = none;
  source_external_message_id = none;
  metadata_json = end;
  created_at = 0;
}

abbrev origin : Origin
origin = record { id = "ses_1"; agent = none }

abbrev task_proposal : ActionProposal
task_proposal = record {
  type = "task.create";
  summary = "Create task: Pay rent";
  confidence = hundredths 90;
  risk = "low";
  requires_confirmation = true;
  formal_review_required = false;
  draft = fields_of (
      (
        "command",
        object (
            ("command_type", str "life_item.create")
            ∷ ("payload", object (("title", str "Pay rent") ∷ []))
            ∷ []),
      )
      ∷ []);
  reason = none;
}

abbrev pending_row : PendingActionProposal
pending_row = inline_row origin message "web" 5 task_proposal "aprop_1"

abbrev closed_row : PendingActionProposal
closed_row = record pending_row { status = "rejected" }

abbrev store_with : PendingActionProposal → Store
store_with r = record empty_store { proposals = r ∷ []; messages = message ∷ [] }

abbrev review : ReviewItem
review = record {
  id = "rev_1";
  kind = "memory";
  title = "A preference";
  body_md = "";
  source_capture_id = none;
  source_uri = none;
  proposed_by_agent_id = none;
  assigned_agent_id = none;
  priority = "normal";
  confidence = hundredths 80;
  risk_level = "low";
  sensitivity = "normal";
  proposed_action_json = task_proposal.draft;
  validation_json = fields_of [];
  status = "pending";
  expires_at = none;
  snoozed_until = none;
  created_at = 1;
  updated_at = 1;
}

abbrev rejection : DecisionRequest
rejection = record {
  choice = Choice.reject;
  text = none;
  payload = fields_of [];
  source_platform = "discord";
  source_external_message_id = none;
}

execute_ends_example :
    Executing sample_env "UTC" pending_row "user" "owner"
      (store_with pending_row)
      (execute_proposal sample_env "UTC" pending_row "user" "owner" (store_with pending_row))
execute_ends_example =
    execute_ends sample_env "UTC" pending_row "user" "owner" (store_with pending_row)

closed_is_final_example :
    (decide_proposal sample_env "UTC" "aprop_1" Decision.approve (store_with closed_row)).1
    ≡ store_with closed_row
unfolding find_row member
closed_is_final_example =
    closed_is_final sample_env "UTC" "aprop_1" Decision.approve (store_with closed_row) closed_row
      refl refl

decide-IsStep_example :
    IsStep sample_env "UTC" pending_row
      (store_with pending_row)
      (decide_proposal sample_env "UTC" "aprop_1" Decision.approve (store_with pending_row)).1
unfolding find_row
decide-IsStep_example =
    decide-IsStep sample_env "UTC" "aprop_1" Decision.approve (store_with pending_row) pending_row
      refl

persist_adds_example :
    (rows : List PendingActionProposal) × ((persist_proposals sample_env origin message "web"
        (task_proposal ∷ [])
        empty_store).0
      ≡ ok rows)
    × Rows origin message "web" (sample_env.clock 0) (task_proposal ∷ []) rows
    × ((persist_proposals sample_env origin message "web"
          (task_proposal ∷ [])
          empty_store).1.proposals
        ≡ [] ++ rows)
    × (length
          (persist_proposals sample_env origin message "web"
            (task_proposal ∷ [])
            empty_store).1.audits
        ≡ length empty_store.audits + length (task_proposal ∷ []))
    × ((persist_proposals sample_env origin message "web" (task_proposal ∷ []) empty_store).1.tables
        ≡ empty_store.tables)
persist_adds_example = persist_adds sample_env origin message "web" (task_proposal ∷ []) empty_store

decide_ends_example :
    Deciding sample_env "UTC" rejection review
      (record empty_store { reviews = review ∷ [] })
      (decide_found sample_env "UTC" rejection review
        (record empty_store { reviews = review ∷ [] }))
decide_ends_example =
    decide_ends sample_env "UTC" rejection review (record empty_store { reviews = review ∷ [] })

abbrev tomorrow_noon : LocalTime
tomorrow_noon = record { day = 739738; minute = 720; zone = "UTC" }

resolve_at-bounds_example :
    (sample_env.local_day "UTC" 0 ≤ 739738)
    × (739738 ≤ sample_env.local_day "UTC" 0 + 7)
    × (720 < 1440)
    × (tomorrow_noon.zone ≡ (if sample_env.knows_zone "UTC" then "UTC" else "UTC"))
unfolding resolve_at zone_of target_day time_from_text hour_in minute_in hour_of clock_time norm has
    compact lower strip find_match group_of xor take_text
resolve_at-bounds_example =
    resolve_at-bounds sample_env "tomorrow at 12:00" "UTC" 0 tomorrow_noon refl
