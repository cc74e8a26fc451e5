-- ===== src/Bus/Types.antt =====
-- The requests and the results of the bus.
use life_os_vnex.Prelude.{ℕ, String, Option, none, ◌==◌, if◌then◌else◌, some}
use life_os_vnex.Prelude.Json.{Fields}

pub data CommandStatus : Type 0 where
  planned applied failed rolled_back : CommandStatus

-- `str(status)`
abbrev pub status_text : CommandStatus → String
status_text CommandStatus.planned = "planned"
status_text CommandStatus.applied = "applied"
status_text CommandStatus.failed = "failed"
status_text CommandStatus.rolled_back = "rolled_back"

-- `idempotency_key` is never read.
pub record CommandRequest : Type 0 where
  pub command_type : String
  pub payload : Fields
  pub source_review_item_id : Option String
  pub actor_type : String
  pub actor_id : String

pub record CommandResult : Type 0 where
  pub state_change_id : String
  pub command_type : String
  pub status : CommandStatus
  pub audit_event_id : String
  pub entity_type : Option String
  pub entity_id : Option String
  pub created_at : ℕ

-- `_state_snapshot_uri`
unfoldable pub snapshot_uri : String → Option String
snapshot_uri entity =
    if entity == "life_item"
    then some "state/tasks.md"
    else if entity == "finance_entry"
    then some "wiki/domains/finance.md"
    else if entity == "daily_log"
    then some "state/habits.md"
    else if entity == "prayer_log"
    then some "wiki/domains/deen.md"
    else if entity == "memory_fact"
    then some "memory/curated"
    else if entity == "job"
    then some "state/reminders.md"
    else none
