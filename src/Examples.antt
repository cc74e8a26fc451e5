-- ===== src/Examples.antt =====
-- Concrete values for the tests: an environment, an empty store and the requests they run on.
mod PolicyRuns
mod BusRuns
mod ProposalRuns
mod ToolRuns
mod PlannerRuns
mod CaptureRuns
mod SessionRuns
mod RuntimeRuns
mod JobRuns
use life_os_vnex.Prelude.{
  ℕ, String, Bool, true, false, Option, none, some, List, [], ◌∷◌, if◌then◌else◌, ◌==◌, eqb, ◌*◌,
  ◌+◌,
}
use life_os_vnex.Prelude.Json.{Whole, Json, Float, Fields, str, object, fields_of, hundredths}
use life_os_vnex.Prelude.Env.{Env}
use life_os_vnex.State.{Store, Tables}
use life_os_vnex.Policy.{Request}
use life_os_vnex.Bus.{CommandRequest}

-- The first three random parts are told apart; the clock ticks once a second.
abbrev pub sample_env : Env
sample_env = record {
  repr = λ _. "<repr>";
  float_of_text = λ s. if s == "42" then some (Float.num 42000000) else none;
  int_of_text = λ s. if s == "12" then some (Whole.plus 12) else none;
  instant_of_text = λ s. if s == "2026-05-01T10:00:00+00:00" then some 5000000 else none;
  dict_of_items = λ _. none;
  hex = λ n. if eqb n 0 then "a0" else if eqb n 1 then "a1" else "a2";
  clock = λ n. 1000000 * n;
  local_date = λ tz n. "2026-05-01";
  local_day = λ tz n. 739737;
  knows_zone = λ tz. tz == "UTC";
  iso = λ n. "2026-05-01T00:00:00+00:00";
  iso_local = λ tz day minute. "2026-05-02T09:00:00+00:00";
  friendly = λ tz day minute. "Saturday at 9:00 AM";
  friendly_text =
      λ s. if s == "2026-05-02T09:00:00+00:00" then some "Saturday at 9:00 AM" else none;
  date_path = λ tz n. "2026/05/01";
  json_text = λ _. "{}";
  dumps = λ _. "{}";
  json_of_text = λ s. none;
  vault_error = λ path content. none;
  sha256 = λ s. "digest";
}

abbrev pub no_tables : Tables
no_tables = record {
  items = [];
  entries = [];
  daily_logs = [];
  prayer_logs = [];
  facts = [];
  jobs = [];
  tool_calls = [];
}

abbrev pub empty_store : Store
empty_store = record {
  tables = no_tables;
  changes = [];
  audits = [];
  events = [];
  reviews = [];
  decisions = [];
  proposals = [];
  messages = [];
  files = [];
  captures = [];
  interpretations = [];
  runs = [];
  handoffs = [];
  notifications = [];
  provider_calls = [];
  agents = [];
  settings = [];
  models = [];
  sessions = [];
  users = [];
  candidates = [];
  job_runs = [];
  draws = 0;
  reads = 0;
}

-- `{"command_type": "prayer_log.create", …}` from the owner in balanced mode.
abbrev pub prayer_request : Request
prayer_request = record {
  action = fields_of (
      ("command_type", str "prayer_log.create")
      ∷ ("risk_level", str "durable_state_mutation")
      ∷ ("payload", object (("prayer", str "fajr") ∷ []))
      ∷ []);
  confidence = hundredths 82;
  sensitivity = "normal";
  autonomy_mode = "balanced";
  owner_authenticated = true;
  missing_context = [];
  intent_labels = "deen" ∷ "prayer_log" ∷ [];
}

-- A command of the owner's.
abbrev pub owner_command : String → Fields → CommandRequest
owner_command type d = record {
  command_type = type;
  payload = d;
  source_review_item_id = none;
  actor_type = "user";
  actor_id = "owner";
}

abbrev pub create_task : CommandRequest
create_task = owner_command "life_item.create" (fields_of (("title", str "Pay rent") ∷ []))

abbrev pub update_task : Fields
update_task = fields_of (
    ("item_id", str "item_a0")
    ∷ ("updates", object (("status", str "done") ∷ ("owner", str "x") ∷ []))
    ∷ [])
