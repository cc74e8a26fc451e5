-- ===== src/Jobs.antt =====
-- apps/api/lifeos_api/routers/jobs.py and schemas/job.py: proposing a job, pausing, resuming and testing
-- one.
pub mod Approved
use life_os_vnex.Prelude.{
  ℕ, String, Bool, true, false, Option, none, some, List, [], ◌∷◌, ◌++◌, if◌then◌else◌, ◌==◌, ltb,
  map, length, take,
}
use life_os_vnex.Prelude.Text.{◌⧺◌}
use life_os_vnex.Prelude.Json.{
  Json, Float, Fields, null, bool, str, obj, int, end, object, array, fields_of, text_or_null,
}
use life_os_vnex.Prelude.Env.{Env}
use life_os_vnex.State.{
  Store, Job, JobRun, ReviewItem, AuditEvent, StatusEventRow, Action, pure, modify, ◌>>=◌, ◌>>◌,
  new_id, utc_now, create_audit_event, create_status_event, find_row, update_row,
}
use life_os_vnex.Proposals.{text_or, sort_by}

-- `JobCreate`
pub record JobCreate : Type 0 where
  pub name : String
  pub description_md : Option String
  pub schedule_type : String
  pub schedule_json : Fields
  pub timezone : String
  pub target_agent_id : Option String
  pub command_json : Fields
  pub approval_policy : String
  pub enabled : Bool

abbrev pub job_key : Job → String
job_key r = r.id

-- `payload.model_dump(mode="json")`
unfoldable pub job_fields : JobCreate → Fields
job_fields q = fields_of (
    ("name", str q.name)
    ∷ ("description_md", text_or_null q.description_md)
    ∷ ("schedule_type", str q.schedule_type)
    ∷ ("schedule_json", obj q.schedule_json)
    ∷ ("timezone", str q.timezone)
    ∷ ("target_agent_id", text_or_null q.target_agent_id)
    ∷ ("command_json", obj q.command_json)
    ∷ ("approval_policy", str q.approval_policy)
    ∷ ("enabled", bool q.enabled)
    ∷ [])

-- The review that a job is proposed in.
unfoldable pub job_review : JobCreate → String → ℕ → ReviewItem
unfolding job_fields
job_review q id now = record {
  id = id;
  kind = "job";
  title = "Create job: " ⧺ q.name;
  body_md = text_or q.description_md q.name;
  source_capture_id = none;
  source_uri = none;
  proposed_by_agent_id = some "daily-planner";
  assigned_agent_id = some "approval-manager";
  priority = "normal";
  confidence = Float.num 1000000;
  risk_level = "durable_state_mutation";
  sensitivity = "normal";
  proposed_action_json = fields_of (
      ("command_type", str "job.create")
      ∷ ("risk_level", str "durable_state_mutation")
      ∷ ("payload", obj (job_fields q))
      ∷ []);
  validation_json = end;
  status = "pending";
  expires_at = none;
  snoozed_until = none;
  created_at = now;
  updated_at = now;
}

abbrev plain_event : String → String → Fields → String → ℕ → StatusEventRow
plain_event type title detail id now = record {
  id = id;
  run_id = none;
  event_type = type;
  visibility = "discord_compact";
  title = title;
  detail_json = detail;
  created_at = now;
}

abbrev job_audit :
    String → String → String → String → String → String → Option Json → String → ℕ → AuditEvent
job_audit actor_type actor event type entity summary after id now = record {
  id = id;
  actor_type = actor_type;
  actor_id = actor;
  event_type = event;
  entity_type = type;
  entity_id = entity;
  summary = summary;
  before_json = none;
  after_json = after;
  metadata_json = end;
  trace_id = none;
  created_at = now;
}

abbrev pub with_enabled : Bool → ℕ → Job → Job
with_enabled on now r = record r { enabled = on; updated_at = now }

-- The run of a test of a job, with its three readings of the clock.
abbrev pub dry_run : Job → String → ℕ → ℕ → ℕ → JobRun
dry_run r id started finished now = record {
  id = id;
  job_id = r.id;
  run_id = none;
  status = "succeeded";
  started_at = some started;
  finished_at = some finished;
  output_summary_md = some ("Dry-run for " ⧺ r.name);
  error_json = none;
  created_at = now;
}

module _ (env : Env) where
  -- `row_to_dict(row, JOB_FIELDS)`
  unfoldable pub job_dict : Job → Json
  job_dict r = object (
      ("id", str r.id)
      ∷ ("name", str r.name)
      ∷ ("description_md", r.description_md)
      ∷ ("schedule_type", str r.schedule_type)
      ∷ ("schedule_json", obj r.schedule_json)
      ∷ ("timezone", str r.timezone)
      ∷ ("target_agent_id", r.target_agent_id)
      ∷ ("command_json", obj r.command_json)
      ∷ ("approval_policy", str r.approval_policy)
      ∷ ("enabled", bool r.enabled)
      ∷ ("created_at", str (env.iso r.created_at))
      ∷ ("updated_at", str (env.iso r.updated_at))
      ∷ [])

  -- `list_jobs`
  unfoldable pub list_jobs : Store → Json
  list_jobs s =
      let rows : List Job =
        take 100 (sort_by (λ a b. ltb b.created_at a.created_at) s.tables.jobs) in
      object (("items", array (map job_dict rows)) ∷ ("count", int (length rows)) ∷ [])

  -- `create_job_proposal`, which returns the review.
  unfoldable pub propose_job : JobCreate → Action ReviewItem
  propose_job q = do
    now ← utc_now env
    id ← new_id env "rev"
    modify (λ s. record s { reviews = s.reviews ++ job_review q id now ∷ [] })
    create_status_event env (
        plain_event "review.created" ("Job review created: " ⧺ q.name)
          (fields_of (("review_item_id", str id) ∷ [])))
    create_audit_event env (
        job_audit "system" "scheduler" "job.proposed" "review_item" id ("Proposed job: " ⧺ q.name)
          none)
    pure (job_review q id now)

  unfoldable pub enable_job : Bool → Job → Action (Option Job)
  enable_job on r = do
    now ← utc_now env
    modify (λ s. record s {
      tables = record s.tables {
        jobs = update_row job_key r.id (λ _. with_enabled on now r) s.tables.jobs;
      };
    })
    create_audit_event env (
        job_audit "user" "owner" "job.updated" "job" r.id
          ("Job " ⧺ (if on then "resumed" else "paused") ⧺ ": " ⧺ r.name) none)
    pure (some (with_enabled on now r))

  -- `_set_job_enabled`, which `pause_job` and `resume_job` call; `none` is not_found.
  unfoldable pub set_job_enabled : String → Bool → Action (Option Job)
  set_job_enabled id on s = elim (find_row job_key id s.tables.jobs) [
    | none ↦ pure none s
    | some r ↦ enable_job on r s
  ]

  module _ (timezone : String) where
    unfoldable pub run_test : Job → Action (Option JobRun)
    run_test r = do
      id ← new_id env "jobrun"
      started ← utc_now env
      finished ← utc_now env
      now ← utc_now env
      modify (λ s. record s { job_runs = s.job_runs ++ dry_run r id started finished now ∷ [] })
      create_status_event env (
          plain_event "job.started" ("Job dry-run: " ⧺ r.name)
            (fields_of (("job_id", str r.id) ∷ ("job_run_id", str id) ∷ [])))
      create_audit_event env (
          job_audit "system" "scheduler" "job.tested" "job" r.id ("Dry-ran job " ⧺ r.name)
            (some (object (("job_run_id", str id) ∷ ("settings_timezone", str timezone) ∷ []))))
      pure (some (dry_run r id started finished now))

    -- `test_job`
    unfoldable pub test_job : String → Action (Option JobRun)
    test_job id s = elim (find_row job_key id s.tables.jobs) [
      | none ↦ pure none s
      | some r ↦ run_test r s
    ]
