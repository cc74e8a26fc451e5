-- ===== src/Captures/Receiving.antt =====
-- `write_raw_capture` and the first rows of `create_capture`.
use life_os_vnex.Prelude.{ℕ, String, true, false, Option, none, some, [], ◌∷◌, ◌++◌, or_default}
use life_os_vnex.Prelude.Text.{◌⧺◌, take_text}
use life_os_vnex.Prelude.Json.{Json, Float, Fields, str, obj, end, fields_of, get_or, set}
use life_os_vnex.Prelude.Env.{Env, text_of}
use life_os_vnex.State.{
  RawCapture, AgentRun, StatusEventRow, Action, pure, modify, ◌>>=◌, ◌>>◌, new_id, utc_now,
  write_file, create_status_event,
}

-- `CaptureCreate`
pub record CaptureCreate : Type 0 where
  pub source_platform : String
  pub source_channel_id : Option String
  pub external_message_id : Option String
  pub external_thread_id : Option String
  pub capture_kind : String
  pub raw_text : Option String
  pub received_at : ℕ
  pub sensitivity : String
  pub metadata : Fields

-- Where the raw text of a capture was written, and its digest.
pub record RawFile : Type 0 where
  pub uri : String
  pub digest : String

abbrev pub metadata_of : CaptureCreate → Fields
metadata_of q = set "sensitivity" (str q.sensitivity) q.metadata

abbrev pub received_row : CaptureCreate → String → RawFile → ℕ → RawCapture
received_row q id file now = record {
  id = id;
  source_platform = q.source_platform;
  source_channel_id = q.source_channel_id;
  source_external_message_id = q.external_message_id;
  source_thread_id = q.external_thread_id;
  source_user_id = none;
  capture_kind = q.capture_kind;
  raw_text = q.raw_text;
  raw_uri = file.uri;
  content_hash = file.digest;
  status = "received";
  sensitivity = q.sensitivity;
  received_at = q.received_at;
  created_at = now;
  updated_at = now;
}

abbrev pub routing_run : String → String → String → ℕ → AgentRun
routing_run id trace capture_id now = record {
  id = id;
  session_id = none;
  root_capture_id = some capture_id;
  initiating_user_id = none;
  orchestrator_agent_id = "orchestrator";
  active_agent_id = some "capture-router";
  status = "routing";
  status_summary = some "Routing capture";
  provider_used = none;
  model_used = none;
  cost_usd = Float.num 0;
  token_usage_json = fields_of (("input_tokens", Json.int 0) ∷ ("output_tokens", Json.int 0) ∷ []);
  trace_id = some trace;
  iteration_cap = 5;
  current_iteration = 0;
  cancel_requested = false;
  cancelled_at = none;
  result_json = end;
  finished_at = none;
  created_at = now;
  updated_at = now;
}

abbrev pub capture_event : String → String → String → Fields → String → ℕ → StatusEventRow
capture_event run type title detail id now = record {
  id = id;
  run_id = some run;
  event_type = type;
  visibility = "discord_compact";
  title = title;
  detail_json = detail;
  created_at = now;
}

-- The capture as it is received: its id, its file and the time.
pub record Received : Type 0 where
  pub capture_id : String
  pub run_id : String
  pub trace_id : String
  pub file : RawFile
  pub now : ℕ

module _ (env : Env) (timezone : String) where
  -- The text of the file of a capture.
  unfoldable pub capture_text : CaptureCreate → String → ℕ → String
  capture_text q id now =
      "---\nid: "
      ⧺ id
      ⧺ "\nplatform: "
      ⧺ q.source_platform
      ⧺ "\nkind: "
      ⧺ q.capture_kind
      ⧺ "\ncaptured_at: "
      ⧺ env.iso now
      ⧺ "\nmetadata: "
      ⧺ env.json_text (obj (metadata_of q))
      ⧺ "\n---\n\n"
      ⧺ or_default q.raw_text ""
      ⧺ "\n"

  abbrev capture_path : CaptureCreate → String → ℕ → String
  capture_path q id now =
      "raw/"
      ⧺ q.source_platform
      ⧺ "/"
      ⧺ env.date_path timezone now
      ⧺ "/"
      ⧺ take_text 2 q.source_platform
      ⧺ "_"
      ⧺ id
      ⧺ ".md"

  abbrev hash_line : String → String → String
  hash_line uri digest =
      env.json_text (obj (fields_of (("uri", str uri) ∷ ("sha256", str digest) ∷ []))) ⧺ "\n"

  abbrev source_line : CaptureCreate → String → String → ℕ → String
  source_line q uri digest now =
      uri
      ⧺ ","
      ⧺ digest
      ⧺ ","
      ⧺ q.capture_kind
      ⧺ ","
      ⧺ text_of env (get_or "sensitivity" (str "normal") (metadata_of q))
      ⧺ ","
      ⧺ env.iso now
      ⧺ "\n"

  -- `write_raw_capture` with its two lines in the manifests.
  unfoldable pub write_raw_capture : CaptureCreate → String → Action RawFile
  write_raw_capture q id = do
    now ← utc_now env
    written ← utc_now env
    let content = capture_text q id written
    uri ← write_file env (capture_path q id now) content false
    let digest = env.sha256 content
    write_file env "manifests/hashes.jsonl" (hash_line uri digest) true
    listed ← utc_now env
    write_file env "manifests/sources.csv" (source_line q uri digest listed) true
    pure (record { uri = uri; digest = digest })

  -- `create_capture` up to the routing.
  unfoldable pub receive_capture : CaptureCreate → Action Received
  receive_capture q = do
    now ← utc_now env
    capture_id ← new_id env "cap"
    file ← write_raw_capture q capture_id
    modify (λ s. record s { captures = s.captures ++ received_row q capture_id file now ∷ [] })
    run_id ← new_id env "run"
    trace_id ← new_id env "trace"
    modify (λ s. record s { runs = s.runs ++ routing_run run_id trace_id capture_id now ∷ [] })
    create_status_event env (
        capture_event run_id "capture.received" "Received capture" (
          fields_of
            (("capture_id", str capture_id) ∷ ("source_platform", str q.source_platform) ∷ [])))
    create_status_event env (
        capture_event run_id "capture.routing" "Routing/classifying capture"
          (fields_of (("capture_id", str capture_id) ∷ [])))
    pure (record {
      capture_id = capture_id;
      run_id = run_id;
      trace_id = trace_id;
      file = file;
      now = now;
    })
