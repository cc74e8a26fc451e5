-- ===== src/Bus/Create.antt =====
-- The commands of `_apply_payload` that add a row. Each returns the entity's type and id.
use life_os_vnex.Prelude.{ℕ, String, true, false, ◌==◌, if◌then◌else◌, ◌++◌, [], ◌∷◌}
use life_os_vnex.Prelude.Text.{◌⧺◌}
use life_os_vnex.Prelude.Json.{
  Json, Fields, null, str, obj, bool, nil, end, get_or, truthy, hundredths,
}
use life_os_vnex.Prelude.Env.{Env, text_of}
use life_os_vnex.State.{
  Store, Tables, LifeItem, FinanceEntry, DailyLog, PrayerLog, MemoryFact, Job, Action, pure, lift,
  modify, ◌>>=◌, ◌>>◌, new_id, utc_now, write_file,
}
use life_os_vnex.Bus.Values.{index, list_of, dict_of, float_of, parse_dt, text_at}
use life_os_vnex.Bus.Types.{CommandRequest}

abbrev pub in_tables : (Tables → Tables) → Store → Store
in_tables f s = record s { tables = f s.tables }

abbrev pub add_item : LifeItem → Store → Store
add_item r = in_tables (λ t. record t { items = t.items ++ r ∷ [] })

abbrev pub add_entry : FinanceEntry → Store → Store
add_entry r = in_tables (λ t. record t { entries = t.entries ++ r ∷ [] })

abbrev pub add_daily_log : DailyLog → Store → Store
add_daily_log r = in_tables (λ t. record t { daily_logs = t.daily_logs ++ r ∷ [] })

abbrev pub add_prayer_log : PrayerLog → Store → Store
add_prayer_log r = in_tables (λ t. record t { prayer_logs = t.prayer_logs ++ r ∷ [] })

abbrev pub add_fact : MemoryFact → Store → Store
add_fact r = in_tables (λ t. record t { facts = t.facts ++ r ∷ [] })

abbrev pub add_job : Job → Store → Store
add_job r = in_tables (λ t. record t { jobs = t.jobs ++ r ∷ [] })

module _ (env : Env) where
  -- The file that a command on a life item writes: that item alone.
  unfoldable pub write_tasks : LifeItem → Action String
  unfolding write_file
  write_tasks item =
      write_file env "state/tasks.md"
        ("# Tasks\n\n- [" ⧺ text_of env item.status ⧺ "] " ⧺ text_of env item.title ⧺ "\n") false

  -- `str(payload.get("local_date") or local_now(timezone).date())`
  unfoldable pub date_at : String → Fields → Action String
  unfolding utc_now
  date_at timezone d =
      let given = get_or "local_date" null d in
      if truthy given
      then pure (text_of env given)
      else do now ← utc_now env; pure (env.local_date timezone now)

  unfoldable pub create_item : Fields → String → ℕ → Action (String × String)
  unfolding new_id write_tasks text_at
  create_item d change now = do
    id ← new_id env "item"
    title ← lift (index "title" d)
    due ← lift (parse_dt env (get_or "due_at" null d))
    scheduled ← lift (parse_dt env (get_or "scheduled_at" null d))
    metadata ← lift (dict_of env (get_or "metadata" (obj end) d))
    let item : LifeItem = record {
      id = id;
      domain = str (text_at env "domain" "planning" d);
      item_type = str (text_at env "item_type" "task" d);
      title = str (text_of env title);
      description_md = get_or "description_md" null d;
      status = str (text_at env "status" "open" d);
      priority = str (text_at env "priority" "normal" d);
      due_at = due;
      scheduled_at = scheduled;
      source_capture_id = get_or "source_capture_id" null d;
      approved_state_change_id = change;
      metadata_json = metadata;
      created_at = now;
      updated_at = now;
    }
    modify (add_item item)
    write_tasks item
    pure ("life_item", id)

  unfoldable pub create_entry : String → CommandRequest → ℕ → Action (String × String)
  unfolding new_id date_at text_at
  create_entry timezone c now = do
    let d = c.payload
    id ← new_id env "fin"
    date ← date_at timezone d
    raw ← lift (index "amount" d)
    amount ← lift (float_of env raw)
    modify (
        add_entry (record {
          id = id;
          local_date = date;
          entry_type = text_at env "entry_type" "expense" d;
          amount = amount;
          currency = text_at env "currency" "MAD" d;
          category = text_at env "category" "uncategorized" d;
          note_md = get_or "note_md" null d;
          status = text_at env "status" "approved" d;
          source_capture_id = get_or "source_capture_id" null d;
          review_item_id = c.source_review_item_id;
          created_at = now;
          updated_at = now;
        }))
    pure ("finance_entry", id)

  unfoldable pub create_daily_log : String → CommandRequest → ℕ → Action (String × String)
  unfolding new_id date_at text_at
  create_daily_log timezone c now = do
    let d = c.payload
    id ← new_id env "log"
    date ← date_at timezone d
    value ← lift (dict_of env (get_or "value" (get_or "value_json" (obj end) d) d))
    modify (
        add_daily_log (record {
          id = id;
          user_id = get_or "user_id" null d;
          local_date = date;
          domain = text_at env "domain" "health" d;
          log_type = text_at env "log_type" "note" d;
          value_json = value;
          source_capture_id = get_or "source_capture_id" null d;
          review_item_id = c.source_review_item_id;
          confidence = get_or "confidence" null d;
          created_at = now;
        }))
    pure ("daily_log", id)

  unfoldable pub create_prayer_log : String → Fields → ℕ → Action (String × String)
  unfolding new_id date_at text_at
  create_prayer_log timezone d now = do
    id ← new_id env "prayer"
    date ← date_at timezone d
    prayer ← lift (index "prayer" d)
    modify (
        add_prayer_log (record {
          id = id;
          user_id = get_or "user_id" null d;
          local_date = date;
          prayer = text_of env prayer;
          status = text_at env "status" "unknown" d;
          source_platform = get_or "source_platform" null d;
          source_external_message_id = get_or "source_external_message_id" null d;
          created_at = now;
          updated_at = now;
        }))
    pure ("prayer_log", id)

  -- `VaultWriter.write_memory_fact`
  unfoldable pub write_memory_fact : String → String → String → Action String
  unfolding write_file
  write_memory_fact fact_id domain statement =
      write_file env ("memory/curated/domains/" ⧺ domain ⧺ ".md")
        ("\n\n## " ⧺ fact_id ⧺ "\n\n" ⧺ statement ⧺ "\n") true

  unfoldable pub create_fact : Fields → ℕ → Action (String × String)
  unfolding new_id write_memory_fact text_at
  create_fact d now = do
    id ← new_id env "mem"
    let domain = text_at env "domain" "global" d
    raw ← lift (index "statement_md" d)
    let statement = text_of env raw
    uri ← write_memory_fact id (if domain == "global" then "planning" else domain) statement
    confidence ← lift (float_of env (get_or "confidence" (Json.float (hundredths 80)) d))
    refs ← lift (list_of (get_or "evidence_refs" (Json.arr nil) d))
    modify (
        add_fact (record {
          id = id;
          fact_kind = text_at env "fact_kind" "fact" d;
          statement_md = statement;
          domain = domain;
          confidence = confidence;
          sensitivity = text_at env "sensitivity" "normal" d;
          status = "active";
          source_candidate_id = get_or "source_candidate_id" null d;
          evidence_refs = refs;
          vault_uri = uri;
          created_at = now;
          updated_at = now;
        }))
    pure ("memory_fact", id)

  unfoldable pub create_job : String → Fields → ℕ → Action (String × String)
  unfolding new_id text_at
  create_job timezone d now = do
    id ← new_id env "job"
    name ← lift (index "name" d)
    schedule ← lift (dict_of env (get_or "schedule" (get_or "schedule_json" (obj end) d) d))
    command ← lift (dict_of env (get_or "command" (get_or "command_json" (obj end) d) d))
    modify (
        add_job (record {
          id = id;
          name = text_of env name;
          description_md = get_or "description_md" null d;
          schedule_type = text_at env "schedule_type" "one_time" d;
          schedule_json = schedule;
          timezone = text_at env "timezone" timezone d;
          target_agent_id = get_or "target_agent_id" null d;
          command_json = command;
          approval_policy = text_at env "approval_policy" "ask_for_mutations" d;
          enabled = truthy (get_or "enabled" (bool true) d);
          created_by_user_id = get_or "created_by_user_id" null d;
          created_at = now;
          updated_at = now;
        }))
    pure ("job", id)
