-- ===== src/Bus/Update.antt =====
-- The commands of `_apply_payload` that change a row, and the dispatch on the command's type.
use life_os_vnex.Prelude.{
  ℕ, String, Option, none, some, List, [], ◌∷◌, ◌==◌, if◌then◌else◌, or_default,
}
use life_os_vnex.Prelude.Text.{◌⧺◌, member}
use life_os_vnex.Prelude.Json.{Json, Fields, str, obj, end, field, get_or, or_json, fields_of}
use life_os_vnex.Prelude.Env.{Env, text_of}
use life_os_vnex.State.{
  Store, LifeItem, ToolCall, Exception, Result, ok, raise, Action, pure, throw, lift, modify, gets,
  ◌>>=◌, ◌>>◌, utc_now, find_row, update_row,
}
use life_os_vnex.Bus.Values.{index, dict_of, parse_dt, text_at}
use life_os_vnex.Bus.Types.{CommandRequest}
use life_os_vnex.Bus.Create.{
  in_tables, write_tasks, create_item, create_entry, create_daily_log, create_prayer_log,
  create_fact, create_job,
}

abbrev pub updatable : List String
updatable =
    "domain" ∷ "item_type" ∷ "title" ∷ "description_md" ∷ "status" ∷ "priority" ∷ "due_at"
    ∷ "scheduled_at" ∷ "metadata_json" ∷ []

abbrev pub item_key : LifeItem → String
item_key r = r.id

abbrev pub call_key : ToolCall → String
call_key r = r.id

-- `setattr(item, key, value)` for the columns that hold the value as it is.
unfoldable pub set_column : String → Json → LifeItem → LifeItem
set_column k v item =
    if k == "domain"
    then record item { domain = v }
    else if k == "item_type"
    then record item { item_type = v }
    else if k == "title"
    then record item { title = v }
    else if k == "description_md"
    then record item { description_md = v }
    else if k == "status"
    then record item { status = v }
    else record item { priority = v }

unfoldable pub set_due : Result (Option ℕ) → LifeItem → LifeItem × Result Unit
set_due (ok t) item = (record item { due_at = t }, ok tt)
set_due (raise e) item = (item, raise e)

unfoldable pub set_scheduled : Result (Option ℕ) → LifeItem → LifeItem × Result Unit
set_scheduled (ok t) item = (record item { scheduled_at = t }, ok tt)
set_scheduled (raise e) item = (item, raise e)

unfoldable pub set_metadata : Result Fields → LifeItem → LifeItem × Result Unit
set_metadata (ok d) item = (record item { metadata_json = d }, ok tt)
set_metadata (raise e) item = (item, raise e)

module _ (env : Env) where
  -- One round of the loop over `updates`.
  unfoldable pub update_field : String → Json → LifeItem → LifeItem × Result Unit
  unfolding set_column set_due set_scheduled set_metadata
  update_field k v item =
      if member k updatable
      then if k == "due_at"
        then set_due (parse_dt env v) item
        else if k == "scheduled_at"
        then set_scheduled (parse_dt env v) item
        else if k == "metadata_json"
        then set_metadata (dict_of env (or_json v (obj end))) item
        else (set_column k v item, ok tt)
      else (item, raise (Exception.value_error ("Unsupported life_item.update field: " ⧺ k)))

  -- The loop: it stops at the first error, and what it has assigned stays assigned.
  unfoldable pub update_fields : Fields → LifeItem → LifeItem × Result Unit
  update_fields end item = (item, ok tt)
  update_fields (field k v d) item =
      let (item', r) = update_field k v item in
      elim r [ ok _ ↦ update_fields d item' | raise e ↦ (item', raise e) ]

  abbrev pub put_item : LifeItem → Store → Store
  put_item item =
      in_tables (λ t. record t { items = update_row item_key item.id (λ _. item) t.items })

  unfoldable pub update_item : Fields → ℕ → Action (String × String)
  unfolding write_tasks
  update_item d now = do
    raw ← lift (index "item_id" d)
    let item_id = text_of env raw
    found ← gets (λ s. find_row item_key item_id s.tables.items)
    elim found [
      | none ↦ throw (Exception.value_error ("Life item not found: " ⧺ item_id))
      | some item ↦ do
        updates ← lift (dict_of env (get_or "updates" (obj end) d))
        let outcome = update_fields updates item
        modify (put_item outcome.0)
        lift outcome.1
        let item' : LifeItem = record outcome.0 { updated_at = now }
        modify (put_item item')
        write_tasks env item'
        pure ("life_item", item'.id)
    ]

  -- The result that an approval records.
  abbrev pub approval_output : Fields
  approval_output = fields_of (
      ("mode", str "approved")
      ∷ ("message", str "Approval recorded. Executor handoff can run this command.")
      ∷ [])

  abbrev pub approved_call : ℕ → ToolCall → ToolCall
  approved_call now call = record call {
    status = "succeeded";
    started_at = some (or_default call.started_at now);
    finished_at = some now;
    output_json = some approval_output;
    redacted_output_json = some approval_output;
  }

  unfoldable pub approve_call : Fields → ℕ → Action (String × String)
  unfolding text_at
  approve_call d now = do
    let call_id = text_at env "tool_call_id" "approved_tool_request" d
    modify (
        in_tables (λ t. record t {
          tool_calls = update_row call_key call_id (approved_call now) t.tool_calls;
        }))
    pure ("tool_call", call_id)

  -- `_apply_payload`, past its reading of the clock.
  unfoldable pub dispatch : String → CommandRequest → String → ℕ → Action (String × String)
  dispatch timezone c change now =
      if c.command_type == "life_item.create"
      then create_item env c.payload change now
      else if c.command_type == "life_item.update"
      then update_item c.payload now
      else if c.command_type == "finance_entry.create"
      then create_entry env timezone c now
      else if c.command_type == "daily_log.create"
      then create_daily_log env timezone c now
      else if c.command_type == "prayer_log.create"
      then create_prayer_log env timezone c.payload now
      else if c.command_type == "memory_fact.create"
      then create_fact env c.payload now
      else if c.command_type == "job.create"
      then create_job env timezone c.payload now
      else if c.command_type == "tool_call.approve"
      then approve_call c.payload now
      else throw (Exception.value_error ("Unsupported command_type: " ⧺ c.command_type))

  -- `_apply_payload`
  unfoldable pub apply_payload : String → CommandRequest → String → Action (String × String)
  unfolding utc_now dispatch
  apply_payload timezone c change = do now ← utc_now env; dispatch timezone c change now
