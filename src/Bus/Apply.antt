-- ===== src/Bus/Apply.antt =====
-- `CommandBus.plan` and `CommandBus.apply`.
use life_os_vnex.Prelude.{ℕ, String, none, some, [], ◌∷◌, ◌++◌}
use life_os_vnex.Prelude.Text.{◌⧺◌}
use life_os_vnex.Prelude.Json.{Fields, str, obj, end, fields_of}
use life_os_vnex.Prelude.Env.{Env}
use life_os_vnex.State.{
  Store, StateChange, AuditEvent, Exception, Result, ok, raise, type_name, message_of, Action, pure,
  modify, ◌>>=◌, ◌>>◌, new_id, utc_now, create_audit_event, create_status_event, update_row,
}
use life_os_vnex.Bus.Types.{CommandStatus, status_text, CommandRequest, CommandResult, snapshot_uri}
use life_os_vnex.Bus.Update.{apply_payload}

abbrev pub change_key : StateChange → String
change_key r = r.id

-- The row that a command starts with.
abbrev pub planned_change : CommandRequest → String → ℕ → StateChange
planned_change c id now = record {
  id = id;
  review_item_id = c.source_review_item_id;
  command_type = c.command_type;
  command_payload = c.payload;
  status = status_text CommandStatus.planned;
  applied_by = c.actor_id;
  after_snapshot_uri = none;
  error_json = none;
  created_at = now;
  applied_at = none;
}

module _ (env : Env) (timezone : String) where
  -- The state change that both operations add first.
  unfoldable pub open_change : CommandRequest → Action String
  unfolding new_id utc_now
  open_change c = do
    id ← new_id env "stchg"
    now ← utc_now env
    modify (λ s. record s { changes = s.changes ++ planned_change c id now ∷ [] })
    pure id

  -- The audit event of an operation on `entity_type` and `entity_id`.
  abbrev pub audit_of :
      CommandRequest → String → String → String → String → Fields → String → ℕ → AuditEvent
  audit_of c event entity_type entity_id summary metadata id now = record {
    id = id;
    actor_type = c.actor_type;
    actor_id = c.actor_id;
    event_type = event;
    entity_type = entity_type;
    entity_id = entity_id;
    summary = summary;
    before_json = none;
    after_json = some (obj c.payload);
    metadata_json = metadata;
    trace_id = none;
    created_at = now;
  }

  unfoldable pub plan : CommandRequest → Action CommandResult
  unfolding open_change create_audit_event utc_now
  plan c = do
    change ← open_change c
    audit ←
        create_audit_event env (
          audit_of c "state_change.planned" "state_change" change ("Planned " ⧺ c.command_type) end)
    now ← utc_now env
    pure (record {
      state_change_id = change;
      command_type = c.command_type;
      status = CommandStatus.planned;
      audit_event_id = audit;
      entity_type = none;
      entity_id = none;
      created_at = now;
    })

  abbrev pub change_row : String → (StateChange → StateChange) → Store → Store
  change_row id f s = record s { changes = update_row change_key id f s.changes }

  -- The rest of the `try` once the payload is applied.
  unfoldable pub finish_applied : CommandRequest → String → String × String → Action CommandResult
  unfolding utc_now create_audit_event create_status_event snapshot_uri
  finish_applied c change (entity_type, entity_id) = do
    applied_at ← utc_now env
    modify (
        change_row change (λ r. record r {
          status = status_text CommandStatus.applied;
          applied_at = some applied_at;
          after_snapshot_uri = snapshot_uri entity_type;
        }))
    audit ← create_audit_event env (
        audit_of c "state_change.applied" entity_type entity_id ("Applied " ⧺ c.command_type)
          (fields_of (("state_change_id", str change) ∷ [])))
    create_status_event env (λ id now. record {
      id = id;
      run_id = none;
      event_type = "state_change.applied";
      visibility = "discord_compact";
      title = "Applied " ⧺ c.command_type;
      detail_json =
          fields_of (("entity_type", str entity_type) ∷ ("entity_id", str entity_id) ∷ []);
      created_at = now;
    })
    now ← utc_now env
    pure (record {
      state_change_id = change;
      command_type = c.command_type;
      status = CommandStatus.applied;
      audit_event_id = audit;
      entity_type = some entity_type;
      entity_id = some entity_id;
      created_at = now;
    })

  -- The `except`.
  unfoldable pub finish_failed : CommandRequest → String → Exception → Action CommandResult
  unfolding utc_now create_audit_event
  finish_failed c change e = do
    modify (
        change_row change (λ r. record r {
          status = status_text CommandStatus.failed;
          error_json =
              some (fields_of (("type", str (type_name e)) ∷ ("message", str (message_of e)) ∷ []));
        }))
    audit ← create_audit_event env (
        audit_of c "state_change.failed" "state_change" change
          ("Failed " ⧺ c.command_type ⧺ ": " ⧺ message_of e) end)
    now ← utc_now env
    pure (record {
      state_change_id = change;
      command_type = c.command_type;
      status = CommandStatus.failed;
      audit_event_id = audit;
      entity_type = some "state_change";
      entity_id = some change;
      created_at = now;
    })

  unfoldable pub settle : CommandRequest → String → Result (String × String) → Action CommandResult
  unfolding finish_applied finish_failed
  settle c change (ok entity) = finish_applied c change entity
  settle c change (raise e) = finish_failed c change e

  unfoldable pub apply : CommandRequest → Action CommandResult
  unfolding open_change settle
  apply c = do
    change ← open_change c
    λ s. let (r, s') = apply_payload env timezone c change s in settle c change r s'
