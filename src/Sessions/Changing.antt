-- ===== src/Sessions/Changing.antt =====
-- The endpoints that create, resolve and change sessions.
use life_os_vnex.Prelude.{ℕ, String, true, Option, none, some, [], ◌∷◌, if◌then◌else◌, ◌==◌}
use life_os_vnex.Prelude.Text.{◌⧺◌, member}
use life_os_vnex.Prelude.Json.{str, int, end, object}
use life_os_vnex.Prelude.Env.{Env, text_of}
use life_os_vnex.State.{
  AgentSession, AgentRun, AuditEvent, Action, pure, modify, ◌>>=◌, ◌>>◌, utc_now,
  create_audit_event, find_row, update_row,
}
use life_os_vnex.Captures.{run_key}
use life_os_vnex.Proposals.{text_or}
use life_os_vnex.Sessions.Values.{
  SessionCreate, SessionResolve, agents, session_key, session_audit, session_dict,
}
use life_os_vnex.Sessions.Binding.{create_row, resolve}

-- The replies of the endpoints, by their `status`.
pub data SessionReply : Type 0 where
  not_found unknown_agent no_active_run : SessionReply
  session : AgentSession → SessionReply
  cancelled : String → SessionReply

abbrev pub found_or_not : Option AgentSession → SessionReply
found_or_not none = not_found
found_or_not (some r) = session r

abbrev pub with_agent : String → ℕ → AgentSession → AgentSession
with_agent agent now r = record r { agent_id = agent; updated_at = now }

abbrev pub with_cap : ℕ → ℕ → AgentSession → AgentSession
with_cap cap now r = record r { iteration_cap = cap; updated_at = now }

abbrev pub cancelled_run : ℕ → AgentRun → AgentRun
cancelled_run now r = record r {
  cancel_requested = true;
  cancelled_at = some now;
  status = "cancelled";
  status_summary = some "Cancelled by owner";
  finished_at = some now;
  updated_at = now;
}

abbrev pub unpaused : ℕ → AgentSession → AgentSession
unpaused now r = record r { paused_run_id = none; updated_at = now }

abbrev cancel_audit : String → String → ℕ → AuditEvent
cancel_audit run id now = record {
  id = id;
  actor_type = "user";
  actor_id = "owner";
  event_type = "agent_run.cancelled";
  entity_type = "agent_run";
  entity_id = run;
  summary = "Run cancelled by owner.";
  before_json = none;
  after_json = none;
  metadata_json = end;
  trace_id = none;
  created_at = now;
}

module _ (env : Env) where
  -- `create_session`
  unfoldable pub create_session : SessionCreate → Action SessionReply
  create_session q = do
    r ← create_row env q
    create_audit_event env (
        session_audit (text_or q.user_id "owner") "agent_session.created" r.id
          ("Created session for " ⧺ r.agent_id) none (some (session_dict env r)))
    pure (session r)

  -- `resolve_session`
  unfoldable pub resolve_session : SessionResolve → Action SessionReply
  resolve_session q = do found ← resolve env q; pure (found_or_not found)

  unfoldable pub change_agent : String → AgentSession → Action SessionReply
  change_agent agent r = do
    now ← utc_now env
    modify (λ s. record s {
      sessions = update_row session_key r.id (λ _. with_agent agent now r) s.sessions;
    })
    create_audit_event env (
        session_audit "owner" "agent_session.agent_changed" r.id
          ("Session agent " ⧺ r.agent_id ⧺ " -> " ⧺ agent)
          (some (object (("agent_id", str r.agent_id) ∷ [])))
          (some (object (("agent_id", str agent) ∷ []))))
    pure (session (with_agent agent now r))

  -- `set_session_agent`
  unfoldable pub set_agent : String → String → Action SessionReply
  set_agent id agent s = elim (find_row session_key id s.sessions) [
    | none ↦ (pure not_found s)
    | some r ↦ if member agent agents then change_agent agent r s else pure unknown_agent s
  ]

  unfoldable pub change_cap : ℕ → AgentSession → Action SessionReply
  change_cap cap r = do
    now ← utc_now env
    modify (λ s. record s {
      sessions = update_row session_key r.id (λ _. with_cap cap now r) s.sessions;
    })
    create_audit_event env (
        session_audit "owner" "agent_session.iteration_cap_changed" r.id
          ("Iteration cap " ⧺ text_of env (int r.iteration_cap) ⧺ " -> " ⧺ text_of env (int cap))
          (some (object (("iteration_cap", int r.iteration_cap) ∷ [])))
          (some (object (("iteration_cap", int cap) ∷ []))))
    pure (session (with_cap cap now r))

  -- `set_session_iterations`
  unfoldable pub set_iterations : String → ℕ → Action SessionReply
  set_iterations id cap s = elim (find_row session_key id s.sessions) [
    | none ↦ pure not_found s
    | some r ↦ change_cap cap r s
  ]

  unfoldable pub cancel_run : AgentSession → AgentRun → Action SessionReply
  cancel_run r run = do
    now ← utc_now env
    modify (λ s. record s {
      runs = update_row run_key run.id (λ _. cancelled_run now run) s.runs;
      sessions = update_row session_key r.id (λ _. unpaused now r) s.sessions;
    })
    create_audit_event env (cancel_audit run.id)
    pure (cancelled run.id)

  unfoldable pub cancel_last : AgentSession → Action SessionReply
  cancel_last r s =
      if text_or r.last_run_id "" == ""
      then pure no_active_run s
      else elim (find_row run_key (text_or r.last_run_id "") s.runs) [
        | none ↦ pure no_active_run s
        | some run ↦ cancel_run r run s
      ]

  -- `cancel_session_run`
  unfoldable pub cancel_session_run : String → Action SessionReply
  cancel_session_run id s = elim (find_row session_key id s.sessions) [
    | none ↦ pure not_found s
    | some r ↦ cancel_last r s
  ]
