-- ===== src/Sessions/Binding.antt =====
-- `_find_bound_session`, `_create_session_row` and `_resolve_session`: the session that a channel or a
-- thread of a platform is bound to. Of rows with the same time the query returns the first here.
use life_os_vnex.Prelude.{
  ℕ, String, Bool, ◌&&◌, Option, none, some, List, [], ◌∷◌, ◌++◌, if◌then◌else◌, ◌==◌, ltb, leb,
  is_some, not,
}
use life_os_vnex.Prelude.Text.{member}
use life_os_vnex.Prelude.Json.{Json, Whole, plus, minus, null, int, str, end, object, get_or}
use life_os_vnex.Prelude.Env.{Env}
use life_os_vnex.State.{
  AgentSession, User, SystemSetting, AuditEvent, Exception, Result, ok, raise, Action, pure, modify,
  ◌>>=◌, ◌>>◌, new_id, utc_now, create_audit_event, find_row, update_row,
}
use life_os_vnex.Bus.{int_of}
use life_os_vnex.Captures.{setting_key}
use life_os_vnex.Proposals.{filter_by, sort_by, text_or}
use life_os_vnex.Sessions.Values.{SessionCreate, SessionResolve, agents, session_key}

abbrev pub same_text : Option String → String → Bool
same_text none b = Bool.false
same_text (some a) b = a == b

abbrev pub on_thread : String → String → AgentSession → Bool
on_thread platform thread r =
    same_text r.source_platform platform
    && (same_text r.external_thread_id thread && r.status == "active")

abbrev pub on_channel : String → String → AgentSession → Bool
on_channel platform channel r =
    same_text r.source_platform platform
    && (same_text r.external_channel_id channel && r.status == "active")

-- `order_by(desc(AgentSession.updated_at))`
abbrev pub later : AgentSession → AgentSession → Bool
later a b = ltb b.updated_at a.updated_at

abbrev pub first : List AgentSession → Option AgentSession
first [] = none
first (r ∷ rs) = some r

-- The query: the row with the latest update of those that pass.
unfoldable pub latest : (AgentSession → Bool) → List AgentSession → Option AgentSession
latest p rs = first (sort_by later (filter_by p rs))

abbrev pub if_none : Option AgentSession → Option AgentSession → Option AgentSession
if_none none other = other
if_none (some r) other = some r

unfoldable pub by_thread : String → Option String → List AgentSession → Option AgentSession
by_thread platform thread rs =
    if text_or thread "" == "" then none else latest (on_thread platform (text_or thread "")) rs

unfoldable pub by_channel : String → Option String → List AgentSession → Option AgentSession
by_channel platform channel rs =
    if text_or channel "" == "" then none else latest (on_channel platform (text_or channel "")) rs

-- `_find_bound_session`
unfoldable pub find_bound :
    String → Option String → Option String → List AgentSession → Option AgentSession
unfolding by_thread by_channel
find_bound platform channel thread rs =
    if_none (by_thread platform thread rs) (by_channel platform channel rs)

abbrev pub user_key : User → String
user_key r = r.id

abbrev placeholder : String → ℕ → User
placeholder id now = record {
  id = id;
  display_name = "Discord owner";
  timezone = "Africa/Casablanca";
  locale = none;
  role = "owner";
  created_at = now;
  updated_at = now;
}

abbrev placeholder_audit : String → String → ℕ → AuditEvent
placeholder_audit user id now = record {
  id = id;
  actor_type = "system";
  actor_id = "discord_gateway";
  event_type = "user.placeholder_created";
  entity_type = "user";
  entity_id = user;
  summary = "Created placeholder owner user for Discord session.";
  before_json = none;
  after_json = some (
      object (
        ("id", str user)
        ∷ ("display_name", str "Discord owner")
        ∷ ("timezone", str "Africa/Casablanca")
        ∷ ("role", str "owner")
        ∷ []));
  metadata_json = end;
  trace_id = none;
  created_at = now;
}

-- `max(1, min(n, 50))`
abbrev pub clamp : Whole → ℕ
clamp (plus n) = if leb 50 n then 50 else if leb 1 n then n else 1
clamp (minus n) = 1

-- `payload.iteration_cap or …`
abbrev pub given_cap : Option ℕ → Option ℕ
given_cap none = none
given_cap (some n) = if leb 1 n then some n else none

-- `try: … except (TypeError, ValueError): return 5`
abbrev pub cap_of : Result Whole → Result ℕ
cap_of (ok n) = ok (clamp n)
cap_of (raise (Exception.type_error m)) = ok 5
cap_of (raise (Exception.value_error m)) = ok 5
cap_of (raise e) = raise e

abbrev pub setting_value : Option SystemSetting → Json
setting_value none = int 5
setting_value (some r) = get_or "value" null r.value_json

abbrev pub session_row : SessionCreate → ℕ → ℕ → String → AgentSession
session_row q cap now id = record {
  id = id;
  agent_id = if member q.agent_id agents then q.agent_id else "orchestrator";
  user_id = q.user_id;
  channel_id = none;
  title = some (text_or q.title "LifeOS session");
  status = "active";
  memory_scope = q.memory_scope;
  iteration_cap = cap;
  visibility = q.visibility;
  source_platform = q.source_platform;
  external_channel_id = q.external_channel_id;
  external_thread_id = q.external_thread_id;
  external_message_id = q.external_message_id;
  last_run_id = none;
  last_user_correction_id = none;
  paused_run_id = none;
  metadata_json = q.metadata;
  created_at = now;
  updated_at = now;
}

abbrev pub creation_of : SessionResolve → SessionCreate
creation_of q = record {
  agent_id = q.agent_id;
  title = q.title;
  iteration_cap = q.iteration_cap;
  visibility = q.visibility;
  source_platform = some q.source_platform;
  external_channel_id = q.external_channel_id;
  external_thread_id = q.external_thread_id;
  external_message_id = none;
  user_id = q.user_id;
  memory_scope = end;
  metadata = q.metadata;
}

-- The row of a session that a message arrives for again.
abbrev pub resumed_row : SessionResolve → ℕ → AgentSession → AgentSession
resumed_row q now r = record r {
  iteration_cap = elim (given_cap q.iteration_cap) [ none ↦ r.iteration_cap | some n ↦ n ];
  agent_id =
      if not (q.agent_id == "")
        && (r.agent_id == "orchestrator" && not (q.agent_id == "orchestrator"))
      then q.agent_id
      else r.agent_id;
  updated_at = now;
}

module _ (env : Env) where
  -- `_default_iteration_cap`
  unfoldable pub default_cap : Action ℕ
  default_cap s = (
    cap_of (
        int_of env (setting_value (find_row setting_key "agent.default_iteration_cap" s.settings))),
    s,
  )

  unfoldable pub add_user : String → Action Unit
  add_user id = do
    now ← utc_now env
    modify (λ s. record s { users = s.users ++ placeholder id now ∷ [] })
    create_audit_event env (placeholder_audit id)
    pure tt

  -- `_ensure_user`
  unfoldable pub ensure_user : Option String → Action Unit
  ensure_user user s =
      if text_or user "" == ""
      then pure tt s
      else if is_some (find_row user_key (text_or user "") s.users)
      then pure tt s
      else add_user (text_or user "") s

  unfoldable pub cap_for : Option ℕ → Action ℕ
  cap_for none = default_cap
  cap_for (some n) = pure n

  -- `_create_session_row`
  unfoldable pub create_row : SessionCreate → Action AgentSession
  create_row q = do
    now ← utc_now env
    cap ← cap_for (given_cap q.iteration_cap)
    ensure_user q.user_id
    id ← new_id env "sess"
    modify (λ s. record s { sessions = s.sessions ++ session_row q cap now id ∷ [] })
    pure (session_row q cap now id)

  unfoldable pub resume : SessionResolve → AgentSession → Action (Option AgentSession)
  resume q r = do
    now ← utc_now env
    modify (λ s. record s {
      sessions = update_row session_key r.id (λ _. resumed_row q now r) s.sessions;
    })
    pure (some (resumed_row q now r))

  unfoldable pub create_missing : SessionResolve → Action (Option AgentSession)
  create_missing q =
      if q.create_if_missing then (do r ← create_row (creation_of q); pure (some r)) else pure none

  -- `_resolve_session`
  unfoldable pub resolve : SessionResolve → Action (Option AgentSession)
  resolve q s =
      elim (find_bound q.source_platform q.external_channel_id q.external_thread_id s.sessions) [
        | none ↦ create_missing q s
        | some r ↦ resume q r s
      ]
