-- ===== src/Examples/SessionRuns.antt =====
-- Runs of the session endpoints.
use life_os_vnex.Prelude.{◌≡◌, ◌⊎◌, refl, inl, some, none, [], ◌∷◌, arith}
use life_os_vnex.Prelude.Json.{end}
use life_os_vnex.State.{Store, AgentSession, Exception, ok, raise, find_row}
use life_os_vnex.Sessions.{SessionCreate, create_row, find_bound, session_row, setting_value}
use life_os_vnex.Bus.{int_of}
use life_os_vnex.Captures.{setting_key}
use life_os_vnex.Sessions.Found.{HasCap, IsUnasked, create_row-find}
use life_os_vnex.Examples.{sample_env, empty_store}

abbrev thread_session : SessionCreate
thread_session = record {
  agent_id = "finance";
  title = none;
  iteration_cap = some 7;
  visibility = "private";
  source_platform = some "discord";
  external_channel_id = some "c1";
  external_thread_id = some "t1";
  external_message_id = none;
  user_id = some "u1";
  memory_scope = end;
  metadata = end;
}

-- A store whose clock was read, with a session that is bound to the thread already.
abbrev later_store : Store
later_store = record empty_store {
  sessions = session_row thread_session 3 0 "sess_old" ∷ [];
  reads = 1;
}

create_row-find_example :
    ((r : AgentSession) × ((create_row sample_env thread_session later_store).0 ≡ ok r)
      × (find_bound "discord"
            (some "c1")
            (some "t1")
            (create_row sample_env thread_session later_store).1.sessions
          ≡ some r)
      × HasCap thread_session.iteration_cap r.iteration_cap)
    ⊎ ((e : Exception) × IsUnasked thread_session.iteration_cap
        × (int_of sample_env (
              setting_value
                (find_row setting_key "agent.default_iteration_cap" later_store.settings))
            ≡ raise e)
        × ((create_row sample_env thread_session later_store).0 ≡ raise e))
create_row-find_example =
    create_row-find sample_env thread_session "discord" later_store refl (inl refl)
      (omega arith, tt)
