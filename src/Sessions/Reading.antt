-- ===== src/Sessions/Reading.antt =====
-- The endpoints that list sessions and their messages and runs.
use life_os_vnex.Prelude.{ℕ, String, Bool, none, some, List, [], ◌∷◌, ltb, map, length, take}
use life_os_vnex.Prelude.Json.{Json, str, int, object, array}
use life_os_vnex.Prelude.Env.{Env}
use life_os_vnex.State.{Store, AgentRun, Message, find_row}
use life_os_vnex.Proposals.{filter_by, sort_by}
use life_os_vnex.Sessions.Values.{session_key, session_dict, message_dict, run_dict}
use life_os_vnex.Sessions.Binding.{later, same_text}

abbrev earlier_message : Message → Message → Bool
earlier_message a b = ltb a.created_at b.created_at

abbrev later_run : AgentRun → AgentRun → Bool
later_run a b = ltb b.created_at a.created_at

-- The messages of a session from the first on, at most that many.
unfoldable pub messages_of : ℕ → String → List Message → List Message
messages_of limit id ms =
    take limit (sort_by earlier_message (filter_by (λ m. same_text m.session_id id) ms))

unfoldable pub runs_of : String → List AgentRun → List AgentRun
runs_of id rs = take 20 (sort_by later_run (filter_by (λ r. same_text r.session_id id) rs))

abbrev listed : List Json → Json
listed items = object (("items", array items) ∷ ("count", int (length items)) ∷ [])

module _ (env : Env) where
  -- `list_sessions`
  unfoldable pub list_sessions : ℕ → Store → Json
  list_sessions limit s = listed (map (session_dict env) (take limit (sort_by later s.sessions)))

  -- `get_session`
  unfoldable pub get_session : String → Store → Json
  get_session id s = elim (find_row session_key id s.sessions) [
    | none ↦ object (("error", str "not_found") ∷ [])
    | some r ↦ object (
        ("session", session_dict env r)
        ∷ ("messages", array (map (message_dict env) (messages_of 100 id s.messages)))
        ∷ ("runs", array (map (run_dict env) (runs_of id s.runs)))
        ∷ [])
  ]

  -- `get_messages`
  unfoldable pub get_messages : String → Store → Json
  get_messages id s = listed (map (message_dict env) (messages_of 200 id s.messages))
