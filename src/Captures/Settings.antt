-- ===== src/Captures/Settings.antt =====
-- `get_agent_autonomy`, `get_router_mode` and `_normalize_autonomy` of the runtime configuration.
use life_os_vnex.Prelude.{String, Option, none, some, if◌then◌else◌, ◌==◌}
use life_os_vnex.Prelude.Text.{member}
use life_os_vnex.Prelude.Json.{null, str, get_or, or_json}
use life_os_vnex.Prelude.Env.{Env, text_of}
use life_os_vnex.State.{AgentRow, SystemSetting, Action, gets, find_row}
use life_os_vnex.Policy.{autonomy_modes}

-- `str(value or default)`
abbrev text_or : Option String → String → String
text_or none default = default
text_or (some s) default = if s == "" then default else s

-- `_normalize_autonomy`
unfoldable pub normalize_autonomy : Option String → String
normalize_autonomy value =
    let mapped =
      if text_or value "" == "owner_gated"
      then "manual"
      else if text_or value "" == "explicit_owner_approval"
      then "manual"
      else text_or value "review_gated" in
    if member mapped autonomy_modes then mapped else "review_gated"

abbrev pub agent_key : AgentRow → String
agent_key r = r.id

abbrev pub setting_key : SystemSetting → String
setting_key r = r.key

-- The autonomy of the row that is found; without a row it is reviewed.
abbrev pub autonomy_of : Option AgentRow → String
autonomy_of none = normalize_autonomy (some "review_gated")
autonomy_of (some r) = normalize_autonomy r.autonomy_level

-- `get_agent_autonomy`
unfoldable pub agent_autonomy : String → Action String
agent_autonomy agent = gets (λ s. autonomy_of (find_row agent_key agent s.agents))

module _ (env : Env) where
  mode_of : String → Option SystemSetting → String
  mode_of default none = text_of env (or_json (str default) (str "hybrid"))
  mode_of default (some r) = text_of env (or_json (get_or "value" null r.value_json) (str "hybrid"))

  -- `get_router_mode`
  unfoldable pub router_mode : String → Action String
  unfolding mode_of
  router_mode default = gets (λ s. mode_of default (find_row setting_key "router.mode" s.settings))
