-- ===== src/Captures/Classifying.antt =====
-- `route_capture_agentically`. The completion of the provider router, with its configuration and
-- messages, is a parameter; life_os_vnex.Providers says which completion that is.
use life_os_vnex.Prelude.{
  ℕ, String, true, false, Option, none, some, List, [], ◌∷◌, ◌++◌, if◌then◌else◌, ◌==◌,
}
use life_os_vnex.Prelude.Text.{◌⧺◌, member, take_text}
use life_os_vnex.Prelude.Json.{Json, Float, Fields, null, bool, str, fields_of}
use life_os_vnex.Prelude.Env.{Env}
use life_os_vnex.State.{
  StatusEventRow, ProviderCallLog, Exception, Result, ok, raise, type_name, message_of, Action,
  pure, throw, lift, modify, ◌>>=◌, ◌>>◌, new_id, utc_now, create_status_event,
}
use life_os_vnex.Orchestrator.{Draft, draft_from_capture}
use life_os_vnex.Providers.{ProviderCompletion}
use life_os_vnex.Captures.Answers.{draft_from_provider}

-- `try: … except Exception as exc: …`
unfoldable pub caught : {A : Type 0} → Action A → (Exception → Action A) → Action A
caught m handle s = elim (m s).0 [ ok a ↦ (ok a, (m s).1) | raise e ↦ handle e (m s).1 ]

module _ (env : Env) where
  -- `_provider_log`
  unfoldable pub provider_log : String → String → String → ProviderCompletion → ℕ → ProviderCallLog
  provider_log id run agent c now = record {
    id = id;
    run_id = some run;
    agent_id = some agent;
    provider_id = c.provider;
    model = c.model;
    key_label = c.key_label;
    status = "succeeded";
    latency_ms = c.latency_ms;
    input_tokens = c.input_tokens;
    output_tokens = c.output_tokens;
    cost_usd = Float.num 0;
    error_json = none;
    created_at = now;
  }

  abbrev failure_log : String → String → Exception → ℕ → ProviderCallLog
  failure_log id run e now = record {
    id = id;
    run_id = some run;
    agent_id = some "capture-router";
    provider_id = "unavailable";
    model = "capture-router";
    key_label = null;
    status = "failed";
    latency_ms = 0;
    input_tokens = Json.int 0;
    output_tokens = Json.int 0;
    cost_usd = Float.num 0;
    error_json = some (
        fields_of
          (("type", str (type_name e)) ∷ ("message", str (take_text 1000 (message_of e))) ∷ []));
    created_at = now;
  }

  abbrev log_call : ProviderCallLog → Action Unit
  log_call row = modify (λ s. record s { provider_calls = s.provider_calls ++ row ∷ [] })

  abbrev run_event : String → String → String → String → Fields → String → ℕ → StatusEventRow
  run_event run type title visibility detail id now = record {
    id = id;
    run_id = some run;
    event_type = type;
    visibility = visibility;
    title = title;
    detail_json = detail;
    created_at = now;
  }

  module _ (order : List String) (complete : Result ProviderCompletion) where
    -- The answer of the provider, from the completion on.
    unfoldable pub answered_route :
        String → Option String → String → String → Action (Draft × Fields)
    answered_route capture_id raw run log_id = do
      c ← lift complete
      draft ← lift (draft_from_provider env capture_id c.content raw)
      now ← utc_now env
      log_call (provider_log log_id run draft.agent_id c now)
      create_status_event env (
          run_event run "agentic_router.completed" ("Agentic router selected " ⧺ draft.agent_id)
            "discord_compact"
            (fields_of
              (("provider_call_log_id", str log_id) ∷ ("agent_id", str draft.agent_id) ∷ [])))
      pure (
        draft,
        fields_of (
            ("provider", str c.provider)
            ∷ ("model", str c.model)
            ∷ ("provider_call_log_id", str log_id)
            ∷ ("fallback_used", bool false)
            ∷ []),
      )

    -- The deterministic draft in the place of an answer.
    unfoldable pub fallback_route :
        String → Option String → String → String → String → Exception → Action (Draft × Fields)
    fallback_route capture_id raw platform run log_id e = do
      let draft = draft_from_capture env order capture_id raw platform
      create_status_event env (
          run_event run "agentic_router.fallback_deterministic"
            "Provider unavailable; deterministic fallback used" "discord_compact"
            (fields_of (
              ("error", str (take_text 500 (message_of e)))
              ∷ ("agent_id", str draft.agent_id)
              ∷ [])))
      pure (
        draft,
        fields_of (
            ("provider", str "deterministic")
            ∷ ("model", str "capture-router-v1")
            ∷ ("provider_call_log_id", str log_id)
            ∷ ("fallback_used", bool true)
            ∷ ("fallback_reason", str (take_text 500 (message_of e)))
            ∷ []),
      )

    abbrev degraded :
        String
        → Option String
        → String
        → String
        → String
        → String
        → Exception
        → Action (Draft × Fields)
    degraded capture_id raw platform run mode log_id e =
        if mode == "agentic" then throw e else fallback_route capture_id raw platform run log_id e

    -- What is done about an exception on the way to the answer.
    unfoldable pub failed_route :
        String
        → Option String
        → String
        → String
        → String
        → String
        → Exception
        → Action (Draft × Fields)
    failed_route capture_id raw platform run mode log_id e = do
      now ← utc_now env
      log_call (failure_log log_id run e now)
      degraded capture_id raw platform run mode log_id e

    abbrev known_mode : String → String
    known_mode mode =
        if member mode ("agentic" ∷ "deterministic" ∷ "hybrid" ∷ []) then mode else "hybrid"

    -- `route_capture_agentically`
    unfoldable pub route_capture :
        String → Option String → String → String → String → Action (Draft × Fields)
    route_capture capture_id raw platform run router_mode =
        let mode = known_mode router_mode in
        if mode == "deterministic"
        then pure (
          draft_from_capture env order capture_id raw platform,
          fields_of (
              ("provider", str "deterministic")
              ∷ ("model", str "capture-router-v1")
              ∷ ("fallback_used", bool false)
              ∷ []),
        )
        else (do
          create_status_event env (
              run_event run "provider.call_started" "Provider routing started" "web_only"
                (fields_of (("agent_id", str "capture-router") ∷ ("mode", str mode) ∷ [])))
          log_id ← new_id env "pcall"
          caught (answered_route capture_id raw run log_id)
              (failed_route capture_id raw platform run mode log_id))
