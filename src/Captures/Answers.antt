-- ===== src/Captures/Answers.antt =====
-- `_draft_from_provider_json`.
use life_os_vnex.Prelude.{
  String, true, Option, none, some, List, [], ◌∷◌, if◌then◌else◌, ◌==◌, or_default,
}
use life_os_vnex.Prelude.Text.{◌⧺◌, take_text}
use life_os_vnex.Prelude.Json.{
  Json, Items, Fields, null, bool, str, arr, obj, nil, cons, end, object, get_or, or_json, set,
  contains, truthy,
}
use life_os_vnex.Prelude.Env.{Env, text_of}
use life_os_vnex.State.{Exception, Result, ok, raise}
use life_os_vnex.Orchestrator.{Draft}
use life_os_vnex.Bus.{list_of, float_of}
use life_os_vnex.Providers.{◌>>?◌}

abbrev required : List String
required =
    "agent_id" ∷ "domain" ∷ "intent_labels" ∷ "confidence" ∷ "sensitivity" ∷ "risk_level" ∷ "title"
    ∷ []

-- `", ".join` of the keys that are missing.
unfoldable pub missing_keys : Fields → List String → String → String
missing_keys d [] sep = ""
missing_keys d (k ∷ ks) sep =
    let rest = missing_keys d ks sep in
    let next = missing_keys d ks ", " in if contains k d then rest else sep ⧺ k ⧺ next

abbrev list_from : Items → List Json
list_from nil = []
list_from (cons x xs) = x ∷ list_from xs

-- `action.setdefault("payload", {})` and the capture in it.
unfoldable pub with_source : String → Fields → Fields
with_source capture_id action = elim (get_or "payload" (obj end) action) [
  | obj payload ↦
      set "payload"
        (obj (
          if contains "source_capture_id" payload
          then payload
          else set "source_capture_id" (str capture_id) payload))
        action
  | _ ↦ action
]

abbrev no_action : Json
no_action = object (
    ("command_type", str "none")
    ∷ ("risk_level", str "safe_internal_read")
    ∷ ("payload", obj end)
    ∷ [])

-- The action of a provider's answer, which has to be a dict with a command type.
unfoldable pub proposed_of : Fields → Result Fields
proposed_of parsed = elim (or_json (get_or "proposed_action" null parsed) no_action) [
  | obj action ↦
      if contains "command_type" action
      then ok action
      else raise (Exception.value_error "Provider JSON proposed_action invalid")
  | _ ↦ raise (Exception.value_error "Provider JSON proposed_action invalid")
]

abbrev quoted : Option String → String
quoted raw = "AI draft from capture:\n\n> " ⧺ or_default raw ""

module _ (env : Env) where
  abbrev texts_from : Items → List String
  texts_from nil = []
  texts_from (cons x xs) = text_of env x ∷ texts_from xs

  -- The draft of an answer that has the keys it needs.
  unfoldable pub draft_of_fields : String → Option String → Fields → Result Draft
  draft_of_fields capture_id raw parsed = proposed_of parsed >>? λ action.
      list_of (get_or "intent_labels" (arr nil) parsed) >>? λ labels.
      float_of env (get_or "confidence" null parsed) >>? λ confidence.
      list_of (or_json (get_or "missing_context" null parsed) (arr nil)) >>? λ missing. ok (record {
        agent_id = text_of env (get_or "agent_id" null parsed);
        domain = text_of env (get_or "domain" null parsed);
        sensitivity = text_of env (get_or "sensitivity" null parsed);
        intent_labels = texts_from labels;
        confidence = confidence;
        risk_level = text_of env (get_or "risk_level" null parsed);
        title = take_text 200 (text_of env (get_or "title" null parsed));
        body_md = text_of env (or_json (get_or "body_md" null parsed) (str (quoted raw)));
        proposed_action = with_source capture_id action;
        needs_review = truthy (get_or "needs_review" (bool true) parsed);
        missing_context = some (list_from missing);
      })

  -- `_draft_from_provider_json`; an answer that is no dict lacks every key here.
  unfoldable pub draft_from_provider : String → String → Option String → Result Draft
  draft_from_provider capture_id content raw = elim (env.json_of_text content) [
    | none ↦ raise (Exception.value_error "Expecting value")
    | some (obj parsed) ↦
        if missing_keys parsed required "" == ""
        then draft_of_fields capture_id raw parsed
        else raise (
            Exception.value_error
              ("Provider JSON missing keys: " ⧺ missing_keys parsed required ""))
    | some other ↦
        raise
          (Exception.value_error ("Provider JSON missing keys: " ⧺ missing_keys end required ""))
  ]
