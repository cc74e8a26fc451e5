-- ===== src/Policy.antt =====
-- apps/api/lifeos_api/services/policy_engine.py: whether a drafted action is kept raw, applied,
-- sent to review or asked about.
pub mod Gates
pub mod Modes
use life_os_vnex.Prelude.{
  String, Bool, true, false, not, ◌&&◌, ◌||◌, List, [], ◌∷◌, Option, none, some, if◌then◌else◌,
  ◌==◌,
}
use life_os_vnex.Prelude.Text.{◌⧺◌, member}
use life_os_vnex.Prelude.Json.{
  Json, Float, Fields, str, obj, object, null, get, get_or, or_json, hundredths, lt_float, ge_float,
}
use life_os_vnex.Prelude.Env.{Env, text_of}

abbrev pub autonomy_modes : List String
autonomy_modes = "manual" ∷ "review_gated" ∷ "balanced" ∷ "safe" ∷ []

abbrev pub always_review_risks : List String
always_review_risks =
    "finance_mutation" ∷ "durable_memory_write" ∷ "family_sensitive_mutation"
    ∷ "health_sensitive_mutation" ∷ "file_write_or_move" ∷ "external_side_effect"
    ∷ "destructive_or_sensitive_action" ∷ "provider_config_change" ∷ "tool_permission_change" ∷ []

abbrev pub sensitive_domains : List String
sensitive_domains = "finance" ∷ "health" ∷ "family" ∷ "secret" ∷ []

-- `AUTO_ALLOW_BY_MODE[mode]`, for the modes that it has.
unfoldable pub auto_allow : String → List String
auto_allow mode =
    if mode == "manual"
    then []
    else if mode == "review_gated"
    then "review.done" ∷ "raw_capture.archive" ∷ []
    else if mode == "balanced"
    then "review.done" ∷ "raw_capture.archive" ∷ "life_item.create" ∷ "prayer_log.create"
      ∷ "daily_log.create" ∷ "memory_candidate.create" ∷ []
    else "review.done" ∷ "raw_capture.archive" ∷ "life_item.create" ∷ "prayer_log.create"
      ∷ "daily_log.create" ∷ "life_item.low_risk_log" ∷ "memory_candidate.create" ∷ []

-- The risks that the allowlist may apply to.
abbrev pub auto_risks : List String
auto_risks = "safe_internal_read" ∷ "reversible_internal_write" ∷ "durable_state_mutation" ∷ []

-- The values that `decision` takes.
pub data Verdict : Type 0 where
  raw_only review_required ask_clarification auto_apply : Verdict

abbrev pub verdict_text : Verdict → String
verdict_text raw_only = "raw_only"
verdict_text review_required = "review_required"
verdict_text ask_clarification = "ask_clarification"
verdict_text auto_apply = "auto_apply"

pub record PolicyDecision : Type 0 where
  pub decision : Verdict
  pub reason : String
  pub risk_level : String
  pub confidence : Float
  pub requires_user_visible_status : Bool

pub as_dict : PolicyDecision → Json
as_dict p = object (
    ("decision", str (verdict_text p.decision))
    ∷ ("reason", str p.reason)
    ∷ ("risk_level", str p.risk_level)
    ∷ ("confidence", Json.float p.confidence)
    ∷ ("requires_user_visible_status", Json.bool p.requires_user_visible_status)
    ∷ [])

-- The keyword arguments of `decide_capture_action`; a list that is None is empty.
pub record Request : Type 0 where
  pub action : Fields
  pub confidence : Float
  pub sensitivity : String
  pub autonomy_mode : String
  pub owner_authenticated : Bool
  pub missing_context : List Json
  pub intent_labels : List String

abbrev pub is_empty {ℓ} : {A : Type ℓ} → List A → Bool
is_empty [] = true
is_empty (x ∷ xs) = false

-- The mode that is used: an unknown one counts as review_gated.
unfoldable pub effective_mode : String → String
effective_mode m = if member m autonomy_modes then m else "review_gated"

-- `config.get(name, {})`, to call `get` of.
section : String → Fields → Option Fields
section name config = elim (get name config) [
  | none ↦ some Fields.end
  | some (obj d) ↦ some d
  | some other ↦ none
]

infixl 5 ◌>>=◌
abbrev pub ◌>>=◌ : {A B : Type 0} → Option A → (A → Option B) → Option B
none >>= f = none
some a >>= f = f a

module _ (env : Env) where
  unfoldable pub action_risk : Fields → String
  action_risk action = text_of env (
      or_json (or_json (get_or "risk_level" null action) (get_or "risk" null action))
        (str "unknown"))

  unfoldable pub action_command : Fields → String
  action_command action = text_of env (or_json (get_or "command_type" null action) (str "none"))

  verdict : Verdict → String → String → Float → PolicyDecision
  verdict d reason risk confidence = record {
    decision = d;
    reason = reason;
    risk_level = risk;
    confidence = confidence;
    requires_user_visible_status = true;
  }

  unfoldable pub decide_capture_action : Request → PolicyDecision
  unfolding verdict
  decide_capture_action q =
      let mode = effective_mode q.autonomy_mode in
      let risk = action_risk q.action in
      let command_type = action_command q.action in
      if command_type == "none" || member "raw_note" q.intent_labels
      then record {
        decision = raw_only;
        reason = "No clear action intent; raw evidence archived without memory promotion.";
        risk_level = "safe_internal_read";
        confidence = q.confidence;
        requires_user_visible_status = false;
      }
      else if not q.owner_authenticated
      then verdict review_required "Source not owner-authenticated." risk q.confidence
      else if not (is_empty q.missing_context)
      then verdict ask_clarification "Draft has missing context." risk q.confidence
      else if lt_float q.confidence (hundredths 70)
      then verdict review_required "Low-confidence interpretation." risk q.confidence
      else if mode == "manual"
      then verdict review_required "Manual autonomy mode requires review." risk q.confidence
      else if member risk always_review_risks
      then verdict review_required (risk ⧺ " always requires review.") risk q.confidence
      else if member q.sensitivity sensitive_domains
      then verdict review_required (q.sensitivity ⧺ " sensitivity requires review.") risk
          q.confidence
      else if member command_type (auto_allow mode)
          && (ge_float q.confidence (hundredths 78) && member risk auto_risks)
      then verdict auto_apply (command_type ⧺ " is allowlisted for " ⧺ mode ⧺ " mode.") risk
          q.confidence
      else verdict review_required (command_type ⧺ " is not allowlisted for " ⧺ mode ⧺ " mode.")
          risk q.confidence

  is_review : Verdict → Bool
  is_review review_required = true
  is_review _ = false

  -- `review_required(action, confidence, sensitivity)`
  pub needs_review : Fields → Float → String → Bool
  unfolding is_review
  needs_review action confidence sensitivity =
      is_review
        (decide_capture_action (record {
          action = action;
          confidence = confidence;
          sensitivity = sensitivity;
          autonomy_mode = "manual";
          owner_authenticated = true;
          missing_context = [];
          intent_labels = [];
        })).decision

  -- `payload` when it is a dict, and else the default effect.
  effect_of : Option Json → Option Fields → Option String
  effect_of (some (obj payload)) global = some (text_of env (get_or "effect" (str "deny") payload))
  effect_of other none = none
  effect_of other (some global) = some (text_of env (get_or "default_effect" (str "deny") global))

  -- `none` is the AttributeError of a section that is no dict.
  unfoldable pub tool_effect : String → String → Fields → Option String
  unfolding section effect_of
  tool_effect agent_id tool_id config = do
    permissions ← section "agent_permissions" config
    agent_permissions ← section agent_id permissions
    effect_of (get tool_id agent_permissions) (section "global_tool_policy" config)
