-- ===== src/Examples/PolicyRuns.antt =====
-- Runs of the approval policy and of the capture router.
use life_os_vnex.Prelude.{true, false, ◌≡◌, ◌≢◌, ◌↔◌, inr, refl, some, [], ◌∷◌, eqb, if◌then◌else◌}
use life_os_vnex.Prelude.Text.{member, strip, lower, has_any}
use life_os_vnex.Prelude.Json.{get, get_or}
use life_os_vnex.Prelude.Env.{text_of}
use life_os_vnex.Policy.{
  auto_allow, auto_apply, raw_only, ask_clarification, review_required, decide_capture_action,
  action_command, action_risk, effective_mode,
}
use life_os_vnex.Policy.Gates.{IsCleared, auto_apply_iff, ask_clarification_iff}
use life_os_vnex.Policy.Modes.{Applies, manual_mode_reviews, modes_widen}
use life_os_vnex.Orchestrator.{
  draft_from_capture, parse_amount, looks_like_job, looks_like_finance, looks_like_prayer,
  looks_like_health, looks_like_family, looks_like_work, looks_like_research, looks_like_memory,
}
use life_os_vnex.Orchestrator.Autonomy.{verdict_on, IsOpenMode, IsApplicable, capture_applied_iff}
use life_os_vnex.Orchestrator.Routing.{kept_raw_iff, finance_capture_verdict}
use life_os_vnex.Examples.{sample_env, prayer_request}

auto_apply_iff_example :
    ((decide_capture_action sample_env prayer_request).decision ≡ auto_apply)
    ↔ IsCleared sample_env prayer_request
auto_apply_iff_example = auto_apply_iff sample_env prayer_request

ask_clarification_iff_example :
    ((decide_capture_action sample_env prayer_request).decision ≡ ask_clarification) ↔ (
      (action_command sample_env prayer_request.action ≢ "none")
      × (member "raw_note" prayer_request.intent_labels ≡ false)
      × (prayer_request.owner_authenticated ≡ true)
      × (prayer_request.missing_context ≢ []))
ask_clarification_iff_example = ask_clarification_iff sample_env prayer_request

manual_mode_reviews_example : ¬ Applies sample_env prayer_request "manual"
manual_mode_reviews_example = manual_mode_reviews sample_env prayer_request

modes_widen_example : Applies sample_env prayer_request "safe"
unfolding decide_capture_action action_command action_risk effective_mode auto_allow member get_or
    get text_of
modes_widen_example =
    modes_widen sample_env prayer_request "balanced" "safe" (inr (refl, refl)) refl

capture_applied_iff_example :
    (verdict_on sample_env "safe" true
        (draft_from_capture sample_env ("fajr" ∷ []) "cap_1" (some "I prayed fajr") "discord")
      ≡ auto_apply)
    ↔ ((true ≡ true)
        × IsOpenMode (effective_mode "safe")
        × IsApplicable (lower (strip "I prayed fajr")))
capture_applied_iff_example =
    capture_applied_iff sample_env ("fajr" ∷ []) "safe" true "cap_1" (some "I prayed fajr")
      "discord"

kept_raw_iff_example :
    (verdict_on sample_env "safe" true
        (draft_from_capture sample_env ("fajr" ∷ []) "cap_1" (some "hello there") "discord")
      ≡ raw_only)
    ↔ ((looks_like_job (lower (strip "hello there")) ≡ false)
        × (looks_like_finance (lower (strip "hello there")) ≡ false)
        × (looks_like_prayer (lower (strip "hello there")) ≡ false)
        × (looks_like_health (lower (strip "hello there")) ≡ false)
        × (looks_like_family (lower (strip "hello there")) ≡ false)
        × (looks_like_work (lower (strip "hello there")) ≡ false)
        × (looks_like_research (lower (strip "hello there")) ≡ false)
        × (looks_like_memory (lower (strip "hello there")) ≡ false))
kept_raw_iff_example =
    kept_raw_iff sample_env ("fajr" ∷ []) "safe" "cap_1" (some "hello there") "discord" true

finance_capture_verdict_example :
    verdict_on sample_env "safe" true
      (draft_from_capture sample_env ("fajr" ∷ []) "cap_1" (some "spent 120 mad") "discord")
    ≡ (if eqb (parse_amount (strip "spent 120 mad")).value 0
        then ask_clarification
        else review_required)
unfolding looks_like_job looks_like_finance lower strip has_any
finance_capture_verdict_example =
    finance_capture_verdict sample_env ("fajr" ∷ []) "safe" "cap_1" (some "spent 120 mad") "discord"
      refl refl
