-- ===== src/Examples/PlannerRuns.antt =====
-- Runs of the planner.
use mathlib.Core.Bool.{xor}
use life_os_vnex.Prelude.{ℕ, true, false, ◌≡◌, refl, some, none, List, [], ◌∷◌}
use life_os_vnex.Prelude.Json.{bool, fields_of, hundredths, get_or}
use life_os_vnex.Prelude.Text.{member, lower, strip, compact}
use life_os_vnex.State.{ok}
use life_os_vnex.Planner.{
  ActionProposal, PlanMode, TurnPlan, plan_turn, enforce_policy, judge_plan, settled, settle_plan,
  sanitize_all, sanitize, enforce_proposal, replacement, policy_override, overrides,
  deterministic_plan, plan_text, norm, is_orphan, is_risky, is_memory, is_recurring_reminder,
  is_question, is_explicit_action, dedupe, risky_plan, interpret_follow_up,
}
use life_os_vnex.Planner.Lawful.{IsLawful}
use life_os_vnex.Planner.Governed.{plan_turn-IsLawful}
use life_os_vnex.Planner.Waiting.{is_held, sensitive_is_held}
use life_os_vnex.Planner.Pending.{IsAddressed, interpret-IsAddressed}
use life_os_vnex.Examples.{sample_env}

abbrev update_proposal : ActionProposal
update_proposal = record {
  type = "task.update";
  summary = "Water the plants";
  confidence = hundredths 90;
  risk = "low";
  requires_confirmation = false;
  formal_review_required = false;
  draft = fields_of (("explicit", bool true) ∷ []);
  reason = none;
}

-- What a provider answers to "water the plants".
abbrev provider_plan : TurnPlan
provider_plan = record {
  mode = PlanMode.execute_now;
  assistant_reply = "Done.";
  proposals = update_proposal ∷ [];
  memory_candidates = [];
  clarifying_question = none;
  status_events = [];
}

abbrev executed_plan : TurnPlan
executed_plan = record provider_plan { status_events = "planned_action" ∷ "executing_action" ∷ [] }

executes :
    plan_turn sample_env "UTC" (λ _. some provider_plan) 0 "water the plants" (some "{}")
    ≡ ok executed_plan
unfolding plan_turn enforce_policy judge_plan settled settle_plan sanitize_all sanitize
    enforce_proposal replacement policy_override norm is_orphan is_risky is_memory
    is_recurring_reminder is_question is_explicit_action dedupe xor get_or member compact lower
    strip
executes = refl

plan_turn-IsLawful_example : IsLawful executed_plan
plan_turn-IsLawful_example =
    plan_turn-IsLawful sample_env "UTC" (λ _. some provider_plan) 0 "water the plants" (some "{}")
      executed_plan executes

abbrev held_plan : TurnPlan
held_plan = risky_plan "delete it" "delete it"

sensitive_is_held_example : is_held held_plan.mode ≡ true
unfolding plan_turn enforce_policy overrides policy_override deterministic_plan plan_text norm
    is_orphan is_risky is_memory is_question is_explicit_action xor risky_plan strip compact lower
sensitive_is_held_example =
    sensitive_is_held sample_env "UTC" (λ _. some provider_plan) 0 "delete it" (some "{}") held_plan
      refl refl

abbrev two_pending : List ℕ
two_pending = 3 ∷ 4 ∷ []

interpret-IsAddressed_example :
    IsAddressed "yes" 2 (interpret_follow_up sample_env "UTC" 0 "yes" two_pending)
interpret-IsAddressed_example = interpret-IsAddressed sample_env "UTC" 0 "yes" two_pending
