-- ===== src/Planner/Enforcing.antt =====
-- `enforce_conversation_policy` over the plan of a provider or of the local planner, and
-- `plan_conversation_turn`.
use life_os_vnex.Prelude.{
  String, Bool, true, false, not, ◌&&◌, ◌||◌, ℕ, suc, Option, none, some, List, [], ◌∷◌, ◌++◌, any,
  all, map, if◌then◌else◌, ◌==◌,
}
use life_os_vnex.Prelude.Text.{has, member}
use life_os_vnex.Prelude.Json.{null, lt_float, get_or, truthy}
use life_os_vnex.Prelude.Env.{Env}
use life_os_vnex.Prelude.Regex.{matches}
use life_os_vnex.State.{Exception, Result, ok, raise}
use life_os_vnex.Planner.Dates.{norm}
use life_os_vnex.Planner.Plans.{ActionProposal, PlanMode, TurnPlan, answer, clarification, dedupe}
use life_os_vnex.Planner.Patterns.{
  explicit_task_re, explicit_reminder_re, implicit_action_re, is_question, is_explicit_action,
}
use life_os_vnex.Planner.Deciding.{base_events, deterministic_plan, policy_override}
use life_os_vnex.Planner.Local.{
  advice_answer, complete_task_plan, explicit_task_plan, explicit_reminder_plan, implicit_task_plan,
}

abbrev pub is_execute_now : PlanMode → Bool
is_execute_now PlanMode.execute_now = true
is_execute_now mode = false

-- A mode that changes nothing.
abbrev pub is_quiet : PlanMode → Bool
is_quiet PlanMode.answer_only = true
is_quiet PlanMode.clarify = true
is_quiet mode = false

-- The modes of an override that is always taken.
abbrev pub is_final : PlanMode → Bool
is_final PlanMode.formal_review = true
is_final PlanMode.clarify = true
is_final mode = false

abbrev pub is_clarify : PlanMode → Bool
is_clarify PlanMode.clarify = true
is_clarify mode = false

abbrev pub is_nil : List ActionProposal → Bool
is_nil [] = true
is_nil (p ∷ ps) = false

-- A proposal that waits for a confirmation and for no formal review.
abbrev pub unconfirmed : ActionProposal → ActionProposal
unconfirmed p = record p { requires_confirmation = true; formal_review_required = false }

-- `_enforce_proposal_policy` on the two flags, in the order of the updates.
unfoldable pub enforce_proposal : String → ActionProposal → ActionProposal
unfolding member has get_or
enforce_proposal low p =
    if member p.type (
        "job.create_recurring" ∷ "memory_candidate.create" ∷ "file.write_proposal"
        ∷ "terminal.run_proposal" ∷ [])
      || member p.risk ("high" ∷ "sensitive" ∷ "destructive" ∷ [])
    then record p { requires_confirmation = true; formal_review_required = true }
    else if p.type == "file.read" && has low "sensitive"
    then record p { formal_review_required = true }
    else if member p.type (
          "task.create" ∷ "task.update" ∷ "task.complete" ∷ "reminder.create" ∷ "job.create_once"
          ∷ [])
        && p.risk == "low"
        && truthy (get_or "explicit" null p.draft)
    then record p { requires_confirmation = false; formal_review_required = false }
    else p

abbrev pub is_safe : ActionProposal → Bool
is_safe p = p.risk == "low" && not p.requires_confirmation

abbrev pub is_explicit : ActionProposal → Bool
is_explicit p = truthy (get_or "explicit" null p.draft)

abbrev reply_or : String → String → String
reply_or reply default = if reply == "" then default else reply

-- The last part of `enforce_conversation_policy`, on the proposals that came out.
unfoldable pub settle_plan : TurnPlan → List ActionProposal → TurnPlan
settle_plan plan [] =
    if is_quiet plan.mode
    then plan
    else clarification "I need one detail before I can safely act. What should I create or change?"
        "What should I create or change?" (plan.status_events ++ "waiting_for_confirmation" ∷ [])
settle_plan plan (p ∷ ps) =
    if any (λ q. q.formal_review_required) (p ∷ ps)
    then record plan {
      mode = PlanMode.formal_review;
      proposals = p ∷ ps;
      assistant_reply =
          reply_or plan.assistant_reply "This needs formal review before I can change anything.";
      status_events =
          dedupe (plan.status_events ++ "planned_action" ∷ "formal_review_created" ∷ []);
    }
    else if is_execute_now plan.mode && all is_explicit (p ∷ ps) && all is_safe (p ∷ ps)
    then record plan {
      proposals = p ∷ ps;
      status_events = dedupe (plan.status_events ++ "planned_action" ∷ "executing_action" ∷ []);
    }
    else record plan {
      mode = PlanMode.propose_inline;
      proposals = map unconfirmed (p ∷ ps);
      assistant_reply = reply_or plan.assistant_reply "I can create this. Please confirm first.";
      status_events =
          dedupe (plan.status_events ++ "planned_action" ∷ "waiting_for_confirmation" ∷ []);
    }

-- The plan over its proposals, or the exception that one of them raised.
unfoldable pub settled : TurnPlan → Result (List ActionProposal) → Result TurnPlan
settled plan (raise e) = raise e
settled plan (ok ps) = ok (settle_plan plan ps)

-- Whether the override takes the place of the plan.
unfoldable pub overrides : TurnPlan → TurnPlan → Bool
overrides over plan = is_final over.mode || is_clarify plan.mode || is_nil plan.proposals

-- The proposals of a plan's first place; a plan without proposals is an IndexError.
abbrev pub first_of : TurnPlan → Result (Option ActionProposal)
first_of plan = elim plan.proposals [
  | [] ↦ raise (Exception.index_error "list index out of range")
  | p ∷ ps ↦ ok (some p)
]

abbrev reason_or : Option String → Option String → Option String
reason_or none b = b
reason_or (some s) b = if s == "" then b else some s

-- The replacement with the summary, the confidence and the reason of the proposal.
abbrev merged : ActionProposal → ActionProposal → ActionProposal
merged p r = record r {
  summary = if p.summary == "" then r.summary else p.summary;
  confidence = if lt_float p.confidence r.confidence then r.confidence else p.confidence;
  reason = reason_or p.reason r.reason;
}

module _ (env : Env) (timezone : String) where
  -- What the message itself says in the place of a provider's proposal.
  unfoldable pub replacement : ℕ → String → String → Result (Option ActionProposal)
  replacement now message type =
      let low = norm message in
      if type == "task.create"
      then (if matches explicit_task_re low
          then first_of (explicit_task_plan env timezone now message [])
          else if matches implicit_action_re low
          then first_of (implicit_task_plan env timezone now message [])
          else ok none)
      else if (type == "reminder.create" || type == "job.create_once")
          && matches explicit_reminder_re low
      then first_of (explicit_reminder_plan env timezone now message [])
      else if type == "task.complete"
      then first_of (complete_task_plan message [])
      else ok none

  -- `_sanitize_provider_proposal`
  unfoldable pub sanitize : ℕ → String → ActionProposal → Result ActionProposal
  sanitize now message p = elim (replacement now message p.type) [
    | raise e ↦ raise e
    | ok none ↦ ok p
    | ok (some r) ↦ ok (merged p r)
  ]

  -- The proposals of a plan, each with its own reading of the clock, from the n-th on.
  unfoldable pub sanitize_all : ℕ → String → List ActionProposal → Result (List ActionProposal)
  sanitize_all n message [] = ok []
  sanitize_all n message (p ∷ ps) =
      elim (sanitize (env.clock n) message (enforce_proposal (norm message) p)) [
        | raise e ↦ raise e
        | ok q ↦ elim (sanitize_all (suc n) message ps) [ raise e ↦ raise e | ok qs ↦ ok (q ∷ qs) ]
      ]

  -- What follows the override: a question is answered, everything else goes through the policy.
  unfoldable pub judge_plan : ℕ → String → TurnPlan → Result TurnPlan
  judge_plan n message plan =
      let low = norm message in
      if is_question low && not (is_explicit_action low)
      then ok (
          answer
            (elim plan.mode [
              | PlanMode.answer_only ↦ plan.assistant_reply
              | _ ↦ advice_answer message
            ])
            base_events)
      else settled plan (sanitize_all n message plan.proposals)

  -- `enforce_conversation_policy`, from the n-th reading of the clock on.
  unfoldable pub enforce_policy : ℕ → String → TurnPlan → Result TurnPlan
  enforce_policy n message plan = elim (policy_override env timezone (env.clock n) message) [
    | none ↦ judge_plan (suc n) message plan
    | some over ↦ if overrides over plan then ok over else judge_plan (suc n) message plan
  ]

  -- `plan_conversation_turn`; `parse` is `ConversationTurnPlan.model_validate_json`.
  unfoldable pub plan_turn :
      (String → Option TurnPlan) → ℕ → String → Option String → Result TurnPlan
  plan_turn parse n message none =
      enforce_policy (suc n) message (deterministic_plan env timezone (env.clock n) message)
  plan_turn parse n message (some json) = elim (parse json) [
    | none ↦ enforce_policy (suc n) message (deterministic_plan env timezone (env.clock n) message)
    | some plan ↦ enforce_policy n message plan
  ]
