-- ===== src/Planner/Lawful.antt =====
-- The plans that come out of `plan_conversation_turn`: what each mode lets happen to the proposals.
use life_os_vnex.Prelude.{
  ℕ, String, Bool, true, false, not, ◌&&◌, ◌≡◌, refl, List, [], ◌∷◌, any, all, All, arith,
  Bool-cases, Option-cases, inl, inr, ◌==◌, eq_iff,
}
use mathlib.Core.Bool.{false≢true}
use life_os_vnex.Prelude.Text.{member}
use life_os_vnex.Prelude.Json.{null, get_or, truthy}
use life_os_vnex.Prelude.Env.{Env}
use life_os_vnex.Prelude.Regex.{matches}
use life_os_vnex.State.{Result, ok, raise}
use life_os_vnex.Planner.{
  is_quiet, is_execute_now, ActionProposal, PlanMode, TurnPlan, plan_text, is_greeting, is_question,
  is_explicit_action, is_risky, is_memory, is_recurring_reminder, explicit_reminder_re,
  recurring_re, explicit_task_re, is_completion, implicit_action_re, explicit_reminder_plan,
  explicit_task_plan, implicit_task_plan, complete_task_plan, reminder_plan_at, base_events,
  LocalTime, resolve_at,
}

-- The types that `_enforce_proposal_policy` always sends to a formal review.
abbrev pub reviewed_types : List String
reviewed_types =
    "job.create_recurring" ∷ "memory_candidate.create" ∷ "file.write_proposal"
    ∷ "terminal.run_proposal" ∷ []

-- A proposal that may run at once: low risk, explicit, neither unconfirmed nor under review, and of no
-- type that is always reviewed.
pub record IsExecutable (p : ActionProposal) : Type 0 where
  pub low : p.risk ≡ "low"
  pub explicit : truthy (get_or "explicit" null p.draft) ≡ true
  pub confirmed : p.requires_confirmation ≡ false
  pub unreviewed : p.formal_review_required ≡ false
  pub plain : member p.type reviewed_types ≡ false

pub record IsWaiting (p : ActionProposal) : Type 0 where
  pub waits : p.requires_confirmation ≡ true
  pub unreviewed : p.formal_review_required ≡ false

-- What the mode of a plan says of its proposals.
pub data Law : PlanMode → List ActionProposal → Type 0 where
  quiet : (mode : PlanMode) → is_quiet mode ≡ true → Law mode []
  reviewed :
      (ps : List ActionProposal)
      → any (λ p. p.formal_review_required) ps ≡ true
      → Law PlanMode.formal_review ps
  executed :
      (p : ActionProposal) (ps : List ActionProposal)
      → All IsExecutable (p ∷ ps)
      → Law PlanMode.execute_now (p ∷ ps)
  proposed :
      (p : ActionProposal) (ps : List ActionProposal)
      → All IsWaiting (p ∷ ps)
      → Law PlanMode.propose_inline (p ∷ ps)

pub record IsLawful (plan : TurnPlan) : Type 0 where
  pub law : Law plan.mode plan.proposals

-- A result with a lawful plan, or an exception.
abbrev Lawful : Result TurnPlan → Type 0
Lawful (ok plan) = IsLawful plan
Lawful (raise e) = Unit

-- `IsExecutable` as a test.
abbrev pub runs : ActionProposal → Bool
runs p =
    p.risk == "low"
    && truthy (get_or "explicit" null p.draft)
    && not p.requires_confirmation
    && not p.formal_review_required
    && not (member p.type reviewed_types)

runs-IsExecutable : (p : ActionProposal) → runs p ≡ true → IsExecutable p
runs-IsExecutable p h =
    let low : p.risk ≡ "low" = ground (arith, eq_iff p.risk "low") in
    record {
      low = low;
      explicit = ground arith;
      confirmed = ground arith;
      unreviewed = ground arith;
      plain = ground arith;
    }

all_runs-All : (ps : List ActionProposal) → all runs ps ≡ true → All IsExecutable ps
all_runs-All [] h = tt
all_runs-All (p ∷ ps) h = (runs-IsExecutable p (ground arith), all_runs-All ps (ground arith))

-- Whether a list of proposals is not empty and may run.
abbrev all_run : List ActionProposal → Bool
all_run [] = false
all_run (p ∷ ps) = all runs (p ∷ ps)

pub Law-runs :
    (mode : PlanMode) (ps : List ActionProposal)
    → is_execute_now mode ≡ true
    → all_run ps ≡ true
    → Law mode ps
Law-runs PlanMode.execute_now (p ∷ ps) e h = executed p ps (all_runs-All (p ∷ ps) h)
Law-runs PlanMode.execute_now [] e h = absurd (false≢true h)
Law-runs PlanMode.answer_only ps e h = absurd (false≢true e)
Law-runs PlanMode.propose_inline ps e h = absurd (false≢true e)
Law-runs PlanMode.formal_review ps e h = absurd (false≢true e)
Law-runs PlanMode.clarify ps e h = absurd (false≢true e)

complete_task_plan-IsLawful :
    (text : String) (events : List String) → IsLawful (complete_task_plan text events)
unfolding complete_task_plan get_or member
complete_task_plan-IsLawful text events = record { law = Law-runs _ _ refl refl }

module _ (env : Env) (timezone : String) where
  reminder_plan_at-IsLawful :
      (now : ℕ) (text : String) (events : List String) (t : LocalTime)
      → IsLawful (reminder_plan_at env timezone now text events t)
  unfolding reminder_plan_at get_or member
  reminder_plan_at-IsLawful now text events t = record { law = Law-runs _ _ refl refl }

  explicit_task_plan-IsLawful :
      (now : ℕ) (text : String) (events : List String)
      → IsLawful (explicit_task_plan env timezone now text events)
  unfolding explicit_task_plan get_or member
  explicit_task_plan-IsLawful now text events = record { law = Law-runs _ _ refl refl }

  implicit_task_plan-IsLawful :
      (now : ℕ) (text : String) (events : List String)
      → IsLawful (implicit_task_plan env timezone now text events)
  unfolding implicit_task_plan
  implicit_task_plan-IsLawful now text events = record {
    law = proposed _ [] (record { waits = refl; unreviewed = refl }, tt);
  }

  explicit_reminder_plan-IsLawful :
      (now : ℕ) (text : String) (events : List String)
      → IsLawful (explicit_reminder_plan env timezone now text events)
  unfolding explicit_reminder_plan
  explicit_reminder_plan-IsLawful now text events =
      elim (Option-cases (resolve_at env text timezone now)) [
        | inl e ↦ rw (explicit_reminder_plan, e) (record { law = quiet _ refl })
        | inr (t, e) ↦ rw (explicit_reminder_plan, e) (reminder_plan_at-IsLawful now text events t)
      ]

  pub plan_text-IsLawful :
      (now : ℕ) (text low : String) → IsLawful (plan_text env timezone now text low)
  unfolding plan_text
  plan_text-IsLawful now text low = elim (Bool-cases (text == "")) [
    | inl h ↦ rw (plan_text, h) (record { law = quiet _ refl })
    | inr h ↦
        rw (plan_text, h)
          (elim (Bool-cases (is_greeting low)) [
            | inl h ↦ rw h (record { law = quiet _ refl })
            | inr h ↦ rw h (elim (Bool-cases (is_question low && not (is_explicit_action low))) [
              | inl h ↦ rw h (record { law = quiet _ refl })
              | inr h ↦ rw h (elim (Bool-cases (is_risky low)) [
                | inl h ↦ rw h (record { law = reviewed _ refl })
                | inr h ↦ rw h (elim (Bool-cases (is_memory low)) [
                  | inl h ↦ rw h (record { law = reviewed _ refl })
                  | inr h ↦ rw h (elim (Bool-cases (is_recurring_reminder low)) [
                    | inl h ↦ rw h (record { law = reviewed _ refl })
                    | inr h ↦
                        rw h
                          (elim (Bool-cases
                            (matches explicit_reminder_re low && matches recurring_re low)) [
                              | inl h ↦ rw h (record { law = reviewed _ refl })
                              | inr h ↦ rw h (elim (Bool-cases (matches explicit_reminder_re low)) [
                                | inl h ↦
                                    rw h (explicit_reminder_plan-IsLawful now text base_events)
                                | inr h ↦ rw h (elim (Bool-cases (matches explicit_task_re low)) [
                                  | inl h ↦ rw h (explicit_task_plan-IsLawful now text base_events)
                                  | inr h ↦ rw h (elim (Bool-cases (is_completion low)) [
                                    | inl h ↦ rw h (complete_task_plan-IsLawful text base_events)
                                    | inr h ↦
                                        rw h (elim (Bool-cases (matches implicit_action_re low)) [
                                          | inl h ↦
                                              rw h
                                                (implicit_task_plan-IsLawful now text base_events)
                                          | inr h ↦ rw h (record { law = quiet _ refl })
                                        ])
                                  ])
                                ])
                              ])
                            ])
                  ])
                ])
              ])
            ])
          ])
  ]
