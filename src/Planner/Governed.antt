-- ===== src/Planner/Governed.antt =====
-- `plan_conversation_turn` returns lawful plans, whatever plan it is given.
use life_os_vnex.Prelude.{
  ℕ, suc, String, true, false, not, ◌&&◌, ◌||◌, ◌≡◌, refl, sym, ap, ◌∙◌, Option, none, some, List,
  [], ◌∷◌, any, all, map, All, arith, Bool-cases, Option-cases, inl, inr,
}
use mathlib.Core.Bool.{false≢true}
use mathlib.Core.Path.{subst}
use life_os_vnex.Prelude.Text.{strip, compact}
use life_os_vnex.Prelude.Env.{Env}
use life_os_vnex.State.{Result, ok, raise}
use life_os_vnex.Planner.{
  ActionProposal, TurnPlan, deterministic_plan, policy_override, sanitize_all, settle_plan,
  is_quiet, is_nil, is_execute_now, is_explicit, is_safe, settled, unconfirmed, judge_plan,
  overrides, enforce_policy, plan_turn, norm, is_question, is_orphan, is_risky, is_memory,
  is_recurring_reminder, is_explicit_action,
}
use life_os_vnex.Planner.Lawful.{
  IsWaiting, quiet, reviewed, proposed, IsLawful, runs, Law-runs, plan_text-IsLawful,
}
use life_os_vnex.Planner.Guarded.{
  guarded, holds, shrinks, sanitize_all-guarded, sanitize_all-shrinks,
}

-- The tests of `execute_now` and the guard give what may run.
runs-of :
    (ps : List ActionProposal)
    → any (λ p. p.formal_review_required) ps ≡ false
    → all is_explicit ps ≡ true
    → all is_safe ps ≡ true
    → all guarded ps ≡ true
    → all runs ps ≡ true
runs-of [] a b c d = refl
runs-of (p ∷ ps) a b c d = ground (arith, runs-of ps)

unconfirmed-All : (ps : List ActionProposal) → All IsWaiting (map unconfirmed ps)
unconfirmed-All [] = tt
unconfirmed-All (p ∷ ps) = (record { waits = refl; unreviewed = refl }, unconfirmed-All ps)

settle_plan-IsLawful :
    (plan : TurnPlan) (p : ActionProposal) (ps : List ActionProposal)
    → all guarded (p ∷ ps) ≡ true
    → IsLawful (settle_plan plan (p ∷ ps))
unfolding settle_plan
settle_plan-IsLawful plan p ps g =
    elim (Bool-cases (any (λ q. q.formal_review_required) (p ∷ ps))) [
      | inl h ↦ rw (settle_plan, h) (record { law = reviewed (p ∷ ps) h })
      | inr h ↦
          rw (settle_plan, h)
            (elim (Bool-cases
              (is_execute_now plan.mode && all is_explicit (p ∷ ps) && all is_safe (p ∷ ps))) [
                | inl k ↦ rw k (record {
                  law =
                      Law-runs _ (p ∷ ps) (ground arith)
                        (runs-of (p ∷ ps) h (ground arith) (ground arith) g);
                })
                | inr k ↦ rw k (record { law = proposed _ _ (unconfirmed-All (p ∷ ps)) })
              ])
    ]

settle_nil-IsLawful : (plan : TurnPlan) → plan.proposals ≡ [] → IsLawful (settle_plan plan [])
unfolding settle_plan
settle_nil-IsLawful plan h = elim (Bool-cases (is_quiet plan.mode)) [
  | inl k ↦ rw (settle_plan, k) (record { law = rw h (quiet plan.mode k) })
  | inr k ↦ rw (settle_plan, k) (record { law = quiet _ refl })
]

nil-eq : (xs : List ActionProposal) → is_nil xs ≡ true → xs ≡ []
nil-eq [] h = refl
nil-eq (p ∷ ps) h = absurd (false≢true h)

-- A result with a lawful plan, or an exception.
abbrev Lawful : Result TurnPlan → Type 0
Lawful (ok plan) = IsLawful plan
Lawful (raise e) = Unit

abbrev LawfulOver : Option TurnPlan → Type 0
LawfulOver none = Unit
LawfulOver (some plan) = IsLawful plan

module _ (env : Env) (timezone : String) where
  deterministic_plan-IsLawful :
      (now : ℕ) (message : String) → IsLawful (deterministic_plan env timezone now message)
  unfolding deterministic_plan
  deterministic_plan-IsLawful now message =
      let text : String = compact (strip message) in
      plan_text-IsLawful env timezone now text (norm text)

  settled-Lawful :
      (n : ℕ) (message : String) (plan : TurnPlan) (xs : List ActionProposal)
      → plan.proposals ≡ xs
      → (r : Result (List ActionProposal)) → sanitize_all env timezone n message xs ≡ r
      → Lawful (settled plan r)
  unfolding settled
  settled-Lawful n message plan xs e (raise x) h = tt
  settled-Lawful n message plan xs e (ok (p ∷ ps)) h =
      settle_plan-IsLawful plan p ps
        (ap (holds (all guarded)) (sym h) ∙ sanitize_all-guarded env timezone n message xs)
  settled-Lawful n message plan xs e (ok []) h = settle_nil-IsLawful plan (
      e
      ∙ nil-eq xs
          (ap (holds (shrinks xs)) (sym h) ∙ sanitize_all-shrinks env timezone n message xs))

  judge_plan-Lawful :
      (n : ℕ) (message : String) (plan : TurnPlan) → Lawful (judge_plan env timezone n message plan)
  unfolding judge_plan
  judge_plan-Lawful n message plan =
      elim (Bool-cases (is_question (norm message) && not (is_explicit_action (norm message)))) [
        | inl h ↦ rw (judge_plan, h) (record { law = quiet _ refl })
        | inr h ↦ rw (judge_plan, h) (settled-Lawful n message plan plan.proposals refl _ refl)
      ]

  policy_override-IsLawful :
      (now : ℕ) (message : String) (over : TurnPlan)
      → policy_override env timezone now message ≡ some over
      → IsLawful over
  unfolding policy_override
  policy_override-IsLawful now message over h =
      subst LawfulOver h (elim (Bool-cases (is_orphan (norm message))) [
        | inl e ↦ rw (policy_override, e) (record { law = quiet _ refl })
        | inr e ↦
            rw (policy_override, e)
              (elim (Bool-cases (
                is_risky (norm message)
                || is_memory (norm message)
                || is_recurring_reminder (norm message))) [
                  | inl k ↦ rw k (deterministic_plan-IsLawful now message)
                  | inr k ↦ rw k tt
                ])
      ])

  enforce_policy-Lawful :
      (n : ℕ) (message : String) (plan : TurnPlan)
      → Lawful (enforce_policy env timezone n message plan)
  unfolding enforce_policy
  enforce_policy-Lawful n message plan =
      elim (Option-cases (policy_override env timezone (env.clock n) message)) [
        | inl h ↦ rw (enforce_policy, h) (judge_plan-Lawful (suc n) message plan)
        | inr (over, h) ↦ elim (Bool-cases (overrides over plan)) [
          | inl k ↦
              rw (enforce_policy, h, k) (policy_override-IsLawful (env.clock n) message over h)
          | inr k ↦ rw (enforce_policy, h, k) (judge_plan-Lawful (suc n) message plan)
        ]
      ]

  plan_turn-Lawful :
      (parse : String → Option TurnPlan) (n : ℕ) (message : String) (json : Option String)
      → Lawful (plan_turn env timezone parse n message json)
  unfolding plan_turn
  plan_turn-Lawful parse n message none = enforce_policy-Lawful (suc n) message _
  plan_turn-Lawful parse n message (some json) = elim (Option-cases (parse json)) [
    | inl h ↦ rw (plan_turn, h) (enforce_policy-Lawful (suc n) message _)
    | inr (plan, h) ↦ rw (plan_turn, h) (enforce_policy-Lawful n message plan)
  ]

  -- Whatever a provider proposes, a plan that `plan_conversation_turn` returns follows the law of its
  -- mode: answers and clarifications carry no proposal; a formal review has one that is formally
  -- reviewed; inline proposals all wait for a confirmation and none for a review; and what is executed
  -- at once is low in risk, explicit, unconfirmed, not under review, and of no type that is reviewed.
  pub plan_turn-IsLawful :
      (parse : String → Option TurnPlan) (n : ℕ) (message : String) (json : Option String)
      (plan : TurnPlan)
      → plan_turn env timezone parse n message json ≡ ok plan
      → IsLawful plan
  plan_turn-IsLawful parse n message json plan h =
      subst Lawful h (plan_turn-Lawful parse n message json)
