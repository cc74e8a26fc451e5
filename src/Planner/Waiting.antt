-- ===== src/Planner/Waiting.antt =====
-- A message that destroys, touches files, the terminal or providers, or asks to remember.
use life_os_vnex.Prelude.{
  ℕ, suc, String, Bool, true, false, not, ◌&&◌, ◌||◌, ◌≡◌, ◌⊎◌, refl, sym, ap, ◌∙◌, Option, none,
  some, arith, Bool-cases, Option-cases, inl, inr, ◌==◌,
}
use mathlib.Core.Bool.{false≢true, xor}
use mathlib.Core.Path.{subst}
use life_os_vnex.Prelude.Text.{strip, compact, member-all}
use life_os_vnex.Prelude.Text.Compacting.{compact-normal}
use life_os_vnex.Prelude.Env.{Env}
use life_os_vnex.State.{Result, ok, raise}
use life_os_vnex.Planner.{
  PlanMode, TurnPlan, plan_text, deterministic_plan, policy_override, judge_plan, overrides,
  enforce_policy, plan_turn, norm, greetings, is_final, is_greeting, is_question,
  is_explicit_action, is_risky, is_memory, is_orphan, is_recurring_reminder,
}

-- The modes in which nothing is executed or offered for an inline confirmation.
abbrev pub is_held : PlanMode → Bool
is_held PlanMode.answer_only = true
is_held PlanMode.clarify = true
is_held PlanMode.formal_review = true
is_held mode = false

-- The patterns of requests that need a formal review.
abbrev pub is_sensitive : String → Bool
is_sensitive low = is_risky low || is_memory low

abbrev is_answered : String → Bool
is_answered low = is_question low && not (is_explicit_action low)

norm-compact : (message : String) → norm (compact (strip message)) ≡ norm message
unfolding norm
norm-compact = compact-normal

greeting-is-harmless : (low : String) → is_greeting low ≡ true → not (is_sensitive low) ≡ true
unfolding is_greeting is_risky is_memory xor
greeting-is-harmless low h = member-all (λ s. not (is_sensitive s)) low greetings refl h

memory_left : (low : String) → is_risky low ≡ false → is_sensitive low ≡ true → is_memory low ≡ true
memory_left low h s = ground arith

-- A plan of a mode that holds everything back, or an exception.
abbrev Held : Result TurnPlan → Type 0
Held (ok plan) = is_held plan.mode ≡ true
Held (raise e) = Unit

overrides-final : (over plan : TurnPlan) → is_final over.mode ≡ true → overrides over plan ≡ true
unfolding overrides
overrides-final over plan h = ground arith

final-held : (mode : PlanMode) → is_final mode ≡ true → is_held mode ≡ true
final-held PlanMode.clarify h = refl
final-held PlanMode.formal_review h = refl
final-held PlanMode.answer_only h = refl
final-held PlanMode.execute_now h = absurd (false≢true h)
final-held PlanMode.propose_inline h = absurd (false≢true h)

asked :
    (low : String)
    → is_sensitive low ≡ true
    → (is_risky low || is_memory low || is_recurring_reminder low) ≡ true
asked low s = ground arith

module _ (env : Env) (timezone : String) where
  -- The local plan of such a message holds everything back; unless it is an answer to a question, it
  -- takes the place of any other plan.
  plan_text-cases :
      (now : ℕ) (text low : String)
      → is_sensitive low ≡ true
      → (is_held (plan_text env timezone now text low).mode ≡ true)
        × ((is_final (plan_text env timezone now text low).mode ≡ true) ⊎ (is_answered low ≡ true))
  unfolding plan_text
  plan_text-cases now text low s = elim (Bool-cases (text == "")) [
    | inl h ↦ (rw (plan_text, h) refl, rw (plan_text, h) (inl refl))
    | inr h ↦ elim (Bool-cases (is_greeting low)) [
      | inl k ↦ absurd (false≢true (ap not (sym s) ∙ greeting-is-harmless low k))
      | inr k ↦ elim (Bool-cases (is_question low && not (is_explicit_action low))) [
        | inl l ↦ (rw (plan_text, h, k, l) refl, inr l)
        | inr l ↦ elim (Bool-cases (is_risky low)) [
          | inl m ↦ (rw (plan_text, h, k, l, m) refl, inl (rw (plan_text, h, k, l, m) refl))
          | inr m ↦ (
            rw (plan_text, h, k, l, m, memory_left low m s) refl,
            inl (rw (plan_text, h, k, l, m, memory_left low m s) refl),
          )
        ]
      ]
    ]
  ]

  judged_question :
      (n : ℕ) (message : String) (plan : TurnPlan)
      → is_answered (norm message) ≡ true
      → Held (judge_plan env timezone n message plan)
  unfolding judge_plan
  judged_question n message plan h = rw (judge_plan, h) refl

  enforce_policy-Held :
      (n : ℕ) (message : String) (plan : TurnPlan)
      → is_sensitive (norm message) ≡ true
      → Held (enforce_policy env timezone n message plan)
  unfolding enforce_policy policy_override deterministic_plan overrides
  enforce_policy-Held n message plan s = elim (Bool-cases (is_orphan (norm message))) [
    | inl h ↦ rw (enforce_policy, policy_override, h, overrides) refl
    | inr h ↦
        let low = norm (compact (strip message)) in
        let over : TurnPlan = plan_text env timezone (env.clock n) (compact (strip message)) low in
        let taken : policy_override env timezone (env.clock n) message ≡ some over =
          rw (policy_override, h, asked (norm message) s) refl in
        let cases =
          plan_text-cases (env.clock n) (compact (strip message)) low
            (ap is_sensitive (norm-compact message) ∙ s) in
        elim (Bool-cases (overrides over plan)) [
          | inl k ↦ rw (enforce_policy, taken, k) cases.0
          | inr k ↦
              rw (enforce_policy, taken, k)
                (elim cases.1 [
                  | inl l ↦ absurd (false≢true (sym k ∙ overrides-final over plan l))
                  | inr l ↦
                      judged_question (suc n) message plan
                        (ap is_answered (sym (norm-compact message)) ∙ l)
                ])
        ]
  ]

  plan_turn-Held :
      (parse : String → Option TurnPlan) (n : ℕ) (message : String) (json : Option String)
      → is_sensitive (norm message) ≡ true
      → Held (plan_turn env timezone parse n message json)
  unfolding plan_turn
  plan_turn-Held parse n message none s = enforce_policy-Held (suc n) message _ s
  plan_turn-Held parse n message (some json) s = elim (Option-cases (parse json)) [
    | inl h ↦ rw (plan_turn, h) (enforce_policy-Held (suc n) message _ s)
    | inr (plan, h) ↦ rw (plan_turn, h) (enforce_policy-Held n message plan s)
  ]

  -- A message with a word of the destructive, the file, terminal and provider, or the memory pattern
  -- is answered, clarified or sent to a formal review: whatever plan the provider gave, nothing is
  -- executed at once and nothing is offered for an inline confirmation.
  pub sensitive_is_held :
      (parse : String → Option TurnPlan) (n : ℕ) (message : String) (json : Option String)
      (plan : TurnPlan)
      → is_sensitive (norm message) ≡ true
      → plan_turn env timezone parse n message json ≡ ok plan
      → is_held plan.mode ≡ true
  sensitive_is_held parse n message json plan s h =
      subst Held h (plan_turn-Held parse n message json s)
