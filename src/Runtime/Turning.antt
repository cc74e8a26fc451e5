-- ===== src/Runtime/Turning.antt =====
-- When a turn of a conversation may change the owner's data.
use life_os_vnex.Prelude.{String, false, ◌≡◌, refl, sym, ◌∙◌, inl, inr, some, List, []}
use mathlib.Core.Bool.{false≢true}
use life_os_vnex.State.Laws.{held}
use life_os_vnex.Prelude.Env.{Env}
use life_os_vnex.State.{
  Store, AgentRun, AgentSession, Message, PendingActionProposal, new_id, utc_now,
  create_status_event,
}
use life_os_vnex.Bus.Effects.{Result-cases}
use life_os_vnex.Planner.{PlanMode, TurnPlan, is_execute_now}
use life_os_vnex.Proposals.{formal_reviews, persist_proposals, text_or}
use life_os_vnex.Proposals.Created.{persist_adds, persist-runs}
use life_os_vnex.Runtime.{
  Executed, done, unclear, failed, execute_rows, announce_done, carry_out, session_origin,
  run_origin,
}
use life_os_vnex.Runtime.Frame.{Unchanged, unchanged}
use life_os_vnex.Runtime.Running.{execute_rows-runs}
use life_os_vnex.Runtime.Planned.{formal_reviews-Unchanged}

module _ (env : Env) (tz : String) (run : AgentRun) (r : AgentSession) (m : Message) where
  persist-Unchanged :
      (source : String) (plan : TurnPlan) (s : Store)
      → Unchanged s (persist_proposals env (session_origin r) m source plan.proposals s).1
  persist-Unchanged source plan s =
      let (_, _, _, _, _, same) = persist_adds env (session_origin r) m source plan.proposals s in
      record { tables = same; runs = persist-runs env (session_origin r) m source plan.proposals s }

  announce_done-runs :
      (rows : List PendingActionProposal) (ended : Executed) (s : Store)
      → held (announce_done env tz run r m rows ended s).1 ≡ held s
  unfolding create_status_event new_id utc_now
  announce_done-runs rows (done results) s = refl
  announce_done-runs rows (unclear row text) s = refl
  announce_done-runs rows (failed results) s = refl

  pub carry_out-Unchanged :
      (mode : PlanMode) (source : String) (plan : TurnPlan) (s : Store)
      → is_execute_now mode ≡ false
      → Unchanged s (carry_out env tz run r m mode source plan s).1
  unfolding carry_out
  carry_out-Unchanged PlanMode.answer_only source plan s h = unchanged s
  carry_out-Unchanged PlanMode.clarify source plan s h = unchanged s
  carry_out-Unchanged PlanMode.execute_now source plan s h = absurd (false≢true (sym h))
  carry_out-Unchanged PlanMode.propose_inline source plan s h =
      let first = persist-Unchanged source plan s in
      elim (Result-cases (persist_proposals env (session_origin r) m source plan.proposals s).0) [
        | inl (rows, e) ↦ rw (carry_out, e) first
        | inr (x, e) ↦ rw (carry_out, e) first
      ]
  carry_out-Unchanged PlanMode.formal_review source plan s h =
      let first = formal_reviews-Unchanged env (run_origin run) m plan.proposals s in
      elim (Result-cases (formal_reviews env (run_origin run) m plan.proposals s).0) [
        | inl (rows, e) ↦ rw (carry_out, e) first
        | inr (x, e) ↦ rw (carry_out, e) first
      ]

  execute_now-runs :
      (source : String) (plan : TurnPlan) (s : Store)
      → held (carry_out env tz run r m PlanMode.execute_now source plan s).1 ≡ held s
  unfolding carry_out
  execute_now-runs source plan s =
      let stored = persist_proposals env (session_origin r) m source plan.proposals s in
      let actor = text_or (some r.agent_id) "orchestrator" in
      let first = persist-Unchanged source plan s in
      elim (Result-cases stored.0) [
        | inr (x, e) ↦ rw (carry_out, e) first.runs
        | inl (rows, e) ↦
            let ran = execute_rows env tz "agent" actor [] rows stored.1 in
            let second = execute_rows-runs env tz "agent" actor [] rows stored.1 in
            elim (Result-cases ran.0) [
              | inr (x, k) ↦ rw (carry_out, e, k) (second ∙ first.runs)
              | inl (ended, k) ↦
                  let third = announce_done-runs rows ended ran.1 in
                  elim (Result-cases (announce_done env tz run r m rows ended ran.1).0) [
                    | inr (x, l) ↦ rw (carry_out, e, k, l) (third ∙ (second ∙ first.runs))
                    | inl (u, l) ↦ rw (carry_out, e, k, l) (third ∙ (second ∙ first.runs))
                  ]
            ]
      ]

  pub carry_out-runs :
      (mode : PlanMode) (source : String) (plan : TurnPlan) (s : Store)
      → held (carry_out env tz run r m mode source plan s).1 ≡ held s
  carry_out-runs PlanMode.execute_now source plan s = execute_now-runs source plan s
  carry_out-runs PlanMode.answer_only source plan s =
      (carry_out-Unchanged PlanMode.answer_only source plan s refl).runs
  carry_out-runs PlanMode.clarify source plan s =
      (carry_out-Unchanged PlanMode.clarify source plan s refl).runs
  carry_out-runs PlanMode.propose_inline source plan s =
      (carry_out-Unchanged PlanMode.propose_inline source plan s refl).runs
  carry_out-runs PlanMode.formal_review source plan s =
      (carry_out-Unchanged PlanMode.formal_review source plan s refl).runs
