-- ===== src/Runtime/Running.antt =====
-- Executing proposals and following up on them leaves the runs alone.
use life_os_vnex.Prelude.{
  String, ◌≡◌, refl, ◌∙◌, inl, inr, List, [], ◌∷◌, ◌++◌, ◌==◌, arith, Bool-cases,
}
use life_os_vnex.Prelude.Text.{member}
use life_os_vnex.State.Laws.{held}
use life_os_vnex.Prelude.Env.{Env}
use life_os_vnex.State.{
  Store, PendingActionProposal, Exception, Result, ok, raise, new_id, utc_now, create_audit_event,
}
use life_os_vnex.Bus.{CommandResult}
use life_os_vnex.Bus.Apply.{apply}
use life_os_vnex.Bus.Effects.{Result-cases}
use life_os_vnex.Bus.Recording.{apply-runs}
use life_os_vnex.Proposals.{
  open_statuses, complete_payload, command_request, run_proposal, execute_proposal, reject_proposal,
  put_proposal, with_status,
}
use life_os_vnex.Runtime.{ran, refused, present, settle_attempt, is_applied, attempt, execute_rows}
use life_os_vnex.Runtime.Frame.{reject-Unchanged}

module _ (env : Env) (tz : String) where
  settle_attempt-runs :
      (r : PendingActionProposal) (x : Result (PendingActionProposal × CommandResult)) (t : Store)
      → held (settle_attempt env tz r x t).1 ≡ held t
  unfolding settle_attempt
  settle_attempt-runs r (ok (row, result)) t = refl
  settle_attempt-runs r (raise (Exception.value_error m)) t =
      let first = reject-Unchanged env tz (present t r) t in
      elim (Result-cases (reject_proposal env tz (present t r) t).0) [
        | inr (e, h) ↦ rw (settle_attempt, h) first.runs
        | inl (row, h) ↦ rw (settle_attempt, h) first.runs
      ]
  settle_attempt-runs r (raise (Exception.key_error m)) t = refl
  settle_attempt-runs r (raise (Exception.type_error m)) t = refl
  settle_attempt-runs r (raise (Exception.attribute_error m)) t = refl
  settle_attempt-runs r (raise (Exception.index_error m)) t = refl
  settle_attempt-runs r (raise (Exception.overflow_error m)) t = refl
  settle_attempt-runs r (raise (Exception.runtime_error m)) t = refl
  settle_attempt-runs r (raise (Exception.os_error m)) t = refl

  module _ (actor_type actor_id : String) where
    request-runs :
        (r : PendingActionProposal) (s : Store)
        → (command_request env tz r actor_type actor_id s).1 ≡ s
    unfolding command_request complete_payload
    request-runs r s = ground arith

    run_proposal-runs :
        (r : PendingActionProposal) (s : Store)
        → held (run_proposal env tz r actor_type actor_id s).1 ≡ held s
    unfolding run_proposal create_audit_event new_id utc_now
    run_proposal-runs r s = elim (Result-cases (command_request env tz r actor_type actor_id s).0) [
      | inr (e, h) ↦ rw (run_proposal, h, request-runs r s) refl
      | inl (c, h) ↦
          let t : Store = put_proposal (with_status "approved" r) s in
          elim (Result-cases (apply env tz c t).0) [
            | inr (e, k) ↦ rw (run_proposal, h, request-runs r s, k) (apply-runs env tz c t)
            | inl (res, k) ↦ rw (run_proposal, h, request-runs r s, k) (apply-runs env tz c t)
          ]
    ]

    execute_proposal-runs :
        (r : PendingActionProposal) (s : Store)
        → held (execute_proposal env tz r actor_type actor_id s).1 ≡ held s
    unfolding execute_proposal
    execute_proposal-runs r s = elim (Bool-cases (member r.status open_statuses)) [
      | inr h ↦ rw (execute_proposal, h) refl
      | inl h ↦ elim (Bool-cases (r.risk_level == "low")) [
        | inr k ↦ rw (execute_proposal, h, k) refl
        | inl k ↦ rw (execute_proposal, h, k) (run_proposal-runs r s)
      ]
    ]

    attempt-runs :
        (r : PendingActionProposal) (s : Store)
        → held (attempt env tz actor_type actor_id r s).1 ≡ held s
    unfolding attempt
    attempt-runs r s =
        let tried = execute_proposal env tz (present s r) actor_type actor_id s in
        settle_attempt-runs r tried.0 tried.1 ∙ execute_proposal-runs (present s r) s

    pub execute_rows-runs :
        (results : List CommandResult) (rows : List PendingActionProposal) (s : Store)
        → held (execute_rows env tz actor_type actor_id results rows s).1 ≡ held s
    unfolding execute_rows
    execute_rows-runs results [] s = refl
    execute_rows-runs results (r ∷ rs) s =
        let first = attempt-runs r s in
        elim (Result-cases (attempt env tz actor_type actor_id r s).0) [
          | inr (e, h) ↦ rw (execute_rows, h) first
          | inl (refused m, h) ↦ rw (execute_rows, h) first
          | inl (ran res, h) ↦ elim (Bool-cases (is_applied res)) [
            | inl k ↦ rw (execute_rows, h, k) (execute_rows-runs (results ++ res ∷ []) rs _ ∙ first)
            | inr k ↦ rw (execute_rows, h, k) first
          ]
        ]
