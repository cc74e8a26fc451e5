-- ===== src/Proposals/Execution.antt =====
-- How `execute_action_proposal` ends.
use life_os_vnex.Prelude.{
  String, true, ◌≡◌, ◌⊎◌, inl, inr, refl, ◌∙◌, ap, List, ◌==◌, arith, eq_iff, Bool-cases,
}
use life_os_vnex.Prelude.Text.{member}
use life_os_vnex.Prelude.{false, ◌≢◌}
use life_os_vnex.Prelude.Env.{Env}
use life_os_vnex.State.{
  Store, PendingActionProposal, Exception, Result, ok, raise, update_row, create_audit_event,
  new_id, utc_now,
}
use life_os_vnex.State.Laws.{update_row-twice}
use life_os_vnex.Prelude.{some, if◌then◌else◌}
use life_os_vnex.Bus.{CommandStatus, CommandRequest, CommandResult, status_text}
use life_os_vnex.Bus.Apply.{apply}
use life_os_vnex.Bus.Recording.{apply-IsApart}
use life_os_vnex.Bus.Effects.{Result-cases}
use life_os_vnex.Proposals.{
  open_statuses, proposal_key, put_proposal, with_status, complete_payload, command_request,
  executed_row, run_proposal, execute_proposal,
}

-- The status that a proposal gets, by that of its command.
pub data Marks : CommandStatus → String → Type 0 where
  applies : {c : CommandStatus} → c ≡ CommandStatus.applied → Marks c "executed"
  fails : {c : CommandStatus} → c ≡ CommandStatus.failed → Marks c "failed"

marked :
    (c : CommandStatus)
    → (c ≡ CommandStatus.applied) ⊎ (c ≡ CommandStatus.failed)
    → Marks c (if status_text c == "applied" then "executed" else "failed")
marked c (inl e) = rw e (Marks.applies refl)
marked c (inr e) = rw e (Marks.fails refl)

module _ (env : Env) (tz : String) (r : PendingActionProposal) (actor_type actor_id : String) where
  -- Building the command reads the store and leaves it.
  command_request-same : (s : Store) → (command_request env tz r actor_type actor_id s).1 ≡ s
  unfolding command_request complete_payload
  command_request-same s = ground arith

  -- The proposals once the row of `r` is `row`.
  abbrev pub with_row : PendingActionProposal → Store → List PendingActionProposal
  with_row row s = update_row proposal_key r.id (λ _. row) s.proposals

  -- Why it is refused: its status, its risk, or a command that cannot be built.
  abbrev pub IsRefused : Store → Type 0
  IsRefused s =
      (member r.status open_statuses ≡ false)
      ⊎ (r.risk_level ≢ "low")
      ⊎ ((e : Exception) × ((command_request env tz r actor_type actor_id s).0 ≡ raise e))

  -- The row that the proposal becomes, with the id of a state change and a status.
  abbrev pub ended_row : String → String → PendingActionProposal
  ended_row change status = record r { executed_command_id = some change; status = status }

  pub data Executing (s : Store)
      : Result (PendingActionProposal × CommandResult) × Store → Type 0 where
    refused : (e : Exception) → IsRefused s → Executing s (raise e, s)
    executed :
        (c : CommandRequest) (res : CommandResult) (status : String) (t : Store)
        → member r.status open_statuses ≡ true
        → r.risk_level ≡ "low"
        → (command_request env tz r actor_type actor_id s).0 ≡ ok c
        → (apply env tz c
            (record s { proposals = with_row (record r { status = "approved" }) s })).0
          ≡ ok res
        → Marks res.status status
        → t.proposals ≡ with_row (ended_row res.state_change_id status) s
        → Executing s (ok (ended_row res.state_change_id status, res), t)

  run_proposal-ends :
      (s : Store)
      → member r.status open_statuses ≡ true
      → r.risk_level ≡ "low"
      → Executing s (run_proposal env tz r actor_type actor_id s)
  unfolding run_proposal create_audit_event new_id utc_now
  run_proposal-ends s still low =
      elim (Result-cases (command_request env tz r actor_type actor_id s).0) [
        | inr (e, h) ↦ rw (h, command_request-same s) (Executing.refused e (inr (inr (e, h))))
        | inl (c, h) ↦
            let (res, e, (_, _, q, _, over)) =
              apply-IsApart env tz c (put_proposal (with_status "approved" r) s) in
            rw (h, command_request-same s, e)
              (Executing.executed c res _ _ still low h e (marked res.status over) (
                ap (update_row proposal_key r.id (λ _. executed_row env tz res r)) q
                ∙ update_row-twice proposal_key r.id _ _ s.proposals (λ _ _. refl)))
      ]

  -- Executing a proposal that is not pending or revised, that is not of low risk or whose command
  -- cannot be built is refused with the store unchanged; otherwise the proposal is pending or revised
  -- and of low risk, the command that is built from it is run after the proposal is marked as approved, and
  -- its row, and no other, becomes "executed" when the command is applied and "failed" when it fails, with
  -- the id of its state change.
  pub execute_ends : (s : Store) → Executing s (execute_proposal env tz r actor_type actor_id s)
  unfolding execute_proposal
  execute_ends s = elim (Bool-cases (member r.status open_statuses)) [
    | inr h ↦ rw h (Executing.refused _ (inl h))
    | inl h ↦ elim (Bool-cases (r.risk_level == "low")) [
      | inr k ↦
          rw (h, k) (Executing.refused _ (inr (inl (λ e. cc ((eq_iff r.risk_level "low").1 e, k)))))
      | inl k ↦ rw (h, k) (run_proposal-ends s h ((eq_iff r.risk_level "low").0 k))
    ]
  ]
