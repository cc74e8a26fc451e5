-- ===== src/Runtime/Executing.antt =====
-- The loops that execute, reject and revise proposals. A proposal is an object of the database session:
-- where it is read again it is the row as it is now.
use life_os_vnex.Prelude.{
  ℕ, String, Bool, true, false, none, some, List, [], ◌∷◌, ◌++◌, if◌then◌else◌, ◌==◌, map,
  or_default, get_elem?,
}
use life_os_vnex.Prelude.Text.{member}
use life_os_vnex.Prelude.Json.{Json, str, object, text_or_null}
use life_os_vnex.Prelude.Env.{Env}
use life_os_vnex.State.{
  Store, PendingActionProposal, Exception, Result, ok, raise, Action, pure, throw, gets, ◌>>=◌,
  ◌>>◌, find_row,
}
use life_os_vnex.Bus.{CommandResult, status_text}
use life_os_vnex.Proposals.{proposal_key, execute_proposal, reject_proposal, revise_proposal}

-- A proposal as it is in a store.
abbrev pub present : Store → PendingActionProposal → PendingActionProposal
present s r = or_default (find_row proposal_key r.id s.proposals) r

-- `_selected_proposals` on the indexes.
unfoldable pub chosen : List PendingActionProposal → List ℕ → List PendingActionProposal
chosen rows [] = []
chosen rows (i ∷ is) = elim (get_elem? rows i) [
  | none ↦ chosen rows is
  | some r ↦ r ∷ chosen rows is
]

abbrev last_one : List PendingActionProposal → List PendingActionProposal
last_one [] = []
last_one (r ∷ []) = r ∷ []
last_one (r ∷ q ∷ rs) = last_one (q ∷ rs)

-- `_selected_proposals`
unfoldable pub selected_proposals : List PendingActionProposal → List ℕ → List PendingActionProposal
selected_proposals pending [] = last_one pending
selected_proposals pending (i ∷ is) = chosen pending (i ∷ is)

-- What came of executing a proposal: a result of the bus, or a ValueError.
pub data Attempt : Type 0 where
  ran : CommandResult → Attempt
  refused : String → Attempt

-- How the loop over the proposals ends.
pub data Executed : Type 0 where
  done : List CommandResult → Executed
  unclear : PendingActionProposal → String → Executed
  failed : List CommandResult → Executed

abbrev pub is_applied : CommandResult → Bool
is_applied result = status_text result.status == "applied"

-- The entry of a command in the list of actions.
abbrev pub action_entry : String → CommandResult → Json
action_entry id result = object (
    ("proposal_id", str id)
    ∷ ("command_type", str result.command_type)
    ∷ ("state_change_id", str result.state_change_id)
    ∷ ("entity_type", text_or_null result.entity_type)
    ∷ ("entity_id", text_or_null result.entity_id)
    ∷ ("status", str (status_text result.status))
    ∷ [])

abbrev pub action_entries : List PendingActionProposal → List CommandResult → List Json
action_entries (r ∷ rs) (c ∷ cs) = action_entry r.id c ∷ action_entries rs cs
action_entries rows results = []

abbrev pub command_types : List CommandResult → List String
command_types results = map (λ c. c.command_type) results

-- The ids of the audit events, but for empty ones.
abbrev pub audit_ids : List CommandResult → List String
audit_ids [] = []
audit_ids (c ∷ cs) =
    let rest = audit_ids cs in if c.audit_event_id == "" then rest else c.audit_event_id ∷ rest

abbrev pub ids_of : List PendingActionProposal → List String
ids_of rows = map (λ r. r.id) rows

module _ (env : Env) (timezone : String) where
  -- What follows executing a proposal: after a ValueError it is rejected.
  unfoldable pub settle_attempt :
      PendingActionProposal → Result (PendingActionProposal × CommandResult) → Action Attempt
  settle_attempt r (ok (row, result)) = pure (ran result)
  settle_attempt r (raise (Exception.value_error m)) = do
    row ← gets (λ s. present s r)
    reject_proposal env timezone row
    pure (refused m)
  settle_attempt r (raise e) = throw e

  -- Executing one proposal.
  unfoldable pub attempt : String → String → PendingActionProposal → Action Attempt
  attempt actor_type actor_id r s =
      let tried = execute_proposal env timezone (present s r) actor_type actor_id s in
      settle_attempt r tried.0 tried.1

  -- The loop: it stops at the first proposal that is unclear or fails.
  unfoldable pub execute_rows :
      String → String → List CommandResult → List PendingActionProposal → Action Executed
  execute_rows actor_type actor_id results [] = pure (done results)
  execute_rows actor_type actor_id results (r ∷ rs) = do
    tried ← attempt actor_type actor_id r
    elim tried [
      | refused m ↦ pure (unclear r m)
      | ran result ↦
          if is_applied result
          then execute_rows actor_type actor_id (results ++ result ∷ []) rs
          else pure (failed (results ++ result ∷ []))
    ]

  unfoldable pub reject_rows : List PendingActionProposal → Action Unit
  reject_rows [] = pure tt
  reject_rows (r ∷ rs) = do
    row ← gets (λ s. present s r)
    reject_proposal env timezone row
    reject_rows rs

  unfoldable pub revise_rows : String → List PendingActionProposal → Action Unit
  revise_rows text [] = pure tt
  revise_rows text (r ∷ rs) = do
    row ← gets (λ s. present s r)
    revise_proposal env timezone row text
    revise_rows text rs

  -- Those that are not selected are rejected.
  unfoldable pub reject_others : List String → List PendingActionProposal → Action Unit
  reject_others ids [] = pure tt
  reject_others ids (r ∷ rs) = elim (member r.id ids) [
    | true ↦ reject_others ids rs
    | false ↦ do
      row ← gets (λ s. present s r)
      reject_proposal env timezone row
      reject_others ids rs
  ]
