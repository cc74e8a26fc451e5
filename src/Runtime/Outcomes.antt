-- ===== src/Runtime/Outcomes.antt =====
-- What the loop over the proposals tells of the commands that it ran.
use life_os_vnex.Prelude.{String, ◌≡◌, ◌≢◌, List, [], ◌∷◌, ◌++◌, or_default}
use life_os_vnex.Prelude.Env.{Env}
use life_os_vnex.State.{Store, PendingActionProposal, Exception, Result, ok, raise, find_row}
use life_os_vnex.Bus.{CommandStatus, CommandResult}
use life_os_vnex.Proposals.{execute_proposal}
use life_os_vnex.Runtime.{Executed, done, unclear, failed, Attempt, ran, refused}

-- What a command came to is the result of executing the proposal, as it then was.
abbrev pub IsResultOf :
    Env → String → String → String → PendingActionProposal → CommandResult → Type 0
IsResultOf env tz actor_type actor_id r c =
    (s : Store) × (row : PendingActionProposal) × ((execute_proposal env tz
        (or_default (find_row (λ p. p.id) r.id s.proposals) r) actor_type actor_id s).0
      ≡ ok (row, c))

-- Executing the proposal, as it then was, is refused with that message.
abbrev pub IsRefusalOf : Env → String → String → String → PendingActionProposal → String → Type 0
IsRefusalOf env tz actor_type actor_id r m =
    (s : Store) × ((execute_proposal env tz (or_default (find_row (λ p. p.id) r.id s.proposals) r)
        actor_type actor_id s).0
      ≡ raise (Exception.value_error m))

-- The results are those of the proposals, one for each, in order, and all are applied.
pub data AreApplied (env : Env) (tz actor_type actor_id : String)
    : List PendingActionProposal → List CommandResult → Type 0 where
  none_left : AreApplied env tz actor_type actor_id [] []
  one :
      (r : PendingActionProposal) (c : CommandResult) (rs : List PendingActionProposal)
      (cs : List CommandResult)
      → IsResultOf env tz actor_type actor_id r c
      → c.status ≡ CommandStatus.applied
      → AreApplied env tz actor_type actor_id rs cs
      → AreApplied env tz actor_type actor_id (r ∷ rs) (c ∷ cs)

-- How the loop over `rows` ends, after the results that it starts with: the commands of all rows are
-- applied; or those of the rows up to one whose command failed; or the loop stops at a row that is refused.
pub data IsTold (env : Env) (tz actor_type actor_id : String) (before : List CommandResult)
    : List PendingActionProposal → Executed → Type 0 where
  all_applied :
      (rows : List PendingActionProposal) (new : List CommandResult)
      → AreApplied env tz actor_type actor_id rows new
      → IsTold env tz actor_type actor_id before rows (done (before ++ new))
  one_failed :
      (rows : List PendingActionProposal) (r : PendingActionProposal)
      (rest : List PendingActionProposal) (new : List CommandResult) (last : CommandResult)
      → AreApplied env tz actor_type actor_id rows new
      → IsResultOf env tz actor_type actor_id r last
      → last.status ≢ CommandStatus.applied
      → IsTold env tz actor_type actor_id before
          (rows ++ r ∷ rest)
          (failed (before ++ (new ++ last ∷ [])))
  one_unclear :
      (rows : List PendingActionProposal) (r : PendingActionProposal)
      (rest : List PendingActionProposal) (applied : List CommandResult) (m : String)
      → AreApplied env tz actor_type actor_id rows applied
      → IsRefusalOf env tz actor_type actor_id r m
      → IsTold env tz actor_type actor_id before (rows ++ r ∷ rest) (unclear r m)

-- An exception, or an end that is told.
abbrev pub ToldIf :
    Env
    → String
    → String
    → String
    → List CommandResult
    → List PendingActionProposal
    → Result Executed
    → Type 0
ToldIf env tz actor_type actor_id before rows (ok x) =
    IsTold env tz actor_type actor_id before rows x
ToldIf env tz actor_type actor_id before rows (raise e) = Unit

module _ (env : Env) (tz actor_type actor_id : String) where
  -- What an attempt at a row comes to.
  abbrev Attempted : PendingActionProposal → Result Attempt → Type 0
  Attempted r (ok (ran c)) = IsResultOf env tz actor_type actor_id r c
  Attempted r (ok (refused m)) = IsRefusalOf env tz actor_type actor_id r m
  Attempted r (raise e) = Unit
