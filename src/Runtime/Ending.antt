-- ===== src/Runtime/Ending.antt =====
-- How the run of a message ends.
use life_os_vnex.Prelude.{
  ℕ, suc, String, true, ◌≡◌, Option, none, some, List, [], ◌∷◌, if◌then◌else◌,
}
use life_os_vnex.Prelude.Text.{member}
use life_os_vnex.Prelude.Env.{Env}
use life_os_vnex.State.{Store, AgentRun, AgentSession, Message, Result, ok, raise, id_at, find_row}
use life_os_vnex.Captures.{run_key}
use life_os_vnex.Planner.{TurnPlan}
use life_os_vnex.Providers.{ProviderCompletion}
use life_os_vnex.Sessions.{SessionMessageCreate}
use life_os_vnex.Runtime.{
  RunResult, result_fields, RunReply, open_ends, iterated, start_iteration, new_run, user_message,
  with_run, receive_message, run_message, conversation_turn,
}

-- The statuses that a run ends with.
abbrev pub final_statuses : List String
final_statuses =
    "completed" ∷ "needs_clarification" ∷ "waiting_approval" ∷ "waiting_confirmation" ∷ "failed"
    ∷ "max_iterations" ∷ []

module _ (env : Env) where
  -- The run of a reply, as it is stored: its status is the reply's and final, its time of finishing is set
  -- unless it waits for an answer or an approval, its result is the reply's, and it took one iteration.
  pub record HasEnded (reply : RunReply) (t : Store) : Type 0 where
    pub row : AgentRun
    pub now : ℕ
    pub found : find_row run_key reply.run_id t.runs ≡ some row
    pub same : row.status ≡ reply.status
    pub final : member row.status final_statuses ≡ true
    pub finished : row.finished_at ≡ (if member row.status open_ends then none else some now)
    pub result : row.result_json ≡ result_fields reply.result
    pub once : row.current_iteration ≡ 1

  module _ (r : AgentSession) (q : SessionMessageCreate) (s : Store) where
    abbrev pub run_of : AgentRun
    run_of =
        new_run r q.user_id (env.clock s.reads) (id_at env "run" (suc s.draws))
          (id_at env "trace" (suc (suc s.draws)))

    abbrev pub message_of : Message
    message_of =
        with_run (id_at env "run" (suc s.draws))
          (user_message r.id q (env.clock s.reads) (id_at env "msg" s.draws))

    module _ (tz default_mode : String) (complete : Result ProviderCompletion)
        (parse : String → Option TurnPlan) where
      -- The turn of the conversation, on the store that the message was received and the run started in.
      abbrev pub turn_of : Result RunResult
      turn_of =
          (conversation_turn env tz (iterated run_of) r message_of default_mode complete parse
            q.source_platform q.message
            (start_iteration env run_of "Understand request" (receive_message env r q s).1).1).0

      -- How the run ends by what the turn comes to: a result ends it, with that result and the reply to it, and
      -- an exception of the turn is raised.
      abbrev pub EndsBy : Result RunResult → Type 0
      EndsBy (ok result) =
          (reply : RunReply) × ((run_message env tz default_mode complete parse r q s).0 ≡ ok reply)
          × (reply.result ≡ result)
          × HasEnded reply (run_message env tz default_mode complete parse r q s).1
      EndsBy (raise e) = (run_message env tz default_mode complete parse r q s).0 ≡ raise e
