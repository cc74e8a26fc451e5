-- ===== src/Runtime/Capped.antt =====
-- Every request that changes a session keeps the iteration caps within their bounds.
use life_os_vnex.Prelude.{
  ℕ, String, ◌≡◌, refl, sym, inl, inr, Option, none, some, List, [], ◌∷◌, ◌==◌, leb, All,
  Bool-cases,
}
use mathlib.Core.Path.{subst}
use life_os_vnex.Prelude.Env.{Env}
use life_os_vnex.State.{
  Store, AgentRun, AgentSession, Message, Result, new_id, utc_now, create_audit_event,
  create_status_event, find_row, update_row,
}
use life_os_vnex.Bus.Effects.{Result-cases}
use life_os_vnex.Planner.{TurnPlan}
use life_os_vnex.Providers.{ProviderCompletion}
use life_os_vnex.Sessions.{SessionMessageCreate, ChatCreate, session_key, resolve}
use life_os_vnex.Sessions.Bounds.{GivenInBounds, Capped}
use life_os_vnex.Sessions.Caps.{SessionCall, Checked, serve, serve-Capped, resolve-Capped}
use life_os_vnex.Runtime.{
  RunResult, finished_session, finish_in, finish_run, finish_max_iterations, start_iteration,
  receive_message, answer_message, run_message, run_in, post_message, chat, chat_binding,
  conversation_turn,
}
use life_os_vnex.Runtime.Permitted.{conversation-IsSafe}

-- The requests that change sessions. A message brings what the provider answers to it and how that answer
-- is parsed.
pub data Call : Type 0 where
  manage : SessionCall → Call
  post :
      (complete : Result ProviderCompletion) (parse : String → Option TurnPlan) (session : String)
      → SessionMessageCreate
      → Call
  talk :
      (complete : Result ProviderCompletion) (parse : String → Option TurnPlan) → ChatCreate → Call

-- What the schemas check of a request.
abbrev pub IsChecked : Call → Type 0
IsChecked (manage c) = Checked c
IsChecked (post complete parse session q) = Unit
IsChecked (talk complete parse q) = GivenInBounds q.iteration_cap

module _ (env : Env) (tz default_mode : String) where
  -- The store after a request, whatever it returned.
  abbrev pub after_call : Call → Store → Store
  after_call (manage c) s = (serve env c s).1
  after_call (post complete parse session q) s =
      (post_message env tz default_mode complete parse session q s).1
  after_call (talk complete parse q) s = (chat env tz default_mode complete parse q s).1

  abbrev pub after_calls : List Call → Store → Store
  after_calls [] s = s
  after_calls (c ∷ cs) s = after_calls cs (after_call c s)

-- The end of a run keeps the cap of its session.
finished-Capped :
    (k status run : String) (now : ℕ) (rs : List AgentSession)
    → All Capped rs
    → All Capped (update_row session_key k (finished_session status run now) rs)
unfolding update_row
finished-Capped k status run now [] h = tt
finished-Capped k status run now (r ∷ rs) (q, h) = elim (Bool-cases (r.id == k)) [
  | inl e ↦ rw e (q, h)
  | inr e ↦ rw e (q, finished-Capped k status run now rs h)
]

module _ (env : Env) where
  finish_in-Capped :
      (status : String) (run : AgentRun) (session message : String) (result : RunResult) (s : Store)
      → All Capped s.sessions
      → All Capped (finish_in env status run session message result s).1.sessions
  unfolding finish_in utc_now new_id create_status_event create_audit_event
  finish_in-Capped status run session message result s h =
      finished-Capped session status run.id _ s.sessions h

  receive_message-sessions :
      (r : AgentSession) (q : SessionMessageCreate) (s : Store)
      → (receive_message env r q s).1.sessions ≡ s.sessions
  unfolding receive_message utc_now new_id create_status_event
  receive_message-sessions r q s = refl

  start_iteration-sessions :
      (run : AgentRun) (title : String) (s : Store)
      → (start_iteration env run title s).1.sessions ≡ s.sessions
  unfolding start_iteration utc_now new_id create_status_event
  start_iteration-sessions run title s =
      elim (Bool-cases (leb run.iteration_cap run.current_iteration)) [
        | inl e ↦ rw (start_iteration, e) refl
        | inr e ↦ rw (start_iteration, e) refl
      ]

  module _ (tz default_mode : String) (complete : Result ProviderCompletion)
      (parse : String → Option TurnPlan) where
    answer_message-Capped :
        (r : AgentSession) (q : SessionMessageCreate) (m : Message) (run : AgentRun)
        (started : Option AgentRun) (s : Store)
        → All Capped s.sessions
        → All Capped
            (answer_message env tz default_mode complete parse r q m run started s).1.sessions
    unfolding answer_message finish_max_iterations finish_run utc_now new_id create_status_event
    answer_message-Capped r q m run none s h = finish_in-Capped _ run r.id m.id _ _ h
    answer_message-Capped r q m run (some started) s h =
        let talked =
          conversation_turn env tz started r m default_mode complete parse q.source_platform
            q.message s in
        let safe =
          conversation-IsSafe env tz started r m default_mode complete parse q.message
            q.source_platform s in
        let capped : All Capped talked.1.sessions = subst (All Capped) (sym safe.sessions) h in
        elim (Result-cases talked.0) [
          | inr (e, k) ↦ rw (answer_message, k) capped
          | inl (result, k) ↦
              rw (answer_message, k) (finish_in-Capped _ started r.id m.id result talked.1 capped)
        ]

    run_message-Capped :
        (r : AgentSession) (q : SessionMessageCreate) (s : Store)
        → All Capped s.sessions
        → All Capped (run_message env tz default_mode complete parse r q s).1.sessions
    unfolding run_message
    run_message-Capped r q s h =
        let received = receive_message env r q s in
        let first : All Capped received.1.sessions =
          subst (All Capped) (sym (receive_message-sessions r q s)) h in
        elim (Result-cases received.0) [
          | inr (e, k) ↦ rw (run_message, k) first
          | inl ((m, run), k) ↦
              let start = start_iteration env run "Understand request" received.1 in
              let second : All Capped start.1.sessions =
                subst (All Capped)
                  (sym (start_iteration-sessions run "Understand request" received.1)) first in
              elim (Result-cases start.0) [
                | inr (e, l) ↦ rw (run_message, k, l) second
                | inl (started, l) ↦
                    rw (run_message, k, l) (answer_message-Capped r q m run started start.1 second)
              ]
        ]

    run_in-Capped :
        (found : Option AgentSession) (q : SessionMessageCreate) (s : Store)
        → All Capped s.sessions
        → All Capped (run_in env tz default_mode complete parse found q s).1.sessions
    unfolding run_in
    run_in-Capped none q s h = h
    run_in-Capped (some r) q s h =
        let ran = run_message-Capped r q s h in
        elim (Result-cases (run_message env tz default_mode complete parse r q s).0) [
          | inr (e, k) ↦ rw (run_in, k) ran
          | inl (reply, k) ↦ rw (run_in, k) ran
        ]

    chat-Capped :
        (q : ChatCreate) (s : Store)
        → GivenInBounds q.iteration_cap
        → All Capped s.sessions
        → All Capped (chat env tz default_mode complete parse q s).1.sessions
    unfolding chat
    chat-Capped q s g h =
        let found = resolve-Capped env (chat_binding q) s g h in
        elim (Result-cases (resolve env (chat_binding q) s).0) [
          | inr (e, k) ↦ rw (chat, k) found
          | inl (r, k) ↦ rw (chat, k) (run_in-Capped r q.message _ found)
        ]

  module _ (tz default_mode : String) where
    after_call-Capped :
        (c : Call) (s : Store)
        → IsChecked c
        → All Capped s.sessions
        → All Capped (after_call env tz default_mode c s).sessions
    unfolding post_message
    after_call-Capped (manage c) s g h = serve-Capped env c s g h
    after_call-Capped (post complete parse session q) s g h =
        run_in-Capped tz default_mode complete parse (find_row session_key session s.sessions) q s h
    after_call-Capped (talk complete parse q) s g h =
        chat-Capped tz default_mode complete parse q s g h

    -- After any sequence of requests that create, bind, change or cancel a session, post a message to one or
    -- chat, and that the schemas let through, each session's iteration cap is between 1 and 50, when it was
    -- before: also a default that is taken from the settings, and whatever the provider answers.
    pub after_calls-Capped :
        (cs : List Call) (s : Store)
        → All IsChecked cs
        → All Capped s.sessions
        → All Capped (after_calls env tz default_mode cs s).sessions
    after_calls-Capped [] s g h = h
    after_calls-Capped (c ∷ cs) s (g, gs) h =
        after_calls-Capped cs (after_call env tz default_mode c s) gs (after_call-Capped c s g h)
