-- ===== src/Runtime/Permitted.antt =====
-- A conversation turn changes the owner's data only for an approval or an executable plan.
use life_os_vnex.Prelude.{
  ℕ, suc, ◌+◌, String, false, ◌≡◌, ◌⊎◌, refl, ap, ◌∙◌, inl, inr, Option, none, some, List,
  Bool-cases, All,
}
use mathlib.Core.Bool.{false≢true}
use life_os_vnex.State.Laws.{held}
use life_os_vnex.Prelude.Env.{Env}
use life_os_vnex.State.{
  Store, AgentRun, AgentSession, Message, PendingActionProposal, Result, ok, new_id, utc_now,
  create_status_event,
}
use life_os_vnex.Bus.Effects.{Result-cases}
use life_os_vnex.Planner.{
  ActionProposal, PlanMode, TurnPlan, FollowUpKind, FollowUpPlan, interpret_follow_up, plan_turn,
  is_execute_now,
}
use life_os_vnex.Planner.Lawful.{IsExecutable, Law}
use life_os_vnex.Planner.Governed.{plan_turn-IsLawful}
use life_os_vnex.Providers.{ProviderCompletion}
use life_os_vnex.Proposals.{open_pending}
use life_os_vnex.Runtime.{
  announce, plan_json, carry_out, planned_turn, answer_turn, follow_turn, turn, conversation_turn,
  is_model_identity_question, mode_text, readings,
}
use life_os_vnex.Runtime.Frame.{Unchanged, unchanged, after, open_pending-Unchanged}
use life_os_vnex.Runtime.Following.{is_approve, handle-Unchanged, handle-runs}
use life_os_vnex.Runtime.Planned.{announce-Unchanged, plan_json-Unchanged}
use life_os_vnex.Runtime.Turning.{carry_out-Unchanged, carry_out-runs}

mode-cases : (k : PlanMode) → (k ≡ PlanMode.execute_now) ⊎ (is_execute_now k ≡ false)
mode-cases PlanMode.execute_now = inl refl
mode-cases PlanMode.answer_only = inr refl
mode-cases PlanMode.propose_inline = inr refl
mode-cases PlanMode.formal_review = inr refl
mode-cases PlanMode.clarify = inr refl

kind-cases : (k : FollowUpKind) → (k ≡ FollowUpKind.approve) ⊎ (is_approve k ≡ false)
kind-cases FollowUpKind.approve = inl refl
kind-cases FollowUpKind.no_action = inr refl
kind-cases FollowUpKind.reject = inr refl
kind-cases FollowUpKind.revise = inr refl
kind-cases FollowUpKind.ask = inr refl

Law-IsExecutable :
    (k : PlanMode) (ps : List ActionProposal)
    → Law k ps
    → k ≡ PlanMode.execute_now
    → All IsExecutable ps
Law-IsExecutable k ps (Law.quiet _ h) e = tt
Law-IsExecutable k ps (Law.executed p qs h) e = h
Law-IsExecutable k ps (Law.reviewed _ h) e = absurd (false≢true (ap is_execute_now e))
Law-IsExecutable k ps (Law.proposed p qs h) e = absurd (false≢true (ap is_execute_now e))

module _ (env : Env) (tz : String) (run : AgentRun) (r : AgentSession) (m : Message)
    (default_mode : String) (complete : Result ProviderCompletion)
    (parse : String → Option TurnPlan) (message : String) where
  -- The owner approves a proposal that is pending, or the message asks for a plan that is executed at
  -- once, of which each proposal is executable.
  pub data IsPermitted (s : Store) : Type 0 where
    approved :
        (pending : List PendingActionProposal) (now : ℕ)
        → (open_pending env (some r.id) 5 s).0 ≡ ok pending
        → (interpret_follow_up env tz now message pending).kind ≡ FollowUpKind.approve
        → IsPermitted s
    executed :
        (n : ℕ) (json : Option String) (plan : TurnPlan)
        → plan_turn env tz parse n message json ≡ ok plan
        → plan.mode ≡ PlanMode.execute_now
        → All IsExecutable plan.proposals
        → IsPermitted s

  -- The runs and the sessions are as they were, and so are the owner's data, or changing them is permitted.
  pub record IsSafe (s u t : Store) : Type 0 where
    pub runs : t.runs ≡ u.runs
    pub sessions : t.sessions ≡ u.sessions
    pub tables : (t.tables ≡ u.tables) ⊎ IsPermitted s

  from_same : (s : Store) {u t : Store} → Unchanged u t → IsSafe s u t
  from_same s h = record {
    runs = ap (λ p. p.0) h.runs;
    sessions = ap (λ p. p.1) h.runs;
    tables = inl h.tables;
  }

  onward : (s : Store) {u v t : Store} → Unchanged u v → IsSafe s v t → IsSafe s u t
  onward s h k = record {
    runs = k.runs ∙ ap (λ p. p.0) h.runs;
    sessions = k.sessions ∙ ap (λ p. p.1) h.runs;
    tables = elim k.tables [ inl e ↦ inl (e ∙ h.tables) | inr p ↦ inr p ];
  }

  carry-IsSafe :
      (s : Store) (n : ℕ) (json : Option String) (plan : TurnPlan) (source : String) (u : Store)
      → plan_turn env tz parse n message json ≡ ok plan
      → IsSafe s u (carry_out env tz run r m plan.mode source plan u).1
  carry-IsSafe s n json plan source u h = record {
    runs = ap (λ p. p.0) (carry_out-runs env tz run r m plan.mode source plan u);
    sessions = ap (λ p. p.1) (carry_out-runs env tz run r m plan.mode source plan u);
    tables = elim (mode-cases plan.mode) [
      | inr e ↦ inl (carry_out-Unchanged env tz run r m plan.mode source plan u e).tables
      | inl e ↦ inr (
          IsPermitted.executed n json plan h e (
            Law-IsExecutable plan.mode plan.proposals
              (plan_turn-IsLawful env tz parse n message json plan h).law e))
    ];
  }

  planned-IsSafe :
      (s : Store) (source : String) (u : Store)
      → IsSafe s u (planned_turn env tz run r m default_mode complete parse source message u).1
  unfolding planned_turn
  planned-IsSafe s source u =
      let asked = plan_json env tz default_mode complete run.id message in
      let first = plan_json-Unchanged env tz default_mode complete run.id message u in
      elim (Result-cases (asked u).0) [
        | inr (x, e) ↦ rw (planned_turn, e) (from_same s first)
        | inl (json, e) ↦
            let v : Store = (asked u).1 in
            elim (Result-cases (plan_turn env tz parse v.reads message json)) [
              | inr (x, f) ↦
                  rw (planned_turn, e, f)
                    (from_same s (record { tables = first.tables; runs = first.runs }))
              | inl (plan, f) ↦
                  let w : Store = record v {
                    reads = v.reads + readings (elim json [ none ↦ none | some j ↦ parse j ]);
                  } in
                  let read : Unchanged u w = record { tables = first.tables; runs = first.runs } in
                  let told =
                    announce-Unchanged env tz run.id (mode_text plan.mode) plan.status_events w in
                  elim (Result-cases
                    (announce env tz run.id (mode_text plan.mode) plan.status_events w).0) [
                      | inr (x, g) ↦ rw (planned_turn, e, f, g) (from_same s (after read told))
                      | inl (t, g) ↦
                          rw (planned_turn, e, f, g)
                            (onward s (after read told) (
                              carry-IsSafe s v.reads json plan source
                                (announce env tz run.id (mode_text plan.mode) plan.status_events
                                  w).1
                                f))
                    ]
            ]
      ]

  answer-IsSafe :
      (s : Store) (source : String) (u : Store)
      → IsSafe s u (answer_turn env tz run r m default_mode complete parse source message u).1
  answer-IsSafe s source u = elim (Bool-cases (is_model_identity_question message)) [
    | inl e ↦ rw e (from_same s (unchanged u))
    | inr e ↦ rw e (planned-IsSafe s source u)
  ]

  follow-Unchanged :
      (pending : List PendingActionProposal) (plan : FollowUpPlan) (source : String) (u : Store)
      → is_approve plan.kind ≡ false
      → Unchanged u
          (follow_turn env tz run r m default_mode complete parse pending plan source message u).1
  unfolding create_status_event new_id utc_now
  follow-Unchanged pending plan source u h =
      let rest = handle-Unchanged env tz pending plan message _ h in
      record { tables = rest.tables; runs = rest.runs }

  follow-runs :
      (pending : List PendingActionProposal) (plan : FollowUpPlan) (source : String) (u : Store)
      → held
          (follow_turn env tz run r m default_mode complete parse pending plan source message u).1
        ≡ held u
  unfolding create_status_event new_id utc_now
  follow-runs pending plan source u = handle-runs env tz pending plan message _

  -- A follow-up that is no approval, and one that is when that is permitted.
  follow-IsSafe :
      (s : Store) (pending : List PendingActionProposal) (plan : FollowUpPlan) (source : String)
      (u : Store)
      → (plan.kind ≡ FollowUpKind.approve → IsPermitted s)
      → IsSafe s u
          (follow_turn env tz run r m default_mode complete parse pending plan source message u).1
  follow-IsSafe s pending plan source u h = record {
    runs = ap (λ p. p.0) (follow-runs pending plan source u);
    sessions = ap (λ p. p.1) (follow-runs pending plan source u);
    tables = elim (kind-cases plan.kind) [
      | inl e ↦ inr (h e)
      | inr e ↦ inl (follow-Unchanged pending plan source u e).tables
    ];
  }

  turn-IsSafe :
      (s : Store) (kind : FollowUpKind) (pending : List PendingActionProposal) (plan : FollowUpPlan)
      (source : String) (u : Store)
      → (plan.kind ≡ FollowUpKind.approve → IsPermitted s)
      → IsSafe s u
          (turn env tz run r m default_mode complete parse kind pending plan source message u).1
  unfolding turn
  turn-IsSafe s FollowUpKind.no_action pending plan source u h = answer-IsSafe s source u
  turn-IsSafe s FollowUpKind.approve pending plan source u h =
      follow-IsSafe s pending plan source u h
  turn-IsSafe s FollowUpKind.reject pending plan source u h =
      follow-IsSafe s pending plan source u h
  turn-IsSafe s FollowUpKind.revise pending plan source u h =
      follow-IsSafe s pending plan source u h
  turn-IsSafe s FollowUpKind.ask pending plan source u h = follow-IsSafe s pending plan source u h

  -- However a turn of a conversation ends, the runs and the sessions are as they were, and so are the owner's data, but when
  -- the owner approves a pending proposal or when the plan of the message is executed at once, each of
  -- whose proposals is then explicit, low in risk and of no type that is reviewed.
  pub conversation-IsSafe :
      (source : String) (s : Store)
      → IsSafe s s (conversation_turn env tz run r m default_mode complete parse source message s).1
  unfolding conversation_turn utc_now
  conversation-IsSafe source s =
      let listed = open_pending env (some r.id) 5 in
      let first = open_pending-Unchanged env (some r.id) 5 s in
      elim (Result-cases (listed s).0) [
        | inr (x, e) ↦ rw (conversation_turn, e) (from_same s first)
        | inl (pending, e) ↦
            let u : Store = (listed s).1 in
            let v : Store = record u { reads = suc u.reads } in
            let plan = interpret_follow_up env tz (env.clock u.reads) message pending in
            rw (conversation_turn, e)
              (onward s (record { tables = first.tables; runs = first.runs })
                (turn-IsSafe s plan.kind pending plan source v
                  (λ h. IsPermitted.approved pending (env.clock u.reads) e h)))
      ]
