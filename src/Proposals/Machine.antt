-- ===== src/Proposals/Machine.antt =====
-- The statuses of a proposal under the decisions of the owner.
use life_os_vnex.Prelude.{
  String, true, false, ◌≡◌, inl, inr, refl, sym, ◌∙◌, ap, some, arith, Bool-cases,
}
use life_os_vnex.Prelude.Text.{member}
use life_os_vnex.Prelude.Json.{Fields, null, str, get_or, or_json}
use life_os_vnex.Prelude.Env.{Env, text_of}
use life_os_vnex.State.{
  Store, PendingActionProposal, Result, find_row, update_row, create_audit_event, new_id, utc_now,
}
use life_os_vnex.State.{Action, pure, ◌>>=◌}
use life_os_vnex.State.Laws.{find_row-key, update_row-found}
use life_os_vnex.Bus.{CommandResult}
use life_os_vnex.Bus.Effects.{Result-cases}
use life_os_vnex.Planner.{revise_draft, resolve_datetime}
use life_os_vnex.Proposals.{
  open_statuses, proposal_key, Decision, plain_reply, executed_reply, text_or, Reply,
  execute_proposal, reject_open, reject_proposal, revise_open, revise_proposal, decide_row,
  decide_proposal,
}
use life_os_vnex.Proposals.Execution.{Marks, Executing, execute_ends}

-- The steps of a proposal's status.
pub data StatusStep : String → String → Type 0 where
  stays : (a : String) → StatusStep a a
  revised : (a : String) → member a open_statuses ≡ true → StatusStep a "revised"
  rejected : (a : String) → member a open_statuses ≡ true → StatusStep a "rejected"
  executed : (a : String) → member a open_statuses ≡ true → StatusStep a "executed"
  failed : (a : String) → member a open_statuses ≡ true → StatusStep a "failed"

-- No step leaves a status that is not open.
pub StatusStep-closed : (a b : String) → StatusStep a b → member a open_statuses ≡ false → b ≡ a
StatusStep-closed a b (StatusStep.stays _) h = refl
StatusStep-closed a b (StatusStep.revised _ k) h = cc
StatusStep-closed a b (StatusStep.rejected _ k) h = cc
StatusStep-closed a b (StatusStep.executed _ k) h = cc
StatusStep-closed a b (StatusStep.failed _ k) h = cc

module _ (env : Env) (tz : String) where
  decide_found :
      (id : String) (d : Decision) (s : Store) (r : PendingActionProposal)
      → find_row proposal_key id s.proposals ≡ some r
      → decide_proposal env tz id d s ≡ decide_row env tz d r s
  unfolding decide_proposal
  decide_found id d s r f = ground arith

  decide_closed :
      (d : Decision) (s : Store) (r : PendingActionProposal)
      → member r.status open_statuses ≡ false
      → (decide_row env tz d r s).1 ≡ s
  unfolding decide_row execute_proposal reject_proposal revise_proposal
  decide_closed Decision.approve s r h = ground arith
  decide_closed Decision.reject s r h = ground arith
  decide_closed (Decision.revise t p) s r h = ground arith
  decide_closed Decision.ask s r h = refl

  -- A decision on a proposal that is not pending or revised leaves the store as it is.
  pub closed_is_final :
      (id : String) (d : Decision) (s : Store) (r : PendingActionProposal)
      → find_row proposal_key id s.proposals ≡ some r
      → member r.status open_statuses ≡ false
      → (decide_proposal env tz id d s).1 ≡ s
  closed_is_final id d s r f h = ap (λ p. p.1) (decide_found id d s r f) ∙ decide_closed d s r h

  -- The row of the proposal after a decision, with the step of its status; the others are as before.
  pub record IsStep (r : PendingActionProposal) (s t : Store) : Type 0 where
    pub row : PendingActionProposal
    pub same_id : row.id ≡ r.id
    pub table : t.proposals ≡ update_row proposal_key r.id (λ _. row) s.proposals
    pub step : StatusStep r.status row.status
    pub same_type : row.proposal_type ≡ r.proposal_type
    pub same_risk : row.risk_level ≡ r.risk_level
    pub same_expiry : row.expires_at ≡ r.expires_at

  still :
      (r : PendingActionProposal) (s t : Store)
      → find_row proposal_key r.id s.proposals ≡ some r
      → t.proposals ≡ s.proposals
      → IsStep r s t
  still r s t f e = record {
    row = r;
    same_id = refl;
    table = e ∙ sym (update_row-found proposal_key r.id s.proposals r f);
    step = StatusStep.stays _;
    same_type = refl;
    same_risk = refl;
    same_expiry = refl;
  }

  execution-IsStep :
      (r : PendingActionProposal) (s : Store)
      (p : Result (PendingActionProposal × CommandResult) × Store)
      → find_row proposal_key r.id s.proposals ≡ some r
      → Executing env tz r "user" "owner" s p
      → IsStep r s p.1
  execution-IsStep r s p f (Executing.refused e why) = still r s s f refl
  execution-IsStep r s p f (Executing.executed c res _ t m low b a (Marks.applies e) q) = record {
    row = _;
    same_id = refl;
    table = q;
    step = StatusStep.executed _ m;
    same_type = refl;
    same_risk = refl;
    same_expiry = refl;
  }
  execution-IsStep r s p f (Executing.executed c res _ t m low b a (Marks.fails e) q) = record {
    row = _;
    same_id = refl;
    table = q;
    step = StatusStep.failed _ m;
    same_type = refl;
    same_risk = refl;
    same_expiry = refl;
  }

  -- After the result of an action, its continuation only makes the reply.
  reply-IsStep :
      {A : Type 0} (r : PendingActionProposal) (s : Store) (m : Action A) (f : A → Reply)
      → IsStep r s (m s).1
      → IsStep r s ((m >>= λ a. pure (f a)) s).1
  reply-IsStep r s m f h = elim (Result-cases (m s).0) [ inl (a, e) ↦ rw e h | inr (x, e) ↦ rw e h ]

  rejection-IsStep :
      (r : PendingActionProposal) (s : Store)
      → find_row proposal_key r.id s.proposals ≡ some r
      → IsStep r s (reject_proposal env tz r s).1
  unfolding reject_proposal reject_open create_audit_event new_id utc_now
  rejection-IsStep r s f = elim (Bool-cases (member r.status open_statuses)) [
    | inr h ↦ rw h (still r s s f refl)
    | inl h ↦ rw h (record {
      row = _;
      same_id = refl;
      table = refl;
      step = StatusStep.rejected _ h;
      same_type = refl;
      same_risk = refl;
      same_expiry = refl;
    })
  ]

  revise_draft-same :
      (d : Fields) (text : String) (s : Store)
      → (revise_draft env d text tz s).1.proposals ≡ s.proposals
  unfolding revise_draft resolve_datetime
  revise_draft-same d text s = ground arith

  revision-IsStep :
      (r : PendingActionProposal) (text : String) (s : Store)
      → find_row proposal_key r.id s.proposals ≡ some r
      → IsStep r s (revise_proposal env tz r text s).1
  unfolding revise_proposal revise_open create_audit_event new_id utc_now
  revision-IsStep r text s f = elim (Bool-cases (member r.status open_statuses)) [
    | inr h ↦ rw h (still r s s f refl)
    | inl h ↦ elim (Result-cases (revise_draft env r.draft_json text tz s).0) [
      | inr (x, e) ↦ rw (h, e) (still r s _ f (revise_draft-same r.draft_json text s))
      | inl (d, e) ↦
          rw (h, e)
            (record {
              row = _;
              same_id = refl;
              table = ap (update_row proposal_key r.id _) (revise_draft-same r.draft_json text s);
              step = StatusStep.revised _ h;
              same_type = refl;
              same_risk = refl;
              same_expiry = refl;
            })
    ]
  ]

  decide_row-IsStep :
      (d : Decision) (r : PendingActionProposal) (s : Store)
      → find_row proposal_key r.id s.proposals ≡ some r
      → IsStep r s (decide_row env tz d r s).1
  unfolding decide_row
  decide_row-IsStep Decision.approve r s f =
      reply-IsStep r s (execute_proposal env tz r "user" "owner") executed_reply
        (execution-IsStep r s _ f (execute_ends env tz r "user" "owner" s))
  decide_row-IsStep Decision.reject r s f =
      reply-IsStep r s (reject_proposal env tz r) plain_reply (rejection-IsStep r s f)
  decide_row-IsStep (Decision.revise t p) r s f =
      let text = text_or t (text_of env (or_json (get_or "text" null p) (str ""))) in
      reply-IsStep r s (revise_proposal env tz r text) plain_reply (revision-IsStep r text s f)
  decide_row-IsStep Decision.ask r s f = still r s s f refl

  -- Whatever the decision and however it ends, the status of the proposal that it is about makes one
  -- step, from pending or revised to revised, rejected, executed or failed, or stays; its type, its
  -- risk and its expiry stay, and the rows of the other proposals too.
  pub decide-IsStep :
      (id : String) (d : Decision) (s : Store) (r : PendingActionProposal)
      → find_row proposal_key id s.proposals ≡ some r
      → IsStep r s (decide_proposal env tz id d s).1
  decide-IsStep id d s r f =
      let same =
        ap (λ k. find_row proposal_key k s.proposals)
          (find_row-key proposal_key id s.proposals r f) in
      rw (decide_found id d s r f) (decide_row-IsStep d r s (same ∙ f))
