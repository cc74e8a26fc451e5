-- ===== src/Reviews/Statuses.antt =====
-- How the endpoint of a decision ends.
use life_os_vnex.Prelude.{
  suc, String, ◌≡◌, ◌⊎◌, inl, inr, refl, ap, none, some, [], ◌∷◌, ◌++◌, ◌==◌, if◌then◌else◌,
}
use life_os_vnex.Bus.Apply.{apply}
use life_os_vnex.Prelude.Json.{Json, Fields, get_or, int, obj, end}
use life_os_vnex.Prelude.Env.{Env, text_of}
use life_os_vnex.State.{
  Store, ReviewItem, ReviewDecision, Exception, Result, ok, raise, id_at, new_id, utc_now,
  create_audit_event, create_status_event, update_row,
}
use life_os_vnex.Bus.{
  CommandStatus, status_text, CommandRequest, CommandResult, index, dict_of, int_of,
}
use life_os_vnex.Bus.Recording.{apply-IsApart}
use life_os_vnex.Bus.Effects.{Result-cases}
use life_os_vnex.Reviews.{
  Choice, approve, reject, correct, clarify, snooze, done, choice_text, DecisionRequest,
  ReviewReply, review_key, decision_row, add_hours, in_status, approved_command, approve_review,
  corrected_action, decided, decide_found,
}

-- The status that a decision other than an approval gives.
pub data Gives : Choice → String → Type 0 where
  rejects : Gives reject "rejected"
  corrects : Gives correct "pending"
  clarifies : Gives clarify "needs_clarification"
  snoozes : Gives snooze "snoozed"
  closes : Gives done "applied"

-- The status that an approval gives, by the status of its command.
pub data Settles : CommandStatus → String → Type 0 where
  applies : Settles CommandStatus.applied "applied"
  fails : Settles CommandStatus.failed "failed"

settled :
    (c : CommandStatus)
    → (c ≡ CommandStatus.applied) ⊎ (c ≡ CommandStatus.failed)
    → Settles c (if status_text c == "applied" then "applied" else "failed")
settled c (inl e) = rw e Settles.applies
settled c (inr e) = rw e Settles.fails

module _ (env : Env) (tz : String) (d : DecisionRequest) (r : ReviewItem) where
  -- One decision is recorded, and the row of the review is `row`.
  pub record IsDecided (s t : Store) (row : ReviewItem) (reply : ReviewReply) : Type 0 where
    pub table : t.reviews ≡ update_row review_key r.id (λ _. row) s.reviews
    pub decision : ReviewDecision
    pub decisions : t.decisions ≡ s.decisions ++ decision ∷ []
    pub about : decision.review_item_id ≡ r.id
    pub choice : decision.decision ≡ choice_text d.choice
    pub reported : reply.decision_id ≡ some decision.id
    pub status : reply.status ≡ row.status

  -- The owner's command with the type and the payload of the review's action.
  abbrev pub command_of : Json → Fields → CommandRequest
  command_of type payload = record {
    command_type = text_of env type;
    payload = payload;
    source_review_item_id = some r.id;
    actor_type = "user";
    actor_id = "owner";
  }

  pub data Deciding (s : Store) : Result ReviewReply × Store → Type 0 where
    raised :
        (e : Exception) (t : Store)
        → (d.choice ≡ approve) ⊎ (d.choice ≡ correct) ⊎ (d.choice ≡ snooze)
        → t.reviews ≡ s.reviews
        → t.tables ≡ s.tables
        → t.changes ≡ s.changes
        → Deciding s (raise e, t)
    marked :
        (row : ReviewItem) (reply : ReviewReply) (t : Store)
        → Gives d.choice row.status
        → reply.result ≡ none
        → IsDecided s t row reply
        → t.tables ≡ s.tables
        → t.changes ≡ s.changes
        → Deciding s (ok reply, t)
    commanded :
        (type : Json) (payload : Fields) (begun : Store) (row : ReviewItem) (res : CommandResult)
        (reply : ReviewReply) (t : Store)
        → d.choice ≡ approve
        → index "command_type" r.proposed_action_json ≡ ok type
        → dict_of env (get_or "payload" (obj end) r.proposed_action_json) ≡ ok payload
        → begun.tables ≡ s.tables
        → begun.changes ≡ s.changes
        → (apply env tz (command_of type payload) begun).0 ≡ ok res
        → t.tables ≡ (apply env tz (command_of type payload) begun).1.tables
        → t.changes ≡ (apply env tz (command_of type payload) begun).1.changes
        → Settles res.status row.status
        → reply.result ≡ some res
        → IsDecided s t row reply
        → Deciding s (ok reply, t)

  -- The approval runs one command, or raises before it.
  approval-Deciding : (s : Store) → d.choice ≡ approve → Deciding s (decide_found env tz d r s)
  unfolding decide_found decided approve_review create_audit_event create_status_event new_id
      utc_now
  approval-Deciding s c =
      let id = id_at env "dec" s.draws in
      let s' : Store = record s {
        decisions =
            s.decisions
            ++ decision_row (record d { choice = approve }) r.id id (env.clock s.reads) ∷ [];
        draws = suc s.draws;
        reads = suc s.reads;
      } in
      elim (Result-cases (index "command_type" r.proposed_action_json)) [
        | inr (e, h) ↦ rw (c, h) (Deciding.raised e _ (inl refl) refl refl refl)
        | inl (type, h) ↦
            elim (Result-cases (dict_of env (get_or "payload" (obj end) r.proposed_action_json))) [
              | inr (e, k) ↦ rw (c, h, k) (Deciding.raised e _ (inl refl) refl refl refl)
              | inl (payload, k) ↦
                  let (res, a, (q, w, _, _, over)) =
                    apply-IsApart env tz (approved_command env tz r type payload) s' in
                  rw (c, h, k, a)
                    (Deciding.commanded type payload s'
                      (in_status
                        (if status_text res.status == "applied" then "applied" else "failed")
                        (env.clock s.reads) r)
                      res _ _ refl h k refl refl a refl refl (settled res.status over) refl
                      (record {
                        table = ap (update_row review_key r.id (λ _. _)) q;
                        decision = _;
                        decisions = w;
                        about = refl;
                        choice = refl;
                        reported = refl;
                        status = refl;
                      }))
            ]
      ]

  decision-Deciding :
      (k : Choice) (s : Store) → d.choice ≡ k → Deciding s (decide_found env tz d r s)
  unfolding decide_found decided create_audit_event create_status_event new_id utc_now
  decision-Deciding Choice.approve s c = approval-Deciding s c
  decision-Deciding Choice.reject s c = rw c (
      Deciding.marked (in_status "rejected" (env.clock s.reads) r) _ _ Gives.rejects refl
        (record {
          table = refl;
          decision = _;
          decisions = refl;
          about = refl;
          choice = refl;
          reported = refl;
          status = refl;
        })
        refl refl)
  decision-Deciding Choice.clarify s c = rw c (
      Deciding.marked (in_status "needs_clarification" (env.clock s.reads) r) _ _ Gives.clarifies
        refl
        (record {
          table = refl;
          decision = _;
          decisions = refl;
          about = refl;
          choice = refl;
          reported = refl;
          status = refl;
        })
        refl refl)
  decision-Deciding Choice.done s c = rw c (
      Deciding.marked (in_status "applied" (env.clock s.reads) r) _ _ Gives.closes refl
        (record {
          table = refl;
          decision = _;
          decisions = refl;
          about = refl;
          choice = refl;
          reported = refl;
          status = refl;
        })
        refl refl)
  decision-Deciding Choice.correct s c =
      elim (Result-cases (corrected_action env tz d.payload r.proposed_action_json)) [
        | inr (e, h) ↦ rw (c, h) (Deciding.raised e _ (inr (inl refl)) refl refl refl)
        | inl (action, h) ↦
            rw (c, h)
              (Deciding.marked _ _ _ Gives.corrects refl
                (record {
                  table = refl;
                  decision = _;
                  decisions = refl;
                  about = refl;
                  choice = refl;
                  reported = refl;
                  status = refl;
                })
                refl refl)
      ]
  decision-Deciding Choice.snooze s c =
      elim (Result-cases (int_of env (get_or "hours" (int 8) d.payload))) [
        | inr (e, h) ↦ rw (c, h) (Deciding.raised e _ (inr (inr refl)) refl refl refl)
        | inl (hours, h) ↦ elim (Result-cases (add_hours env tz (env.clock s.reads) hours)) [
          | inr (e, k) ↦ rw (c, h, k) (Deciding.raised e _ (inr (inr refl)) refl refl refl)
          | inl (until, k) ↦
              rw (c, h, k)
                (Deciding.marked _ _ _ Gives.snoozes refl
                  (record {
                    table = refl;
                    decision = _;
                    decisions = refl;
                    about = refl;
                    choice = refl;
                    reported = refl;
                    status = refl;
                  })
                  refl refl)
        ]
      ]

  -- A decision to approve, correct or snooze a review may raise, with the reviews, the state changes and the owner's data as they
  -- were. Otherwise a decision records one decision and changes no row but that review's: an approval runs, on
  -- the owner's data as they were, the owner's command with the type and the payload of the review's action,
  -- whose result is in the reply and whose changes are all that is changed, and gives the review the status
  -- of that command; each other decision gives its own
  -- status and changes no state change and none of the owner's data.
  pub decide_ends : (s : Store) → Deciding s (decide_found env tz d r s)
  decide_ends s = decision-Deciding d.choice s refl
