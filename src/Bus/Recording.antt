-- ===== src/Bus/Recording.antt =====
-- What `plan` and `apply` record of a command, whether its payload is applied or fails.
use life_os_vnex.Prelude.{
  ℕ, suc, String, ◌≡◌, refl, ◌∙◌, ap, none, some, List, [], ◌∷◌, ◌++◌, ◌⊎◌, inl, inr,
}
use life_os_vnex.Prelude.Text.{◌⧺◌}
use life_os_vnex.Prelude.Json.{obj}
use life_os_vnex.State.Laws.{held}
use life_os_vnex.Prelude.Env.{Env}
use life_os_vnex.State.{
  Store, StateChange, AuditEvent, StatusEventRow, Result, ok, raise, id_at, new_id, utc_now,
  create_audit_event, create_status_event, find_row, update_row,
}
use life_os_vnex.State.Laws.{update_row-append}
use life_os_vnex.Bus.{CommandStatus, status_text, CommandRequest, CommandResult, apply_payload}
use life_os_vnex.Bus.Apply.{
  change_key, planned_change, open_change, plan, finish_applied, finish_failed, settle, apply,
}
use life_os_vnex.Bus.Frame.{SameRecords, apply_payload-IsQuiet}

-- An operation on the command `c` that starts in `s` and ends in `t` with the result `res` adds one
-- state change and one audit event, both with the status that it returns, and a status event just
-- when that status is "applied".
pub record IsRecorded (c : CommandRequest) (s t : Store) (res : CommandResult) : Type 0 where
  pub change : StateChange
  pub changes : t.changes ≡ s.changes ++ change ∷ []
  pub change_id : change.id ≡ res.state_change_id
  pub change_status : change.status ≡ status_text res.status
  pub change_type : change.command_type ≡ c.command_type
  pub change_payload : change.command_payload ≡ c.payload
  pub change_review : change.review_item_id ≡ c.source_review_item_id
  pub audit : AuditEvent
  pub audits : t.audits ≡ s.audits ++ audit ∷ []
  pub audit_id : audit.id ≡ res.audit_event_id
  pub audit_type : audit.event_type ≡ "state_change." ⧺ status_text res.status
  pub audit_payload : audit.after_json ≡ some (obj c.payload)
  pub audit_actor : audit.actor_id ≡ c.actor_id

-- The state changes, audit and status events of the store in which a payload was applied, when
-- `row` is the state change that the command opened in `s`.
record IsOpened (row : StateChange) (s t : Store) : Type 0 where
  opened : t.changes ≡ s.changes ++ row ∷ []
  same_audits : t.audits ≡ s.audits
  same_events : t.events ≡ s.events

extend : {A : Type 0} {xs ys : List A} (x : A) → xs ≡ ys → xs ++ x ∷ [] ≡ ys ++ x ∷ []
extend x e = ap (λ l. l ++ x ∷ []) e

module _ (env : Env) (tz : String) (c : CommandRequest) where
  -- The result of an action that does not raise.
  abbrev pub Ends : (r : Result CommandResult × Store) → (CommandResult → Store → Type 0) → Type 0
  Ends r P = (res : CommandResult) × (r.0 ≡ ok res) × P res r.1

  -- A result that is applied or failed, with a status event for the former.
  abbrev IsOver : Store → CommandResult → Store → Type 0
  IsOver s res t =
      IsRecorded c s t res
      × (((res.status ≡ CommandStatus.applied)
            × ((e : StatusEventRow) × (t.events ≡ s.events ++ e ∷ [])))
          ⊎ ((res.status ≡ CommandStatus.failed) × (t.events ≡ s.events)))

  -- Settling the command changes the row that it opened.
  reach :
      {s t : Store} (f : StateChange → StateChange) (id : String) (now : ℕ)
      → IsOpened (planned_change c id now) s t
      → find_row change_key id s.changes ≡ none
      → update_row change_key id f t.changes ≡ s.changes ++ f (planned_change c id now) ∷ []
  reach f id now o fresh =
      ap (update_row change_key id f) o.opened ∙ update_row-append change_key id f _ _ fresh refl

  settle-IsOver :
      (s t : Store) (id : String) (now : ℕ) (r : Result (String × String))
      → find_row change_key id s.changes ≡ none
      → IsOpened (planned_change c id now) s t
      → Ends (settle env tz c id r t) (IsOver s)
  unfolding settle finish_applied finish_failed utc_now create_audit_event create_status_event
      new_id
  settle-IsOver s t id now (ok (type, entity)) fresh o = (
    _,
    refl,
    (
      record {
        change = _;
        changes = reach _ id now o fresh;
        change_id = refl;
        change_status = refl;
        change_type = refl;
        change_payload = refl;
        change_review = refl;
        audit = _;
        audits = extend _ o.same_audits;
        audit_id = refl;
        audit_type = refl;
        audit_payload = refl;
        audit_actor = refl;
      },
      inl (refl, (_, extend _ o.same_events)),
    ),
  )
  settle-IsOver s t id now (raise e) fresh o = (
    _,
    refl,
    (
      record {
        change = _;
        changes = reach _ id now o fresh;
        change_id = refl;
        change_status = refl;
        change_type = refl;
        change_payload = refl;
        change_review = refl;
        audit = _;
        audits = extend _ o.same_audits;
        audit_id = refl;
        audit_type = refl;
        audit_payload = refl;
        audit_actor = refl;
      },
      inr (refl, o.same_events),
    ),
  )

  -- Whatever its type and payload, applying a command never raises: when no state change has the
  -- fresh id yet, it adds one state change and one audit event that carry the status that it returns,
  -- which is "applied", with one status event, or "failed", with none.
  pub apply_records :
      (s : Store)
      → find_row change_key (id_at env "stchg" s.draws) s.changes ≡ none
      → Ends (apply env tz c s) (IsOver s)
  unfolding apply open_change new_id utc_now
  apply_records s fresh =
      let id = id_at env "stchg" s.draws in
      let row = planned_change c id (env.clock s.reads) in
      let s' : Store = record s {
        changes = s.changes ++ row ∷ [];
        draws = suc s.draws;
        reads = suc s.reads;
      } in
      let q = (apply_payload-IsQuiet env tz c id).at s' in
      settle-IsOver s (apply_payload env tz c id s').1 id (env.clock s.reads)
        (apply_payload env tz c id s').0 fresh
        (record { opened = q.changes; same_audits = q.audits; same_events = q.events })

  -- The tables of reviews, proposals and messages, and a status that is final.
  abbrev pub IsApart : Store → CommandResult → Store → Type 0
  IsApart s res t =
      (t.reviews ≡ s.reviews)
      × (t.decisions ≡ s.decisions)
      × (t.proposals ≡ s.proposals)
      × (t.messages ≡ s.messages)
      × ((res.status ≡ CommandStatus.applied) ⊎ (res.status ≡ CommandStatus.failed))

  settle-IsApart :
      (s t : Store) (id : String) (r : Result (String × String))
      → SameRecords s t
      → Ends (settle env tz c id r t) (IsApart s)
  unfolding settle finish_applied finish_failed utc_now create_audit_event create_status_event
      new_id
  settle-IsApart s t id (ok (type, entity)) q =
      (_, refl, (q.reviews, q.decisions, q.proposals, q.messages, inl refl))
  settle-IsApart s t id (raise e) q =
      (_, refl, (q.reviews, q.decisions, q.proposals, q.messages, inr refl))

  -- What a command leaves alone, whatever its payload is.
  pub apply-IsApart : (s : Store) → Ends (apply env tz c s) (IsApart s)
  unfolding apply open_change new_id utc_now
  apply-IsApart s =
      let id = id_at env "stchg" s.draws in
      let row = planned_change c id (env.clock s.reads) in
      let s' : Store = record s {
        changes = s.changes ++ row ∷ [];
        draws = suc s.draws;
        reads = suc s.reads;
      } in
      let p = apply_payload env tz c id s' in
      settle-IsApart s' p.1 id p.0 ((apply_payload-IsQuiet env tz c id).at s')

  settle-runs :
      (t : Store) (id : String) (r : Result (String × String))
      → held (settle env tz c id r t).1 ≡ held t
  unfolding settle finish_applied finish_failed utc_now create_audit_event create_status_event
      new_id
  settle-runs t id (ok (type, entity)) = refl
  settle-runs t id (raise e) = refl

  -- A command leaves the runs alone.
  pub apply-runs : (s : Store) → held (apply env tz c s).1 ≡ held s
  unfolding apply open_change new_id utc_now
  apply-runs s =
      let id = id_at env "stchg" s.draws in
      let s' : Store = record s {
        changes = s.changes ++ planned_change c id (env.clock s.reads) ∷ [];
        draws = suc s.draws;
        reads = suc s.reads;
      } in
      let p = apply_payload env tz c id s' in
      let quiet = (apply_payload-IsQuiet env tz c id).at s' in
      settle-runs p.1 id p.0 ∙ (λ i. (quiet.runs i, quiet.sessions i))

  -- Planning a command records a state change and an audit event with the status "planned", and
  -- changes no table of the owner's data, no file and no status event.
  pub plan_records :
      (s : Store)
      → Ends (plan env tz c s) (λ res t.
        IsRecorded c s t res
        × (t.tables ≡ s.tables)
        × (t.events ≡ s.events)
        × (t.files ≡ s.files)
        × (res.status ≡ CommandStatus.planned))
  unfolding plan open_change new_id utc_now create_audit_event
  plan_records s = (
    _,
    refl,
    (
      record {
        change = _;
        changes = refl;
        change_id = refl;
        change_status = refl;
        change_type = refl;
        change_payload = refl;
        change_review = refl;
        audit = _;
        audits = refl;
        audit_id = refl;
        audit_type = refl;
        audit_payload = refl;
        audit_actor = refl;
      },
      refl,
      refl,
      refl,
      refl,
    ),
  )
