-- ===== src/Proposals/Created.antt =====
-- What creating and listing proposals does.
use life_os_vnex.Prelude.{
  ℕ, suc, some, none, ◌+◌, String, ◌≡◌, refl, sym, ◌∙◌, ap, List, [], ◌∷◌, ◌++◌, length,
  length-append, arith,
}
use life_os_vnex.Prelude.Json.{str, fields_of}
use life_os_vnex.State.Laws.{held}
use life_os_vnex.Prelude.Env.{Env}
use life_os_vnex.State.{
  Store, PendingActionProposal, Message, ok, id_at, new_id, utc_now, create_audit_event,
}
use life_os_vnex.Proposals.{
  ActionProposal, Origin, inline_row, proposal_audit, agent_name, add_proposals, audit_proposals,
  persist_proposals,
}

append_assoc : {A : Type 0} (xs ys zs : List A) → (xs ++ ys) ++ zs ≡ xs ++ (ys ++ zs)
append_assoc [] ys zs = refl
append_assoc (x ∷ xs) ys zs = ap (λ l. x ∷ l) (append_assoc xs ys zs)

append_nil : {A : Type 0} (xs : List A) → xs ++ [] ≡ xs
append_nil [] = refl
append_nil (x ∷ xs) = ap (λ l. x ∷ l) (append_nil xs)

-- The row of a proposal: it waits for a day, for the session and the message that it comes from.
abbrev pub pending_row :
    Origin → Message → String → ℕ → ActionProposal → String → PendingActionProposal
pending_row o m source now p id = record {
  id = id;
  session_id = some o.id;
  source_message_id = some m.id;
  source = source;
  agent_name = agent_name o;
  proposal_type = p.type;
  summary = p.summary;
  draft_json = p.draft;
  risk_level = p.risk;
  status = "pending";
  created_at = now;
  expires_at = some (now + 86400000000);
  last_revised_at = none;
  executed_command_id = none;
  review_item_id = none;
}

-- The rows made of a plan's proposals, in order.
pub data Rows (o : Origin) (m : Message) (source : String) (now : ℕ)
    : List ActionProposal → List PendingActionProposal → Type 0 where
  none_left : Rows o m source now [] []
  row :
      (p : ActionProposal) (id : String) (ps : List ActionProposal)
      (rs : List PendingActionProposal)
      → Rows o m source now ps rs
      → Rows o m source now (p ∷ ps) (pending_row o m source now p id ∷ rs)

module _ (env : Env) (o : Origin) (m : Message) (source : String) where
  -- The rows of a loop that has ended.
  record IsAdded (now : ℕ) (ps : List ActionProposal) (s : Store) : Type 0 where
    rows : List PendingActionProposal
    returned : (add_proposals env o m source now ps s).0 ≡ ok rows
    shape : Rows o m source now ps rows
    stored : (add_proposals env o m source now ps s).1.proposals ≡ s.proposals ++ rows
    audits : (add_proposals env o m source now ps s).1.audits ≡ s.audits
    tables : (add_proposals env o m source now ps s).1.tables ≡ s.tables
    runs : held (add_proposals env o m source now ps s).1 ≡ held s

  add_proposals-IsAdded : (now : ℕ) (ps : List ActionProposal) (s : Store) → IsAdded now ps s
  unfolding add_proposals new_id
  add_proposals-IsAdded now [] s = record {
    rows = [];
    returned = refl;
    shape = Rows.none_left;
    stored = sym (append_nil s.proposals);
    audits = refl;
    tables = refl;
    runs = refl;
  }
  add_proposals-IsAdded now (p ∷ ps) s =
      let id = id_at env "aprop" s.draws in
      let r = inline_row o m source now p id in
      let s' : Store = record s { proposals = s.proposals ++ r ∷ []; draws = suc s.draws } in
      let rest = add_proposals-IsAdded now ps s' in
      record {
        rows = r ∷ rest.rows;
        returned = rw rest.returned refl;
        shape = Rows.row p id ps rest.rows rest.shape;
        stored = rw rest.returned (rest.stored ∙ append_assoc s.proposals (r ∷ []) rest.rows);
        audits = rw rest.returned rest.audits;
        tables = rw rest.returned rest.tables;
        runs = rw rest.returned rest.runs;
      }

  -- The audit events of a loop that has ended.
  record IsAudited (rs : List PendingActionProposal) (s : Store) : Type 0 where
    ended : (audit_proposals env o m rs s).0 ≡ ok tt
    count : length (audit_proposals env o m rs s).1.audits ≡ length s.audits + length rs
    proposals : (audit_proposals env o m rs s).1.proposals ≡ s.proposals
    tables : (audit_proposals env o m rs s).1.tables ≡ s.tables
    runs : held (audit_proposals env o m rs s).1 ≡ held s

  audit_proposals-IsAudited : (rs : List PendingActionProposal) (s : Store) → IsAudited rs s
  unfolding audit_proposals create_audit_event new_id utc_now
  audit_proposals-IsAudited [] s = record {
    ended = refl;
    count = omega arith;
    proposals = refl;
    tables = refl;
    runs = refl;
  }
  audit_proposals-IsAudited (r ∷ rs) s =
      let first =
        create_audit_event env
          (proposal_audit env "agent" (agent_name o) "action_proposal.created"
            "Created inline proposal: " r (fields_of (("source_message_id", str m.id) ∷ [])))
          s in
      let rest = audit_proposals-IsAudited rs first.1 in
      record {
        ended = rest.ended;
        count = omega (arith, rest.count, length-append s.audits (_ ∷ []));
        proposals = rest.proposals;
        tables = rest.tables;
        runs = rest.runs;
      }

  Rows-length :
      {now : ℕ} {ps : List ActionProposal} {rs : List PendingActionProposal}
      → Rows o m source now ps rs
      → length rs ≡ length ps
  Rows-length Rows.none_left = refl
  Rows-length (Rows.row p id ps rs h) = ap suc (Rows-length h)

  -- Persisting a plan always succeeds: it adds one row for each proposal, in order and after the rows
  -- that are there, each pending, open for a day and with the draft and risk of its proposal, and as
  -- many audit events, and changes no table of the owner's data.
  pub persist_adds :
      (ps : List ActionProposal) (s : Store)
      → (rows : List PendingActionProposal) × ((persist_proposals env o m source ps s).0 ≡ ok rows)
        × Rows o m source (env.clock s.reads) ps rows
        × ((persist_proposals env o m source ps s).1.proposals ≡ s.proposals ++ rows)
        × (length (persist_proposals env o m source ps s).1.audits ≡ length s.audits + length ps)
        × ((persist_proposals env o m source ps s).1.tables ≡ s.tables)
  unfolding persist_proposals utc_now
  persist_adds ps s =
      let s' : Store = record s { reads = suc s.reads } in
      let added = add_proposals-IsAdded (env.clock s.reads) ps s' in
      let audited =
        audit_proposals-IsAudited added.rows
          (add_proposals env o m source (env.clock s.reads) ps s').1 in
      (
        added.rows,
        rw (added.returned, audited.ended) refl,
        added.shape,
        rw (added.returned, audited.ended) (audited.proposals ∙ added.stored),
        rw (added.returned, audited.ended)
            (audited.count
              ∙ (ap (λ l. length l + length added.rows) added.audits
                  ∙ ap (λ n. length s.audits + n) (Rows-length added.shape))),
        rw (added.returned, audited.ended) (audited.tables ∙ added.tables),
      )

  -- Persisting a plan leaves the runs alone.
  pub persist-runs :
      (ps : List ActionProposal) (s : Store)
      → held (persist_proposals env o m source ps s).1 ≡ held s
  unfolding persist_proposals utc_now
  persist-runs ps s =
      let s' : Store = record s { reads = suc s.reads } in
      let added = add_proposals-IsAdded (env.clock s.reads) ps s' in
      let audited =
        audit_proposals-IsAudited added.rows
          (add_proposals env o m source (env.clock s.reads) ps s').1 in
      rw (added.returned, audited.ended) (audited.runs ∙ added.runs)
