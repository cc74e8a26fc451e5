-- ===== src/Captures/Clearance.antt =====
-- When a capture that was routed may change the owner's data.
use life_os_vnex.Prelude.{
  String, true, false, ◌≡◌, ◌⊎◌, refl, ap, inl, inr, Option, none, some, List, [], ◌∷◌, or_default,
}
use life_os_vnex.Prelude.Text.{member}
use life_os_vnex.Prelude.Json.{Json, Fields, bool, get_or, truthy, ge_float, hundredths}
use life_os_vnex.Prelude.Env.{Env}
use life_os_vnex.State.{Store, find_row, new_id, create_status_event, create_audit_event}
use life_os_vnex.Bus.Effects.{Result-cases}
use life_os_vnex.Policy.{
  Request, PolicyDecision, Verdict, raw_only, review_required, ask_clarification, auto_apply,
  decide_capture_action, action_risk, action_command,
}
use life_os_vnex.Policy.Gates.{IsCleared, auto_apply_iff}
use life_os_vnex.Orchestrator.{Draft}
use life_os_vnex.Captures.{
  CaptureCreate, Received, agent_autonomy, autonomy_of, agent_key, policy_request, announce_route,
  settle_capture, conclude_capture, finish_capture, routed_of,
}
use life_os_vnex.Captures.Granting.{Grants, row-Grants}
use life_os_vnex.Captures.Outcomes.{is_auto, unapplied-IsKept}

Verdict-cases : (v : Verdict) → (v ≡ auto_apply) ⊎ (is_auto v ≡ false)
Verdict-cases auto_apply = inl refl
Verdict-cases raw_only = inr refl
Verdict-cases review_required = inr refl
Verdict-cases ask_clarification = inr refl

-- The request that the policy decides on for a draft, with the autonomy that the agent has in a store.
abbrev request_in : CaptureCreate → Draft → Store → Request
request_in q d s = policy_request q d (autonomy_of (find_row agent_key d.agent_id s.agents))

-- The stored autonomy of the agent of a draft.
abbrev pub stored_level : Draft → Store → Option String
stored_level d s = elim (find_row (λ r. r.id) d.agent_id s.agents) [
  | none ↦ none
  | some r ↦ r.autonomy_level
]

-- What an action of a capture needs to be applied by itself.
pub record IsPermitted (env : Env) (q : CaptureCreate) (d : Draft) (s : Store) : Type 0 where
  pub owner : truthy (get_or "owner_authenticated" (bool true) q.metadata) ≡ true
  pub labelled : member "raw_note" d.intent_labels ≡ false
  pub complete : (d.missing_context ≡ none) ⊎ (d.missing_context ≡ some [])
  pub confident : ge_float d.confidence (hundredths 78) ≡ true
  pub low_risk :
      member
        (action_risk env d.proposed_action)
        ("safe_internal_read" ∷ "reversible_internal_write" ∷ "durable_state_mutation" ∷ [])
      ≡ true
  pub harmless : member d.sensitivity ("finance" ∷ "health" ∷ "family" ∷ "secret" ∷ []) ≡ false
  pub granted : Grants (action_command env d.proposed_action) (stored_level d s)

none_missing : (m : Option (List Json)) → or_default m [] ≡ [] → (m ≡ none) ⊎ (m ≡ some [])
none_missing none h = inl refl
none_missing (some xs) h = inr (ap some h)

cleared-IsPermitted :
    (env : Env) (q : CaptureCreate) (d : Draft) (s : Store)
    → IsCleared env (request_in q d s)
    → IsPermitted env q d s
cleared-IsPermitted env q d s c = record {
  owner = c.owned;
  labelled = c.labelled;
  complete = none_missing d.missing_context c.complete;
  confident = c.confident;
  low_risk = c.low_risk;
  harmless = c.harmless;
  granted =
      row-Grants (action_command env d.proposed_action) (find_row agent_key d.agent_id s.agents)
        c.allowed;
}

module _ (env : Env) (timezone : String) (o : Received) (d : Draft) (meta : Fields) where
  conclude_keeps :
      (policy : PolicyDecision) (interpretation handoff : String) (t : Store)
      → is_auto policy.decision ≡ false
      → (conclude_capture env timezone o d meta policy interpretation handoff t).1.tables ≡ t.tables
  unfolding conclude_capture create_audit_event new_id
  conclude_keeps policy interpretation handoff t h =
      let kept =
        unapplied-IsKept env timezone (routed_of env timezone o interpretation) d policy t h in
      elim (Result-cases
        (settle_capture env timezone (routed_of env timezone o interpretation) d policy t).0) [
          | inl (settled, k) ↦ rw (conclude_capture, k) kept.tables
          | inr (e, k) ↦ rw (conclude_capture, k) kept.tables
        ]

  unapplied_keeps :
      (q : CaptureCreate) (s : Store)
      → is_auto (decide_capture_action env (request_in q d s)).decision ≡ false
      → (finish_capture env timezone q o d meta s).1.tables ≡ s.tables
  unfolding finish_capture agent_autonomy announce_route new_id create_status_event
  unapplied_keeps q s h = conclude_keeps _ _ _ _ h

  -- What follows the routing of a capture leaves the owner's data as they were, or its action is permitted:
  -- the metadata of the capture do not say that its source is not the owner, the draft is no raw note and
  -- misses no context, its confidence is at least 0.78, its risk is one of three and its domain is not
  -- sensitive, and the autonomy that is stored for its agent lists its command: "safe" and "balanced" have
  -- lists of their own, and all else but the three manual levels has the shortest.
  pub change-IsCleared :
      (q : CaptureCreate) (s : Store)
      → ((finish_capture env timezone q o d meta s).1.tables ≡ s.tables) ⊎ IsPermitted env q d s
  change-IsCleared q s =
      elim (Verdict-cases (decide_capture_action env (request_in q d s)).decision) [
        | inl e ↦ inr (cleared-IsPermitted env q d s ((auto_apply_iff env (request_in q d s)).0 e))
        | inr e ↦ inl (unapplied_keeps q s e)
      ]
