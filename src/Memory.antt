-- ===== src/Memory.antt =====
-- apps/api/lifeos_api/routers/memory.py: proposing a memory, and the lists of candidates and facts.
pub mod Remembered
use life_os_vnex.Prelude.{
  ℕ, String, Bool, Option, none, some, List, [], ◌∷◌, ◌++◌, if◌then◌else◌, ◌==◌, ltb, map, length,
  take,
}
use life_os_vnex.Prelude.Json.{
  Json, Float, Fields, str, obj, arr, int, end, object, array, items_of, fields_of, text_or_null,
}
use life_os_vnex.Prelude.Env.{Env}
use life_os_vnex.State.{
  Store, MemoryCandidate, MemoryFact, ReviewItem, AuditEvent, StatusEventRow, Action, pure, modify,
  ◌>>=◌, ◌>>◌, new_id, utc_now, create_audit_event, create_status_event, update_row,
}
use life_os_vnex.Proposals.{text_or, sort_by, filter_by}

-- `MemoryCandidateCreate`
pub record MemoryCandidateCreate : Type 0 where
  pub source_capture_id : Option String
  pub proposed_by_agent_id : String
  pub candidate_kind : String
  pub statement_md : String
  pub domain : String
  pub evidence_refs : List Json
  pub confidence : Float
  pub sensitivity : String

abbrev pub candidate_key : MemoryCandidate → String
candidate_key r = r.id

abbrev pub candidate_row : MemoryCandidateCreate → String → ℕ → MemoryCandidate
candidate_row q id now = record {
  id = id;
  source_capture_id = q.source_capture_id;
  proposed_by_agent_id = q.proposed_by_agent_id;
  candidate_kind = q.candidate_kind;
  statement_md = q.statement_md;
  evidence_refs = q.evidence_refs;
  confidence = q.confidence;
  sensitivity = q.sensitivity;
  status = "pending_review";
  review_item_id = none;
  created_at = now;
  updated_at = now;
}

-- The payload of the command that makes a fact of a candidate.
unfoldable pub fact_payload : MemoryCandidateCreate → String → Fields
fact_payload q candidate = fields_of (
    ("fact_kind", str q.candidate_kind)
    ∷ ("domain", str q.domain)
    ∷ ("statement_md", str q.statement_md)
    ∷ ("confidence", Json.float q.confidence)
    ∷ ("sensitivity", str q.sensitivity)
    ∷ ("source_candidate_id", str candidate)
    ∷ ("evidence_refs", arr (items_of q.evidence_refs))
    ∷ [])

-- The review that a memory is proposed in.
unfoldable pub memory_review : MemoryCandidateCreate → String → String → ℕ → ReviewItem
unfolding fact_payload
memory_review q candidate id now = record {
  id = id;
  kind = "memory";
  title = "Memory candidate";
  body_md = q.statement_md;
  source_capture_id = q.source_capture_id;
  source_uri = none;
  proposed_by_agent_id = some q.proposed_by_agent_id;
  assigned_agent_id = some "approval-manager";
  priority = "normal";
  confidence = q.confidence;
  risk_level = "durable_memory_write";
  sensitivity = q.sensitivity;
  proposed_action_json = fields_of (
      ("command_type", str "memory_fact.create")
      ∷ ("risk_level", str "durable_memory_write")
      ∷ ("payload", obj (fact_payload q candidate))
      ∷ []);
  validation_json = end;
  status = "pending";
  expires_at = none;
  snoozed_until = none;
  created_at = now;
  updated_at = now;
}

abbrev created_event : String → String → String → ℕ → StatusEventRow
created_event candidate review id now = record {
  id = id;
  run_id = none;
  event_type = "memory.candidate_created";
  visibility = "discord_compact";
  title = "Memory candidate created";
  detail_json = fields_of (("candidate_id", str candidate) ∷ ("review_item_id", str review) ∷ []);
  created_at = now;
}

abbrev created_audit : MemoryCandidateCreate → String → String → String → ℕ → AuditEvent
created_audit q candidate review id now = record {
  id = id;
  actor_type = "agent";
  actor_id = q.proposed_by_agent_id;
  event_type = "memory.candidate_created";
  entity_type = "memory_candidate";
  entity_id = candidate;
  summary = "Created memory candidate and review item.";
  before_json = none;
  after_json =
      some (object (("review_item_id", str review) ∷ ("statement_md", str q.statement_md) ∷ []));
  metadata_json = end;
  trace_id = none;
  created_at = now;
}

abbrev pub with_review : String → MemoryCandidate → MemoryCandidate
with_review review r = record r { review_item_id = some review }

module _ (env : Env) where
  unfoldable pub candidate_dict : MemoryCandidate → Json
  candidate_dict r = object (
      ("id", str r.id)
      ∷ ("source_capture_id", text_or_null r.source_capture_id)
      ∷ ("proposed_by_agent_id", str r.proposed_by_agent_id)
      ∷ ("candidate_kind", str r.candidate_kind)
      ∷ ("statement_md", str r.statement_md)
      ∷ ("evidence_refs", array r.evidence_refs)
      ∷ ("confidence", Json.float r.confidence)
      ∷ ("sensitivity", str r.sensitivity)
      ∷ ("status", str r.status)
      ∷ ("review_item_id", text_or_null r.review_item_id)
      ∷ ("created_at", str (env.iso r.created_at))
      ∷ ("updated_at", str (env.iso r.updated_at))
      ∷ [])

  abbrev with_status : Option String → List MemoryCandidate → List MemoryCandidate
  with_status status rows =
      if text_or status "" == "" then rows else filter_by (λ r. r.status == text_or status "") rows

  -- `list_candidates`
  unfoldable pub list_candidates : Option String → Store → Json
  list_candidates status s =
      let rows : List MemoryCandidate =
        take 100
          (sort_by (λ a b. ltb b.created_at a.created_at) (with_status status s.candidates)) in
      object (("items", array (map candidate_dict rows)) ∷ ("count", int (length rows)) ∷ [])

  unfoldable pub fact_dict : MemoryFact → Json
  fact_dict r = object (
      ("id", str r.id)
      ∷ ("fact_kind", str r.fact_kind)
      ∷ ("statement_md", str r.statement_md)
      ∷ ("domain", str r.domain)
      ∷ ("confidence", Json.float r.confidence)
      ∷ ("sensitivity", str r.sensitivity)
      ∷ ("status", str r.status)
      ∷ ("source_candidate_id", r.source_candidate_id)
      ∷ ("evidence_refs", arr r.evidence_refs)
      ∷ ("vault_uri", str r.vault_uri)
      ∷ ("created_at", str (env.iso r.created_at))
      ∷ ("updated_at", str (env.iso r.updated_at))
      ∷ [])

  -- `list_facts`
  unfoldable pub list_facts : Store → Json
  list_facts s =
      let rows : List MemoryFact =
        take 100 (sort_by (λ a b. ltb b.created_at a.created_at) s.tables.facts) in
      object (("items", array (map fact_dict rows)) ∷ ("count", int (length rows)) ∷ [])

  -- `create_candidate`, which returns the ids of the candidate and of its review.
  unfoldable pub create_candidate : MemoryCandidateCreate → Action (String × String)
  create_candidate q = do
    now ← utc_now env
    candidate ← new_id env "memcand"
    modify (λ s. record s { candidates = s.candidates ++ candidate_row q candidate now ∷ [] })
    review ← new_id env "rev"
    modify (λ s. record s {
      reviews = s.reviews ++ memory_review q candidate review now ∷ [];
      candidates = update_row candidate_key candidate (with_review review) s.candidates;
    })
    create_status_event env (created_event candidate review)
    create_audit_event env (created_audit q candidate review)
    pure (candidate, review)
