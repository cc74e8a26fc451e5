-- ===== src/Memory/Remembered.antt =====
-- A memory that is proposed and then approved.
use life_os_vnex.Prelude.{
  ℕ, suc, String, ◌≡◌, refl, Option, some, none, List, [], ◌∷◌, ◌++◌, if◌then◌else◌, ◌==◌,
}
use life_os_vnex.Prelude.{sym}
use mathlib.Core.Path.{subst}
use life_os_vnex.Prelude.Text.{◌⧺◌}
use life_os_vnex.Prelude.Json.{str, items_of}
use life_os_vnex.Prelude.Env.{Env}
use life_os_vnex.State.{
  Store, MemoryFact, ReviewItem, ok, id_at, new_id, utc_now, create_audit_event,
  create_status_event, find_row,
}
use life_os_vnex.State.Laws.{find_row-append}
use life_os_vnex.Reviews.{
  DecisionRequest, ReviewReply, review_key, decide_found, decide_review, approve_review,
}
use life_os_vnex.Jobs.Approved.{approval}
use life_os_vnex.Memory.{MemoryCandidateCreate, memory_review, create_candidate}

-- The fact that a candidate becomes.
abbrev pub remembered : MemoryCandidateCreate → String → String → ℕ → MemoryFact
remembered q candidate id now = record {
  id = id;
  fact_kind = q.candidate_kind;
  statement_md = q.statement_md;
  domain = q.domain;
  confidence = q.confidence;
  sensitivity = q.sensitivity;
  status = "active";
  source_candidate_id = str candidate;
  evidence_refs = items_of q.evidence_refs;
  vault_uri =
      "memory/curated/domains/" ⧺ (if q.domain == "global" then "planning" else q.domain) ⧺ ".md";
  created_at = now;
  updated_at = now;
}

-- The approval of a candidate's review adds its fact and is applied.
abbrev IsRemembered :
    String → MemoryCandidateCreate → String → String → ℕ → DecisionRequest → Store → Env → Type 0
IsRemembered tz q candidate id at d s env =
    ((decide_found env tz (approval d) (memory_review q candidate id at) s).1.tables.facts
      ≡ s.tables.facts
        ++ remembered q candidate (id_at env "mem" (suc (suc s.draws)))
            (env.clock (suc (suc s.reads)))
          ∷ [])
    × ((decide_found env tz (approval d) (memory_review q candidate id at) s).1.candidates
        ≡ s.candidates)
    × ((reply : ReviewReply) × ((decide_found env tz (approval d) (memory_review q candidate id at)
            s).0
          ≡ ok reply)
        × (reply.status ≡ "applied"))

-- With a vault that every write succeeds in.
on_writable :
    (env : Env) (tz : String) (q : MemoryCandidateCreate) (candidate id : String) (at : ℕ)
    (d : DecisionRequest) (s : Store)
    → IsRemembered tz q candidate id at d s (record env { vault_error = λ path content. none })
unfolding decide_found approve_review life_os_vnex.Bus.index life_os_vnex.Prelude.Json.get
    memory_review life_os_vnex.Bus.dict_of life_os_vnex.Prelude.Json.get_or
    life_os_vnex.Bus.Apply.apply life_os_vnex.Bus.apply_payload life_os_vnex.Prelude.Env.text_of
    life_os_vnex.Bus.create_fact life_os_vnex.Bus.float_of life_os_vnex.Bus.list_of
    life_os_vnex.State.write_file
on_writable env tz q candidate id at d s = (refl, refl, (_, refl, refl))

module _ (env : Env) (tz : String)
    (writable : (path content : String) → env.vault_error path content ≡ none) where
  decided-Remembered :
      (q : MemoryCandidateCreate) (candidate id : String) (at : ℕ) (d : DecisionRequest) (s : Store)
      → IsRemembered tz q candidate id at d s env
  decided-Remembered q candidate id at d s =
      subst (λ v. IsRemembered tz q candidate id at d s (record env { vault_error = v }))
        (λ i path content. sym (writable path content) i) (on_writable env tz q candidate id at d s)

  -- When every write to the vault succeeds, proposing a memory leaves the owner's data as they are and adds
  -- one review after those that are there, whose id is new. Approving that review adds exactly one active
  -- fact, after those that are there, with the statement, the domain, the confidence, the sensitivity and the
  -- evidence of the proposal, the id of the candidate and the file of its domain. The candidates are left as
  -- the proposal made them, and the reply says that it is applied.
  pub create_candidate-approve :
      (q : MemoryCandidateCreate) (d : DecisionRequest) (s : Store)
      → find_row review_key (id_at env "rev" (suc s.draws)) s.reviews ≡ none
      → (candidate : String) × (review : ReviewItem) × (id : String) × (now : ℕ)
        × ((create_candidate env q s).0 ≡ ok (candidate, review.id))
        × ((create_candidate env q s).1.tables ≡ s.tables)
        × ((create_candidate env q s).1.reviews ≡ s.reviews ++ review ∷ [])
        × ((decide_review env tz review.id (approval d) (create_candidate env q s).1).1.tables.facts
            ≡ s.tables.facts ++ remembered q candidate id now ∷ [])
        × ((decide_review env tz review.id (approval d) (create_candidate env q s).1).1.candidates
            ≡ (create_candidate env q s).1.candidates)
        × ((reply : ReviewReply) × ((decide_review env tz review.id
                (approval d)
                (create_candidate env q s).1).0
              ≡ ok reply)
            × (reply.status ≡ "applied"))
  unfolding create_candidate decide_review utc_now new_id create_status_event create_audit_event
      memory_review
  create_candidate-approve q d s fresh =
      let candidate = id_at env "memcand" s.draws in
      let id = id_at env "rev" (suc s.draws) in
      let review : ReviewItem = memory_review q candidate id (env.clock s.reads) in
      let t : Store = (create_candidate env q s).1 in
      let found : find_row review_key id t.reviews ≡ some review =
        find_row-append review_key id s.reviews review fresh refl in
      let (facts, same, (reply, answered, status)) =
        decided-Remembered q candidate id (env.clock s.reads) d t in
      (
        candidate,
        review,
        id_at env "mem" (suc (suc t.draws)),
        env.clock (suc (suc t.reads)),
        refl,
        refl,
        refl,
        rw (decide_review, found) facts,
        rw (decide_review, found) same,
        (reply, rw (decide_review, found) answered, status),
      )
