-- ===== src/Jobs/Approved.antt =====
-- A job that is proposed and then approved.
use life_os_vnex.Prelude.{
  ℕ, suc, String, Bool, true, false, ◌≡◌, refl, Option, some, none, List, [], ◌∷◌, ◌++◌,
}
use life_os_vnex.Prelude.Json.{text_or_null, null}
use life_os_vnex.Prelude.Env.{Env}
use life_os_vnex.State.{
  Store, Job, ReviewItem, ok, id_at, new_id, utc_now, create_audit_event, create_status_event,
}
use life_os_vnex.Bus.{CommandResult}
use life_os_vnex.Reviews.{
  DecisionRequest, Choice, ReviewReply, review_key, decide_found, decide_review, approve_review,
}
use life_os_vnex.State.{find_row}
use life_os_vnex.State.Laws.{find_row-append}
use life_os_vnex.Jobs.{JobCreate, job_review, propose_job}

-- The job that a proposal describes.
abbrev pub described : JobCreate → String → ℕ → Job
described q id now = record {
  id = id;
  name = q.name;
  description_md = text_or_null q.description_md;
  schedule_type = q.schedule_type;
  schedule_json = q.schedule_json;
  timezone = q.timezone;
  target_agent_id = text_or_null q.target_agent_id;
  command_json = q.command_json;
  approval_policy = q.approval_policy;
  enabled = q.enabled;
  created_by_user_id = null;
  created_at = now;
  updated_at = now;
}

-- The decision to approve.
abbrev pub approval : DecisionRequest → DecisionRequest
approval d = record d { choice = Choice.approve }

module _ (env : Env) (tz : String) where
  decided-Created :
      (q : JobCreate) (id : String) (at : ℕ) (d : DecisionRequest) (s : Store)
      → ((decide_found env tz (approval d) (job_review q id at) s).1.tables.jobs
          ≡ s.tables.jobs
            ++ described q (id_at env "job" (suc (suc s.draws))) (env.clock (suc (suc s.reads)))
              ∷ [])
        × ((reply : ReviewReply) × ((decide_found env tz (approval d) (job_review q id at) s).0
              ≡ ok reply)
            × (reply.status ≡ "applied"))
  unfolding decide_found approve_review life_os_vnex.Bus.index life_os_vnex.Prelude.Json.get
      job_review life_os_vnex.Bus.dict_of life_os_vnex.Prelude.Json.get_or
      life_os_vnex.Bus.Apply.apply life_os_vnex.Bus.apply_payload life_os_vnex.Prelude.Env.text_of
      life_os_vnex.Bus.create_job
  decided-Created q id at d s = (refl, (_, refl, refl))

  -- Proposing a job leaves the owner's data as they are and adds one review, whose id is new; approving that
  -- review adds exactly one job, after the jobs that are there, with every field of the proposal, and the
  -- reply says that it is applied.
  pub propose_job-approve :
      (q : JobCreate) (d : DecisionRequest) (s : Store)
      → find_row review_key (id_at env "rev" s.draws) s.reviews ≡ none
      → (review : ReviewItem) × (id : String) × (now : ℕ) × ((propose_job env q s).0 ≡ ok review)
        × ((propose_job env q s).1.tables ≡ s.tables)
        × ((propose_job env q s).1.reviews ≡ s.reviews ++ review ∷ [])
        × ((decide_review env tz review.id (approval d) (propose_job env q s).1).1.tables.jobs
            ≡ s.tables.jobs ++ described q id now ∷ [])
        × ((reply : ReviewReply) × ((decide_review env tz review.id
                (approval d)
                (propose_job env q s).1).0
              ≡ ok reply)
            × (reply.status ≡ "applied"))
  unfolding propose_job decide_review utc_now new_id create_status_event create_audit_event
      job_review
  propose_job-approve q d s fresh =
      let id = id_at env "rev" s.draws in
      let review : ReviewItem = job_review q id (env.clock s.reads) in
      let t : Store = (propose_job env q s).1 in
      let found : find_row review_key id t.reviews ≡ some review =
        find_row-append review_key id s.reviews review fresh refl in
      let (jobs, (reply, answered, status)) = decided-Created q id (env.clock s.reads) d t in
      (
        review,
        id_at env "job" (suc (suc t.draws)),
        env.clock (suc (suc t.reads)),
        refl,
        refl,
        refl,
        rw (decide_review, found) jobs,
        (reply, rw (decide_review, found) answered, status),
      )
