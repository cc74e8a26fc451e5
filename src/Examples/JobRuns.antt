-- ===== src/Examples/JobRuns.antt =====
-- A job and a memory that are proposed and approved.
use life_os_vnex.Prelude.{ℕ, String, true, ◌≡◌, refl, some, none, [], ◌∷◌, ◌++◌}
use life_os_vnex.Prelude.Json.{end, str, fields_of, hundredths}
use life_os_vnex.State.{ReviewItem, ok, find_row}
use life_os_vnex.Reviews.{DecisionRequest, Choice, ReviewReply, decide_review}
use life_os_vnex.Jobs.{JobCreate, propose_job}
use life_os_vnex.Jobs.Approved.{approval, described, propose_job-approve}
use life_os_vnex.Memory.{MemoryCandidateCreate, create_candidate}
use life_os_vnex.Memory.Remembered.{remembered, create_candidate-approve}
use life_os_vnex.Examples.{sample_env, empty_store}

abbrev weekly_job : JobCreate
weekly_job = record {
  name = "Weekly review";
  description_md = none;
  schedule_type = "cron";
  schedule_json = fields_of (("cron", str "0 9 * * 1") ∷ []);
  timezone = "UTC";
  target_agent_id = some "daily-planner";
  command_json = end;
  approval_policy = "ask_for_mutations";
  enabled = true;
}

abbrev decision : DecisionRequest
decision = record {
  choice = Choice.approve;
  text = none;
  payload = end;
  source_platform = "web";
  source_external_message_id = none;
}

propose_job-approve_example :
    (review : ReviewItem) × (id : String) × (now : ℕ) × ((propose_job sample_env weekly_job
        empty_store).0
      ≡ ok review)
    × ((propose_job sample_env weekly_job empty_store).1.tables ≡ empty_store.tables)
    × ((propose_job sample_env weekly_job empty_store).1.reviews ≡ [] ++ review ∷ [])
    × ((decide_review sample_env "UTC" review.id
          (approval decision)
          (propose_job sample_env weekly_job empty_store).1).1.tables.jobs
        ≡ [] ++ described weekly_job id now ∷ [])
    × ((reply : ReviewReply) × ((decide_review sample_env "UTC" review.id
            (approval decision)
            (propose_job sample_env weekly_job empty_store).1).0
          ≡ ok reply)
        × (reply.status ≡ "applied"))
unfolding find_row
propose_job-approve_example =
    propose_job-approve sample_env "UTC" weekly_job decision empty_store refl

abbrev liking : MemoryCandidateCreate
liking = record {
  source_capture_id = none;
  proposed_by_agent_id = "memory-curator";
  candidate_kind = "preference";
  statement_md = "Prefers short answers";
  domain = "planning";
  evidence_refs = str "msg_1" ∷ [];
  confidence = hundredths 75;
  sensitivity = "normal";
}

create_candidate-approve_example :
    (candidate : String) × (review : ReviewItem) × (id : String) × (now : ℕ) × ((create_candidate
        sample_env liking empty_store).0
      ≡ ok (candidate, review.id))
    × ((create_candidate sample_env liking empty_store).1.tables ≡ empty_store.tables)
    × ((create_candidate sample_env liking empty_store).1.reviews ≡ [] ++ review ∷ [])
    × ((decide_review sample_env "UTC" review.id
          (approval decision)
          (create_candidate sample_env liking empty_store).1).1.tables.facts
        ≡ [] ++ remembered liking candidate id now ∷ [])
    × ((decide_review sample_env "UTC" review.id
          (approval decision)
          (create_candidate sample_env liking empty_store).1).1.candidates
        ≡ (create_candidate sample_env liking empty_store).1.candidates)
    × ((reply : ReviewReply) × ((decide_review sample_env "UTC" review.id
            (approval decision)
            (create_candidate sample_env liking empty_store).1).0
          ≡ ok reply)
        × (reply.status ≡ "applied"))
unfolding find_row
create_candidate-approve_example =
    create_candidate-approve sample_env "UTC" (λ path content. refl) liking decision empty_store
      refl
