-- ===== src/Orchestrator/Routing.antt =====
-- Which captures the deterministic router keeps raw, and what becomes of the captures about money.
use life_os_vnex.Prelude.{
  String, Bool, true, false, ◌≡◌, ◌≢◌, ◌↔◌, refl, Option, List, arith, or_default, eq_iff, eqb,
  if◌then◌else◌,
}
use life_os_vnex.Prelude.Text.{member, strip, lower}
use life_os_vnex.Prelude.Json.{get_or, get}
use life_os_vnex.Prelude.Env.{Env, text_of}
use life_os_vnex.Policy.{
  Verdict, raw_only, ask_clarification, review_required, decide_capture_action, action_risk,
  action_command,
}
use life_os_vnex.Policy.Gates.{raw_only_iff}
use life_os_vnex.Orchestrator.{
  Draft, draft_from_capture, parse_amount, looks_like_job, looks_like_finance, looks_like_prayer,
  looks_like_health, looks_like_family, looks_like_work, looks_like_research, looks_like_memory,
  job_draft, finance_draft, prayer_draft, health_draft, family_draft, work_draft, research_draft,
  memory_draft,
}
use life_os_vnex.Orchestrator.Autonomy.{request_of, verdict_on, raw_note-kept}

module _ (env : Env) (mode : String) (owner : Bool) where
  job-not_raw : (c t : String) → verdict_on env mode owner (job_draft c t) ≢ raw_only
  unfolding job_draft action_command get_or get text_of member
  job-not_raw c t h = ground (
    arith,
    eq_iff "job.create" "none",
    (raw_only_iff env (request_of (job_draft c t) mode owner)).0 h,
  )

  finance-not_raw : (c t : String) → verdict_on env mode owner (finance_draft env c t) ≢ raw_only
  unfolding finance_draft action_command get_or get text_of member
  finance-not_raw c t h = ground (
    arith,
    eq_iff "finance_entry.create" "none",
    (raw_only_iff env (request_of (finance_draft env c t) mode owner)).0 h,
  )

  prayer-not_raw :
      (o : List String) (c t p : String)
      → verdict_on env mode owner (prayer_draft o c t p) ≢ raw_only
  unfolding prayer_draft action_command get_or get text_of member
  prayer-not_raw o c t p h = ground (
    arith,
    eq_iff "prayer_log.create" "none",
    (raw_only_iff env (request_of (prayer_draft o c t p) mode owner)).0 h,
  )

  health-not_raw : (c t : String) → verdict_on env mode owner (health_draft c t) ≢ raw_only
  unfolding health_draft action_command get_or get text_of member
  health-not_raw c t h = ground (
    arith,
    eq_iff "daily_log.create" "none",
    (raw_only_iff env (request_of (health_draft c t) mode owner)).0 h,
  )

  family-not_raw : (c t : String) → verdict_on env mode owner (family_draft c t) ≢ raw_only
  unfolding family_draft action_command get_or get text_of member
  family-not_raw c t h = ground (
    arith,
    eq_iff "life_item.create" "none",
    (raw_only_iff env (request_of (family_draft c t) mode owner)).0 h,
  )

  work-not_raw : (c t : String) → verdict_on env mode owner (work_draft c t) ≢ raw_only
  unfolding work_draft action_command get_or get text_of member
  work-not_raw c t h = ground (
    arith,
    eq_iff "life_item.create" "none",
    (raw_only_iff env (request_of (work_draft c t) mode owner)).0 h,
  )

  research-not_raw : (c t : String) → verdict_on env mode owner (research_draft c t) ≢ raw_only
  unfolding research_draft action_command get_or get text_of member
  research-not_raw c t h = ground (
    arith,
    eq_iff "life_item.create" "none",
    (raw_only_iff env (request_of (research_draft c t) mode owner)).0 h,
  )

  memory-not_raw : (c t : String) → verdict_on env mode owner (memory_draft c t) ≢ raw_only
  unfolding memory_draft action_command get_or get text_of member
  memory-not_raw c t h = ground (
    arith,
    eq_iff "memory_fact.create" "none",
    (raw_only_iff env (request_of (memory_draft c t) mode owner)).0 h,
  )

  -- A draft that is kept raw comes from no branch whose draft is not.
  not_taken :
      (b : Bool) (d e : Draft)
      → verdict_on env mode owner d ≢ raw_only
      → verdict_on env mode owner (if b then d else e) ≡ raw_only
      → (b ≡ false) × (verdict_on env mode owner e ≡ raw_only)
  not_taken true d e n h = absurd (n h)
  not_taken false d e n h = (refl, h)

  -- A draft about money asks for the amount when it reads none or zero, and else waits for a review.
  finance-verdict :
      (c t : String)
      → verdict_on env mode true (finance_draft env c t)
        ≡ (if eqb (parse_amount t).value 0 then ask_clarification else review_required)
  unfolding decide_capture_action finance_draft action_risk action_command get_or get text_of member
  finance-verdict c t = ground arith

module _ (env : Env) (order : List String) (mode : String) (c : String) (raw : Option String)
    (platform : String) where
  abbrev text_in : String
  text_in = strip (or_default raw "")

  abbrev verdict_in : Bool → Verdict
  verdict_in owner = verdict_on env mode owner (draft_from_capture env order c raw platform)

  -- A capture is kept as a raw note exactly when it holds none of the router's keywords, whoever sent
  -- it and in every mode.
  pub kept_raw_iff :
      (owner : Bool)
      → (verdict_in owner ≡ raw_only) ↔ (
          (looks_like_job (lower text_in) ≡ false)
          × (looks_like_finance (lower text_in) ≡ false)
          × (looks_like_prayer (lower text_in) ≡ false)
          × (looks_like_health (lower text_in) ≡ false)
          × (looks_like_family (lower text_in) ≡ false)
          × (looks_like_work (lower text_in) ≡ false)
          × (looks_like_research (lower text_in) ≡ false)
          × (looks_like_memory (lower text_in) ≡ false))
  unfolding draft_from_capture
  kept_raw_iff owner = (
    λ h.
        let v = not_taken env mode owner in
        let low = lower text_in in
        let (j, h0) =
          v (looks_like_job low) (job_draft c text_in) _ (job-not_raw env mode owner c text_in) h in
        let (f, h1) =
          v (looks_like_finance low) (finance_draft env c text_in) _
            (finance-not_raw env mode owner c text_in) h0 in
        let (p, h2) =
          v (looks_like_prayer low) (prayer_draft order c text_in platform) _
            (prayer-not_raw env mode owner order c text_in platform) h1 in
        let (e, h3) =
          v (looks_like_health low) (health_draft c text_in) _
            (health-not_raw env mode owner c text_in) h2 in
        let (a, h4) =
          v (looks_like_family low) (family_draft c text_in) _
            (family-not_raw env mode owner c text_in) h3 in
        let (w, h5) =
          v (looks_like_work low) (work_draft c text_in) _ (work-not_raw env mode owner c text_in)
            h4 in
        let (r, h6) =
          v (looks_like_research low) (research_draft c text_in) _
            (research-not_raw env mode owner c text_in) h5 in
        let (m, h7) =
          v (looks_like_memory low) (memory_draft c text_in) _
            (memory-not_raw env mode owner c text_in) h6 in
        (j, f, p, e, a, w, r, m),
    λ h. ground (arith, raw_note-kept env mode owner c text_in),
  )

  -- The owner's capture with a word of money and none of a job is never applied: the amount is asked
  -- for when none, or zero, is read in it, and else it waits for a review. This holds in every mode.
  pub finance_capture_verdict :
      looks_like_job (lower text_in) ≡ false
      → looks_like_finance (lower text_in) ≡ true
      → verdict_in true
        ≡ (if eqb (parse_amount text_in).value 0 then ask_clarification else review_required)
  unfolding draft_from_capture
  finance_capture_verdict j f = ground (arith, finance-verdict env mode true c text_in)
