-- ===== src/Orchestrator/Autonomy.antt =====
-- What the policy makes of the drafts of the deterministic router, as `create_capture`
-- (apps/api/lifeos_api/routers/captures.py) puts them before it.
use life_os_vnex.Prelude.{
  String, Bool, true, false, ◌≡◌, ◌≢◌, ◌↔◌, ◌⊎◌, refl, Option, List, [], arith, or_default, inl,
  inr, eq_iff,
}
use life_os_vnex.Prelude.Text.{member, strip, lower}
use life_os_vnex.Prelude.Json.{get_or, get}
use life_os_vnex.Prelude.Env.{Env, text_of}
use life_os_vnex.Policy.{
  Verdict, raw_only, auto_apply, Request, decide_capture_action, effective_mode, auto_allow,
  action_risk, action_command,
}
use life_os_vnex.Policy.Gates.{auto_apply_iff}
use life_os_vnex.Orchestrator.{
  Draft, draft_from_capture, looks_like_job, looks_like_finance, looks_like_prayer,
  looks_like_health, looks_like_family, looks_like_work, looks_like_research, job_draft,
  finance_draft, prayer_draft, health_draft, family_draft, work_draft, research_draft, memory_draft,
  raw_note_draft,
}

-- `decide_capture_action(action=draft.proposed_action, …)`
abbrev pub request_of : Draft → String → Bool → Request
request_of d mode owner = record {
  action = d.proposed_action;
  confidence = d.confidence;
  sensitivity = d.sensitivity;
  autonomy_mode = mode;
  owner_authenticated = owner;
  missing_context = or_default d.missing_context [];
  intent_labels = d.intent_labels;
}

abbrev pub IsOpenMode : String → Type 0
IsOpenMode m = (m ≡ "balanced") ⊎ (m ≡ "safe")

abbrev pub IsMode : String → Type 0
IsMode m = (m ≡ "manual") ⊎ (m ≡ "review_gated") ⊎ (m ≡ "balanced") ⊎ (m ≡ "safe")

-- The two commands of the drafts that may be applied are listed in the open modes only.
prayer_listed :
    {m : String} → IsMode m → (member "prayer_log.create" (auto_allow m) ≡ true) ↔ IsOpenMode m
unfolding auto_allow member
prayer_listed {m} c = (
  λ h. ground (arith, c, eq_iff m "manual", eq_iff m "review_gated", eq_iff m "balanced"),
  λ k. elim k [ inl e ↦ rw e refl | inr e ↦ rw e refl ],
)

item_listed :
    {m : String} → IsMode m → (member "life_item.create" (auto_allow m) ≡ true) ↔ IsOpenMode m
unfolding auto_allow member
item_listed {m} c = (
  λ h. ground (arith, c, eq_iff m "manual", eq_iff m "review_gated", eq_iff m "balanced"),
  λ k. elim k [ inl e ↦ rw e refl | inr e ↦ rw e refl ],
)

module _ (env : Env) (mode : String) (owner : Bool) where
  abbrev pub verdict_on : Draft → Verdict
  verdict_on d = (decide_capture_action env (request_of d mode owner)).decision

  -- The modes that apply low-risk drafts by themselves.
  abbrev IsOpen : Type 0
  IsOpen = IsOpenMode (effective_mode mode)

  pub effective-cases : IsMode (effective_mode mode)
  unfolding effective_mode member
  effective-cases = ground (
    arith,
    eq_iff mode "manual",
    eq_iff mode "review_gated",
    eq_iff mode "balanced",
    eq_iff mode "safe",
  )

  job-reviewed : (c t : String) → verdict_on (job_draft c t) ≢ auto_apply
  unfolding decide_capture_action job_draft action_risk action_command get_or get text_of auto_allow
      member
  job-reviewed c t h = ground arith

  finance-reviewed : (c t : String) → verdict_on (finance_draft env c t) ≢ auto_apply
  unfolding decide_capture_action finance_draft action_risk action_command get_or get text_of member
  finance-reviewed c t h = ground arith

  health-reviewed : (c t : String) → verdict_on (health_draft c t) ≢ auto_apply
  unfolding decide_capture_action health_draft action_risk action_command get_or get text_of member
  health-reviewed c t h = ground arith

  family-reviewed : (c t : String) → verdict_on (family_draft c t) ≢ auto_apply
  unfolding decide_capture_action family_draft action_risk action_command get_or get text_of member
  family-reviewed c t h = ground arith

  work-reviewed : (c t : String) → verdict_on (work_draft c t) ≢ auto_apply
  unfolding decide_capture_action work_draft action_risk action_command get_or get text_of member
  work-reviewed c t h = ground arith

  memory-reviewed : (c t : String) → verdict_on (memory_draft c t) ≢ auto_apply
  unfolding decide_capture_action memory_draft action_risk action_command get_or get text_of member
  memory-reviewed c t h = ground arith

  pub raw_note-kept : (c t : String) → verdict_on (raw_note_draft c t) ≡ raw_only
  unfolding decide_capture_action raw_note_draft action_risk action_command get_or get text_of
      member
  raw_note-kept c t = refl

  prayer-applied :
      (o : List String) (c t p : String)
      → (verdict_on (prayer_draft o c t p) ≡ auto_apply) ↔ ((owner ≡ true) × IsOpen)
  unfolding prayer_draft action_risk action_command get_or get text_of member
  prayer-applied o c t p =
      let cleared = auto_apply_iff env (request_of (prayer_draft o c t p) mode owner) in
      (
        λ h. let k = cleared.0 h in (k.owned, (prayer_listed effective-cases).0 k.allowed),
        λ k. cleared.1 (record {
          labelled = refl;
          owned = k.0;
          complete = refl;
          confident = refl;
          low_risk = refl;
          harmless = refl;
          allowed = (prayer_listed effective-cases).1 k.1;
        }),
      )

  research-applied :
      (c t : String) → (verdict_on (research_draft c t) ≡ auto_apply) ↔ ((owner ≡ true) × IsOpen)
  unfolding research_draft action_risk action_command get_or get text_of member
  research-applied c t =
      let cleared = auto_apply_iff env (request_of (research_draft c t) mode owner) in
      (
        λ h. let k = cleared.0 h in (k.owned, (item_listed effective-cases).0 k.allowed),
        λ k. cleared.1 (record {
          labelled = refl;
          owned = k.0;
          complete = refl;
          confident = refl;
          low_risk = refl;
          harmless = refl;
          allowed = (item_listed effective-cases).1 k.1;
        }),
      )

-- The texts whose draft may be applied, by the keywords that they hold.
abbrev pub IsApplicable : String → Type 0
IsApplicable low =
    (looks_like_job low ≡ false)
    × (looks_like_finance low ≡ false)
    × ((looks_like_prayer low ≡ true)
        ⊎ ((looks_like_health low ≡ false)
            × (looks_like_family low ≡ false)
            × (looks_like_work low ≡ false)
            × (looks_like_research low ≡ true)))

module _ (env : Env) (order : List String) (mode : String) (owner : Bool) (c : String)
    (raw : Option String) (platform : String) where
  abbrev low_text : String
  low_text = lower (strip (or_default raw ""))

  abbrev capture_verdict : Verdict
  capture_verdict = verdict_on env mode owner (draft_from_capture env order c raw platform)

  -- Of the captures that the deterministic router drafts, those that are applied without a review
  -- are the owner's, in balanced or safe mode, about a prayer or a research topic, and no text about
  -- a job or money is among them, nor a research topic with a word of health, family or work.
  pub capture_applied_iff :
      (capture_verdict ≡ auto_apply)
      ↔ ((owner ≡ true) × IsOpenMode (effective_mode mode) × IsApplicable low_text)
  unfolding draft_from_capture
  capture_applied_iff =
      let text : String = strip (or_default raw "") in
      (
        λ h. ground (
          arith,
          job-reviewed env mode owner c text,
          finance-reviewed env mode owner c text,
          health-reviewed env mode owner c text,
          family-reviewed env mode owner c text,
          work-reviewed env mode owner c text,
          memory-reviewed env mode owner c text,
          raw_note-kept env mode owner c text,
          (prayer-applied env mode owner order c text platform),
          research-applied env mode owner c text,
        ),
        λ h. ground (
          arith,
          job-reviewed env mode owner c text,
          finance-reviewed env mode owner c text,
          health-reviewed env mode owner c text,
          family-reviewed env mode owner c text,
          work-reviewed env mode owner c text,
          memory-reviewed env mode owner c text,
          raw_note-kept env mode owner c text,
          (prayer-applied env mode owner order c text platform),
          research-applied env mode owner c text,
        ),
      )
