-- ===== src/Policy/Gates.antt =====
-- What an automatic application needs: the gates of `decide_capture_action`, on every branch.
use life_os_vnex.Prelude.{
  String, Bool, true, false, not, ◌≡◌, ◌≢◌, ◌↔◌, ◌⊎◌, inl, inr, refl, List, [], ◌∷◌, arith, ◌==◌,
  eq_iff, Bool-cases, all,
}
use life_os_vnex.Prelude.Text.{member, member-all}
use life_os_vnex.Prelude.Json.{Json, Float, hundredths, lt_float, ge_float}
use life_os_vnex.Prelude.Env.{Env}
use life_os_vnex.Policy.{
  Verdict, raw_only, ask_clarification, auto_apply, Request, always_review_risks, sensitive_domains,
  auto_risks, auto_allow, effective_mode, action_risk, action_command, decide_capture_action,
  is_empty,
}

-- The conditions that an automatic application meets, as the approval policy lists them.
pub record IsCleared (env : Env) (q : Request) : Type 0 where
  pub labelled : member "raw_note" q.intent_labels ≡ false
  pub owned : q.owner_authenticated ≡ true
  pub complete : q.missing_context ≡ []
  pub confident : ge_float q.confidence (hundredths 78) ≡ true
  pub low_risk : member (action_risk env q.action) auto_risks ≡ true
  pub harmless : member q.sensitivity sensitive_domains ≡ false
  pub allowed :
      member (action_command env q.action) (auto_allow (effective_mode q.autonomy_mode)) ≡ true

pub not-eq-true : (b : Bool) → not b ≡ true → b ≡ false
not-eq-true true h = cc
not-eq-true false h = refl

-- No allowlist holds the command "none".
allowed-ne-none :
    (mode command : String) → member command (auto_allow mode) ≡ true → (command == "none") ≡ false
allowed-ne-none mode command h =
    not-eq-true _ (member-all (λ c. not (c == "none")) command (auto_allow mode) listed h)
  where
    listed : all (λ c. not (c == "none")) (auto_allow mode) ≡ true
    listed = unfold auto_allow in ground arith

low_risk-not_always :
    (risk : String) → member risk auto_risks ≡ true → member risk always_review_risks ≡ false
low_risk-not_always risk h =
    not-eq-true _ (member-all (λ r. not (member r always_review_risks)) risk auto_risks listed h)
  where
    listed : all (λ r. not (member r always_review_risks)) auto_risks ≡ true
    listed = unfold member in refl

manual-allows_nothing : (command : String) → member command (auto_allow "manual") ≡ false
unfolding auto_allow member
manual-allows_nothing command = refl

confident-not_low :
    (c : Float) → ge_float c (hundredths 78) ≡ true → lt_float c (hundredths 70) ≡ false
confident-not_low Float.nan h = refl
confident-not_low Float.inf h = refl
confident-not_low Float.neg_inf h = ground arith
confident-not_low (Float.neg n) h = ground arith
confident-not_low (Float.num n) h = ground arith

empty-nil : (xs : List Json) → is_empty xs ≡ true → xs ≡ []
empty-nil [] h = refl
empty-nil (x ∷ xs) h = cc

module _ (env : Env) (q : Request) where
  abbrev verdict_of : Verdict
  verdict_of = (decide_capture_action env q).decision

  abbrev mode_of : String
  mode_of = effective_mode q.autonomy_mode

  pub manual-not_cleared : IsCleared env q → (mode_of == "manual") ≡ false
  manual-not_cleared c = elim (Bool-cases (mode_of == "manual")) [
    | inl e ↦
        cc ((eq_iff mode_of "manual").0 e, manual-allows_nothing (action_command env q.action))
    | inr n ↦ n
  ]

  -- An action is applied without a review exactly when its draft is not labelled a raw note, its
  -- source is the owner, no context is missing, the confidence is at least 0.78, its risk is one of
  -- the three that may be applied, its domain is not sensitive, and the mode lists its command.
  pub auto_apply_iff : (verdict_of ≡ auto_apply) ↔ IsCleared env q
  unfolding decide_capture_action
  auto_apply_iff = (
    λ h. ground (arith, empty-nil q.missing_context),
    λ c. ground (
      arith,
      manual-not_cleared c,
      confident-not_low q.confidence c.confident,
      low_risk-not_always _ c.low_risk,
      allowed-ne-none _ _ c.allowed,
    ),
  )

  -- A draft is kept raw exactly when it names no command or is labelled a raw note.
  pub raw_only_iff :
      (verdict_of ≡ raw_only)
      ↔ ((action_command env q.action ≡ "none") ⊎ (member "raw_note" q.intent_labels ≡ true))
  unfolding decide_capture_action
  raw_only_iff = (
    λ h. ground (arith, eq_iff (action_command env q.action) "none"),
    λ h. ground (arith, eq_iff (action_command env q.action) "none"),
  )

  -- The owner is asked for the missing context exactly when an authenticated source drafts an action
  -- with some context missing, however confident the draft is.
  pub ask_clarification_iff : (verdict_of ≡ ask_clarification) ↔ (
      (action_command env q.action ≢ "none")
      × (member "raw_note" q.intent_labels ≡ false)
      × (q.owner_authenticated ≡ true)
      × (q.missing_context ≢ []))
  unfolding decide_capture_action
  ask_clarification_iff = (
    λ h. ground (arith, eq_iff (action_command env q.action) "none", empty-nil q.missing_context),
    λ h. ground (arith, eq_iff (action_command env q.action) "none", empty-nil q.missing_context),
  )

  -- Only a draft that is kept raw leaves the owner without a visible status.
  silent_iff_raw :
      ((decide_capture_action env q).requires_user_visible_status ≡ false) ↔ (verdict_of ≡ raw_only)
  unfolding decide_capture_action
  silent_iff_raw = (λ h. ground arith, λ h. ground arith)
