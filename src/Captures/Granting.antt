-- ===== src/Captures/Granting.antt =====
-- The levels of autonomy that list a command, and the mode that `_normalize_autonomy` makes of them.
use life_os_vnex.Prelude.{
  String, true, false, ◌≡◌, ◌≢◌, refl, sym, inl, inr, Option, none, some, [], ◌∷◌, ◌==◌, Bool-cases,
  eq_iff,
}
use mathlib.Core.Path.{subst}
use life_os_vnex.Prelude.Text.{member}
use life_os_vnex.State.{AgentRow}
use life_os_vnex.Policy.{auto_allow, effective_mode}
use life_os_vnex.Captures.{normalize_autonomy, autonomy_of}

-- A level of autonomy that lists a command.
pub data Grants (command : String) : Option String → Type 0 where
  safe :
      member command (
          "review.done" ∷ "raw_capture.archive" ∷ "life_item.create" ∷ "prayer_log.create"
          ∷ "daily_log.create" ∷ "life_item.low_risk_log" ∷ "memory_candidate.create" ∷ [])
        ≡ true
      → Grants command (some "safe")
  balanced :
      member command (
          "review.done" ∷ "raw_capture.archive" ∷ "life_item.create" ∷ "prayer_log.create"
          ∷ "daily_log.create" ∷ "memory_candidate.create" ∷ [])
        ≡ true
      → Grants command (some "balanced")
  gated :
      (level : Option String)
      → (level ≢ some "manual")
      → (level ≢ some "owner_gated")
      → (level ≢ some "explicit_owner_approval")
      → member command ("review.done" ∷ "raw_capture.archive" ∷ []) ≡ true
      → Grants command level

-- The mode that a stored level stands for lists a command.
abbrev Allows : String → Option String → Type 0
Allows command level =
    member command (auto_allow (effective_mode (normalize_autonomy level))) ≡ true

module _ (command : String) where
  none-Grants : Allows command (some "review_gated") → Grants command none
  unfolding auto_allow effective_mode normalize_autonomy member
  none-Grants h = Grants.gated none (λ e. cc) (λ e. cc) (λ e. cc) h

  unset-Grants : Allows command none → Grants command none
  unfolding auto_allow effective_mode normalize_autonomy member
  unset-Grants h = Grants.gated none (λ e. cc) (λ e. cc) (λ e. cc) h

  safe-Grants : Allows command (some "safe") → Grants command (some "safe")
  unfolding auto_allow effective_mode normalize_autonomy member
  safe-Grants h = Grants.safe h

  balanced-Grants : Allows command (some "balanced") → Grants command (some "balanced")
  unfolding auto_allow effective_mode normalize_autonomy member
  balanced-Grants h = Grants.balanced h

  manual-denies :
      (¬ (Allows command (some "manual")))
      × (¬ (Allows command (some "owner_gated")))
      × (¬ (Allows command (some "explicit_owner_approval")))
  unfolding auto_allow effective_mode normalize_autonomy member
  manual-denies = (λ h. cc, λ h. cc, λ h. cc)

  -- A level that is neither trusted nor manual counts as review_gated.
  other_lists :
      (s : String)
      → (s == "safe") ≡ false
      → (s == "balanced") ≡ false
      → (s == "manual") ≡ false
      → (s == "owner_gated") ≡ false
      → (s == "explicit_owner_approval") ≡ false
      → normalize_autonomy (some s) ≡ "review_gated"
  unfolding normalize_autonomy member
  other_lists s f b m o x = elim (Bool-cases (s == "")) [
    | inl e ↦ rw ((eq_iff s "").0 e) refl
    | inr e ↦ elim (Bool-cases (s == "review_gated")) [
      | inl g ↦ rw ((eq_iff s "review_gated").0 g) refl
      | inr g ↦ rw (e, o, x, m, g, b, f) refl
    ]
  ]

  at_gated :
      member command (auto_allow (effective_mode "review_gated")) ≡ true
      → member command ("review.done" ∷ "raw_capture.archive" ∷ []) ≡ true
  unfolding auto_allow effective_mode member
  at_gated h = h

  gated_lists :
      (level : Option String)
      → normalize_autonomy level ≡ "review_gated"
      → Allows command level
      → member command ("review.done" ∷ "raw_capture.archive" ∷ []) ≡ true
  gated_lists level e h =
      at_gated (subst (λ m. member command (auto_allow (effective_mode m)) ≡ true) e h)

  -- A level that lists the command is none that lists nothing.
  level_differs :
      (s t : String)
      → (¬ (Allows command (some t)))
      → Allows command (some s)
      → ((s == t) ≡ false) × (some s ≢ some t)
  level_differs s t n h = (
    elim (Bool-cases (s == t)) [
      | inl e ↦ absurd (n (subst (λ u. Allows command (some u)) ((eq_iff s t).0 e) h))
      | inr e ↦ e
    ],
    λ e. n (subst (Allows command) e h),
  )

  some-Grants : (s : String) → Allows command (some s) → Grants command (some s)
  some-Grants s h = elim (Bool-cases (s == "safe")) [
    | inl e ↦
        let k : s ≡ "safe" = (eq_iff s "safe").0 e in
        subst (λ t. Grants command (some t)) (sym k)
          (safe-Grants (subst (λ t. Allows command (some t)) k h))
    | inr f ↦ elim (Bool-cases (s == "balanced")) [
      | inl e ↦
          let k : s ≡ "balanced" = (eq_iff s "balanced").0 e in
          subst (λ t. Grants command (some t)) (sym k)
            (balanced-Grants (subst (λ t. Allows command (some t)) k h))
      | inr b ↦
          let (manual, owner, explicit) = manual-denies in
          let (m, is_manual) = level_differs s "manual" manual h in
          let (o, is_owner) = level_differs s "owner_gated" owner h in
          let (x, is_explicit) = level_differs s "explicit_owner_approval" explicit h in
          Grants.gated (some s) is_manual is_owner is_explicit
            (gated_lists (some s) (other_lists s f b m o x) h)
    ]
  ]

  -- The level of the row that is found.
  pub row-Grants :
      (r : Option AgentRow)
      → member command (auto_allow (effective_mode (autonomy_of r))) ≡ true
      → Grants command (elim r [ none ↦ none | some a ↦ a.autonomy_level ])
  row-Grants none h = none-Grants h
  row-Grants (some a) h = level_Grants a.autonomy_level h
    where
      level_Grants : (l : Option String) → Allows command l → Grants command l
      level_Grants none k = unset-Grants k
      level_Grants (some t) k = some-Grants t k
