-- ===== src/Planner/Guarded.antt =====
-- What comes out of `_enforce_proposal_policy` and `_sanitize_provider_proposal`.
use life_os_vnex.Prelude.{
  ℕ, suc, String, Bool, true, false, not, ◌&&◌, ◌||◌, ◌≡◌, refl, sym, ap, ◌∙◌, Option, none, some,
  List, [], ◌∷◌, all, arith, Bool-cases, Option-cases, inl, inr, ◌==◌,
}
use life_os_vnex.Prelude.Text.{member, has}
use life_os_vnex.Prelude.Json.{null, get_or, truthy}
use life_os_vnex.Prelude.Regex.{matches}
use life_os_vnex.Prelude.Env.{Env}
use life_os_vnex.State.{Result, ok, raise}
use life_os_vnex.Bus.Effects.{Result-cases}
use life_os_vnex.Planner.{
  ActionProposal, replacement, sanitize, sanitize_all, enforce_proposal, is_nil, norm,
  explicit_task_re, implicit_action_re, explicit_reminder_re, explicit_reminder_plan,
  reminder_plan_at, first_of, explicit_task_plan, implicit_task_plan, complete_task_plan,
  resolve_at,
}
use life_os_vnex.Planner.Lawful.{reviewed_types}

-- A proposal of a type that is always reviewed is under review.
abbrev pub guarded : ActionProposal → Bool
guarded p = p.formal_review_required || not (member p.type reviewed_types)

abbrev pub holds : {A : Type 0} → (A → Bool) → Result A → Bool
holds t (ok a) = t a
holds t (raise e) = true

abbrev plain : Option ActionProposal → Bool
plain none = true
plain (some r) = not (member r.type reviewed_types)

or-right : (a b : Bool) → b ≡ true → (a || b) ≡ true
or-right a b h = ground arith

not-left : (a b : Bool) → (a || b) ≡ false → not a ≡ true
not-left a b h = ground arith

abbrev risky_levels : List String
risky_levels = "high" ∷ "sensitive" ∷ "destructive" ∷ []

abbrev direct_types : List String
direct_types =
    "task.create" ∷ "task.update" ∷ "task.complete" ∷ "reminder.create" ∷ "job.create_once" ∷ []

enforce_proposal-guarded :
    (low : String) (p : ActionProposal) → guarded (enforce_proposal low p) ≡ true
unfolding enforce_proposal
enforce_proposal-guarded low p =
    elim (Bool-cases (member p.type reviewed_types || member p.risk risky_levels)) [
      | inl h ↦ rw (enforce_proposal, h) refl
      | inr h ↦
          rw (enforce_proposal, h)
            (elim (Bool-cases (p.type == "file.read" && has low "sensitive")) [
              | inl k ↦ rw k refl
              | inr k ↦
                  rw k
                    (elim (Bool-cases (
                      member p.type direct_types
                      && p.risk == "low"
                      && truthy (get_or "explicit" null p.draft))) [
                        | inl l ↦ rw l (not-left _ _ h)
                        | inr l ↦ rw l (or-right p.formal_review_required _ (not-left _ _ h))
                      ])
            ])
    ]

both : (a b : Bool) → a ≡ true → b ≡ true → (a && b) ≡ true
both a b h k = ground arith

plain-of :
    (r : ActionProposal) (x : Result (Option ActionProposal))
    → x ≡ ok (some r)
    → holds plain x ≡ true
    → not (member r.type reviewed_types) ≡ true
plain-of r x h k = ap (holds plain) (sym h) ∙ k

-- Of a list that is not empty, none that is empty is made.
abbrev pub shrinks : List ActionProposal → List ActionProposal → Bool
shrinks xs qs = not (is_nil qs) || is_nil xs

module _ (env : Env) (timezone : String) where
  first_reminder-plain :
      (now : ℕ) (message : String)
      → holds plain (first_of (explicit_reminder_plan env timezone now message [])) ≡ true
  unfolding explicit_reminder_plan reminder_plan_at member
  first_reminder-plain now message = elim (Option-cases (resolve_at env message timezone now)) [
    | inl e ↦ rw (explicit_reminder_plan, e) refl
    | inr (t, e) ↦ rw (explicit_reminder_plan, e) refl
  ]

  replacement-plain :
      (now : ℕ) (message type : String)
      → holds plain (replacement env timezone now message type) ≡ true
  unfolding replacement explicit_task_plan implicit_task_plan complete_task_plan member
  replacement-plain now message type = elim (Bool-cases (type == "task.create")) [
    | inl h ↦
        rw (replacement, h)
          (elim (Bool-cases (matches explicit_task_re (norm message))) [
            | inl k ↦ rw k refl
            | inr k ↦ rw k (elim (Bool-cases (matches implicit_action_re (norm message))) [
              | inl l ↦ rw l refl
              | inr l ↦ rw l refl
            ])
          ])
    | inr h ↦
        rw (replacement, h)
          (elim (Bool-cases (
            (type == "reminder.create" || type == "job.create_once")
            && matches explicit_reminder_re (norm message))) [
              | inl k ↦ rw k (first_reminder-plain now message)
              | inr k ↦ rw k (elim (Bool-cases (type == "task.complete")) [
                | inl l ↦ rw l refl
                | inr l ↦ rw l refl
              ])
            ])
  ]

  sanitize-guarded :
      (now : ℕ) (message : String) (p : ActionProposal)
      → guarded p ≡ true
      → holds guarded (sanitize env timezone now message p) ≡ true
  unfolding sanitize
  sanitize-guarded now message p g =
      elim (Result-cases (replacement env timezone now message p.type)) [
        | inr (e, h) ↦ rw (sanitize, h) refl
        | inl (none, h) ↦ rw (sanitize, h) g
        | inl (some r, h) ↦
            rw (sanitize, h)
              (or-right r.formal_review_required _
                (plain-of r _ h (replacement-plain now message p.type)))
      ]

  pub sanitize_all-guarded :
      (n : ℕ) (message : String) (ps : List ActionProposal)
      → holds (all guarded) (sanitize_all env timezone n message ps) ≡ true
  unfolding sanitize_all
  sanitize_all-guarded n message [] = refl
  sanitize_all-guarded n message (p ∷ ps) =
      let q : ActionProposal = enforce_proposal (norm message) p in
      let g =
        sanitize-guarded (env.clock n) message q (enforce_proposal-guarded (norm message) p) in
      elim (Result-cases (sanitize env timezone (env.clock n) message q)) [
        | inr (e, h) ↦ rw (sanitize_all, h) refl
        | inl (r, h) ↦ elim (Result-cases (sanitize_all env timezone (suc n) message ps)) [
          | inr (e, k) ↦ rw (sanitize_all, h, k) refl
          | inl (rs, k) ↦
              rw (sanitize_all, h, k)
                (both (guarded r) (all guarded rs) (ap (holds guarded) (sym h) ∙ g)
                  (ap (holds (all guarded)) (sym k) ∙ sanitize_all-guarded (suc n) message ps))
        ]
      ]

  pub sanitize_all-shrinks :
      (n : ℕ) (message : String) (xs : List ActionProposal)
      → holds (shrinks xs) (sanitize_all env timezone n message xs) ≡ true
  unfolding sanitize_all
  sanitize_all-shrinks n message [] = refl
  sanitize_all-shrinks n message (p ∷ ps) =
      elim (Result-cases
        (sanitize env timezone (env.clock n) message (enforce_proposal (norm message) p))) [
          | inr (e, h) ↦ rw (sanitize_all, h) refl
          | inl (r, h) ↦ elim (Result-cases (sanitize_all env timezone (suc n) message ps)) [
            | inr (e, k) ↦ rw (sanitize_all, h, k) refl
            | inl (rs, k) ↦ rw (sanitize_all, h, k) refl
          ]
        ]
