-- ===== src/Planner/Pending.antt =====
-- The proposals that a follow-up is about.
use life_os_vnex.Prelude.{
  ℕ, suc, ◌-◌, ◌<◌, String, Bool, true, false, ◌&&◌, ◌≡◌, refl, Option, none, some, List, [], ◌∷◌,
  length, leb, arith, is_some, ◌||◌, Bool-cases, inl, inr,
}
use life_os_vnex.Prelude.Text.{strip, has, has_any}
use life_os_vnex.Prelude.Env.{Env}
use life_os_vnex.Prelude.Regex.{full_match, matches}
use life_os_vnex.Planner.{
  FollowUpKind, FollowUpPlan, interpret_follow_up, norm, follow_up_text, approve_re, reject_re,
  ask_re, revise_re, resolve_at, revised_index, ordinal_index,
}

abbrev is_verdict : FollowUpKind → Bool
is_verdict FollowUpKind.approve = true
is_verdict FollowUpKind.reject = true
is_verdict FollowUpKind.ask = true
is_verdict kind = false

-- A follow-up with `pending` proposals: either none, or about one proposal that there is; the text of
-- a revision is given with that kind only.
pub data IsAddressed (message : String) (pending : ℕ) : FollowUpPlan → Type 0 where
  nothing :
      IsAddressed message pending
        (record { kind = FollowUpKind.no_action; proposal_indexes = []; revision_text = none })
  decided :
      (kind : FollowUpKind) (i : ℕ)
      → i < pending
      → is_verdict kind ≡ true
      → IsAddressed message pending
          (record { kind = kind; proposal_indexes = i ∷ []; revision_text = none })
  revised :
      (i : ℕ)
      → i < pending
      → IsAddressed message pending (record {
        kind = FollowUpKind.revise;
        proposal_indexes = i ∷ [];
        revision_text = some (strip message);
      })

revised_index-bound : (o : Option ℕ) (n : ℕ) → revised_index o (suc n) < suc n
unfolding revised_index
revised_index-bound none n = omega arith
revised_index-bound (some i) n = ground arith

second_of : (a b : Bool) (n : ℕ) → (a && b && leb 2 (suc n)) ≡ true → 1 < suc n
second_of a b n h = ground arith

first-bound : (n : ℕ) → 0 < suc n
first-bound n = omega arith

module _ (env : Env) (timezone : String) (now : ℕ) (message : String) where
  at_last :
      (n : ℕ) (kind : FollowUpKind)
      → is_verdict kind ≡ true
      → IsAddressed message
          (suc n)
          (record { kind = kind; proposal_indexes = (suc n - 1) ∷ []; revision_text = none })
  at_last n kind h = decided kind (suc n - 1) (omega arith) h

  follow_up_text-IsAddressed :
      (text : String) (n : ℕ)
      → IsAddressed message (suc n) (follow_up_text env timezone now message text (suc n))
  unfolding follow_up_text
  follow_up_text-IsAddressed text n = elim (Bool-cases (full_match approve_re text)) [
    | inl h ↦ rw (follow_up_text, h) (at_last n FollowUpKind.approve refl)
    | inr h ↦
        rw (follow_up_text, h)
          (elim (Bool-cases (full_match reject_re text)) [
            | inl h ↦ rw h (at_last n FollowUpKind.reject refl)
            | inr h ↦ rw h (elim (Bool-cases (matches ask_re text)) [
              | inl h ↦ rw h (at_last n FollowUpKind.ask refl)
              | inr h ↦ rw h (elim (Bool-cases (has text "only" && has text "first")) [
                | inl h ↦ rw h (decided FollowUpKind.approve 0 (first-bound n) refl)
                | inr h ↦
                    rw h
                      (elim (Bool-cases (has text "only" && has text "second" && leb 2 (suc n))) [
                        | inl h ↦ rw h (
                            decided FollowUpKind.approve 1
                              (second_of (has text "only") (has text "second") n h) refl)
                        | inr h ↦
                            rw h
                              (elim (Bool-cases (
                                matches revise_re text
                                && (is_some (resolve_at env message timezone now)
                                    || has_any text
                                        ("change" ∷ "make it" ∷ "instead" ∷ "only" ∷ [])))) [
                                          | inl h ↦ rw h (
                                              revised _
                                                (revised_index-bound (ordinal_index text) n))
                                          | inr h ↦ rw h (nothing)
                                        ])
                      ])
              ])
            ])
          ])
  ]

  -- However a message is read while proposals are pending, the outcome is about at most one of them,
  -- which is in the list; without a pending proposal it is about none.
  pub interpret-IsAddressed :
      {A : Type 0} (pending : List A)
      → IsAddressed message (length pending) (interpret_follow_up env timezone now message pending)
  unfolding interpret_follow_up
  interpret-IsAddressed [] = nothing
  interpret-IsAddressed (p ∷ ps) = follow_up_text-IsAddressed (norm message) (length ps)
