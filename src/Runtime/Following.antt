-- ===== src/Runtime/Following.antt =====
-- What a follow-up on a proposal leaves as it is.
use life_os_vnex.Prelude.{
  String, Bool, true, false, ◌≡◌, refl, sym, ◌∙◌, inl, inr, List, [], ◌∷◌, Bool-cases,
}
use mathlib.Core.Bool.{false≢true}
use life_os_vnex.Prelude.Text.{has, lower}
use life_os_vnex.State.Laws.{held}
use life_os_vnex.Prelude.Env.{Env}
use life_os_vnex.State.{Store, PendingActionProposal}
use life_os_vnex.Bus.Effects.{Result-cases}
use life_os_vnex.Planner.{FollowUpKind, FollowUpPlan}
use life_os_vnex.Proposals.{text_or}
use life_os_vnex.Runtime.{
  execute_rows, reject_rows, revise_rows, reject_unless_only, ids_of, follow, follow_selected,
  handle_follow_up,
}
use life_os_vnex.Runtime.Frame.{
  Unchanged, unchanged, reject_rows-Unchanged, revise_rows-Unchanged, reject_others-Unchanged,
}
use life_os_vnex.Runtime.Running.{execute_rows-runs}

abbrev pub is_approve : FollowUpKind → Bool
is_approve FollowUpKind.approve = true
is_approve kind = false

module _ (env : Env) (tz : String) (pending : List PendingActionProposal) (plan : FollowUpPlan)
    (message : String) where
  follow-Unchanged :
      (kind : FollowUpKind) (rows : List PendingActionProposal) (s : Store)
      → is_approve kind ≡ false
      → Unchanged s (follow env tz kind pending rows plan message s).1
  unfolding follow
  follow-Unchanged FollowUpKind.no_action rows s h = unchanged s
  follow-Unchanged FollowUpKind.ask rows s h = unchanged s
  follow-Unchanged FollowUpKind.approve rows s h = absurd (false≢true (sym h))
  follow-Unchanged FollowUpKind.reject rows s h =
      let first = reject_rows-Unchanged env tz rows s in
      elim (Result-cases (reject_rows env tz rows s).0) [
        | inl (u, e) ↦ rw (follow, e) first
        | inr (x, e) ↦ rw (follow, e) first
      ]
  follow-Unchanged FollowUpKind.revise rows s h =
      let first = revise_rows-Unchanged env tz (text_or plan.revision_text message) rows s in
      elim (Result-cases (revise_rows env tz (text_or plan.revision_text message) rows s).0) [
        | inl (u, e) ↦ rw (follow, e) first
        | inr (x, e) ↦ rw (follow, e) first
      ]

  only-Unchanged :
      (ids : List String) (s : Store)
      → Unchanged s (reject_unless_only env tz message ids pending s).1
  only-Unchanged ids s = elim (Bool-cases (has (lower message) "only")) [
    | inl e ↦ rw e (reject_others-Unchanged env tz ids pending s)
    | inr e ↦ rw e (unchanged s)
  ]

  approve-runs :
      (rows : List PendingActionProposal) (s : Store)
      → held (follow env tz FollowUpKind.approve pending rows plan message s).1 ≡ held s
  unfolding follow
  approve-runs rows s =
      let only = reject_unless_only env tz message (ids_of rows) pending in
      let first = only-Unchanged (ids_of rows) s in
      elim (Result-cases (only s).0) [
        | inr (x, e) ↦ rw (follow, e) first.runs
        | inl (u, e) ↦
            let t = (only s).1 in
            let ran = execute_rows-runs env tz "user" "owner" [] rows t in
            elim (Result-cases (execute_rows env tz "user" "owner" [] rows t).0) [
              | inr (x, k) ↦ rw (follow, e, k) (ran ∙ first.runs)
              | inl (d, k) ↦ rw (follow, e, k) (ran ∙ first.runs)
            ]
      ]

  follow-runs :
      (kind : FollowUpKind) (rows : List PendingActionProposal) (s : Store)
      → held (follow env tz kind pending rows plan message s).1 ≡ held s
  follow-runs FollowUpKind.no_action rows s =
      (follow-Unchanged FollowUpKind.no_action rows s refl).runs
  follow-runs FollowUpKind.ask rows s = (follow-Unchanged FollowUpKind.ask rows s refl).runs
  follow-runs FollowUpKind.reject rows s = (follow-Unchanged FollowUpKind.reject rows s refl).runs
  follow-runs FollowUpKind.revise rows s = (follow-Unchanged FollowUpKind.revise rows s refl).runs
  follow-runs FollowUpKind.approve rows s = approve-runs rows s

  selected-Unchanged :
      (rows : List PendingActionProposal) (s : Store)
      → is_approve plan.kind ≡ false
      → Unchanged s (follow_selected env tz pending rows plan message s).1
  unfolding follow_selected
  selected-Unchanged [] s h = unchanged s
  selected-Unchanged (r ∷ rs) s h = follow-Unchanged plan.kind (r ∷ rs) s h

  selected-runs :
      (rows : List PendingActionProposal) (s : Store)
      → held (follow_selected env tz pending rows plan message s).1 ≡ held s
  unfolding follow_selected
  selected-runs [] s = refl
  selected-runs (r ∷ rs) s = follow-runs plan.kind (r ∷ rs) s

  pub handle-Unchanged :
      (s : Store)
      → is_approve plan.kind ≡ false
      → Unchanged s (handle_follow_up env tz pending plan message s).1
  unfolding handle_follow_up
  handle-Unchanged s h = selected-Unchanged _ s h

  pub handle-runs : (s : Store) → held (handle_follow_up env tz pending plan message s).1 ≡ held s
  unfolding handle_follow_up
  handle-runs s = selected-runs _ s
