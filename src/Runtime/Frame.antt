-- ===== src/Runtime/Frame.antt =====
-- What the branches of a conversation turn leave as it is: the runs always, and the owner's data unless a
-- proposal is executed.
use life_os_vnex.Prelude.{
  ℕ, String, ◌≡◌, refl, ◌∙◌, inl, inr, Option, List, [], ◌∷◌, ◌==◌, arith, Bool-cases,
}
use life_os_vnex.Prelude.Text.{member}
use life_os_vnex.Prelude.Json.{Fields}
use life_os_vnex.State.Laws.{held}
use life_os_vnex.Prelude.Env.{Env}
use life_os_vnex.State.{Store, PendingActionProposal, new_id, utc_now, create_audit_event}
use life_os_vnex.Bus.Effects.{Result-cases}
use life_os_vnex.Planner.{revise_draft, resolve_datetime}
use life_os_vnex.Proposals.{
  open_statuses, text_or, reject_open, reject_proposal, revise_open, revise_proposal, open_pending,
}
use life_os_vnex.Runtime.{present, reject_rows, revise_rows, reject_others}

pub record Unchanged (s t : Store) : Type 0 where
  pub tables : t.tables ≡ s.tables
  pub runs : held t ≡ held s

pub unchanged : (s : Store) → Unchanged s s
unchanged s = record { tables = refl; runs = refl }

pub after : {s t u : Store} → Unchanged s t → Unchanged t u → Unchanged s u
after h k = record { tables = k.tables ∙ h.tables; runs = k.runs ∙ h.runs }

module _ (env : Env) where
  pub open_pending-Unchanged :
      (id : Option String) (limit : ℕ) (s : Store) → Unchanged s (open_pending env id limit s).1
  unfolding open_pending utc_now
  open_pending-Unchanged id limit s = elim (Bool-cases (text_or id "" == "")) [
    | inl e ↦ rw (open_pending, e) (unchanged s)
    | inr e ↦ rw (open_pending, e) (record { tables = refl; runs = refl })
  ]

module _ (env : Env) (tz : String) where
  pub reject-Unchanged :
      (r : PendingActionProposal) (s : Store) → Unchanged s (reject_proposal env tz r s).1
  unfolding reject_proposal reject_open create_audit_event new_id utc_now
  reject-Unchanged r s = elim (Bool-cases (member r.status open_statuses)) [
    | inl e ↦ rw (reject_proposal, e) (record { tables = refl; runs = refl })
    | inr e ↦ rw (reject_proposal, e) (unchanged s)
  ]

  revise_draft-Unchanged :
      (d : Fields) (text : String) (s : Store) → Unchanged s (revise_draft env d text tz s).1
  unfolding revise_draft resolve_datetime utc_now
  revise_draft-Unchanged d text s = ground arith

  revise-Unchanged :
      (r : PendingActionProposal) (text : String) (s : Store)
      → Unchanged s (revise_proposal env tz r text s).1
  unfolding revise_proposal revise_open create_audit_event new_id utc_now
  revise-Unchanged r text s =
      let drafted = revise_draft-Unchanged r.draft_json text s in
      elim (Bool-cases (member r.status open_statuses)) [
        | inr h ↦ rw (revise_proposal, h) (unchanged s)
        | inl h ↦ elim (Result-cases (revise_draft env r.draft_json text tz s).0) [
          | inr (x, e) ↦ rw (revise_proposal, h, e) drafted
          | inl (d, e) ↦
              rw (revise_proposal, h, e) (record { tables = drafted.tables; runs = drafted.runs })
        ]
      ]

  pub reject_rows-Unchanged :
      (rows : List PendingActionProposal) (s : Store) → Unchanged s (reject_rows env tz rows s).1
  unfolding reject_rows
  reject_rows-Unchanged [] s = unchanged s
  reject_rows-Unchanged (r ∷ rs) s =
      let first = reject-Unchanged (present s r) s in
      elim (Result-cases (reject_proposal env tz (present s r) s).0) [
        | inr (x, e) ↦ rw (reject_rows, e) first
        | inl (d, e) ↦ rw (reject_rows, e) (after first (reject_rows-Unchanged rs _))
      ]

  pub reject_others-Unchanged :
      (ids : List String) (rows : List PendingActionProposal) (s : Store)
      → Unchanged s (reject_others env tz ids rows s).1
  unfolding reject_others
  reject_others-Unchanged ids [] s = unchanged s
  reject_others-Unchanged ids (r ∷ rs) s =
      let first = reject-Unchanged (present s r) s in
      elim (Bool-cases (member r.id ids)) [
        | inl k ↦ rw (reject_others, k) (reject_others-Unchanged ids rs s)
        | inr k ↦ elim (Result-cases (reject_proposal env tz (present s r) s).0) [
          | inr (x, e) ↦ rw (reject_others, k, e) first
          | inl (d, e) ↦ rw (reject_others, k, e) (after first (reject_others-Unchanged ids rs _))
        ]
      ]

  pub revise_rows-Unchanged :
      (text : String) (rows : List PendingActionProposal) (s : Store)
      → Unchanged s (revise_rows env tz text rows s).1
  unfolding revise_rows
  revise_rows-Unchanged text [] s = unchanged s
  revise_rows-Unchanged text (r ∷ rs) s =
      let first = revise-Unchanged (present s r) text s in
      elim (Result-cases (revise_proposal env tz (present s r) text s).0) [
        | inr (x, e) ↦ rw (revise_rows, e) first
        | inl (d, e) ↦ rw (revise_rows, e) (after first (revise_rows-Unchanged text rs _))
      ]
