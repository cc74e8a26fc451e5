-- ===== src/Handoffs/Statuses.antt =====
-- What setting the status of a handoff leaves.
use life_os_vnex.Prelude.{
  ℕ, String, [], ◌∷◌, ◌≡◌, refl, ap, ◌∙◌, Option, none, some, if◌then◌else◌, ◌==◌, Option-cases,
  inl, inr,
}
use life_os_vnex.Prelude.Text.{member}
use life_os_vnex.Prelude.Env.{Env}
use life_os_vnex.State.{
  Store, Handoff, Result, ok, find_row, update_row, utc_now, create_audit_event,
}
use life_os_vnex.State.Laws.{find_row-update, find_row-key}
use life_os_vnex.Handoffs.{handoff_key, with_status, set_status, update_handoff_status}

-- The handoff with the status, updated at that time, and completed then by a status that closes it.
abbrev pub set_to : String → ℕ → Handoff → Handoff
set_to status now r = record r {
  status = status;
  updated_at = now;
  completed_at =
      if member status ("returned" ∷ "merged" ∷ "failed" ∷ "cancelled" ∷ [])
      then some now
      else r.completed_at;
}

-- The outcome of the endpoint: no handoff has the id, and nothing changed; or the one that is found has
-- the status, at the time that is read, is returned as it is stored, and every other is as it was.
pub data Outcome (env : Env) (id status : String) (s : Store)
    : Result (Option Handoff) → Store → Type 0 where
  missing : find_row handoff_key id s.handoffs ≡ none → Outcome env id status s (ok none) s
  updated :
      (r : Handoff) (t : Store)
      → find_row handoff_key id s.handoffs ≡ some r
      → ((j : String)
          → find_row handoff_key j t.handoffs ≡ (
              if j == id
              then some (set_to status (env.clock s.reads) r)
              else find_row handoff_key j s.handoffs))
      → t.tables ≡ s.tables
      → Outcome env id status s (ok (some (set_to status (env.clock s.reads) r))) t

module _ (env : Env) (id status : String) (s : Store) where
  set_status-Outcome :
      (r : Handoff)
      → find_row handoff_key id s.handoffs ≡ some r
      → r.id ≡ id
      → Outcome env id status s (set_status env status r s).0 (set_status env status r s).1
  unfolding set_status utc_now create_audit_event
  set_status-Outcome r h k =
      updated r _ h
        (λ j.
          ap
            (λ i.
              find_row handoff_key j
                (update_row handoff_key i (with_status status (env.clock s.reads)) s.handoffs))
            k
          ∙ (find_row-update handoff_key j id (with_status status (env.clock s.reads)) s.handoffs
                (λ r e. e)
              ∙ rw h refl))
        refl

  -- Setting the status of a handoff either finds no handoff of that id and changes nothing, or gives
  -- the one it finds the status and the time, and an end then when the status is returned, merged, failed or
  -- cancelled, and leaves every other handoff and the owner's data as they were.
  pub update_status-Outcome :
      Outcome env id status s
        (update_handoff_status env id status s).0
        (update_handoff_status env id status s).1
  unfolding update_handoff_status
  update_status-Outcome = elim (Option-cases (find_row handoff_key id s.handoffs)) [
    | inl h ↦ rw (update_handoff_status, h) (missing h)
    | inr (r, h) ↦
        rw (update_handoff_status, h)
          (set_status-Outcome r h (find_row-key handoff_key id s.handoffs r h))
  ]
