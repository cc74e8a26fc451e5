-- ===== src/Bus/Atomic.antt =====
-- `CommandBus.apply` over the owner's tables.
use life_os_vnex.Prelude.{
  suc, String, true, false, ◌≡◌, ◌≢◌, ◌⊎◌, inl, inr, refl, ◌∷◌, [], ◌++◌, ◌∙◌, List, some,
}
use life_os_vnex.Prelude.Text.{member}
use life_os_vnex.Prelude.Env.{Env}
use life_os_vnex.State.{
  Store, Tables, Result, id_at, new_id, utc_now, create_audit_event, create_status_event,
}
use life_os_vnex.Bus.{CommandStatus, CommandRequest, CommandResult, apply_payload}
use life_os_vnex.Bus.Apply.{
  planned_change, open_change, finish_applied, finish_failed, settle, apply,
}
use life_os_vnex.Bus.Recording.{Ends}
use life_os_vnex.Bus.Effects.{Effect, Outcome}
use life_os_vnex.Bus.Dispatching.{IsUnwritten, dispatch-Outcome}

-- The commands of the bus but the update.
abbrev pub additions : List String
additions =
    "life_item.create" ∷ "finance_entry.create" ∷ "daily_log.create" ∷ "prayer_log.create"
    ∷ "memory_fact.create" ∷ "job.create" ∷ "tool_call.approve" ∷ []

module _ (env : Env) (tz : String) (c : CommandRequest) where
  -- The command failed and the tables are as they were, or it was applied and did its effect; or it did
  -- its effect and failed, since the list of tasks could not be written after it.
  abbrev pub IsAtomic : Store → CommandResult → Store → Type 0
  IsAtomic s res t =
      ((res.status ≡ CommandStatus.failed) × (t.tables ≡ s.tables))
      ⊎ ((res.status ≡ CommandStatus.failed)
          × ((m : String) × (r : String × String) × IsUnwritten env tz c res.state_change_id
                (env.clock (suc s.reads)) s m
              × Effect env c res.state_change_id (env.clock (suc s.reads)) s.tables t.tables r))
      ⊎ ((res.status ≡ CommandStatus.applied)
          × ((r : String × String) × (res.entity_type ≡ some r.0)
              × (res.entity_id ≡ some r.1)
              × Effect env c res.state_change_id (env.clock (suc s.reads)) s.tables t.tables r))

  settle-IsAtomic :
      (s s' : Store) (id : String)
      → s'.tables ≡ s.tables
      → (p : Result (String × String) × Store)
      → Outcome s'
          (λ r t. Effect env c id (env.clock (suc s.reads)) s.tables t r)
          (IsUnwritten env tz c id (env.clock (suc s.reads)) s)
          p
      → Ends env tz c (settle env tz c id p.0 p.1) (IsAtomic s)
  unfolding settle finish_applied finish_failed utc_now create_audit_event create_status_event
      new_id
  settle-IsAtomic s s' id q p (Outcome.failed e t h) = (_, refl, inl (refl, h ∙ q))
  settle-IsAtomic s s' id q p (Outcome.done r t h) = (_, refl, inr (inr (refl, (r, refl, refl, h))))
  settle-IsAtomic s s' id q p (Outcome.unwritten m r t u h) =
      (_, refl, inr (inl (refl, (m, r, u, h))))

  -- A command that is not an update is atomic on the owner's tables, with one exception. When its status is
  -- "failed" they are as before, unless it adds a life item and the list of tasks cannot be written: then the
  -- item is there. When it is "applied" exactly the row of
  -- its command's table is added, with the required value of the payload, or the tool call whose id is the
  -- payload's "tool_call_id" is marked as approved, if there is one; the result names that row.
  pub apply-IsAtomic :
      (s : Store)
      → c.command_type ≢ "life_item.update"
      → Ends env tz c (apply env tz c s) (IsAtomic s)
  unfolding apply open_change new_id utc_now apply_payload
  apply-IsAtomic s other =
      let id = id_at env "stchg" s.draws in
      let s' : Store = record s {
        changes = s.changes ++ planned_change c id (env.clock s.reads) ∷ [];
        draws = suc s.draws;
        reads = suc (suc s.reads);
      } in
      settle-IsAtomic s s' id refl _
        (dispatch-Outcome env tz c id (env.clock (suc s.reads)) s' other)

  addition_type :
      {change : String} {now : _} {s t : Tables} {r : String × String}
      → Effect env c change now s t r
      → member c.command_type additions ≡ true
  unfolding member
  addition_type (Effect.item _ _ e _ _ _ _) = rw e refl
  addition_type (Effect.entry _ _ e _ _ _ _) = rw e refl
  addition_type (Effect.daily_log _ e _ _) = rw e refl
  addition_type (Effect.prayer_log _ _ e _ _ _) = rw e refl
  addition_type (Effect.fact _ _ e _ _ _ _) = rw e refl
  addition_type (Effect.job _ _ e _ _ _) = rw e refl
  addition_type (Effect.approval _ e _ _) = rw e refl

  -- A command whose type is none of the eight fails, and changes no table of the owner's data.
  pub unsupported_fails :
      (s : Store)
      → c.command_type ≢ "life_item.update"
      → member c.command_type additions ≡ false
      → Ends env tz c
          (apply env tz c s)
          (λ res t. (res.status ≡ CommandStatus.failed) × (t.tables ≡ s.tables))
  unsupported_fails s other h =
      let (res, e, atomic) = apply-IsAtomic s other in
      (
        res,
        e,
        elim atomic [
          | inl k ↦ k
          | inr (inl (_, (_, _, _, f))) ↦ absurd (cc (addition_type f, h))
          | inr (inr (_, (_, _, _, f))) ↦ absurd (cc (addition_type f, h))
        ],
      )
