-- ===== src/Sessions/Caps.antt =====
-- The iteration caps of sessions stay within the bounds that the requests are checked against.
use life_os_vnex.Prelude.{
  ℕ, suc, String, inl, inr, Option, none, some, ◌==◌, All, All-append, Bool-cases, Option-cases,
}
use mathlib.Core.Path.{subst}
use life_os_vnex.Prelude.Env.{Env}
use life_os_vnex.Prelude.Text.{member}
use life_os_vnex.State.{Store, AgentSession, Action, utc_now, new_id, create_audit_event, find_row}
use life_os_vnex.Bus.Effects.{Result-cases}
use life_os_vnex.Captures.{run_key}
use life_os_vnex.Proposals.{text_or}
use life_os_vnex.Sessions.{
  SessionCreate, SessionResolve, SessionReply, agents, session_key, find_bound, given_cap,
  default_cap, cap_for, create_row, creation_of, resume, create_missing, resolve, create_session,
  resolve_session, change_agent, set_agent, change_cap, set_iterations, cancel_run, cancel_last,
  cancel_session_run,
}
use life_os_vnex.Sessions.Found.{cap_keeps, ensure_keeps}
use life_os_vnex.Sessions.Bounds.{
  InBounds, GivenInBounds, Capped, CappedIf, InBoundsIf, update_row-All, find_row-CappedIf,
  find_bound-CappedIf, cap_of-InBoundsIf, given_cap-GivenInBounds, chosen-InBounds,
}

-- The requests that change sessions.
pub data SessionCall : Type 0 where
  create : SessionCreate → SessionCall
  bind : SessionResolve → SessionCall
  choose : String → String → SessionCall
  limit : String → ℕ → SessionCall
  cancel : String → SessionCall

-- What the schemas check of a request.
abbrev pub Checked : SessionCall → Type 0
Checked (create q) = GivenInBounds q.iteration_cap
Checked (bind q) = GivenInBounds q.iteration_cap
Checked (choose id agent) = Unit
Checked (limit id cap) = InBounds cap
Checked (cancel id) = Unit

abbrev pub serve : Env → SessionCall → Action SessionReply
serve env (create q) = create_session env q
serve env (bind q) = resolve_session env q
serve env (choose id agent) = set_agent env id agent
serve env (limit id cap) = set_iterations env id cap
serve env (cancel id) = cancel_session_run env id

module _ (env : Env) where
  cap_for-InBoundsIf : (c : Option ℕ) (s : Store) → GivenInBounds c → InBoundsIf (cap_for env c s).0
  unfolding cap_for default_cap
  cap_for-InBoundsIf none s g = cap_of-InBoundsIf _
  cap_for-InBoundsIf (some n) s g = g

  create_row-Capped :
      (q : SessionCreate) (s : Store)
      → GivenInBounds q.iteration_cap
      → All Capped s.sessions
      → All Capped (create_row env q s).1.sessions
  unfolding create_row utc_now new_id
  create_row-Capped q s g h =
      let s1 : Store = record s { reads = suc s.reads } in
      let asked = cap_for env (given_cap q.iteration_cap) in
      let kept = ensure_keeps env q.user_id s1 in
      elim (Result-cases (asked s1).0) [
        | inr (e, k) ↦ rw (create_row, k, cap_keeps env (given_cap q.iteration_cap) s1) h
        | inl (cap, k) ↦
            rw (create_row, k, cap_keeps env (given_cap q.iteration_cap) s1, kept.0, kept.1)
              (All-append Capped s.sessions _ h (
                subst InBoundsIf k (
                    cap_for-InBoundsIf (given_cap q.iteration_cap) s1
                      (given_cap-GivenInBounds q.iteration_cap g)),
                tt,
              ))
      ]

  create_missing-Capped :
      (q : SessionResolve) (s : Store)
      → GivenInBounds q.iteration_cap
      → All Capped s.sessions
      → All Capped (create_missing env q s).1.sessions
  unfolding create_missing
  create_missing-Capped q s g h =
      let made = create_row-Capped (creation_of q) s g h in
      elim (Bool-cases q.create_if_missing) [
        | inr e ↦ rw (create_missing, e) h
        | inl e ↦ elim (Result-cases (create_row env (creation_of q) s).0) [
          | inl (r, k) ↦ rw (create_missing, e, k) made
          | inr (x, k) ↦ rw (create_missing, e, k) made
        ]
      ]

  pub resolve-Capped :
      (q : SessionResolve) (s : Store)
      → GivenInBounds q.iteration_cap
      → All Capped s.sessions
      → All Capped (resolve env q s).1.sessions
  unfolding resolve resume utc_now
  resolve-Capped q s g h =
      let found =
        find_bound q.source_platform q.external_channel_id q.external_thread_id s.sessions in
      elim (Option-cases found) [
        | inl k ↦ rw (resolve, k) (create_missing-Capped q s g h)
        | inr (r, k) ↦
            rw (resolve, k)
              (update_row-All r.id _ s.sessions
                (chosen-InBounds (given_cap q.iteration_cap) r.iteration_cap
                  (given_cap-GivenInBounds q.iteration_cap g)
                  (subst CappedIf k (
                    find_bound-CappedIf q.source_platform q.external_channel_id q.external_thread_id
                      s.sessions h)))
                h)
      ]

  create_session-Capped :
      (q : SessionCreate) (s : Store)
      → GivenInBounds q.iteration_cap
      → All Capped s.sessions
      → All Capped (create_session env q s).1.sessions
  unfolding create_session create_audit_event new_id utc_now
  create_session-Capped q s g h =
      let made = create_row-Capped q s g h in
      elim (Result-cases (create_row env q s).0) [
        | inl (r, k) ↦ rw (create_session, k) made
        | inr (x, k) ↦ rw (create_session, k) made
      ]

  resolve_session-Capped :
      (q : SessionResolve) (s : Store)
      → GivenInBounds q.iteration_cap
      → All Capped s.sessions
      → All Capped (resolve_session env q s).1.sessions
  unfolding resolve_session
  resolve_session-Capped q s g h =
      let made = resolve-Capped q s g h in
      elim (Result-cases (resolve env q s).0) [
        | inl (r, k) ↦ rw (resolve_session, k) made
        | inr (x, k) ↦ rw (resolve_session, k) made
      ]

  set_agent-Capped :
      (id agent : String) (s : Store)
      → All Capped s.sessions
      → All Capped (set_agent env id agent s).1.sessions
  unfolding set_agent change_agent create_audit_event new_id utc_now
  set_agent-Capped id agent s h =
      let found = find_row-CappedIf id s.sessions h in
      elim (Option-cases (find_row session_key id s.sessions)) [
        | inl k ↦ rw (set_agent, k) h
        | inr (r, k) ↦ elim (Bool-cases (member agent agents)) [
          | inr e ↦ rw (set_agent, k, e) h
          | inl e ↦
              rw (set_agent, k, e) (update_row-All r.id _ s.sessions (subst CappedIf k found) h)
        ]
      ]

  set_iterations-Capped :
      (id : String) (cap : ℕ) (s : Store)
      → InBounds cap
      → All Capped s.sessions
      → All Capped (set_iterations env id cap s).1.sessions
  unfolding set_iterations change_cap create_audit_event new_id utc_now
  set_iterations-Capped id cap s b h = elim (Option-cases (find_row session_key id s.sessions)) [
    | inl k ↦ rw (set_iterations, k) h
    | inr (r, k) ↦ rw (set_iterations, k) (update_row-All r.id _ s.sessions b h)
  ]

  cancel_last-Capped :
      (r : AgentSession) (s : Store)
      → Capped r
      → All Capped s.sessions
      → All Capped (cancel_last env r s).1.sessions
  unfolding cancel_last cancel_run create_audit_event new_id utc_now
  cancel_last-Capped r s c h = elim (Bool-cases (text_or r.last_run_id "" == "")) [
    | inl e ↦ rw (cancel_last, e) h
    | inr e ↦ elim (Option-cases (find_row run_key (text_or r.last_run_id "") s.runs)) [
      | inl k ↦ rw (cancel_last, e, k) h
      | inr (run, k) ↦ rw (cancel_last, e, k) (update_row-All r.id _ s.sessions c h)
    ]
  ]

  cancel-Capped :
      (id : String) (s : Store)
      → All Capped s.sessions
      → All Capped (cancel_session_run env id s).1.sessions
  unfolding cancel_session_run
  cancel-Capped id s h =
      let found = find_row-CappedIf id s.sessions h in
      elim (Option-cases (find_row session_key id s.sessions)) [
        | inl k ↦ rw (cancel_session_run, k) h
        | inr (r, k) ↦
            rw (cancel_session_run, k) (cancel_last-Capped r s (subst CappedIf k found) h)
      ]

  -- One request.
  pub serve-Capped :
      (c : SessionCall) (s : Store)
      → Checked c
      → All Capped s.sessions
      → All Capped (serve env c s).1.sessions
  serve-Capped (create q) s g h = create_session-Capped q s g h
  serve-Capped (bind q) s g h = resolve_session-Capped q s g h
  serve-Capped (choose id agent) s g h = set_agent-Capped id agent s h
  serve-Capped (limit id cap) s g h = set_iterations-Capped id cap s g h
  serve-Capped (cancel id) s g h = cancel-Capped id s h
