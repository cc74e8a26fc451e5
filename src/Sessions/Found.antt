-- ===== src/Sessions/Found.antt =====
-- A session that was created for a channel or a thread is the one that is found there.
use life_os_vnex.Prelude.{
  ℕ, zero, suc, ◌<◌, String, Bool, true, false, ◌≡◌, refl, sym, ap, ◌∙◌, is_some, ◌⊎◌, inl, inr,
  Option, none, some, List, [], ◌∷◌, ◌++◌, ◌==◌, leb, arith, All, Bool-cases, eq_iff, eq_refl,
}
use mathlib.Core.Bool.{false≢true}
use life_os_vnex.Prelude.Env.{Env}
use life_os_vnex.State.{
  Store, AgentSession, Exception, Result, ok, raise, utc_now, id_at, new_id, create_audit_event,
  find_row,
}
use life_os_vnex.Prelude.Json.{Whole}
use life_os_vnex.Bus.{int_of}
use life_os_vnex.Captures.{setting_key}
use life_os_vnex.Bus.Effects.{Result-cases}
use life_os_vnex.Proposals.{filter_by, sort_by, insert_by, text_or}
use life_os_vnex.Sessions.{
  SessionCreate, on_thread, on_channel, later, first, latest, by_thread, by_channel, find_bound,
  session_row, cap_of, setting_value, given_cap, cap_for, default_cap, add_user, ensure_user,
  create_row, same_text, user_key,
}

-- Every session was updated before a time.
abbrev pub OlderThan : ℕ → List AgentSession → Type 0
OlderThan now rs = All (λ r. r.updated_at < now) rs

abbrev time_of : Option AgentSession → ℕ
time_of none = 0
time_of (some r) = r.updated_at

module _ (r : AgentSession) where
  stays_first :
      (x : AgentSession) (rs : List AgentSession)
      → first rs ≡ some r
      → x.updated_at < r.updated_at
      → first (insert_by later x rs) ≡ some r
  unfolding insert_by
  stays_first x [] e h = cc
  stays_first x (y ∷ ys) e h = elim (Bool-cases (later y x)) [
    | inl f ↦ rw f e
    | inr f ↦
        let same : y.updated_at ≡ r.updated_at = ap time_of e in
        absurd (false≢true (sym f ∙ ground arith))
  ]

  newest_first :
      (rs : List AgentSession)
      → OlderThan r.updated_at rs
      → first (sort_by later (rs ++ r ∷ [])) ≡ some r
  unfolding sort_by insert_by
  newest_first [] h = refl
  newest_first (x ∷ xs) (h, hs) =
      stays_first x (sort_by later (xs ++ r ∷ [])) (newest_first xs hs) h

  filter_older :
      (p : AgentSession → Bool) (rs : List AgentSession)
      → OlderThan r.updated_at rs
      → OlderThan r.updated_at (filter_by p rs)
  unfolding filter_by
  filter_older p [] h = tt
  filter_older p (x ∷ xs) (h, hs) = elim (Bool-cases (p x)) [
    | inl e ↦ rw e (h, filter_older p xs hs)
    | inr e ↦ rw e (filter_older p xs hs)
  ]

  filter_last :
      (p : AgentSession → Bool) (rs : List AgentSession)
      → p r ≡ true
      → filter_by p (rs ++ r ∷ []) ≡ filter_by p rs ++ r ∷ []
  unfolding filter_by
  filter_last p [] e = rw e refl
  filter_last p (x ∷ xs) e = elim (Bool-cases (p x)) [
    | inl f ↦ rw (f, filter_last p xs e) refl
    | inr f ↦ rw (f, filter_last p xs e) refl
  ]

  latest_added :
      (p : AgentSession → Bool) (rs : List AgentSession)
      → p r ≡ true
      → OlderThan r.updated_at rs
      → latest p (rs ++ r ∷ []) ≡ some r
  unfolding latest
  latest_added p rs e h =
      rw (filter_last p rs e) (newest_first (filter_by p rs) (filter_older p rs h))

same_text_or :
    (t : Option String) → (text_or t "" == "") ≡ false → same_text t (text_or t "") ≡ true
same_text_or none h = absurd (false≢true (sym h))
same_text_or (some t) h = ground (arith, eq_iff t "", eq_refl t, eq_refl "")

-- The row that is added for a binding with a thread or a channel is the one that it finds.
bound_added :
    (platform : String) (channel thread : Option String) (r : AgentSession) (rs : List AgentSession)
    → r.source_platform ≡ some platform
    → r.external_channel_id ≡ channel
    → r.external_thread_id ≡ thread
    → r.status ≡ "active"
    → ((text_or thread "" == "") ≡ false) ⊎ ((text_or channel "" == "") ≡ false)
    → OlderThan r.updated_at rs
    → find_bound platform channel thread (rs ++ r ∷ []) ≡ some r
unfolding find_bound by_thread by_channel
bound_added platform channel thread r rs p c t a b h = elim (Bool-cases (text_or thread "" == "")) [
  | inl e ↦ elim b [
    | inl f ↦ absurd (false≢true (sym f ∙ e))
    | inr f ↦
        rw
          (
            find_bound,
            by_thread,
            by_channel,
            e,
            f,
            latest_added r (on_channel platform (text_or channel "")) rs
                (rw (p, c, a, same_text_or channel f, eq_refl platform) refl) h,
          )
          refl
  ]
  | inr e ↦
      rw
        (
          find_bound,
          by_thread,
          e,
          latest_added r (on_thread platform (text_or thread "")) rs
              (rw (p, t, a, same_text_or thread e, eq_refl platform) refl) h,
        )
        refl
]

-- No cap is asked for, or 0.
abbrev pub IsUnasked : Option ℕ → Type 0
IsUnasked c = (c ≡ none) ⊎ (c ≡ some 0)

-- A cap that is asked for and is not 0 is the one that is had.
abbrev pub HasCap : Option ℕ → ℕ → Type 0
HasCap none n = Unit
HasCap (some zero) n = Unit
HasCap (some (suc m)) n = n ≡ suc m

ok_differs : {A : Type 0} {a : A} {e : Exception} → ¬ (ok a ≡ raise e)
ok_differs h = cc

module _ (env : Env) where
  pub cap_keeps : (cap : Option ℕ) (s : Store) → (cap_for env cap s).1 ≡ s
  unfolding cap_for default_cap
  cap_keeps none s = refl
  cap_keeps (some n) s = refl

  pub ensure_keeps :
      (user : Option String) (s : Store)
      → ((ensure_user env user s).0 ≡ ok tt) × ((ensure_user env user s).1.sessions ≡ s.sessions)
  unfolding ensure_user add_user utc_now create_audit_event new_id
  ensure_keeps user s = elim (Bool-cases (text_or user "" == "")) [
    | inl a ↦ rw (ensure_user, a) (refl, refl)
    | inr a ↦ elim (Bool-cases (is_some (find_row user_key (text_or user "") s.users))) [
      | inl b ↦ rw (ensure_user, a, b) (refl, refl)
      | inr b ↦ rw (ensure_user, a, b) (refl, refl)
    ]
  ]

  converted : (r : Result Whole) (e : Exception) → cap_of r ≡ raise e → r ≡ raise e
  converted (ok n) e h = absurd (ok_differs h)
  converted (raise (Exception.type_error m)) e h = absurd (ok_differs h)
  converted (raise (Exception.value_error m)) e h = absurd (ok_differs h)
  converted (raise (Exception.key_error m)) e h = cc
  converted (raise (Exception.attribute_error m)) e h = cc
  converted (raise (Exception.index_error m)) e h = cc
  converted (raise (Exception.overflow_error m)) e h = cc
  converted (raise (Exception.runtime_error m)) e h = cc
  converted (raise (Exception.os_error m)) e h = cc

  positive_asked : (n : ℕ) (s : Store) → (cap_for env (given_cap (some (suc n))) s).0 ≡ ok (suc n)
  unfolding cap_for
  positive_asked n s = rw (positive n) refl
    where
      positive : (n : ℕ) → leb 1 (suc n) ≡ true
      positive n = ground arith

  failing :
      (c : Option ℕ) (s : Store) (e : Exception)
      → (cap_for env (given_cap c) s).0 ≡ raise e
      → IsUnasked c
        × (int_of env
              (setting_value (find_row setting_key "agent.default_iteration_cap" s.settings))
            ≡ raise e)
  unfolding cap_for default_cap
  failing none s e h = (inl refl, converted _ e h)
  failing (some zero) s e h = (inr refl, converted _ e h)
  failing (some (suc n)) s e h = absurd (ok_differs (sym (positive_asked n s) ∙ h))

  asked_cap :
      (c : Option ℕ) (s : Store) (n : ℕ) → (cap_for env (given_cap c) s).0 ≡ ok n → HasCap c n
  unfolding cap_for default_cap
  asked_cap none s n h = tt
  asked_cap (some zero) s n h = tt
  asked_cap (some (suc m)) s n h = sym (ap value_of (sym (positive_asked m s) ∙ h))
    where
      value_of : Result ℕ → ℕ
      value_of (ok k) = k
      value_of (raise e) = 0

  -- A session that is created for a platform with a thread or a channel is the one that is found there
  -- afterwards, when every earlier session was updated before the time that the clock reads, and its cap is
  -- the one that is asked for, when that is not 0; or no cap is asked for, or 0, and the default of the
  -- settings cannot be converted, whose exception is raised.
  pub create_row-find :
      (q : SessionCreate) (platform : String) (s : Store)
      → q.source_platform ≡ some platform
      → ((text_or q.external_thread_id "" == "") ≡ false)
        ⊎ ((text_or q.external_channel_id "" == "") ≡ false)
      → OlderThan (env.clock s.reads) s.sessions
      → ((r : AgentSession) × ((create_row env q s).0 ≡ ok r)
          × (find_bound platform q.external_channel_id q.external_thread_id
                (create_row env q s).1.sessions
              ≡ some r)
          × HasCap q.iteration_cap r.iteration_cap)
        ⊎ ((e : Exception) × IsUnasked q.iteration_cap
            × (int_of env
                  (setting_value (find_row setting_key "agent.default_iteration_cap" s.settings))
                ≡ raise e)
            × ((create_row env q s).0 ≡ raise e))
  unfolding create_row utc_now new_id
  create_row-find q platform s p b h =
      let s1 : Store = record s { reads = suc s.reads } in
      let asked = cap_for env (given_cap q.iteration_cap) in
      let user = ensure_user env q.user_id s1 in
      let kept = ensure_keeps q.user_id s1 in
      elim (Result-cases (asked s1).0) [
        | inr (e, k) ↦
            let (unasked, default) = failing q.iteration_cap s1 e k in
            inr (e, unasked, default, rw (create_row, k) refl)
        | inl (cap, k) ↦
            let r : AgentSession =
              session_row q cap (env.clock s.reads) (id_at env "sess" user.1.draws) in
            inl (
              r,
              rw (create_row, k, cap_keeps (given_cap q.iteration_cap) s1, kept.0) refl,
              rw (create_row, k, cap_keeps (given_cap q.iteration_cap) s1, kept.0, kept.1)
                  (bound_added platform q.external_channel_id q.external_thread_id r s.sessions p
                    refl refl refl b h),
              asked_cap q.iteration_cap s1 cap k,
            )
      ]
