-- ===== src/Policy/Modes.antt =====
-- How the autonomy mode changes what is applied without a review.
use life_os_vnex.Prelude.{String, true, false, ◌⊎◌, inl, inr, ◌≡◌, refl, sym, all, ◌==◌}
use life_os_vnex.Prelude.Text.{member, member-all}
use life_os_vnex.Prelude.Env.{Env}
use life_os_vnex.Policy.{
  auto_apply, Request, autonomy_modes, auto_allow, effective_mode, decide_capture_action,
}
use life_os_vnex.Policy.Gates.{auto_apply_iff, manual-not_cleared}

-- The same draft under another mode.
abbrev pub in_mode : String → Request → Request
in_mode m q = record q { autonomy_mode = m }

-- The allowlist of one mode is part of another's.
abbrev IsWithin : String → String → Type 0
IsWithin m n =
    all (λ c. member c (auto_allow (effective_mode n))) (auto_allow (effective_mode m)) ≡ true

gated-IsWithin : IsWithin "review_gated" "balanced"
unfolding effective_mode auto_allow member
gated-IsWithin = refl

balanced-IsWithin : IsWithin "balanced" "safe"
unfolding effective_mode auto_allow member
balanced-IsWithin = refl

effective-unknown :
    (m : String)
    → member m autonomy_modes ≡ false
    → effective_mode m ≡ effective_mode "review_gated"
unfolding effective_mode
effective-unknown m h = rw h (sym known)
  where
    known : effective_mode "review_gated" ≡ "review_gated"
    known = unfold member in refl

manual_differs : ¬ ((effective_mode "manual" == "manual") ≡ false)
unfolding effective_mode member
manual_differs h = cc

-- Of two modes, the one that comes next in trusting the router.
abbrev pub IsWider : String → String → Type 0
IsWider m n = ((m ≡ "review_gated") × (n ≡ "balanced")) ⊎ ((m ≡ "balanced") × (n ≡ "safe"))

module _ (env : Env) (q : Request) where
  -- The draft is applied without a review in that mode.
  abbrev pub Applies : String → Type 0
  Applies m = (decide_capture_action env (in_mode m q)).decision ≡ auto_apply

  Applies-within : (m n : String) → IsWithin m n → Applies m → Applies n
  Applies-within m n w h =
      let c = (auto_apply_iff env (in_mode m q)).0 h in
      (auto_apply_iff env (in_mode n q)).1 (record {
        labelled = c.labelled;
        owned = c.owned;
        complete = c.complete;
        confident = c.confident;
        low_risk = c.low_risk;
        harmless = c.harmless;
        allowed = member-all (λ k. member k (auto_allow (effective_mode n))) _ _ w c.allowed;
      })

  -- Manual mode applies nothing by itself.
  pub manual_mode_reviews : ¬ Applies "manual"
  manual_mode_reviews h =
      manual_differs (manual-not_cleared env _ ((auto_apply_iff env (in_mode "manual" q)).0 h))

  -- What review_gated mode applies by itself, balanced mode applies, and what that applies, safe does.
  pub modes_widen : (m n : String) → IsWider m n → Applies m → Applies n
  modes_widen m n (inl (e, f)) h = rw f (Applies-within m "balanced" (rw e gated-IsWithin) h)
  modes_widen m n (inr (e, f)) h = rw f (Applies-within m "safe" (rw e balanced-IsWithin) h)

  -- A mode that is none of the four decides as review_gated does, reason and status included.
  unknown_mode_lem :
      (m : String)
      → member m autonomy_modes ≡ false
      → decide_capture_action env (in_mode m q)
        ≡ decide_capture_action env (in_mode "review_gated" q)
  unfolding decide_capture_action
  unknown_mode_lem m h = rw (effective-unknown m h)
