-- ===== src/Captures/Outcomes.antt =====
-- What the branches of the policy leave of a capture.
use life_os_vnex.Prelude.{
  String, Bool, true, false, ◌≡◌, refl, sym, ap, [], ◌∷◌, ◌++◌, if◌then◌else◌,
}
use mathlib.Core.Bool.{false≢true}
use life_os_vnex.Prelude.Env.{Env}
use life_os_vnex.Prelude.{some}
use life_os_vnex.State.{Store, ReviewItem, Notification, id_at, new_id, create_status_event}
use life_os_vnex.Policy.{
  PolicyDecision, Verdict, raw_only, review_required, ask_clarification, auto_apply,
}
use life_os_vnex.Orchestrator.{Draft}
use life_os_vnex.Captures.{
  Routed, settle_by, settle_capture, keep_raw, ask_owner, capture_review, review_notice,
  review_status,
}
use Prim.Native.Nat.{suc}

abbrev pub is_auto : Verdict → Bool
is_auto auto_apply = true
is_auto verdict = false

abbrev pub is_asking : Verdict → Bool
is_asking review_required = true
is_asking ask_clarification = true
is_asking verdict = false

-- The review has the draft's content and action, and the status of the verdict.
pub record IsReviewOf (o : Routed) (d : Draft) (policy : PolicyDecision) (r : ReviewItem)
    : Type 0 where
  pub action : r.proposed_action_json ≡ d.proposed_action
  pub capture : r.source_capture_id ≡ some o.capture_id
  pub title : r.title ≡ d.title
  pub body : r.body_md ≡ d.body_md
  pub agent : r.proposed_by_agent_id ≡ some d.agent_id
  pub confidence : r.confidence ≡ d.confidence
  pub status :
      r.status ≡ (elim policy.decision [ review_required ↦ "pending" | _ ↦ "needs_clarification" ])

-- A store after a branch that applies nothing: the owner's data, the commands and the decisions are
-- as they were, and a verdict that asks leaves one review and one notification about it.
pub record IsKept (env : Env) (o : Routed) (d : Draft) (policy : PolicyDecision) (s t : Store)
    : Type 0 where
  pub tables : t.tables ≡ s.tables
  pub changes : t.changes ≡ s.changes
  pub decisions : t.decisions ≡ s.decisions
  pub review : ReviewItem
  pub notice : Notification
  pub reviews :
      t.reviews ≡ (if is_asking policy.decision then s.reviews ++ review ∷ [] else s.reviews)
  pub notifications :
      t.notifications
      ≡ (if is_asking policy.decision then s.notifications ++ notice ∷ [] else s.notifications)
  pub asks : IsReviewOf o d policy review
  pub notifies : notice.related_review_item_id ≡ some review.id
  pub unread : notice.status ≡ "queued"

review_status_lem :
    (v : Verdict)
    → review_status v ≡ (elim v [ review_required ↦ "pending" | _ ↦ "needs_clarification" ])
review_status_lem raw_only = refl
review_status_lem review_required = refl
review_status_lem ask_clarification = refl
review_status_lem auto_apply = refl

is_review :
    (o : Routed) (d : Draft) (policy : PolicyDecision) (id : String)
    → IsReviewOf o d policy (capture_review o d policy id)
is_review o d policy id = record {
  action = refl;
  capture = refl;
  title = refl;
  body = refl;
  agent = refl;
  confidence = refl;
  status = review_status_lem policy.decision;
}

module _ (env : Env) (timezone : String) where
  keep_raw-IsKept :
      (o : Routed) (d : Draft) (policy : PolicyDecision) (s : Store)
      → is_asking policy.decision ≡ false
      → IsKept env o d policy s (keep_raw env timezone o s).1
  unfolding keep_raw
  keep_raw-IsKept o d policy s h = record {
    tables = refl;
    changes = refl;
    decisions = refl;
    reviews = rw h refl;
    notifications = rw h refl;
    review = capture_review o d policy (id_at env "rev" s.draws);
    notice = review_notice o d (id_at env "rev" s.draws) (id_at env "notif" (suc s.draws));
    asks = is_review o d policy (id_at env "rev" s.draws);
    notifies = refl;
    unread = refl;
  }

  ask_owner-IsKept :
      (o : Routed) (d : Draft) (policy : PolicyDecision) (s : Store)
      → is_asking policy.decision ≡ true
      → IsKept env o d policy s (ask_owner env timezone o d policy s).1
  unfolding ask_owner new_id create_status_event
  ask_owner-IsKept o d policy s h = record {
    tables = refl;
    changes = refl;
    decisions = refl;
    reviews = rw h refl;
    notifications = rw h refl;
    review = capture_review o d policy (id_at env "rev" s.draws);
    notice = review_notice o d (id_at env "rev" s.draws) (id_at env "notif" (suc s.draws));
    asks = is_review o d policy (id_at env "rev" s.draws);
    notifies = refl;
    unread = refl;
  }

  settled-IsKept :
      (o : Routed) (d : Draft) (policy : PolicyDecision) (s : Store) (v : Verdict)
      → policy.decision ≡ v
      → is_auto v ≡ false
      → IsKept env o d policy s (settle_by env timezone v o d policy s).1
  unfolding settle_by
  settled-IsKept o d policy s raw_only e h = keep_raw-IsKept o d policy s (ap is_asking e)
  settled-IsKept o d policy s auto_apply e h = absurd (false≢true (sym h))
  settled-IsKept o d policy s review_required e h = ask_owner-IsKept o d policy s (ap is_asking e)
  settled-IsKept o d policy s ask_clarification e h = ask_owner-IsKept o d policy s (ap is_asking e)

  -- A capture whose policy decision is not to apply leaves the owner's data, the state changes and the
  -- review decisions as they were; a decision to review or to ask adds one review with the draft's
  -- action, texts, agent and confidence, pending for the one and in need of a clarification for the other, and
  -- one queued notification that names it; a decision to keep it raw adds neither.
  pub unapplied-IsKept :
      (o : Routed) (d : Draft) (policy : PolicyDecision) (s : Store)
      → is_auto policy.decision ≡ false
      → IsKept env o d policy s (settle_capture env timezone o d policy s).1
  unfolding settle_capture
  unapplied-IsKept o d policy s h = settled-IsKept o d policy s policy.decision refl h
