-- ===== src/Planner/FollowUps.antt =====
-- `interpret_proposal_follow_up`.
use life_os_vnex.Prelude.{
  ℕ, ◌-◌, String, ◌&&◌, ◌||◌, Option, none, some, List, [], ◌∷◌, length, ltb, leb, is_some,
  if◌then◌else◌,
}
use life_os_vnex.Prelude.Text.{strip, has, has_any}
use life_os_vnex.Prelude.Env.{Env}
use life_os_vnex.Prelude.Regex.{matches, full_match}
use life_os_vnex.Planner.Dates.{norm, resolve_at}
use life_os_vnex.Planner.Plans.{FollowUpKind, FollowUpPlan}
use life_os_vnex.Planner.Patterns.{approve_re, reject_re, ask_re, revise_re, ordinal_index}

abbrev no_follow_up : FollowUpPlan
no_follow_up = record { kind = FollowUpKind.no_action; proposal_indexes = []; revision_text = none }

abbrev follow_up : FollowUpKind → ℕ → FollowUpPlan
follow_up kind index = record { kind = kind; proposal_indexes = index ∷ []; revision_text = none }

-- The proposal that a revision is about: the one that is named, or the last.
unfoldable pub revised_index : Option ℕ → ℕ → ℕ
revised_index none pending = pending - 1
revised_index (some i) pending = if ltb i pending then i else pending - 1

module _ (env : Env) (timezone : String) where
  -- The branches on the normal form, with at least one pending proposal; the clock reads `now`.
  unfoldable pub follow_up_text : ℕ → String → String → ℕ → FollowUpPlan
  unfolding full_match matches has has_any ordinal_index revised_index resolve_at strip
  follow_up_text now message text pending =
      if full_match approve_re text
      then follow_up FollowUpKind.approve (pending - 1)
      else if full_match reject_re text
      then follow_up FollowUpKind.reject (pending - 1)
      else if matches ask_re text
      then follow_up FollowUpKind.ask (pending - 1)
      else if has text "only" && has text "first"
      then follow_up FollowUpKind.approve 0
      else if has text "only" && has text "second" && leb 2 pending
      then follow_up FollowUpKind.approve 1
      else if matches revise_re text
          && (is_some (resolve_at env message timezone now)
              || has_any text ("change" ∷ "make it" ∷ "instead" ∷ "only" ∷ []))
      then record {
        kind = FollowUpKind.revise;
        proposal_indexes = revised_index (ordinal_index text) pending ∷ [];
        revision_text = some (strip message);
      }
      else no_follow_up

  -- `interpret_proposal_follow_up`
  unfoldable pub interpret_follow_up : {A : Type 0} → ℕ → String → List A → FollowUpPlan
  unfolding norm follow_up_text
  interpret_follow_up now message [] = no_follow_up
  interpret_follow_up now message (p ∷ ps) =
      follow_up_text now message (norm message) (length (p ∷ ps))
