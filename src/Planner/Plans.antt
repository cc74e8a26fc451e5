-- ===== src/Planner/Plans.antt =====
-- The plan of a conversational turn and its parts.
use life_os_vnex.Prelude.{String, Bool, true, false, Option, none, some, List, [], ◌∷◌, ℕ}
use life_os_vnex.Prelude.Text.{member}
use life_os_vnex.Prelude.Json.{Float, Fields}

-- `ConversationActionProposal`
pub record ActionProposal : Type 0 where
  pub type : String
  pub summary : String
  pub confidence : Float
  pub risk : String
  pub requires_confirmation : Bool
  pub formal_review_required : Bool
  pub draft : Fields
  pub reason : Option String

-- `PlanMode`
pub data PlanMode : Type 0 where
  answer_only execute_now propose_inline formal_review clarify : PlanMode

-- `ConversationTurnPlan`
pub record TurnPlan : Type 0 where
  pub mode : PlanMode
  pub assistant_reply : String
  pub proposals : List ActionProposal
  pub memory_candidates : List Fields
  pub clarifying_question : Option String
  pub status_events : List String

-- `FollowUpKind`; `no_action` is "none".
pub data FollowUpKind : Type 0 where
  no_action approve reject revise ask : FollowUpKind

-- `ProposalFollowUpPlan`
pub record FollowUpPlan : Type 0 where
  pub kind : FollowUpKind
  pub proposal_indexes : List ℕ
  pub revision_text : Option String

-- A plan without proposals, a reply and its events.
abbrev pub answer : String → List String → TurnPlan
answer reply events = record {
  mode = PlanMode.answer_only;
  assistant_reply = reply;
  proposals = [];
  memory_candidates = [];
  clarifying_question = none;
  status_events = events;
}

abbrev pub clarification : String → String → List String → TurnPlan
clarification reply question events = record {
  mode = PlanMode.clarify;
  assistant_reply = reply;
  proposals = [];
  memory_candidates = [];
  clarifying_question = some question;
  status_events = events;
}

-- A plan of one proposal.
abbrev pub single : PlanMode → String → ActionProposal → List String → TurnPlan
single mode reply p events = record {
  mode = mode;
  assistant_reply = reply;
  proposals = p ∷ [];
  memory_candidates = [];
  clarifying_question = none;
  status_events = events;
}

add_unseen : List String → List String → List String
unfolding member
add_unseen seen [] = []
add_unseen seen (x ∷ xs) = elim (member x seen) [
  | true ↦ add_unseen seen xs
  | false ↦ x ∷ add_unseen (x ∷ seen) xs
]

-- `_dedupe`
unfoldable pub dedupe : List String → List String
unfolding add_unseen
dedupe = add_unseen []
