-- ===== src/State/Database.antt =====
-- The tables in the order of insertion, the files that were written to the vault, and how many ids
-- and clock readings were drawn. An object of the session is its row: assigning to it changes the row.
use life_os_vnex.Prelude.{ℕ, String, Bool, Option, none, some, List, [], ◌∷◌, ◌==◌, if◌then◌else◌}
use life_os_vnex.State.Rows.{
  LifeItem, FinanceEntry, DailyLog, PrayerLog, MemoryFact, Job, ToolCall, StateChange, AuditEvent,
  StatusEventRow, ReviewItem, ReviewDecision, Message, PendingActionProposal,
}
use life_os_vnex.State.Runtime.{
  RawCapture, CaptureInterpretation, AgentRun, Handoff, Notification, ProviderCallLog, AgentRow,
  SystemSetting, AgentModelConfig, AgentSession, User, MemoryCandidate, JobRun,
}

pub record FileWrite : Type 0 where
  pub path : String
  pub content : String
  pub appended : Bool

-- The tables that hold the owner's data, which only commands write.
pub record Tables : Type 0 where
  pub items : List LifeItem
  pub entries : List FinanceEntry
  pub daily_logs : List DailyLog
  pub prayer_logs : List PrayerLog
  pub facts : List MemoryFact
  pub jobs : List Job
  pub tool_calls : List ToolCall

pub record Store : Type 0 where
  pub tables : Tables
  pub changes : List StateChange
  pub audits : List AuditEvent
  pub events : List StatusEventRow
  pub reviews : List ReviewItem
  pub decisions : List ReviewDecision
  pub proposals : List PendingActionProposal
  pub messages : List Message
  pub files : List FileWrite
  pub captures : List RawCapture
  pub interpretations : List CaptureInterpretation
  pub runs : List AgentRun
  pub handoffs : List Handoff
  pub notifications : List Notification
  pub provider_calls : List ProviderCallLog
  pub agents : List AgentRow
  pub settings : List SystemSetting
  pub models : List AgentModelConfig
  pub sessions : List AgentSession
  pub users : List User
  pub candidates : List MemoryCandidate
  pub job_runs : List JobRun
  pub draws : ℕ
  pub reads : ℕ

module _ {A : Type 0} (key : A → String) where
  -- `session.get(Table, id)`
  unfoldable pub find_row : String → List A → Option A
  find_row k [] = none
  find_row k (r ∷ rs) = if key r == k then some r else find_row k rs

  -- Assignments to the object with that id.
  unfoldable pub update_row : String → (A → A) → List A → List A
  update_row k f [] = []
  update_row k f (r ∷ rs) = if key r == k then f r ∷ rs else r ∷ update_row k f rs
