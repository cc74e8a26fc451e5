-- ===== src/Proposals.antt =====
-- apps/api/lifeos_api/services/conversation_action_service.py: the proposals that a conversation
-- leaves pending, and apps/api/lifeos_api/routers/action_proposals.py, which decides them.
mod Values
mod Evidence
mod Search
mod Decisions
mod Creation
pub mod Execution
pub mod Machine
pub mod Listing
pub mod Created
unfoldable pub use Values.*
unfoldable pub use Evidence.*
unfoldable pub use Search.*
unfoldable pub use Decisions.*
unfoldable pub use Creation.*
