-- ===== src/Planner.antt =====
-- apps/api/lifeos_api/services/conversation_action_planner.py: what a message asks to be done.
mod Dates
mod Plans
mod Patterns
mod Titles
mod Local
mod Deciding
mod Enforcing
mod FollowUps
mod Revision
pub mod Bounds
pub mod Lawful
pub mod Guarded
pub mod Governed
pub mod Waiting
pub mod Pending
unfoldable pub use Dates.*
unfoldable pub use Plans.*
unfoldable pub use Patterns.*
unfoldable pub use Titles.*
unfoldable pub use Local.*
unfoldable pub use Deciding.*
unfoldable pub use Enforcing.*
unfoldable pub use FollowUps.*
unfoldable pub use Revision.*
