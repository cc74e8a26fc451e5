-- ===== src/Runtime.antt =====
-- apps/api/lifeos_api/services/agent_runtime.py: a turn of a session, from the message to the end of its
-- run.
mod Results
mod Finishing
mod Replies
mod Executing
mod Answering
mod Planning
mod Identity
mod Conversing
mod Messages
pub mod Frame
pub mod Running
pub mod Following
pub mod Planned
pub mod Turning
pub mod Permitted
pub mod Ending
pub mod Outcomes
pub mod Capped
unfoldable pub use Results.*
unfoldable pub use Finishing.*
unfoldable pub use Replies.*
unfoldable pub use Executing.*
unfoldable pub use Answering.*
unfoldable pub use Planning.*
unfoldable pub use Identity.*
unfoldable pub use Conversing.*
unfoldable pub use Messages.*
