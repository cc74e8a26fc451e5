-- ===== src/Captures.antt =====
-- apps/api/lifeos_api/routers/captures.py: a capture from its raw text to a review or a command,
-- apps/api/lifeos_api/services/agentic_router.py, which classifies it, and what they read of
-- apps/api/lifeos_api/services/runtime_config.py.
mod Settings
mod Answers
mod Classifying
mod Receiving
mod Settling
mod Creating
pub mod Outcomes
pub mod Evidence
pub mod Granting
pub mod Clearance
unfoldable pub use Settings.*
unfoldable pub use Answers.*
unfoldable pub use Classifying.*
unfoldable pub use Receiving.*
unfoldable pub use Settling.*
unfoldable pub use Creating.*
