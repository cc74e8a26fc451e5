-- ===== src/Providers.antt =====
-- packages/providers/lifeos_providers/router.py: which provider, model and key answers an agent.
mod Values
mod Choices
mod Completing
pub mod Serving
pub mod Priorities
unfoldable pub use Values.*
unfoldable pub use Choices.*
unfoldable pub use Completing.*
