-- ===== src/Sessions.antt =====
-- apps/api/lifeos_api/routers/sessions.py: the endpoints of the agent sessions.
mod Values
mod Binding
mod Changing
mod Reading
pub mod Found
pub mod Bounds
pub mod Caps
unfoldable pub use Values.*
unfoldable pub use Binding.*
unfoldable pub use Changing.*
unfoldable pub use Reading.*
