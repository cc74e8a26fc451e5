-- ===== src/Bus.antt =====
-- apps/api/lifeos_api/services/command_bus.py: the audited command bus.
mod Values
mod Types
mod Create
mod Update
pub mod Apply
pub mod Frame
pub mod Recording
pub mod Effects
pub mod Dispatching
pub mod Assigning
pub mod Updating
pub mod Atomic
unfoldable pub use Values.*
pub use Types.*
unfoldable pub use Create.*
unfoldable pub use Update.*
