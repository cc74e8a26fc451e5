-- ===== src/State.antt =====
-- The durable state: the rows of apps/api/lifeos_api/db/models.py, the store that holds them, and the
-- statements that read and change it.
mod Rows
mod Runtime
mod Database
mod Actions
pub mod Laws
pub use Rows.*
pub use Runtime.*
unfoldable pub use Database.*
unfoldable pub use Actions.*
