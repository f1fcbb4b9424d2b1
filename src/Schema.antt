-- ===== src/Schema.antt =====
-- The data model: app/modules/*/models.py, passed on from three children.
mod Ledger
mod People
mod State
pub use Ledger.*
pub use People.*
pub use State.*
unfoldable pub use Ledger.{of_cents, is_pending, is_completed, is_pending_deposit}
