-- ===== src/Monitor.antt =====
-- Health monitoring (monitor/*.py): the status registry, the rise/fall debounce, and reconciliation.
mod Status
pub mod Check
pub mod Create
pub mod Desired
mod CheckThread
pub mod Debounce
pub mod Reconcile
pub mod Manager
unfoldable pub use Status.*
unfoldable pub use CheckThread.*
