-- ===== src/Routing.antt =====
-- The routing policies (routing/*.py): tiers, the three strategies, and the dispatch over them.
pub mod Tiers
pub mod Weighted
pub mod Sticky
mod Policies
pub mod Answers
pub mod Create
pub mod Bounds
pub mod Scope
pub use Policies.{Policy, round_robin, sticky_hash, weighted_random}
unfoldable pub use Policies.{round_robin_select, select, network_prefix}
