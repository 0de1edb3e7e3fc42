-- ===== src/Tests.antt =====
-- The theorems at concrete inputs, with concrete functions for the libraries.
mod Setup
pub mod Policies
pub mod Views
pub mod Replies
pub mod Monitoring
pub mod Storage
pub mod Requests
pub mod Tables
pub mod Admin
pub mod Process
pub mod Queries
pub mod Logs
pub mod Audits
