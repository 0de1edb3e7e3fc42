-- ===== src/System.antt =====
-- The process (system): its configuration, and the supervision of its threads.
pub mod Config
pub mod Service
