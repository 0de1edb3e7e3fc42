-- ===== src/Database.antt =====
-- The database facade (database/mysql).
pub mod Connection
pub mod Names
pub mod Records
pub mod Page
pub mod Statement
pub mod Program
pub mod Table
pub mod W2ui
