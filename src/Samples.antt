-- ===== src/Samples.antt =====
-- Rows and databases for the tests.
pub mod Empty
pub mod Sales
pub mod Accounts
pub mod Desk
pub use Empty.*
pub use Sales.*
pub use Accounts.*
pub use Desk.*
