-- ===== src/Common.antt =====
-- What the services share (src/common): errors, the calling user, the monad of a service method, the
-- database client as an interface, the transition tables, notifications and audit.
pub mod Errors
pub mod Monad
pub mod Prisma
pub mod StateMachine
pub mod Notify
pub mod Pages
pub mod Duration
pub mod Http
pub mod Slugify
pub mod Tests
pub mod Money
pub use Errors.*
pub use Monad.*
