-- ===== src/Schema.antt =====
-- The data model, prisma/schema.prisma: enumerations, rows, and the database as a record of tables.
pub mod Enums
pub mod DealEnums
pub mod EvidenceEnums
pub mod PlanEnums
pub mod Rows
pub mod DealRows
pub mod CommunityRows
pub mod EvidenceRows
pub mod PlanRows
pub mod Tables
pub use Enums.*
pub use DealEnums.*
pub use EvidenceEnums.*
pub use PlanEnums.*
pub use Rows.*
pub use DealRows.*
pub use CommunityRows.*
pub use EvidenceRows.*
pub use PlanRows.*
pub use Tables.*
