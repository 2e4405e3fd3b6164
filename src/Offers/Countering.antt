-- ===== src/Offers/Countering.antt =====
-- The outcome of `counter` (src/offers/offers.service.ts).
use idea_project.Base.{nat_eq}
use idea_project.Schema.{offer_status_eq}
use idea_project.Common.Prisma.{Prisma}
