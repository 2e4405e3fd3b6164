-- ===== src/Businesses/Tests.antt =====
-- The theorems on businesses at a complete draft.
use idea_project.Base.{◌≡◌}
use idea_project.Schema.{Db, BusinessStatus}
use idea_project.Common.{err, Error}
use idea_project.Common.Prisma.{list_prisma}
use idea_project.Businesses.Service.{publish}
use idea_project.Businesses.Publishing.{publish-never_succeeds}
use idea_project.Samples.{seller, workshop}

abbrev drafted : Db
drafted = workshop BusinessStatus.draft

publish-never_succeeds_example :
    (e : Error) × (publish list_prisma seller 10 5 drafted ≡ (err e, drafted))
publish-never_succeeds_example = publish-never_succeeds list_prisma seller 10 5 drafted
