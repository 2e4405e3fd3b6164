-- ===== src/Agreements/Tests.antt =====
-- The theorems on agreements at a deal room with one agreement.
use idea_project.Base.{◌≡◌, refl, any, update_where, none, [], ◌∷◌, false}
use idea_project.Schema.{Db, DealStatus, AgreementStatus, agreement_status_eq, AgreementVersion}
use idea_project.Common.{ok}
use idea_project.Common.Prisma.{list_prisma}
use idea_project.Agreements.Service.{
  add_version, sign, CreateAgreementVersionDto, is_agreement, set_agreement_status, new_version,
}
use idea_project.Agreements.Versions.{add_version-numbers, sign-counts, is_version_from, signed}
use idea_project.Samples.{buyer, buyer_participant, contract, deal_room}

abbrev room : Db
room = deal_room DealStatus.agreement

abbrev draft : CreateAgreementVersionDto
draft = record { content_url = none; content_hash = none }

add_version-numbers_example :
    (v : AgreementVersion) × ((add_version list_prisma buyer 40 50 draft 51 room).0 ≡ ok v)
    × ((add_version list_prisma buyer 40 50 draft 51 room).1.agreement_versions ≡ v ∷ [])
    × (v.agreement_id ≡ 50)
    × (any (is_version_from 50 v.version) room.agreement_versions ≡ false)
    × ((add_version list_prisma buyer 40 50 draft 51 room).1.agreements
        ≡ update_where
            (is_agreement 50)
            (set_agreement_status AgreementStatus.pending_signature)
            room.agreements)
add_version-numbers_example =
    add_version-numbers list_prisma buyer 40 50 draft 51 buyer_participant contract room refl refl
      refl

-- The room with a version of the agreement.
abbrev drafted : Db
drafted = record room { agreement_versions = new_version list_prisma buyer 50 draft 51 [] ∷ [] }

sign-counts_example :
    ((sign list_prisma buyer 40 50 51 drafted).0 ≡ ok tt)
    × ((sign list_prisma buyer 40 50 51 drafted).1.signatures ≡ signed 51 2 drafted.signatures)
    × ((sign list_prisma buyer 40 50 51 drafted).1.agreements
        ≡ update_where
            (is_agreement 50)
            (λ x. record x { status = AgreementStatus.signed })
            drafted.agreements)
sign-counts_example =
    sign-counts list_prisma buyer 40 50 51 buyer_participant contract drafted refl refl refl refl
