-- ===== src/Documents/Tests.antt =====
-- The theorems on documents at a data room with one document and one grant.
use idea_project.Base.{◌⊎◌, ◌∷◌, ◌≡◌, refl, false}
use idea_project.Schema.{Db, BusinessStatus, DocumentAccessAction}
use idea_project.Common.{ok, err, ErrorCode, forbidden_exception}
use idea_project.Common.Prisma.{list_prisma}
use idea_project.Documents.Service.{
  get_signed_download_url, revoke_access, get_owned_document, owner_of, log_access, may_read,
}
use idea_project.Documents.Access.{download-reason, revoke_access-ends}
use idea_project.Documents.Reasons.{Reason}
use idea_project.Samples.{seller, other_buyer, report, shop, data_room, sign_plainly}

download-reason_example :
    (Reason other_buyer report 1 5 data_room
      × (get_signed_download_url list_prisma sign_plainly other_buyer 95 5 data_room ≡ (
        ok (sign_plainly 96),
        record data_room {
          access_logs =
              (record { document_id = 95; user_id = 3; action = DocumentAccessAction.downloaded })
              ∷ data_room.access_logs;
        },
      )))
    ⊎ (¬ Reason other_buyer report 1 5 data_room
        × (get_signed_download_url list_prisma sign_plainly other_buyer 95 5 data_room
            ≡ (err (forbidden_exception ErrorCode.document_access_denied), data_room)))
unfolding owner_of
download-reason_example =
    download-reason list_prisma sign_plainly other_buyer 95 5 report (shop BusinessStatus.published)
      data_room refl refl

abbrev revoked : Db
revoked = (revoke_access list_prisma sign_plainly seller 95 3 6 data_room).1

revokes : revoke_access list_prisma sign_plainly seller 95 3 6 data_room ≡ (ok tt, revoked)
unfolding revoke_access get_owned_document owner_of log_access
revokes = refl

revoke_access-ends_example : may_read other_buyer report 1 7 revoked ≡ false
revoke_access-ends_example =
    revoke_access-ends list_prisma sign_plainly seller other_buyer report 1 6 7 data_room revokes
      refl refl refl refl
