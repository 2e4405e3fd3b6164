-- ===== src/Documents/Service.antt =====
-- src/documents/documents.service.ts: the methods. The object store (src/storage/storage.service.ts) is the
-- list of the keys that were put; a signed address is a parameter, a text for a key.
use idea_project.Base.{
  ℕ, Bool, true, not, ◌&&◌, ◌||◌, Option, none, some, List, [], ◌∷◌, String, ◌==◌, nat_eq, is_some,
  ltb, any,
}
use idea_project.Schema.{
  Db, Business, BusinessDocument, DocumentAccess, DocumentAccessAction, user_role_eq,
}
use idea_project.Common.{
  Action, ok, err, Error, AuthenticatedUser, ErrorCode, HttpStatus, app, not_found_exception,
  forbidden_exception, ◌>>=◌, ◌>>◌, pure, gets, raise_if, modify, or_raise, keep,
}
use idea_project.Common.Prisma.{Prisma}
use idea_project.Common.Notify.{record_event}
use idea_project.Deals.Service.{is_participant}
pub use idea_project.Documents.Rules.{
  max_file_size_bytes, UploadedFilePayload, UploadDocumentDto, GrantAccessDto, is_existing, is_kept,
  has_document_id, is_grant, owns_or_admin, is_valid_grant, revoke_grant, renew_grant, is_in_deal,
  new_document,
}
unfoldable pub use idea_project.Documents.Rules.{is_allowed_mime_type, may_read}

module _ (prisma : Prisma) (sign_url : ℕ → String) where
  unfoldable pub log_access : ℕ → ℕ → DocumentAccessAction → Db → Db
  log_access document_id user_id action s = record s {
    access_logs =
        prisma.create (record { document_id = document_id; user_id = user_id; action = action })
          s.access_logs;
  }

  -- A member of the deal, or without a deal the owner or an administrator.
  check_uploader : AuthenticatedUser → Business → Option ℕ → Action (Unit {0})
  check_uploader user b none s =
      raise_if (not (owns_or_admin user b.owner_id))
        (forbidden_exception ErrorCode.business_access_denied) s
  check_uploader user b (some deal_id) s =
      raise_if (not (is_some (prisma.find_first (is_participant deal_id user.id) s.participants)))
        (forbidden_exception ErrorCode.deal_access_denied) s

  abbrev audit : AuthenticatedUser → ℕ → Db → Db
  audit user id = record_event prisma (record {
    user_id = some user.id;
    action = "DOCUMENT_UPLOADED";
    target_type = "BusinessDocument";
    target_id = id;
    ip_address = none;
    metadata = [];
  })

  -- `storage_key` is what `buildObjectKey` made.
  unfoldable pub upload :
      AuthenticatedUser
      → ℕ
      → UploadedFilePayload
      → UploadDocumentDto
      → ℕ
      → ℕ
      → Action BusinessDocument
  unfolding check_uploader log_access
  upload user business_id file dto storage_key id = do
    raise_if (not (is_allowed_mime_type file.mime_type))
        (app ErrorCode.document_invalid_file HttpStatus.bad_request)
    raise_if (ltb max_file_size_bytes file.size)
        (app ErrorCode.document_invalid_file HttpStatus.bad_request)
    found ← gets λ s. keep is_existing (prisma.find_first (λ b. b.id == business_id) s.businesses)
    business ← or_raise found (not_found_exception ErrorCode.business_not_found)
    check_uploader user business dto.deal_id
    let document = new_document user business_id file dto storage_key id
    modify λ s. record s {
      documents = prisma.create document s.documents;
      outbox = record s.outbox { stored_objects = storage_key ∷ s.outbox.stored_objects };
    }
    modify (log_access id user.id DocumentAccessAction.uploaded)
    modify (audit user id)
    pure document

  -- The business of a document, which a foreign key makes exist; `none` is a missing row.
  unfoldable pub owner_of : BusinessDocument → Db → Option Business
  owner_of d s = prisma.find_first (λ b. b.id == d.business_id) s.businesses

  unfoldable pub get_accessible_document : AuthenticatedUser → ℕ → ℕ → Action BusinessDocument
  unfolding owner_of
  get_accessible_document user document_id now = do
    found ← gets λ s. keep is_kept (prisma.find_first (has_document_id document_id) s.documents)
    document ← or_raise found (not_found_exception ErrorCode.document_not_found)
    joined ← gets (owner_of document)
    business ← or_raise joined Error.record_not_found
    allowed ← gets (may_read user document business.owner_id now)
    raise_if (not allowed) (forbidden_exception ErrorCode.document_access_denied)
    pure document

  unfoldable pub get_signed_download_url : AuthenticatedUser → ℕ → ℕ → Action String
  unfolding log_access
  get_signed_download_url user document_id now = do
    document ← get_accessible_document user document_id now
    modify (log_access document.id user.id DocumentAccessAction.downloaded)
    pure (sign_url document.storage_key)

  -- The owner of the business, or an administrator; `filter` says which documents count.
  unfoldable pub get_owned_document :
      (BusinessDocument → Bool) → AuthenticatedUser → ℕ → Action BusinessDocument
  unfolding owner_of
  get_owned_document filter user document_id = do
    found ← gets λ s. keep filter (prisma.find_first (has_document_id document_id) s.documents)
    document ← or_raise found (not_found_exception ErrorCode.document_not_found)
    joined ← gets (owner_of document)
    business ← or_raise joined Error.record_not_found
    raise_if (not (owns_or_admin user business.owner_id))
        (forbidden_exception ErrorCode.document_access_denied)
    pure document

  unfoldable pub grant_access : AuthenticatedUser → ℕ → GrantAccessDto → Action (Unit {0})
  unfolding log_access get_owned_document
  grant_access user document_id dto = do
    get_owned_document is_kept user document_id
    modify λ s. record s {
      access_grants =
          prisma.upsert (is_grant document_id dto.grantee_id)
            (record {
              document_id = document_id;
              grantee_id = dto.grantee_id;
              granted_by_id = user.id;
              expires_at = dto.expires_at;
              revoked_at = none;
            })
            (renew_grant dto.expires_at) s.access_grants;
    }
    modify (log_access document_id user.id DocumentAccessAction.access_granted)

  -- A deleted document's grants can be revoked too.
  unfoldable pub revoke_access : AuthenticatedUser → ℕ → ℕ → ℕ → Action (Unit {0})
  unfolding log_access get_owned_document
  revoke_access user document_id grantee_id now = do
    get_owned_document (λ d. true) user document_id
    modify λ s. record s {
      access_grants =
          (prisma.update_many (is_grant document_id grantee_id) (revoke_grant now)
            s.access_grants).0;
    }
    modify (log_access document_id user.id DocumentAccessAction.access_revoked)

  abbrev save_documents : Option (List BusinessDocument) → Action (Unit {0})
  save_documents none s = (err Error.record_not_found, s)
  save_documents (some t) s = (ok tt, record s { documents = t })

  unfoldable pub remove : AuthenticatedUser → ℕ → ℕ → Action (Unit {0})
  unfolding log_access get_owned_document
  remove user document_id now = do
    get_owned_document is_kept user document_id
    λ s.
        save_documents
          (prisma.update (has_document_id document_id) (λ d. record d { deleted_at = some now })
            s.documents)
          s
    modify (log_access document_id user.id DocumentAccessAction.deleted)

  -- `{ granteeId: user.id, revokedAt: null }` of a document: here an expired grant counts.
  abbrev is_listed_grant : ℕ → ℕ → DocumentAccess → Bool
  is_listed_grant document_id user_id g =
      is_grant document_id user_id g && not (is_some g.revoked_at)

  -- Which documents of a business are listed; the order is left out.
  unfoldable pub is_listed : AuthenticatedUser → Business → Db → BusinessDocument → Bool
  is_listed user b s d =
      d.business_id == b.id
      && is_kept d
      && (owns_or_admin user b.owner_id
          || d.uploaded_by_id == user.id
          || any (is_listed_grant d.id user.id) s.access_grants
          || is_in_deal d.deal_id user.id s.participants)

  unfoldable pub list_for_business : AuthenticatedUser → ℕ → Action (List BusinessDocument)
  list_for_business user business_id = do
    found ← gets λ s. prisma.find_first (λ b. b.id == business_id) s.businesses
    business ← or_raise found (not_found_exception ErrorCode.business_not_found)
    gets λ s. prisma.find_many (is_listed user business s) s.documents
