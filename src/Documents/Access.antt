-- ===== src/Documents/Access.antt =====
-- Who may download a document, and what revoking a grant takes away
-- (src/documents/documents.service.ts).
use idea_project.Base.{
  ◌⊎◌, Bool-cases, inl, inr, ℕ, ◌≡◌, ◌≤◌, refl, true, false, ◌==◌, nat_eq, any, some, Option, List,
  [], ◌∷◌, arith, update_where, String,
}
use idea_project.Schema.{
  Db, Business, BusinessDocument, DocumentAccess, DocumentAccessAction, UserRole, user_role_eq,
  DocumentCategory, DocumentVisibility, DealParticipant,
}
use idea_project.Common.{AuthenticatedUser, ok, err, keep, forbidden_exception, ErrorCode}
use idea_project.Common.Prisma.{Prisma}
use idea_project.Deals.Service.{is_participant}
use idea_project.Documents.Reasons.{Reason, reason, no_reason}
use idea_project.Documents.Service.{
  get_signed_download_url, get_accessible_document, revoke_access, may_read, is_kept,
  has_document_id, owner_of, is_valid_grant, is_grant, revoke_grant, is_in_deal, upload,
  UploadedFilePayload, UploadDocumentDto, is_allowed_mime_type, max_file_size_bytes, is_existing,
  new_document, get_owned_document, log_access,
}

revoked_invalid :
    (document_id grantee_id now later : ℕ) (gs : List DocumentAccess)
    → any
        (is_valid_grant document_id grantee_id later)
        (update_where (is_grant document_id grantee_id) (revoke_grant now) gs)
      ≡ false
revoked_invalid document_id grantee_id now later [] = refl
revoked_invalid document_id grantee_id now later (g ∷ gs) =
    ground (arith, revoked_invalid document_id grantee_id now later gs)

module _ (prisma : Prisma) (sign_url : ℕ → String) where
  -- For a document that is there with its business, a download that the reader has a reason for gives
  -- the signed address of the document's object and logs the download; and a download is answered only
  -- for such a reader, and otherwise with DOCUMENT_ACCESS_DENIED, and nothing changes.
  pub download-reason :
      (user : AuthenticatedUser) (document_id now : ℕ) (d : BusinessDocument) (b : Business)
      (s : Db)
      → keep is_kept (prisma.find_first (has_document_id document_id) s.documents) ≡ some d
      → owner_of prisma sign_url d s ≡ some b
      → (Reason user d b.owner_id now s
          × (get_signed_download_url prisma sign_url user document_id now s ≡ (
            ok (sign_url d.storage_key),
            record s {
              access_logs =
                  (record {
                    document_id = d.id;
                    user_id = user.id;
                    action = DocumentAccessAction.downloaded;
                  })
                  ∷ s.access_logs;
            },
          )))
        ⊎ (¬ Reason user d b.owner_id now s
            × (get_signed_download_url prisma sign_url user document_id now s
                ≡ (err (forbidden_exception ErrorCode.document_access_denied), s)))
  unfolding get_signed_download_url get_accessible_document owner_of log_access
  download-reason user document_id now d b s found joined =
      elim (Bool-cases (may_read user d b.owner_id now s)) [
        | inl allowed ↦ inl (
          reason user d b.owner_id now s allowed,
          ground (
            arith,
            prisma.create_lem
                (record {
                  document_id = d.id;
                  user_id = user.id;
                  action = DocumentAccessAction.downloaded;
                })
                s.access_logs,
          ),
        )
        | inr refused ↦ inr (no_reason user d b.owner_id now s refused, ground arith)
      ]

  -- After a revocation that succeeds, no grant to the person for the document is valid, at any time:
  -- who is neither the owner of the business, the uploader, an administrator nor in the document's
  -- deal may not read it.
  pub revoke_access-ends :
      (user grantee : AuthenticatedUser) (d : BusinessDocument) (owner_id now later : ℕ) (s : Db)
      {s' : Db}
      → revoke_access prisma sign_url user d.id grantee.id now s ≡ (ok tt, s')
      → (owner_id == grantee.id) ≡ false
      → (d.uploaded_by_id == grantee.id) ≡ false
      → (grantee.role == UserRole.admin) ≡ false
      → is_in_deal d.deal_id grantee.id s.participants ≡ false
      → may_read grantee d owner_id later s' ≡ false
  unfolding revoke_access may_read get_owned_document owner_of log_access
  revoke_access-ends user grantee d owner_id now later s e owner uploader admin member = ground (
    arith,
    prisma.update_many_lem (is_grant d.id grantee.id) (revoke_grant now) s.access_grants,
    revoked_invalid d.id grantee.id now later s.access_grants,
  )

  -- An upload that succeeds is of an allowed type and of at most 25 MB, and adds one row, which belongs
  -- to the named business and to the uploader.
  upload-checks :
      (user : AuthenticatedUser) (business_id : ℕ) (file : UploadedFilePayload)
      (dto : UploadDocumentDto) (storage_key id : ℕ) (s : Db) {d : BusinessDocument} {s' : Db}
      → upload prisma sign_url user business_id file dto storage_key id s ≡ (ok d, s')
      → (is_allowed_mime_type file.mime_type ≡ true)
        × (file.size ≤ max_file_size_bytes)
        × (d.uploaded_by_id ≡ user.id)
        × (d.business_id ≡ business_id)
        × (s'.documents ≡ d ∷ s.documents)
  unfolding upload log_access
  upload-checks user business_id file dto storage_key id s e =
      ground (
        arith,
        prisma.create_lem (new_document user business_id file dto storage_key id) s.documents,
      )

  -- A document filed under a deal is checked against the deal alone: a member of any deal may add a
  -- document of an allowed type and size to every business that is not deleted, whichever business
  -- the deal is about and whoever owns it.
  upload-deal_member :
      (user : AuthenticatedUser) (business_id deal_id : ℕ) (file : UploadedFilePayload)
      (category : Option DocumentCategory) (visibility : Option DocumentVisibility)
      (storage_key id : ℕ) (p : DealParticipant) (b : Business) (s : Db)
      → is_allowed_mime_type file.mime_type ≡ true
      → file.size ≤ max_file_size_bytes
      → keep is_existing (prisma.find_first (λ b. b.id == business_id) s.businesses) ≡ some b
      → prisma.find_first (is_participant deal_id user.id) s.participants ≡ some p
      → (upload prisma sign_url user business_id file
          (record { deal_id = some deal_id; category = category; visibility = visibility })
          storage_key
          id
          s).0
        ≡ ok (
            new_document user business_id file
              (record { deal_id = some deal_id; category = category; visibility = visibility })
              storage_key
              id)
  unfolding upload log_access
  upload-deal_member user business_id deal_id file category visibility storage_key id p b s mime
        size found member =
      ground arith
