-- ===== src/Documents/Rules.antt =====
-- What src/documents/documents.service.ts asks of a file, and who may read a document.
use package.text.Mathlib.Text.{◌==◌ as str_eq}
use idea_project.Base.{
  ℕ, ◌*◌, Bool, true, false, not, ◌&&◌, ◌||◌, Option, none, some, List, [], ◌∷◌, String, ◌==◌,
  nat_eq, is_some, ltb, or_else, or_maybe, any,
}
use idea_project.Schema.{
  Db, Business, BusinessDocument, DocumentAccess, DocumentCategory, DocumentVisibility,
  DealParticipant, UserRole, user_role_eq,
}
use idea_project.Common.{AuthenticatedUser}
use idea_project.Deals.Service.{is_participant}

abbrev allowed_mime_types : List String
allowed_mime_types =
    "application/pdf" ∷ "image/png" ∷ "image/jpeg" ∷ "image/webp" ∷ "text/plain" ∷ "text/csv"
    ∷ "application/vnd.openxmlformats-officedocument.spreadsheetml.sheet"
    ∷ "application/vnd.openxmlformats-officedocument.wordprocessingml.document" ∷ "application/zip"
    ∷ []

-- `ALLOWED_MIME_TYPES.has(mimetype)`
unfoldable pub is_allowed_mime_type : String → Bool
is_allowed_mime_type mime = any (λ t. str_eq t mime) allowed_mime_types

abbrev pub max_file_size_bytes : ℕ
max_file_size_bytes = 25 * 1024 * 1024

-- `UploadedFilePayload`, and src/documents/dto.
pub record UploadedFilePayload : Type 0 where
  pub original_name : String
  pub mime_type : String
  pub size : ℕ

pub record UploadDocumentDto : Type 0 where
  pub deal_id : Option ℕ
  pub category : Option DocumentCategory
  pub visibility : Option DocumentVisibility

pub record GrantAccessDto : Type 0 where
  pub grantee_id : ℕ
  pub expires_at : Option ℕ

abbrev pub is_existing : Business → Bool
is_existing b = not (is_some b.deleted_at)

abbrev pub is_kept : BusinessDocument → Bool
is_kept d = not (is_some d.deleted_at)

abbrev pub has_document_id : ℕ → BusinessDocument → Bool
has_document_id id d = d.id == id

-- `{ documentId_granteeId: { documentId, granteeId } }`
abbrev pub is_grant : ℕ → ℕ → DocumentAccess → Bool
is_grant document_id grantee_id g = g.document_id == document_id && g.grantee_id == grantee_id

-- `business.ownerId === user.id || user.role === ADMIN`
abbrev pub owns_or_admin : AuthenticatedUser → ℕ → Bool
owns_or_admin user owner_id = owner_id == user.id || user.role == UserRole.admin

-- `!grant.expiresAt || grant.expiresAt > new Date()`
abbrev is_unexpired : Option ℕ → ℕ → Bool
is_unexpired none now = true
is_unexpired (some t) now = ltb now t

abbrev pub is_valid_grant : ℕ → ℕ → ℕ → DocumentAccess → Bool
is_valid_grant document_id user_id now g =
    is_grant document_id user_id g && not (is_some g.revoked_at) && is_unexpired g.expires_at now

abbrev pub revoke_grant : ℕ → DocumentAccess → DocumentAccess
revoke_grant now g = record g { revoked_at = some now }

-- An undefined `expiresAt` leaves the column alone.
abbrev pub renew_grant : Option ℕ → DocumentAccess → DocumentAccess
renew_grant expires_at g = record g {
  revoked_at = none;
  expires_at = or_maybe expires_at g.expires_at;
}

abbrev pub is_in_deal : Option ℕ → ℕ → List DealParticipant → Bool
is_in_deal none user_id ps = false
is_in_deal (some deal_id) user_id ps = any (is_participant deal_id user_id) ps

-- `isOwner`, `isUploader`, `isAdmin`, `isDealParticipant`, `hasExplicitGrant`
unfoldable pub may_read : AuthenticatedUser → BusinessDocument → ℕ → ℕ → Db → Bool
may_read user d owner_id now s =
    owner_id == user.id
    || d.uploaded_by_id == user.id
    || user.role == UserRole.admin
    || is_in_deal d.deal_id user.id s.participants
    || any (is_valid_grant d.id user.id now) s.access_grants

abbrev pub new_document :
    AuthenticatedUser → ℕ → UploadedFilePayload → UploadDocumentDto → ℕ → ℕ → BusinessDocument
new_document user business_id file dto storage_key id = record {
  id = id;
  business_id = business_id;
  deal_id = dto.deal_id;
  uploaded_by_id = user.id;
  name = file.original_name;
  mime_type = file.mime_type;
  size = file.size;
  storage_key = storage_key;
  category = or_else dto.category DocumentCategory.other;
  visibility = or_else dto.visibility DocumentVisibility.private;
  deleted_at = none;
}
