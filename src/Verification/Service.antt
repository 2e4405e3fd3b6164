-- ===== src/Verification/Service.antt =====
-- src/verification/verification.service.ts
use idea_project.Base.{
  ℕ, Bool, not, ◌&&◌, Option, none, some, List, [], ◌∷◌, String, ◌==◌, nat_eq, is_some,
}
use idea_project.Schema.{
  Db, Business, BusinessVerification, VerificationItem, VerificationEventType, VerificationType,
  VerificationStatus, UserRole, user_role_eq, submitted, reviewed, verification_status,
}
use idea_project.Common.{
  Action, ok, err, Error, AuthenticatedUser, ErrorCode, not_found_exception, forbidden_exception,
  ◌>>=◌, ◌>>◌, pure, gets, raise_if, or_raise, modify, keep,
}
use idea_project.Common.Prisma.{Prisma}
use idea_project.Common.Notify.{record_event}
use idea_project.Businesses.Service.{is_business}

-- src/verification/dto
pub record VerificationItemInput : Type 0 where
  pub label : String
  pub value : Option String
  pub document_id : Option ℕ

pub record SubmitVerificationDto : Type 0 where
  pub type : VerificationType
  pub items : Option (List VerificationItemInput)

pub data ReviewStatus : Type 0 where
  verified rejected in_review : ReviewStatus

pub record ReviewVerificationDto : Type 0 where
  pub status : ReviewStatus
  pub note : Option String

abbrev pub new_status : ReviewStatus → VerificationStatus
new_status ReviewStatus.verified = VerificationStatus.verified
new_status ReviewStatus.rejected = VerificationStatus.rejected
new_status ReviewStatus.in_review = VerificationStatus.in_review

abbrev is_existing : Business → Bool
is_existing b = not (is_some b.deleted_at)

-- `business.ownerId !== user.id && user.role !== ADMIN`
abbrev pub is_foreign : AuthenticatedUser → Business → Bool
is_foreign user b = not (b.owner_id == user.id) && not (user.role == UserRole.admin)

abbrev pub is_verification : ℕ → BusinessVerification → Bool
is_verification id v = v.id == id

abbrev pub set_verification_status :
    VerificationStatus → BusinessVerification → BusinessVerification
set_verification_status status v = record v { status = status }

abbrev pub new_verification : ℕ → VerificationType → ℕ → BusinessVerification
new_verification business_id type id = record {
  id = id;
  business_id = business_id;
  type = type;
  status = VerificationStatus.pending;
}

-- The rows of the nested `create` of the items, one after another.
unfoldable pub add_items :
    ℕ → List VerificationItemInput → List VerificationItem → List VerificationItem
add_items id [] t = t
add_items id (i ∷ is) t = add_items id is (
    (record { verification_id = id; label = i.label; value = i.value; document_id = i.document_id })
    ∷ t)

abbrev pub items_of : Option (List VerificationItemInput) → List VerificationItemInput
items_of none = []
items_of (some is) = is

module _ (prisma : Prisma) where
  abbrev pub add_event : ℕ → VerificationEventType → Option String → Option ℕ → Db → Db
  add_event id type note reviewer_id s = record s {
    evidence = record s.evidence {
      verification_events =
          prisma.create
            (record { verification_id = id; type = type; note = note; reviewer_id = reviewer_id })
            s.evidence.verification_events;
    };
  }

  unfoldable pub submit :
      AuthenticatedUser → ℕ → SubmitVerificationDto → ℕ → Action BusinessVerification
  submit user business_id dto id = do
    found ← gets λ s. prisma.find_first (is_business business_id) s.businesses
    business ← or_raise (keep is_existing found) (not_found_exception ErrorCode.business_not_found)
    raise_if (is_foreign user business) (forbidden_exception ErrorCode.business_access_denied)
    modify λ s. record s {
      evidence = record s.evidence {
        verifications =
            prisma.create (new_verification business_id dto.type id) s.evidence.verifications;
        verification_items = add_items id (items_of dto.items) s.evidence.verification_items;
      };
    }
    modify (add_event id submitted none none)
    modify (
        record_event prisma (record {
          user_id = some user.id;
          action = "VERIFICATION_SUBMITTED";
          target_type = "BusinessVerification";
          target_id = id;
          ip_address = none;
          metadata = [];
        }))
    pure (new_verification business_id dto.type id)

  -- The items and events that are joined, and the order of the answer, are left out.
  unfoldable pub list_for_business : ℕ → Action (List BusinessVerification)
  list_for_business business_id =
      gets λ s. prisma.find_many (λ v. v.business_id == business_id) s.evidence.verifications

  abbrev save_verifications : Option (List BusinessVerification) → Action (Unit {0})
  save_verifications none s = (err Error.record_not_found, s)
  save_verifications (some t) s =
      (ok tt, record s { evidence = record s.evidence { verifications = t } })

  unfoldable pub review :
      AuthenticatedUser → ℕ → ReviewVerificationDto → Action BusinessVerification
  review reviewer verification_id dto = do
    found ← gets λ s. prisma.find_first (is_verification verification_id) s.evidence.verifications
    verification ← or_raise found (not_found_exception ErrorCode.not_found_error)
    λ s.
        save_verifications
          (prisma.update (is_verification verification_id)
            (set_verification_status (new_status dto.status)) s.evidence.verifications)
          s
    modify
        (add_event verification_id (reviewed (new_status dto.status)) dto.note (some reviewer.id))
    modify (
        record_event prisma (record {
          user_id = some reviewer.id;
          action = "VERIFICATION_REVIEWED";
          target_type = "BusinessVerification";
          target_id = verification_id;
          ip_address = none;
          metadata = ("status", verification_status (new_status dto.status)) ∷ [];
        }))
    pure (set_verification_status (new_status dto.status) verification)
