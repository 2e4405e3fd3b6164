-- ===== src/Businesses/Admin.antt =====
-- The methods of src/admin/admin.service.ts that change a business. The listings of `AdminService`
-- are left out.
use idea_project.Base.{ℕ, Bool, ◌&&◌, Option, none, some, List, [], ◌∷◌, String, ◌==◌, nat_eq}
use idea_project.Schema.{
  Db, Business, BusinessStatus, business_status_eq, ListingStatus, NotificationType, key,
  maybe_text,
}
use idea_project.Common.{
  Action, ok, Error, AuthenticatedUser, ErrorCode, not_found_exception, ◌>>=◌, ◌>>◌, pure, gets,
  raise_if, modify, or_raise,
}
use idea_project.Common.Prisma.{Prisma}
use idea_project.Common.Notify.{notify, record_event}
use idea_project.Businesses.Service.{is_business, set_status, update_business, update_listing_of}

-- `{ id: businessId, status: fromStatus }`
abbrev pub is_in_status : ℕ → BusinessStatus → Business → Bool
is_in_status id status b = b.id == id && b.status == status

module _ (prisma : Prisma) where
  abbrev pub change_businesses : (Business → Bool) → (Business → Business) → Action ℕ
  change_businesses p f s =
      let r : List Business × ℕ = prisma.update_many p f s.businesses in
      (ok r.1, record s { businesses = r.0 })

  unfoldable pub transition_business : ℕ → BusinessStatus → BusinessStatus → Action Business
  transition_business id from to = do
    n ← change_businesses (is_in_status id from) (set_status to)
    raise_if (n == 0) (not_found_exception ErrorCode.business_not_found)
    found ← gets λ s. prisma.find_first (is_business id) s.businesses
    or_raise found Error.record_not_found

  unfoldable pub record_admin_action : AuthenticatedUser → String → ℕ → Option String → Db → Db
  record_admin_action admin action id reason s =
      record_event prisma
        (record {
          user_id = some admin.id;
          action = action;
          target_type = "Business";
          target_id = id;
          ip_address = none;
          metadata = ("reason", maybe_text reason) ∷ [];
        })
        (record s {
          outbox = record s.outbox {
            admin_actions =
                prisma.create
                  (record {
                    actor_id = admin.id;
                    action = action;
                    target_type = "Business";
                    target_id = id;
                    reason = reason;
                  })
                  s.outbox.admin_actions;
          };
        })

  abbrev tell_owner : ℕ → String → Option String → ℕ → Db → Db
  tell_owner owner_id title body id = notify prisma (record {
    user_id = owner_id;
    type = NotificationType.verification_update;
    title = title;
    body = body;
    metadata = ("businessId", key id) ∷ [];
  })

  unfoldable pub approve_business : AuthenticatedUser → ℕ → Option String → ℕ → Action Business
  unfolding transition_business record_admin_action
  approve_business admin id reason now = do
    business ← transition_business id BusinessStatus.pending_review BusinessStatus.published
    update_listing_of prisma id
        (λ l. record l { status = ListingStatus.published; published_at = some now })
    modify (record_admin_action admin "BUSINESS_APPROVED" id reason)
    modify (tell_owner business.owner_id "Your business listing was approved" none id)
    pure business

  unfoldable pub reject_business : AuthenticatedUser → ℕ → Option String → Action Business
  unfolding transition_business record_admin_action
  reject_business admin id reason = do
    business ← transition_business id BusinessStatus.pending_review BusinessStatus.rejected
    modify (record_admin_action admin "BUSINESS_REJECTED" id reason)
    modify (tell_owner business.owner_id "Your business listing was rejected" reason id)
    pure business

  unfoldable pub suspend_business : AuthenticatedUser → ℕ → Option String → Action (Unit {0})
  unfolding record_admin_action
  suspend_business admin id reason = do
    found ← gets λ s. prisma.find_first (is_business id) s.businesses
    business ← or_raise found (not_found_exception ErrorCode.business_not_found)
    update_business prisma id (set_status BusinessStatus.suspended)
    update_listing_of prisma id (λ l. record l { status = ListingStatus.suspended })
    modify (record_admin_action admin "BUSINESS_SUSPENDED" id reason)
    modify (tell_owner business.owner_id "Your business listing was suspended" reason id)
