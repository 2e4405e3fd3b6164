-- ===== src/Verification/Review.antt =====
-- What makes a business count as verified (src/verification/verification.service.ts and the search of
-- src/listings/listings.service.ts).
use idea_project.Base.{
  ℕ, ◌≡◌, true, not, ◌&&◌, ◌||◌, some, List, [], ◌∷◌, ◌==◌, nat_eq, any, update_where, arith, inl,
  inr, Elem,
}
use idea_project.Base.Updates.{any-of_Elem}
use idea_project.Schema.{
  Db, BusinessVerification, VerificationStatus, verification_status_eq, VerificationEvent, reviewed,
}
use idea_project.Common.{AuthenticatedUser, ok}
use idea_project.Common.Prisma.{Prisma}
use idea_project.Search.Listings.{is_verified}
use idea_project.Verification.Service.{
  submit, review, SubmitVerificationDto, ReviewVerificationDto, new_status, new_verification,
  is_verification, set_verification_status,
}

verified_update :
    (id : ℕ) (v : BusinessVerification) (vs : List BusinessVerification)
    → Elem v vs
    → is_verification id v ≡ true
    → any
        (λ r. r.business_id == v.business_id && r.status == VerificationStatus.verified)
        (update_where (is_verification id) (set_verification_status VerificationStatus.verified) vs)
      ≡ true
verified_update id v [] m e = absurd m
verified_update id v (x ∷ vs) (inl same) e = ground arith
verified_update id v (x ∷ vs) (inr m) e = ground (arith, verified_update id v vs m e)

module _ (prisma : Prisma) where
  -- A submission proves nothing by itself: whether a business counts as verified in the search is the
  -- same before and after it, for every business.
  submit-proves_nothing :
      (user : AuthenticatedUser) (business_id : ℕ) (dto : SubmitVerificationDto) (id k : ℕ) (s : Db)
      → is_verified k (submit prisma user business_id dto id s).1.evidence.verifications
        ≡ is_verified k s.evidence.verifications
  unfolding submit is_verified
  submit-proves_nothing user business_id dto id k s =
      ground (
        arith,
        prisma.create_lem (new_verification business_id dto.type id) s.evidence.verifications,
      )

  -- A review of a verification that is found succeeds whoever makes it, its own submitter included,
  -- and whatever the status was: it sets the status, adds one event with the reviewer, and with the status
  -- VERIFIED makes the business count as verified in the search.
  review-sets :
      (reviewer : AuthenticatedUser) (id : ℕ) (dto : ReviewVerificationDto)
      (v : BusinessVerification) (s : Db)
      → prisma.find_first (is_verification id) s.evidence.verifications ≡ some v
      → ((review prisma reviewer id dto s).0
          ≡ ok (set_verification_status (new_status dto.status) v))
        × ((review prisma reviewer id dto s).1.evidence.verifications
            ≡ update_where
                (is_verification id)
                (set_verification_status (new_status dto.status))
                s.evidence.verifications)
        × ((review prisma reviewer id dto s).1.evidence.verification_events
            ≡ (record {
              verification_id = id;
              type = reviewed (new_status dto.status);
              note = dto.note;
              reviewer_id = some reviewer.id;
            })
              ∷ s.evidence.verification_events)
        × (not (new_status dto.status == VerificationStatus.verified)
              || is_verified v.business_id
                  (review prisma reviewer id dto s).1.evidence.verifications
            ≡ true)
  unfolding review is_verified
  review-sets reviewer id dto v s found =
      let t = s.evidence.verifications in
      let (hit, at) = prisma.find_first-some (is_verification id) t v found in
      let event : VerificationEvent = record {
        verification_id = id;
        type = reviewed (new_status dto.status);
        note = dto.note;
        reviewer_id = some reviewer.id;
      } in
      ground (
        arith,
        any-of_Elem (is_verification id) v t at hit,
        prisma.update_lem (is_verification id) (set_verification_status (new_status dto.status)) t,
        prisma.create_lem event s.evidence.verification_events,
        verified_update id v t at hit,
      )
