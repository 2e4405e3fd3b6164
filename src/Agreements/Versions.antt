-- ===== src/Agreements/Versions.antt =====
-- The numbering of the versions of an agreement, and its signatures.
use idea_project.Base.{
  ℕ, ◌≡◌, ◌<◌, refl, Bool, true, false, ◌&&◌, ◌==◌, nat_eq, any, some, List, [], ◌∷◌, arith,
  update_where, count, filter, leb, if◌then◌else◌,
}
use idea_project.Base.Updates.{update_where-same, any-of_Elem}
use idea_project.Schema.{
  Db, Agreement, AgreementStatus, agreement_status_eq, AgreementVersion, AgreementSignature,
  DealParticipant,
}
use idea_project.Common.{AuthenticatedUser, ok}
use idea_project.Common.Prisma.{Prisma}
use idea_project.Deals.Service.{assert_participant, add_timeline_event, is_participant}
use idea_project.Agreements.Service.{
  add_version, sign, get_agreement, latest_version, is_version_of, is_agreement, is_agreement_in,
  new_version, is_same_version, CreateAgreementVersionDto, set_agreement_status, is_signature,
  is_signature_of, is_principal, new_signature,
}

abbrev has_version_id : ℕ → AgreementVersion → Bool
has_version_id id v = v.id == id

-- A version of the agreement with a number of at least `n`.
abbrev pub is_version_from : ℕ → ℕ → AgreementVersion → Bool
is_version_from agreement_id n v = is_version_of agreement_id v && leb n v.version

-- No version of the agreement has a number above the latest.
latest_version-bound :
    (agreement_id n : ℕ) (vs : List AgreementVersion)
    → latest_version (filter (is_version_of agreement_id) vs) < n
    → any (is_version_from agreement_id n) vs ≡ false
unfolding latest_version
latest_version-bound agreement_id n [] h = refl
latest_version-bound agreement_id n (v ∷ vs) h =
    ground (arith, latest_version-bound agreement_id n vs)

-- So the number after it is free.
next_number-free :
    (v : AgreementVersion) (vs : List AgreementVersion)
    → any (has_version_id v.id) vs ≡ false
    → any (is_version_from v.agreement_id v.version) vs ≡ false
    → any (is_same_version v) vs ≡ false
next_number-free v [] h e = refl
next_number-free v (w ∷ ws) h e = ground (arith, next_number-free v ws)

-- The signatures with one more, unless it is there.
abbrev pub signed : ℕ → ℕ → List AgreementSignature → List AgreementSignature
signed version_id user_id gs =
    if any (is_signature version_id user_id) gs
    then gs
    else (record { agreement_version_id = version_id; user_id = user_id }) ∷ gs

module _ (prisma : Prisma) where
  -- When a member of the deal adds a version, under a new identifier, to an agreement of the deal,
  -- the call succeeds: the unique index on the agreement and the number never refuses it. The new
  -- row is the answer, no version of the agreement had its number or a higher one, and the
  -- agreement waits for signatures.
  pub add_version-numbers :
      (user : AuthenticatedUser) (deal_id agreement_id : ℕ) (dto : CreateAgreementVersionDto)
      (id : ℕ) (p : DealParticipant) (a : Agreement) (s : Db)
      → prisma.find_first (is_participant deal_id user.id) s.participants ≡ some p
      → prisma.find_first (is_agreement_in agreement_id deal_id) s.agreements ≡ some a
      → any (has_version_id id) s.agreement_versions ≡ false
      → (v : AgreementVersion) × ((add_version prisma user deal_id agreement_id dto id s).0 ≡ ok v)
        × ((add_version prisma user deal_id agreement_id dto id s).1.agreement_versions
            ≡ v ∷ s.agreement_versions)
        × (v.agreement_id ≡ agreement_id)
        × (any (is_version_from agreement_id v.version) s.agreement_versions ≡ false)
        × ((add_version prisma user deal_id agreement_id dto id s).1.agreements
            ≡ update_where
                (is_agreement agreement_id)
                (set_agreement_status AgreementStatus.pending_signature)
                s.agreements)
  unfolding add_version assert_participant get_agreement add_timeline_event
  add_version-numbers user deal_id agreement_id dto id p a s member found fresh =
      let v = new_version prisma user agreement_id dto id s.agreement_versions in
      let (here, at) =
        prisma.find_first-some (is_agreement_in agreement_id deal_id) s.agreements a found in
      let there = any-of_Elem (is_agreement agreement_id) a s.agreements at (ground arith) in
      let all = prisma.find_many_lem (is_version_of agreement_id) s.agreement_versions in
      let above : any (is_version_from agreement_id v.version) s.agreement_versions ≡ false =
        latest_version-bound agreement_id v.version s.agreement_versions (ground (arith, all)) in
      let free = next_number-free v s.agreement_versions fresh above in
      let insert = prisma.create_unique_lem (is_same_version v) v s.agreement_versions in
      let change =
        prisma.update_lem (is_agreement agreement_id)
          (set_agreement_status AgreementStatus.pending_signature) s.agreements in
      (
        v,
        ground (arith, free, insert, change, there),
        ground (arith, free, insert, change, there),
        refl,
        above,
        ground (arith, free, insert, change, there),
      )

  -- When a member of the deal signs a version that is in the table under an agreement of the deal that
  -- is not void, the call succeeds, whichever agreement the version belongs to. The signature is added unless it is there already, and the agreement is SIGNED
  -- exactly when the version has then at least as many signatures as the deal has buyers and
  -- sellers, and PARTIALLY_SIGNED otherwise.
  pub sign-counts :
      (user : AuthenticatedUser) (deal_id agreement_id version_id : ℕ) (p : DealParticipant)
      (a : Agreement) (s : Db)
      → prisma.find_first (is_participant deal_id user.id) s.participants ≡ some p
      → prisma.find_first (is_agreement_in agreement_id deal_id) s.agreements ≡ some a
      → (a.status == AgreementStatus.void) ≡ false
      → any (has_version_id version_id) s.agreement_versions ≡ true
      → ((sign prisma user deal_id agreement_id version_id s).0 ≡ ok tt)
        × ((sign prisma user deal_id agreement_id version_id s).1.signatures
            ≡ signed version_id user.id s.signatures)
        × ((sign prisma user deal_id agreement_id version_id s).1.agreements
            ≡ update_where
                (is_agreement agreement_id)
                (λ x. record x {
                  status =
                      if leb (count (is_principal deal_id) s.participants) (
                        count (is_signature_of version_id) (signed version_id user.id s.signatures))
                      then AgreementStatus.signed
                      else AgreementStatus.partially_signed;
                })
                s.agreements)
  unfolding sign assert_participant get_agreement add_timeline_event
  sign-counts user deal_id agreement_id version_id p a s member found valid exists =
      let (here, at) =
        prisma.find_first-some (is_agreement_in agreement_id deal_id) s.agreements a found in
      let there = any-of_Elem (is_agreement agreement_id) a s.agreements at (ground arith) in
      let sigs = signed version_id user.id s.signatures in
      let upsert : prisma.upsert (is_signature version_id user.id)
            (new_signature version_id user.id) (λ g. g) s.signatures
          ≡ sigs =
        ground (
          arith,
          prisma.upsert_lem (is_signature version_id user.id) (new_signature version_id user.id)
              (λ g. g) s.signatures,
          update_where-same (is_signature version_id user.id) s.signatures,
        ) in
      let principals = prisma.count_where_lem (is_principal deal_id) s.participants in
      let counted = prisma.count_where_lem (is_signature_of version_id) sigs in
      let status =
        (if leb (count (is_principal deal_id) s.participants)
            (count (is_signature_of version_id) sigs)
          then AgreementStatus.signed
          else AgreementStatus.partially_signed) in
      let change =
        prisma.update_lem (is_agreement agreement_id) (set_agreement_status status) s.agreements in
      (
        ground (arith, upsert, principals, counted, change, there, exists),
        ground (arith, upsert, principals, counted, change, there, exists),
        ground (arith, upsert, principals, counted, change, there, exists),
      )
