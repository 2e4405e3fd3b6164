-- ===== src/Agreements/Service.antt =====
-- src/agreements/agreements.service.ts
use idea_project.Base.{
  ℕ, ◌+◌, Bool, true, false, not, any, ◌&&◌, Option, none, some, List, [], ◌∷◌, String, ◌==◌,
  nat_eq, includes, or_else, if◌then◌else◌, leb,
}
use idea_project.Schema.{
  Db, Agreement, AgreementStatus, agreement_status_eq, AgreementVersion, AgreementSignature,
  DealParticipant, DealParticipantRole, deal_participant_role_eq, key,
}
use idea_project.Common.{
  Action, ok, err, Error, AuthenticatedUser, ErrorCode, not_found_exception, conflict_exception,
  ◌>>=◌, ◌>>◌, pure, gets, raise_if, modify, or_raise,
}
use idea_project.Common.Prisma.{Prisma}
use idea_project.Deals.Service.{assert_participant, add_timeline_event}

-- src/agreements/dto/create-version.dto.ts
pub record CreateAgreementVersionDto : Type 0 where
  pub content_url : Option String
  pub content_hash : Option String

abbrev pub is_agreement : ℕ → Agreement → Bool
is_agreement id a = a.id == id

abbrev pub is_agreement_in : ℕ → ℕ → Agreement → Bool
is_agreement_in id deal_id a = a.id == id && a.deal_id == deal_id

abbrev pub is_version_of : ℕ → AgreementVersion → Bool
is_version_of agreement_id v = v.agreement_id == agreement_id

abbrev pub set_agreement_status : AgreementStatus → Agreement → Agreement
set_agreement_status status a = record a { status = status }

-- `findFirst` with `orderBy: { version: 'desc' }`, and `latest?.version ?? 0`.
unfoldable pub latest_version : List AgreementVersion → ℕ
latest_version [] = 0
latest_version (v ∷ vs) =
    let rest : ℕ = latest_version vs in if leb rest v.version then v.version else rest

abbrev pub is_signature : ℕ → ℕ → AgreementSignature → Bool
is_signature version_id user_id g = g.agreement_version_id == version_id && g.user_id == user_id

abbrev pub is_signature_of : ℕ → AgreementSignature → Bool
is_signature_of version_id g = g.agreement_version_id == version_id

-- The foreign key of a new signature refers to no version.
abbrev pub lacks_version : ℕ → ℕ → Db → Bool
lacks_version version_id user_id s =
    not (any (is_signature version_id user_id) s.signatures)
    && not (any (λ v. v.id == version_id) s.agreement_versions)

-- `{ dealId, role: { in: ['BUYER', 'SELLER'] } }`
abbrev pub is_principal : ℕ → DealParticipant → Bool
is_principal deal_id p =
    p.deal_id == deal_id
    && includes (DealParticipantRole.buyer ∷ DealParticipantRole.seller ∷ []) p.role

abbrev pub new_signature : ℕ → ℕ → AgreementSignature
new_signature version_id user_id = record { agreement_version_id = version_id; user_id = user_id }

-- The rows that `@id` and `@@unique([agreementId, version])` keep a new version from.
abbrev pub is_same_version : AgreementVersion → AgreementVersion → Bool
is_same_version v w =
    if w.id == v.id then true else w.agreement_id == v.agreement_id && w.version == v.version

module _ (prisma : Prisma) where
  unfoldable pub create : AuthenticatedUser → ℕ → String → Option Bool → ℕ → Action Agreement
  create user deal_id title generated_by_ai id = do
    assert_participant prisma user.id deal_id
    let agreement : Agreement = record {
      id = id;
      deal_id = deal_id;
      title = title;
      status = AgreementStatus.draft;
      generated_by_ai = or_else generated_by_ai false;
      review_required = true;
    }
    modify λ s. record s { agreements = prisma.create agreement s.agreements }
    modify (
        add_timeline_event prisma deal_id "AGREEMENT_CREATED" (some user.id)
          (("agreementId", key id) ∷ []))
    pure agreement

  -- The versions and signatures that are joined, and their order, are left out.
  unfoldable pub list : AuthenticatedUser → ℕ → Action (List Agreement)
  list user deal_id = do
    assert_participant prisma user.id deal_id
    gets λ s. prisma.find_many (λ a. a.deal_id == deal_id) s.agreements

  unfoldable pub get_agreement : ℕ → ℕ → Action Agreement
  get_agreement deal_id agreement_id s =
      or_raise (prisma.find_first (is_agreement_in agreement_id deal_id) s.agreements)
        (not_found_exception ErrorCode.not_found_error) s

  abbrev save_agreements : Option (List Agreement) → Action (Unit {0})
  save_agreements none s = (err Error.record_not_found, s)
  save_agreements (some t) s = (ok tt, record s { agreements = t })

  abbrev pub update_agreement : ℕ → AgreementStatus → Action (Unit {0})
  update_agreement id status s =
      save_agreements (prisma.update (is_agreement id) (set_agreement_status status) s.agreements) s

  abbrev save_versions : Option (List AgreementVersion) → Action (Unit {0})
  save_versions none s = (err Error.unique_violation, s)
  save_versions (some t) s = (ok tt, record s { agreement_versions = t })

  abbrev pub new_version :
      AuthenticatedUser
      → ℕ
      → CreateAgreementVersionDto
      → ℕ
      → List AgreementVersion
      → AgreementVersion
  new_version user agreement_id dto id versions = record {
    id = id;
    agreement_id = agreement_id;
    version = latest_version (prisma.find_many (is_version_of agreement_id) versions) + 1;
    content_url = dto.content_url;
    content_hash = dto.content_hash;
    created_by_id = user.id;
  }

  unfoldable pub add_version :
      AuthenticatedUser → ℕ → ℕ → CreateAgreementVersionDto → ℕ → Action AgreementVersion
  add_version user deal_id agreement_id dto id = do
    assert_participant prisma user.id deal_id
    get_agreement deal_id agreement_id
    version ← gets λ s. new_version user agreement_id dto id s.agreement_versions
    λ s.
        save_versions (prisma.create_unique (is_same_version version) version s.agreement_versions)
          s
    update_agreement agreement_id AgreementStatus.pending_signature
    modify (
        add_timeline_event prisma deal_id "AGREEMENT_VERSION_ADDED" (some user.id)
          (("agreementId", key agreement_id) ∷ ("version", key version.version) ∷ []))
    pure version

  unfoldable pub sign : AuthenticatedUser → ℕ → ℕ → ℕ → Action (Unit {0})
  sign user deal_id agreement_id version_id = do
    assert_participant prisma user.id deal_id
    agreement ← get_agreement deal_id agreement_id
    raise_if (agreement.status == AgreementStatus.void)
        (conflict_exception ErrorCode.conflict_error)
    refused ← gets (lacks_version version_id user.id)
    raise_if refused Error.foreign_key_violation
    modify λ s. record s {
      signatures =
          prisma.upsert (is_signature version_id user.id) (new_signature version_id user.id)
            (λ g. g) s.signatures;
    }
    participant_count ← gets λ s. prisma.count_where (is_principal deal_id) s.participants
    signature_count ← gets λ s. prisma.count_where (is_signature_of version_id) s.signatures
    update_agreement agreement_id (
        if leb participant_count signature_count
        then AgreementStatus.signed
        else AgreementStatus.partially_signed)
    modify (
        add_timeline_event prisma deal_id "AGREEMENT_SIGNED" (some user.id)
          (("agreementId", key agreement_id) ∷ ("versionId", key version_id) ∷ []))
