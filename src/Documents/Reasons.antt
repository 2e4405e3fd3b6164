-- ===== src/Documents/Reasons.antt =====
-- Why a user may read a document (src/documents/documents.service.ts).
use idea_project.Base.{
  ◌⊎◌, ◌<◌, Elem, Bool, none, Option-cases, Bool-cases, inl, inr, ℕ, ◌≡◌, refl, true, false, ◌==◌,
  nat_eq, any, some, List, [], ◌∷◌, arith,
}
use idea_project.Base.Updates.{any-of_Elem}
use idea_project.Schema.{
  Db, BusinessDocument, DocumentAccess, UserRole, user_role_eq, DealParticipant,
}
use idea_project.Common.{AuthenticatedUser}
use idea_project.Deals.Service.{is_participant}
use idea_project.Documents.Service.{may_read, is_valid_grant, is_in_deal}

-- A grant of the document to the person that counts at a time.
pub record IsGranted (document_id user_id now : ℕ) (g : DocumentAccess) : Type 0 where
  document : g.document_id ≡ document_id
  grantee : g.grantee_id ≡ user_id
  unrevoked : g.revoked_at ≡ none
  unexpired : (g.expires_at ≡ none) ⊎ ((t : ℕ) × (g.expires_at ≡ some t) × (now < t))

-- Why a user may read a document.
pub data Reason (user : AuthenticatedUser) (d : BusinessDocument) (owner_id now : ℕ) (s : Db)
    : Type 0 where
  as_owner : owner_id ≡ user.id → Reason user d owner_id now s
  as_uploader : d.uploaded_by_id ≡ user.id → Reason user d owner_id now s
  as_admin : (user.role == UserRole.admin) ≡ true → Reason user d owner_id now s
  as_member :
      (deal_id : ℕ) (p : DealParticipant)
      → d.deal_id ≡ some deal_id
      → Elem p s.participants
      → p.deal_id ≡ deal_id
      → p.user_id ≡ user.id
      → Reason user d owner_id now s
  as_grantee :
      (g : DocumentAccess)
      → Elem g s.access_grants
      → IsGranted d.id user.id now g
      → Reason user d owner_id now s

any-Elem :
    {A : Type 0} (p : A → Bool) (xs : List A) → any p xs ≡ true → (x : A) × Elem x xs × (p x ≡ true)
any-Elem p [] h = absurd (ground arith)
any-Elem p (x ∷ xs) h = elim (Bool-cases (p x)) [
  | inl hit ↦ (x, inl refl, hit)
  | inr miss ↦ let (y, at, e) = any-Elem p xs (ground arith) in (y, inr at, e)
]

valid-IsGranted :
    (document_id user_id now : ℕ) (g : DocumentAccess)
    → is_valid_grant document_id user_id now g ≡ true
    → IsGranted document_id user_id now g
valid-IsGranted document_id user_id now g h = elim (Option-cases g.revoked_at) [
  | inl kept ↦ elim (Option-cases g.expires_at) [
    | inl forever ↦ record {
      document = ground arith;
      grantee = ground arith;
      unrevoked = kept;
      unexpired = inl forever;
    }
    | inr (t, until) ↦ record {
      document = ground arith;
      grantee = ground arith;
      unrevoked = kept;
      unexpired = inr (t, until, ground arith);
    }
  ]
  | inr (t, gone) ↦ absurd (ground arith)
]

IsGranted-valid :
    (document_id user_id now : ℕ) (g : DocumentAccess)
    → IsGranted document_id user_id now g
    → is_valid_grant document_id user_id now g ≡ true
IsGranted-valid document_id user_id now g h = elim h.unexpired [
  | inl forever ↦ ground arith
  | inr (t, until, later) ↦ ground arith
]

pub reason :
    (user : AuthenticatedUser) (d : BusinessDocument) (owner_id now : ℕ) (s : Db)
    → may_read user d owner_id now s ≡ true
    → Reason user d owner_id now s
unfolding may_read
reason user d owner_id now s h = elim (Bool-cases (owner_id == user.id)) [
  | inl owns ↦ as_owner (ground arith)
  | inr foreign ↦ elim (Bool-cases (d.uploaded_by_id == user.id)) [
    | inl own ↦ as_uploader (ground arith)
    | inr other ↦ elim (Bool-cases (user.role == UserRole.admin)) [
      | inl rules ↦ as_admin rules
      | inr plain ↦ elim (Bool-cases (is_in_deal d.deal_id user.id s.participants)) [
        | inl inside ↦ elim (Option-cases d.deal_id) [
          | inl none_named ↦ absurd (ground arith)
          | inr (deal_id, named) ↦
              let (p, at, e) =
                any-Elem (is_participant deal_id user.id) s.participants (ground arith) in
              as_member deal_id p named at (ground arith) (ground arith)
        ]
        | inr outside ↦
            let (g, at, e) =
              any-Elem (is_valid_grant d.id user.id now) s.access_grants (ground arith) in
            as_grantee g at (valid-IsGranted d.id user.id now g e)
      ]
    ]
  ]
]

pub no_reason :
    (user : AuthenticatedUser) (d : BusinessDocument) (owner_id now : ℕ) (s : Db)
    → may_read user d owner_id now s ≡ false
    → ¬ Reason user d owner_id now s
unfolding may_read
no_reason user d owner_id now s h (as_owner e) = ground arith
no_reason user d owner_id now s h (as_uploader e) = ground arith
no_reason user d owner_id now s h (as_admin e) = ground arith
no_reason user d owner_id now s h (as_member deal_id p e at here mine) =
    let member = any-of_Elem (is_participant deal_id user.id) p s.participants at (ground arith) in
    ground arith
no_reason user d owner_id now s h (as_grantee g at e) =
    let valid =
      any-of_Elem (is_valid_grant d.id user.id now) g s.access_grants at
        (IsGranted-valid d.id user.id now g e) in
    ground arith
