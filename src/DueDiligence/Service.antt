-- ===== src/DueDiligence/Service.antt =====
-- src/due-diligence/due-diligence.service.ts
use Prim.Native.String.{◌++◌}
use idea_project.Base.{
  ℕ, Bool, not, ◌&&◌, Option, none, some, List, [], ◌∷◌, String, ◌==◌, nat_eq, any, or_maybe,
}
use idea_project.Schema.{
  DueDiligenceRequest, DueDiligenceItem, DueDiligenceCategory, DueDiligenceStatus, NotificationType,
  key, due_diligence_status,
}
use idea_project.Common.{
  Action, ok, err, Error, AuthenticatedUser, ErrorCode, not_found_exception, ◌>>=◌, ◌>>◌, pure,
  gets, or_raise, modify,
}
use idea_project.Common.Prisma.{Prisma}
use idea_project.Common.Notify.{notify_all}
use idea_project.Deals.Service.{assert_participant, add_timeline_event}

-- src/due-diligence/dto: each item comes with the identifier that the database gives it.
pub record CreateDueDiligenceRequestDto : Type 0 where
  pub category : DueDiligenceCategory
  pub title : String
  pub items : List (ℕ × String)

pub record UpdateItemStatusDto : Type 0 where
  pub status : DueDiligenceStatus
  pub document_id : Option ℕ

abbrev pub is_request_in : ℕ → ℕ → DueDiligenceRequest → Bool
is_request_in deal_id id r = r.id == id && r.deal_id == deal_id

abbrev pub is_item : ℕ → DueDiligenceItem → Bool
is_item id i = i.id == id

-- `{ id: itemId, request: { dealId } }`
unfoldable pub is_item_in : ℕ → ℕ → List DueDiligenceRequest → DueDiligenceItem → Bool
is_item_in id deal_id requests i = is_item id i && any (is_request_in deal_id i.request_id) requests

abbrev pub new_item : ℕ → ℕ → String → DueDiligenceItem
new_item request_id id description = record {
  id = id;
  request_id = request_id;
  description = description;
  status = DueDiligenceStatus.requested;
  document_id = none;
}

-- An undefined `documentId` leaves the column alone.
abbrev pub change_item : UpdateItemStatusDto → DueDiligenceItem → DueDiligenceItem
change_item dto i = record i {
  status = dto.status;
  document_id = or_maybe dto.document_id i.document_id;
}

-- The rows of the nested `create`, one after another.
unfoldable pub add_items : ℕ → List (ℕ × String) → List DueDiligenceItem → List DueDiligenceItem
add_items request_id [] t = t
add_items request_id ((id, description) ∷ rest) t =
    add_items request_id rest (new_item request_id id description ∷ t)

module _ (prisma : Prisma) where
  unfoldable pub create_request :
      AuthenticatedUser → ℕ → CreateDueDiligenceRequestDto → ℕ → Action DueDiligenceRequest
  create_request user deal_id dto id = do
    assert_participant prisma user.id deal_id
    let request : DueDiligenceRequest = record {
      id = id;
      deal_id = deal_id;
      category = dto.category;
      title = dto.title;
      requested_by_id = user.id;
    }
    modify λ s. record s {
      evidence = record s.evidence {
        due_diligence_requests = prisma.create request s.evidence.due_diligence_requests;
        due_diligence_items = add_items id dto.items s.evidence.due_diligence_items;
      };
    }
    modify (
        add_timeline_event prisma deal_id "DUE_DILIGENCE_REQUESTED" (some user.id)
          (("requestId", key id) ∷ []))
    others ← gets λ s.
        prisma.find_many (λ p. p.deal_id == deal_id && not (p.user_id == user.id)) s.participants
    modify (
        notify_all prisma others λ p. record {
          user_id = p.user_id;
          type = NotificationType.due_diligence_request;
          title = "New due diligence request: " ++ dto.title;
          body = none;
          metadata = ("dealId", key deal_id) ∷ ("requestId", key id) ∷ [];
        })
    pure request

  -- The items that are joined, and the order of the answer, are left out.
  unfoldable pub list_requests : AuthenticatedUser → ℕ → Action (List DueDiligenceRequest)
  list_requests user deal_id = do
    assert_participant prisma user.id deal_id
    gets λ s. prisma.find_many (λ r. r.deal_id == deal_id) s.evidence.due_diligence_requests

  abbrev save_items : Option (List DueDiligenceItem) → Action (Unit {0})
  save_items none s = (err Error.record_not_found, s)
  save_items (some t) s =
      (ok tt, record s { evidence = record s.evidence { due_diligence_items = t } })

  unfoldable pub update_item_status :
      AuthenticatedUser → ℕ → ℕ → UpdateItemStatusDto → Action DueDiligenceItem
  update_item_status user deal_id item_id dto = do
    assert_participant prisma user.id deal_id
    found ← gets λ s.
        prisma.find_first (is_item_in item_id deal_id s.evidence.due_diligence_requests)
          s.evidence.due_diligence_items
    item ← or_raise found (not_found_exception ErrorCode.not_found_error)
    λ s.
        save_items
          (prisma.update (is_item item_id) (change_item dto) s.evidence.due_diligence_items) s
    modify (
        add_timeline_event prisma deal_id "DUE_DILIGENCE_ITEM_UPDATED" (some user.id)
          (("itemId", key item_id) ∷ ("status", due_diligence_status dto.status) ∷ []))
    pure (change_item dto item)
