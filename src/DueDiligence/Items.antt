-- ===== src/DueDiligence/Items.antt =====
-- Who may change an item (src/due-diligence/due-diligence.service.ts).
use idea_project.Base.{
  ℕ, ◌≡◌, refl, true, false, nat_eq, any, update_where, arith, Option-cases, inl, inr,
}
use idea_project.Schema.{Db, DueDiligenceItem}
use idea_project.Common.{AuthenticatedUser, ok, err, ErrorCode, not_found_exception}
use idea_project.Common.Prisma.{Prisma}
use idea_project.Common.Prisma.Search.{find_first-missing, find_first-present, found_any}
use idea_project.Deals.Service.{assert_participant, add_timeline_event, is_participant}
use idea_project.DueDiligence.Service.{
  update_item_status, UpdateItemStatusDto, is_item_in, is_item, change_item,
}

module _ (prisma : Prisma) where
  -- A change of an item that succeeds was made by a participant of the deal, to an item that belongs to a
  -- request of that deal; it changes the rows with the item's identifier as it was asked, and no other
  -- item.
  pub update_item_status-own_deal :
      (user : AuthenticatedUser) (deal_id item_id : ℕ) (dto : UpdateItemStatusDto) (s : Db)
      {i : DueDiligenceItem} {s' : Db}
      → update_item_status prisma user deal_id item_id dto s ≡ (ok i, s')
      → (any (is_participant deal_id user.id) s.participants ≡ true)
        × (any
              (is_item_in item_id deal_id s.evidence.due_diligence_requests)
              s.evidence.due_diligence_items
            ≡ true)
        × (i.status ≡ dto.status)
        × (s'.evidence.due_diligence_items
            ≡ update_where (is_item item_id) (change_item dto) s.evidence.due_diligence_items)
  unfolding update_item_status assert_participant add_timeline_event
  update_item_status-own_deal user deal_id item_id dto s e =
      let mine = is_item_in item_id deal_id s.evidence.due_diligence_requests in
      let t = s.evidence.due_diligence_items in
      elim (Option-cases (prisma.find_first (is_participant deal_id user.id) s.participants)) [
        | inl outside ↦ absurd (ground arith)
        | inr (p, inside) ↦ elim (Option-cases (prisma.find_first mine t)) [
          | inl missing ↦ absurd (ground arith)
          | inr (i, found) ↦ ground (
            arith,
            found_any prisma (is_participant deal_id user.id) s.participants p inside,
            found_any prisma mine t i found,
            prisma.update_lem (is_item item_id) (change_item dto) t,
          )
        ]
      ]

  -- An item of another deal is not found, and nothing changes.
  update_item_status-foreign :
      (user : AuthenticatedUser) (deal_id item_id : ℕ) (dto : UpdateItemStatusDto) (s : Db)
      → any (is_participant deal_id user.id) s.participants ≡ true
      → any
          (is_item_in item_id deal_id s.evidence.due_diligence_requests)
          s.evidence.due_diligence_items
        ≡ false
      → update_item_status prisma user deal_id item_id dto s
        ≡ (err (not_found_exception ErrorCode.not_found_error), s)
  unfolding update_item_status assert_participant
  update_item_status-foreign user deal_id item_id dto s inside foreign =
      let (p, found, member) =
        find_first-present prisma (is_participant deal_id user.id) s.participants inside in
      rw
        (
          found,
          find_first-missing prisma (is_item_in item_id deal_id s.evidence.due_diligence_requests)
              s.evidence.due_diligence_items foreign,
        )
        refl
