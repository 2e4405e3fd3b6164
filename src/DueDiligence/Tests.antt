-- ===== src/DueDiligence/Tests.antt =====
-- The theorems on due diligence at a deal room in which papers were asked for.
use idea_project.Base.{◌≡◌, refl, any, true, none, update_where}
use idea_project.Schema.{Db, DueDiligenceStatus}
use idea_project.Common.{ok}
use idea_project.Common.Prisma.{list_prisma}
use idea_project.Deals.Service.{assert_participant, is_participant}
use idea_project.DueDiligence.Service.{
  update_item_status, UpdateItemStatusDto, is_item_in, is_item, change_item,
}
use idea_project.DueDiligence.Items.{update_item_status-own_deal}
use idea_project.Samples.{buyer, asked_room, question_item}

abbrev approval : UpdateItemStatusDto
approval = record { status = DueDiligenceStatus.approved; document_id = none }

abbrev changed : Db
changed = (update_item_status list_prisma buyer 40 151 approval asked_room).1

changes :
    update_item_status list_prisma buyer 40 151 approval asked_room
    ≡ (ok (change_item approval question_item), changed)
unfolding update_item_status assert_participant is_item_in
changes = refl

update_item_status-own_deal_example :
    (any (is_participant 40 2) asked_room.participants ≡ true)
    × (any
          (is_item_in 151 40 asked_room.evidence.due_diligence_requests)
          asked_room.evidence.due_diligence_items
        ≡ true)
    × (DueDiligenceStatus.approved ≡ DueDiligenceStatus.approved)
    × (changed.evidence.due_diligence_items
        ≡ update_where (is_item 151) (change_item approval) asked_room.evidence.due_diligence_items)
update_item_status-own_deal_example =
    update_item_status-own_deal list_prisma buyer 40 151 approval asked_room changes
