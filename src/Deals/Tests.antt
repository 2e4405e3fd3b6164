-- ===== src/Deals/Tests.antt =====
-- The theorems on deals at a deal room.
use idea_project.Base.{◌≡◌, refl, includes, update_where, some, true}
use idea_project.Schema.{Db, Deal, DealStatus, deal_status_eq, DealParticipant}
use idea_project.Common.{ok, err, ErrorCode, conflict_exception}
use idea_project.Common.Prisma.{list_prisma}
use idea_project.Deals.Service.{
  update_status, assert_participant, add_timeline_event, set_deal_status, is_deal, is_participant,
  may_manage, deal_transitions,
}
use idea_project.Deals.Lifecycle.{update_status-legal, update_status-terminal}
use idea_project.Common.StateMachine.{can_transition}
use idea_project.Samples.{buyer, deal_in, deal_room, buyer_participant}

abbrev initiated : Db
initiated = deal_room DealStatus.initiated

abbrev moved : Db
moved = (update_status list_prisma buyer 40 DealStatus.nda initiated).1

moves :
    update_status list_prisma buyer 40 DealStatus.nda initiated
    ≡ (ok (deal_in DealStatus.nda), moved)
unfolding update_status assert_participant add_timeline_event can_transition
moves = refl

update_status-legal_example :
    (p : DealParticipant) × (old : Deal) × (list_prisma.find_first
        (is_participant 40 2)
        initiated.participants
      ≡ some p)
    × (may_manage buyer p ≡ true)
    × (list_prisma.find_first (is_deal 40) initiated.deals ≡ some old)
    × (includes (deal_transitions old.status) DealStatus.nda ≡ true)
    × (deal_in DealStatus.nda ≡ set_deal_status DealStatus.nda old)
    × (moved.deals ≡ update_where (is_deal 40) (set_deal_status DealStatus.nda) initiated.deals)
update_status-legal_example =
    update_status-legal list_prisma buyer 40 DealStatus.nda initiated moves

update_status-terminal_example :
    update_status list_prisma buyer 40 DealStatus.transfer (deal_room DealStatus.completed) ≡ (
      err (conflict_exception ErrorCode.deal_invalid_state_transition),
      deal_room DealStatus.completed,
    )
update_status-terminal_example =
    update_status-terminal list_prisma buyer 40 DealStatus.transfer buyer_participant
      (deal_in DealStatus.completed) (deal_room DealStatus.completed) refl refl refl refl
