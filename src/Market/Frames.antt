-- ===== src/Market/Frames.antt =====
-- Which methods leave the businesses and the deals alone.
use idea_project.Base.{ℕ, ◌≡◌, Bool, Option, String, arith, Option-cases, inl, inr, ◌==◌, nat_eq}
use idea_project.Schema.{Db, DealParticipantRole, DealTaskStatus}
use idea_project.Common.{AuthenticatedUser, keep}
use idea_project.Common.Prisma.{Prisma}
use idea_project.Common.Money.{Numbers}
use idea_project.Offers.Queries.{CreateOfferDto, is_party}
use idea_project.Offers.Queries
use idea_project.Offers.Create
use idea_project.Offers.Create.{counter_body}
use idea_project.Offers.Respond
use idea_project.Deals.Service.{CreateTaskDto}
use idea_project.Deals.Service as Deals
use idea_project.Agreements.Service as Agreements
use idea_project.Agreements.Service.{CreateAgreementVersionDto}
use idea_project.Payments.Transactions as Payments

-- The same businesses and the same deals.
pub record Keeps (s s' : Db) : Type 0 where
  pub businesses : s'.businesses ≡ s.businesses
  pub deals : s'.deals ≡ s.deals

module _ (prisma : Prisma) where
  pub reject-Keeps :
      (user : AuthenticatedUser) (offer_id now : ℕ) (s : Db)
      → Keeps s (Respond.reject prisma user offer_id now s).1
  unfolding Respond.reject Queries.get_participant_offer
  reject-Keeps user offer_id now s = ground arith

  pub withdraw-Keeps :
      (user : AuthenticatedUser) (offer_id now : ℕ) (s : Db)
      → Keeps s (Respond.withdraw prisma user offer_id now s).1
  unfolding Respond.withdraw Queries.get_participant_offer
  withdraw-Keeps user offer_id now s = ground arith

  pub add_participant-Keeps :
      (user : AuthenticatedUser) (deal_id user_id : ℕ) (r : DealParticipantRole) (s : Db)
      → Keeps s (Deals.add_participant prisma user deal_id user_id r s).1
  unfolding Deals.add_participant Deals.assert_participant
  add_participant-Keeps user deal_id user_id r s = ground arith

  pub create_task-Keeps :
      (user : AuthenticatedUser) (deal_id : ℕ) (dto : CreateTaskDto) (task_id : ℕ) (s : Db)
      → Keeps s (Deals.create_task prisma user deal_id dto task_id s).1
  unfolding Deals.create_task Deals.assert_participant
  create_task-Keeps user deal_id dto task_id s = ground arith

  pub update_task_status-Keeps :
      (user : AuthenticatedUser) (deal_id task_id : ℕ) (status : DealTaskStatus) (s : Db)
      → Keeps s (Deals.update_task_status prisma user deal_id task_id status s).1
  unfolding Deals.update_task_status Deals.assert_participant
  update_task_status-Keeps user deal_id task_id status s = ground arith

  pub sign-Keeps :
      (user : AuthenticatedUser) (deal_id agreement_id version_id : ℕ) (s : Db)
      → Keeps s (Agreements.sign prisma user deal_id agreement_id version_id s).1
  unfolding Agreements.sign Agreements.get_agreement Deals.assert_participant
      Deals.add_timeline_event
  sign-Keeps user deal_id agreement_id version_id s = ground arith

  pub add_version-Keeps :
      (user : AuthenticatedUser) (deal_id agreement_id : ℕ) (dto : CreateAgreementVersionDto)
      (id : ℕ) (s : Db)
      → Keeps s (Agreements.add_version prisma user deal_id agreement_id dto id s).1
  unfolding Agreements.add_version Agreements.get_agreement Deals.assert_participant
      Deals.add_timeline_event
  add_version-Keeps user deal_id agreement_id dto id s = ground arith

  pub pay-Keeps :
      (user : AuthenticatedUser) (deal_id : ℕ) (p : Option String) (id : ℕ) (s : Db)
      → Keeps s (Payments.create prisma user deal_id p id s).1
  unfolding Payments.create Deals.assert_participant Deals.add_timeline_event
  pay-Keeps user deal_id p id s = ground arith

  pub create_agreement-Keeps :
      (user : AuthenticatedUser) (deal_id : ℕ) (title : String) (ai : Option Bool) (id : ℕ) (s : Db)
      → Keeps s (Agreements.create prisma user deal_id title ai id s).1
  unfolding Agreements.create Deals.assert_participant Deals.add_timeline_event
  create_agreement-Keeps user deal_id title ai id s = ground arith

module _ (prisma : Prisma) (numbers : Numbers) where
  pub create-Keeps :
      (user : AuthenticatedUser) (business_id : ℕ) (dto : CreateOfferDto numbers.Num)
      (negotiation_id offer_id now : ℕ) (s : Db)
      → Keeps s (Create.create prisma numbers user business_id dto negotiation_id offer_id now s).1
  unfolding Create.create
  create-Keeps user business_id dto negotiation_id offer_id now s = ground arith

  pub counter-Keeps :
      (user : AuthenticatedUser) (offer_id : ℕ) (dto : CreateOfferDto numbers.Num) (id now : ℕ)
      (s : Db)
      → Keeps s (Create.counter prisma numbers user offer_id dto id now s).1
  unfolding Create.counter Create.counter_body Queries.get_participant_offer
  counter-Keeps user offer_id dto id now s =
      elim (Option-cases
        (keep (is_party user) (prisma.find_first (λ o. o.id == offer_id) s.offers))) [
          | inl e ↦ ground arith
          | inr (parent, e) ↦
              ground (
                arith,
                prisma.transaction_lem (counter_body prisma numbers user parent dto id now) s,
              )
        ]
