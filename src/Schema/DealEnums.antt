-- ===== src/Schema/DealEnums.antt =====
-- The enumerations of prisma/schema.prisma for offers, negotiations, deals, agreements, transactions
-- and notifications, each with its equality. The status `OPEN` is spelled `open_status`, since `open`
-- is a reserved word.
use Prim.Native.Nat.{ℕ}
use mathlib.Core.Path.{◌≡◌}
use mathlib.Core.Logic.{◌↔◌}
use mathlib.Core.Bool.{true}
use native.Mathlib.Omega.{arith}
use idea_project.Base.Tests.{Compares, nat_beq}

pub data OfferStatus : Type 0 where
  draft submitted viewed countered accepted rejected withdrawn expired : OfferStatus

abbrev pub offer_status_rank : OfferStatus → ℕ
offer_status_rank OfferStatus.draft = 0
offer_status_rank OfferStatus.submitted = 1
offer_status_rank OfferStatus.viewed = 2
offer_status_rank OfferStatus.countered = 3
offer_status_rank OfferStatus.accepted = 4
offer_status_rank OfferStatus.rejected = 5
offer_status_rank OfferStatus.withdrawn = 6
offer_status_rank OfferStatus.expired = 7

offer_status_rank_inj : (a b : OfferStatus) → offer_status_rank a ≡ offer_status_rank b → a ≡ b
offer_status_rank_inj a b h = ground arith

pub offer_status_beq_iff :
    (a b : OfferStatus) → (nat_beq (offer_status_rank a) (offer_status_rank b) ≡ true) ↔ (a ≡ b)
offer_status_beq_iff a b = ground (arith, offer_status_rank_inj a b)

instance abbrev pub offer_status_eq : Compares OfferStatus
offer_status_eq = record {
  equals = λ a b. nat_beq (offer_status_rank a) (offer_status_rank b);
  equals_iff = offer_status_beq_iff;
}

pub data NegotiationStatus : Type 0 where
  open_status accepted rejected withdrawn expired : NegotiationStatus

abbrev pub negotiation_status_rank : NegotiationStatus → ℕ
negotiation_status_rank NegotiationStatus.open_status = 0
negotiation_status_rank NegotiationStatus.accepted = 1
negotiation_status_rank NegotiationStatus.rejected = 2
negotiation_status_rank NegotiationStatus.withdrawn = 3
negotiation_status_rank NegotiationStatus.expired = 4

negotiation_status_rank_inj :
    (a b : NegotiationStatus) → negotiation_status_rank a ≡ negotiation_status_rank b → a ≡ b
negotiation_status_rank_inj a b h = ground arith

pub negotiation_status_beq_iff :
    (a b : NegotiationStatus)
    → (nat_beq (negotiation_status_rank a) (negotiation_status_rank b) ≡ true) ↔ (a ≡ b)
negotiation_status_beq_iff a b = ground (arith, negotiation_status_rank_inj a b)

instance abbrev pub negotiation_status_eq : Compares NegotiationStatus
negotiation_status_eq = record {
  equals = λ a b. nat_beq (negotiation_status_rank a) (negotiation_status_rank b);
  equals_iff = negotiation_status_beq_iff;
}

pub data DealStatus : Type 0 where
  initiated nda due_diligence agreement transaction transfer completed cancelled disputed :
      DealStatus

abbrev pub deal_status_rank : DealStatus → ℕ
deal_status_rank DealStatus.initiated = 0
deal_status_rank DealStatus.nda = 1
deal_status_rank DealStatus.due_diligence = 2
deal_status_rank DealStatus.agreement = 3
deal_status_rank DealStatus.transaction = 4
deal_status_rank DealStatus.transfer = 5
deal_status_rank DealStatus.completed = 6
deal_status_rank DealStatus.cancelled = 7
deal_status_rank DealStatus.disputed = 8

deal_status_rank_inj : (a b : DealStatus) → deal_status_rank a ≡ deal_status_rank b → a ≡ b
deal_status_rank_inj a b h = ground arith

pub deal_status_beq_iff :
    (a b : DealStatus) → (nat_beq (deal_status_rank a) (deal_status_rank b) ≡ true) ↔ (a ≡ b)
deal_status_beq_iff a b = ground (arith, deal_status_rank_inj a b)

instance abbrev pub deal_status_eq : Compares DealStatus
deal_status_eq = record {
  equals = λ a b. nat_beq (deal_status_rank a) (deal_status_rank b);
  equals_iff = deal_status_beq_iff;
}

pub data DealParticipantRole : Type 0 where
  buyer seller buyer_advisor seller_advisor lawyer accountant admin : DealParticipantRole

abbrev pub deal_participant_role_rank : DealParticipantRole → ℕ
deal_participant_role_rank DealParticipantRole.buyer = 0
deal_participant_role_rank DealParticipantRole.seller = 1
deal_participant_role_rank DealParticipantRole.buyer_advisor = 2
deal_participant_role_rank DealParticipantRole.seller_advisor = 3
deal_participant_role_rank DealParticipantRole.lawyer = 4
deal_participant_role_rank DealParticipantRole.accountant = 5
deal_participant_role_rank DealParticipantRole.admin = 6

deal_participant_role_rank_inj :
    (a b : DealParticipantRole)
    → deal_participant_role_rank a ≡ deal_participant_role_rank b
    → a ≡ b
deal_participant_role_rank_inj a b h = ground arith

pub deal_participant_role_beq_iff :
    (a b : DealParticipantRole)
    → (nat_beq (deal_participant_role_rank a) (deal_participant_role_rank b) ≡ true) ↔ (a ≡ b)
deal_participant_role_beq_iff a b = ground (arith, deal_participant_role_rank_inj a b)

instance abbrev pub deal_participant_role_eq : Compares DealParticipantRole
deal_participant_role_eq = record {
  equals = λ a b. nat_beq (deal_participant_role_rank a) (deal_participant_role_rank b);
  equals_iff = deal_participant_role_beq_iff;
}

pub data DealTaskStatus : Type 0 where
  todo in_progress blocked completed : DealTaskStatus

abbrev pub deal_task_status_rank : DealTaskStatus → ℕ
deal_task_status_rank DealTaskStatus.todo = 0
deal_task_status_rank DealTaskStatus.in_progress = 1
deal_task_status_rank DealTaskStatus.blocked = 2
deal_task_status_rank DealTaskStatus.completed = 3

deal_task_status_rank_inj :
    (a b : DealTaskStatus) → deal_task_status_rank a ≡ deal_task_status_rank b → a ≡ b
deal_task_status_rank_inj a b h = ground arith

pub deal_task_status_beq_iff :
    (a b : DealTaskStatus)
    → (nat_beq (deal_task_status_rank a) (deal_task_status_rank b) ≡ true) ↔ (a ≡ b)
deal_task_status_beq_iff a b = ground (arith, deal_task_status_rank_inj a b)

instance abbrev pub deal_task_status_eq : Compares DealTaskStatus
deal_task_status_eq = record {
  equals = λ a b. nat_beq (deal_task_status_rank a) (deal_task_status_rank b);
  equals_iff = deal_task_status_beq_iff;
}

pub data AgreementStatus : Type 0 where
  draft pending_signature partially_signed signed void : AgreementStatus

abbrev pub agreement_status_rank : AgreementStatus → ℕ
agreement_status_rank AgreementStatus.draft = 0
agreement_status_rank AgreementStatus.pending_signature = 1
agreement_status_rank AgreementStatus.partially_signed = 2
agreement_status_rank AgreementStatus.signed = 3
agreement_status_rank AgreementStatus.void = 4

agreement_status_rank_inj :
    (a b : AgreementStatus) → agreement_status_rank a ≡ agreement_status_rank b → a ≡ b
agreement_status_rank_inj a b h = ground arith

pub agreement_status_beq_iff :
    (a b : AgreementStatus)
    → (nat_beq (agreement_status_rank a) (agreement_status_rank b) ≡ true) ↔ (a ≡ b)
agreement_status_beq_iff a b = ground (arith, agreement_status_rank_inj a b)

instance abbrev pub agreement_status_eq : Compares AgreementStatus
agreement_status_eq = record {
  equals = λ a b. nat_beq (agreement_status_rank a) (agreement_status_rank b);
  equals_iff = agreement_status_beq_iff;
}

pub data TransactionStatus : Type 0 where
  pending processing requires_action completed failed cancelled refunded : TransactionStatus

abbrev pub transaction_status_rank : TransactionStatus → ℕ
transaction_status_rank TransactionStatus.pending = 0
transaction_status_rank TransactionStatus.processing = 1
transaction_status_rank TransactionStatus.requires_action = 2
transaction_status_rank TransactionStatus.completed = 3
transaction_status_rank TransactionStatus.failed = 4
transaction_status_rank TransactionStatus.cancelled = 5
transaction_status_rank TransactionStatus.refunded = 6

transaction_status_rank_inj :
    (a b : TransactionStatus) → transaction_status_rank a ≡ transaction_status_rank b → a ≡ b
transaction_status_rank_inj a b h = ground arith

pub transaction_status_beq_iff :
    (a b : TransactionStatus)
    → (nat_beq (transaction_status_rank a) (transaction_status_rank b) ≡ true) ↔ (a ≡ b)
transaction_status_beq_iff a b = ground (arith, transaction_status_rank_inj a b)

instance abbrev pub transaction_status_eq : Compares TransactionStatus
transaction_status_eq = record {
  equals = λ a b. nat_beq (transaction_status_rank a) (transaction_status_rank b);
  equals_iff = transaction_status_beq_iff;
}

pub data NotificationType : Type 0 where
  new_message new_offer counter_offer offer_accepted offer_rejected document_uploaded
        due_diligence_request verification_update deal_update system :
      NotificationType

abbrev pub notification_type_rank : NotificationType → ℕ
notification_type_rank NotificationType.new_message = 0
notification_type_rank NotificationType.new_offer = 1
notification_type_rank NotificationType.counter_offer = 2
notification_type_rank NotificationType.offer_accepted = 3
notification_type_rank NotificationType.offer_rejected = 4
notification_type_rank NotificationType.document_uploaded = 5
notification_type_rank NotificationType.due_diligence_request = 6
notification_type_rank NotificationType.verification_update = 7
notification_type_rank NotificationType.deal_update = 8
notification_type_rank NotificationType.system = 9

notification_type_rank_inj :
    (a b : NotificationType) → notification_type_rank a ≡ notification_type_rank b → a ≡ b
notification_type_rank_inj a b h = ground arith

pub notification_type_beq_iff :
    (a b : NotificationType)
    → (nat_beq (notification_type_rank a) (notification_type_rank b) ≡ true) ↔ (a ≡ b)
notification_type_beq_iff a b = ground (arith, notification_type_rank_inj a b)

instance abbrev pub notification_type_eq : Compares NotificationType
notification_type_eq = record {
  equals = λ a b. nat_beq (notification_type_rank a) (notification_type_rank b);
  equals_iff = notification_type_beq_iff;
}
