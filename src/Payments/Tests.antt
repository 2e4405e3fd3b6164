-- ===== src/Payments/Tests.antt =====
-- The theorems on payments at a deal whose transaction is due.
use idea_project.Base.{
  ◌⊎◌, ◌↔◌, ◌≤◌, ◌+◌, ◌*◌, false, ◌≡◌, refl, arith, any, true, false, some, none, ◌∷◌, [], ◌==◌,
  nat_eq,
}
use idea_project.Schema.{Db, Deal, DealStatus, Offer, Transaction, TransactionStatus}
use idea_project.Common.{ok}
use idea_project.Common.Prisma.{list_prisma}
use idea_project.Deals.Service.{assert_participant, add_timeline_event, is_deal}
use idea_project.Payments.Signature.{
  Text, given, verify_stripe_signature, check_signature, split, to_entry, property,
  is_out_of_tolerance, buffers_equal, signed_payload,
}
use idea_project.Payments.Transactions.{
  create, new_transaction, is_transaction_of, apply_provider_status_update,
}
use idea_project.Payments.Webhooks.{
  StripeEventLike, Payload, process_event, handle_stripe_event, is_signed, status_by_event_type,
}
use idea_project.Payments.Effects.{
  process_event-once, handle_stripe_event-verified, create-pays_offer,
}
use idea_project.Payments.Linking.{create-unlinked, is_linked}
use idea_project.Payments.Header.{stripe_header, stripe_header-verify}
use idea_project.Samples.{buyer, first, deal_room, plain_crypto, paid_event, any_event}

abbrev due : Db
due = deal_room DealStatus.transaction

process_event-once_example :
    process_event list_prisma plain_crypto any_event paid_event
      (process_event list_prisma plain_crypto any_event paid_event due).1
    ≡ (ok tt, (process_event list_prisma plain_crypto any_event paid_event due).1)
process_event-once_example = process_event-once list_prisma plain_crypto any_event paid_event due

abbrev secret : Text
secret = b'k' ∷ []

abbrev header : Text
header = stripe_header (b'1' ∷ []) (b'k' ∷ [])

abbrev delivered : Db
delivered =
    (handle_stripe_event list_prisma plain_crypto any_event [] (some header) (some secret) 0 due).1

delivers :
    handle_stripe_event list_prisma plain_crypto any_event [] (some header) (some secret) 0 due
    ≡ (ok tt, delivered)
unfolding handle_stripe_event is_signed process_event verify_stripe_signature check_signature split
    to_entry property is_out_of_tolerance buffers_equal signed_payload status_by_event_type
    apply_provider_status_update
delivers = refl

handle_stripe_event-verified_example :
    (key : Text) × (line : Text) × (given (some secret) ≡ some key)
    × (given (some header) ≡ some line)
    × (verify_stripe_signature plain_crypto [] line key 0 ≡ true)
    × (((e : StripeEventLike) × (any_event [] ≡ some (Payload.stripe_event e))
          × (process_event list_prisma plain_crypto any_event e due ≡ (ok tt, delivered)))
        ⊎ ((any_event [] ≡ some Payload.no_event) × (delivered ≡ due)))
handle_stripe_event-verified_example =
    handle_stripe_event-verified list_prisma plain_crypto any_event [] (some header) (some secret) 0
      due delivers

stripe_header-verify_example :
    (verify_stripe_signature plain_crypto [] header secret 0 ≡ true)
    ↔ ((0 * 1000 ≤ 0 + 300000) × (0 ≤ 0 * 1000 + 300000) × (secret ≡ b'k' ∷ []))
stripe_header-verify_example =
    stripe_header-verify plain_crypto [] (b'1' ∷ []) (b'k' ∷ []) secret 0 0 refl refl refl refl
      (ground arith) (ground arith) refl

abbrev payment : Transaction
payment = new_transaction 40 first none 90

abbrev started : Db
started = (create list_prisma buyer 40 none 90 due).1

starts : create list_prisma buyer 40 none 90 due ≡ (ok payment, started)
unfolding create assert_participant add_timeline_event
starts = refl

create-pays_offer_example :
    (deal : Deal) × (offer : Offer) × (list_prisma.find_first (is_deal 40) due.deals ≡ some deal)
    × (deal.status ≡ DealStatus.transaction)
    × (list_prisma.find_first (λ o. o.id == deal.accepted_offer_id) due.offers ≡ some offer)
    × (((list_prisma.find_first (is_transaction_of 40) due.transactions ≡ some payment)
          × (started.transactions ≡ due.transactions))
        ⊎ ((any (is_transaction_of 40) due.transactions ≡ false)
            × (payment.id ≡ 90)
            × (payment.deal_id ≡ 40)
            × (payment.amount_minor ≡ offer.amount_minor)
            × (payment.currency ≡ offer.currency)
            × (payment.status ≡ TransactionStatus.pending)
            × (started.transactions ≡ payment ∷ due.transactions)))
create-pays_offer_example = create-pays_offer list_prisma buyer 40 none 90 due starts

create-unlinked_example :
    (any is_linked started.transactions ≡ false)
    × (apply_provider_status_update list_prisma 90 TransactionStatus.completed [] started
        ≡ (ok tt, started))
create-unlinked_example =
    create-unlinked list_prisma buyer 40 none 90 90 TransactionStatus.completed [] due refl
