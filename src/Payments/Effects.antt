-- ===== src/Payments/Effects.antt =====
-- What the webhook (src/webhooks/webhooks.service.ts) and `create` of
-- src/transactions/transactions.service.ts do.
use idea_project.Base.{
  ◌⊎◌, false, Bool, ℕ, ◌≡◌, refl, true, ◌==◌, nat_eq, any, some, none, Option, List, [], ◌∷◌, arith,
  String, Option-cases, inl, inr, Bool-cases,
}
use idea_project.Base.Updates.{update_where-same}
use idea_project.Common.Prisma.Search.{found_any}
use idea_project.Schema.{
  Db, Deal, DealStatus, deal_status_eq, Offer, Transaction, WebhookEvent, TransactionStatus,
  Metadata, text,
}
use idea_project.Common.{AuthenticatedUser, ok}
use idea_project.Common.Prisma.{Prisma}
use idea_project.Deals.Service.{is_deal, assert_participant, is_participant, add_timeline_event}
use idea_project.Payments.Signature.{Text, Crypto, given, verify_stripe_signature}
use idea_project.Payments.Transactions.{
  create, is_transaction_of, new_transaction, has_provider_ref, apply_body, apply_matching,
  apply_provider_status_update,
}
use idea_project.Payments.Webhooks.{
  StripeEventLike, Payload, EventObject, apply_to_object, is_event, is_signed, process_event,
  apply_event, status_by_event_type, handle_stripe_event,
}

abbrev stripe_row : StripeEventLike → WebhookEvent
stripe_row event = record { provider = "stripe"; event_id = event.id }

module _ (prisma : Prisma) where
  apply_matching-webhook_events :
      (p : Transaction → Bool) (status : TransactionStatus) (metadata : Metadata) (s : Db)
      → (apply_matching prisma p status metadata s).1.webhook_events ≡ s.webhook_events
  unfolding apply_matching idea_project.Deals.Service.add_timeline_event
  apply_matching-webhook_events p status metadata s =
      elim (Option-cases (prisma.find_first p s.transactions)) [
        | inl e ↦ ground arith
        | inr (t, e) ↦
            ground (arith, prisma.transaction_lem (apply_body prisma t status metadata) s)
      ]

module _ (prisma : Prisma) (crypto : Crypto) (parse_json : Text → Option Payload) where
  -- A delivery that is answered with success was sent with a secret configured and a signature
  -- header that verifies against the secret and the raw body, the body is JSON, and what it did is
  -- what processing its value does, if that is an event, and nothing otherwise.
  pub handle_stripe_event-verified :
      (raw_body : Text) (header secret : Option Text) (now : ℕ) (s : Db) {s' : Db}
      → handle_stripe_event prisma crypto parse_json raw_body header secret now s ≡ (ok tt, s')
      → (key : Text) × (line : Text) × (given secret ≡ some key)
        × (given header ≡ some line)
        × (verify_stripe_signature crypto raw_body line key now ≡ true)
        × (((e : StripeEventLike) × (parse_json raw_body ≡ some (Payload.stripe_event e))
              × (process_event prisma crypto parse_json e s ≡ (ok tt, s')))
            ⊎ ((parse_json raw_body ≡ some Payload.no_event) × (s' ≡ s)))
  unfolding handle_stripe_event is_signed
  handle_stripe_event-verified raw_body header secret now s e = elim (Option-cases (given secret)) [
    | inl no_key ↦ absurd (ground arith)
    | inr (key, configured) ↦ elim (Option-cases (given header)) [
      | inl no_line ↦ absurd (ground arith)
      | inr (line, sent) ↦ elim (Option-cases (parse_json raw_body)) [
        | inl no_json ↦ absurd (ground arith)
        | inr (Payload.no_event, parsed) ↦
            (key, line, configured, sent, ground arith, inr (parsed, ground arith))
        | inr (Payload.stripe_event v, parsed) ↦
            (key, line, configured, sent, ground arith, inl (v, parsed, ground arith))
      ]
    ]
  ]

  apply_to_object-webhook_events :
      (o : EventObject) (status : TransactionStatus) (metadata : Metadata) (s : Db)
      → (apply_to_object prisma crypto parse_json o status metadata s).1.webhook_events
        ≡ s.webhook_events
  unfolding apply_provider_status_update
  apply_to_object-webhook_events EventObject.unreadable status metadata s = refl
  apply_to_object-webhook_events EventObject.no_id status metadata s =
      apply_matching-webhook_events prisma (λ t. true) status metadata s
  apply_to_object-webhook_events (EventObject.object ref) status metadata s =
      apply_matching-webhook_events prisma (has_provider_ref ref) status metadata s

  apply_event-webhook_events :
      (event : StripeEventLike) (t : List WebhookEvent) (status : Option TransactionStatus) (s : Db)
      → (apply_event prisma crypto parse_json event status
          (record s { webhook_events = t })).1.webhook_events
        ≡ t
  apply_event-webhook_events event t none s = refl
  apply_event-webhook_events event t (some status) s =
      apply_to_object-webhook_events event.data_object status (("eventType", text event.type) ∷ [])
        (record s { webhook_events = t })

  -- Once its event is in the table, a delivery has nothing left to do.
  seen_skips :
      (event : StripeEventLike) (s : Db)
      → any (is_event event.id) s.webhook_events ≡ true
      → process_event prisma crypto parse_json event s ≡ (ok tt, s)
  unfolding process_event
  seen_skips event s h =
      ground
        (arith, prisma.create_unique_lem (is_event event.id) (stripe_row event) s.webhook_events)

  seen_stays :
      (event : StripeEventLike) (s : Db)
      → any (is_event event.id) (process_event prisma crypto parse_json event s).1.webhook_events
        ≡ true
  unfolding process_event
  seen_stays event s =
      let insert =
        prisma.create_unique_lem (is_event event.id) (stripe_row event) s.webhook_events in
      let rest =
        apply_event-webhook_events event (stripe_row event ∷ s.webhook_events)
          (status_by_event_type event.type) s in
      elim (Bool-cases (any (is_event event.id) s.webhook_events)) [
        | inl seen ↦ ground (arith, insert)
        | inr new ↦ ground (arith, insert, rest)
      ]

  -- The second delivery of an event changes nothing and answers success, whatever the first one
  -- did.
  pub process_event-once :
      (event : StripeEventLike) (s : Db)
      → process_event prisma crypto parse_json event
          (process_event prisma crypto parse_json event s).1
        ≡ (ok tt, (process_event prisma crypto parse_json event s).1)
  process_event-once event s =
      seen_skips event (process_event prisma crypto parse_json event s).1 (seen_stays event s)

module _ (prisma : Prisma) where
  -- A transaction is answered only for a deal in TRANSACTION. It is the one that the deal has already,
  -- and then the table stays as it is; or the deal had none, and it is the one new row: PENDING, for
  -- the amount and the currency of the deal's accepted offer.
  pub create-pays_offer :
      (user : AuthenticatedUser) (deal_id : ℕ) (dto_provider : Option String) (id : ℕ) (s : Db)
      {t : Transaction} {s' : Db}
      → create prisma user deal_id dto_provider id s ≡ (ok t, s')
      → (deal : Deal) × (offer : Offer) × (prisma.find_first (is_deal deal_id) s.deals ≡ some deal)
        × (deal.status ≡ DealStatus.transaction)
        × (prisma.find_first (λ o. o.id == deal.accepted_offer_id) s.offers ≡ some offer)
        × (((prisma.find_first (is_transaction_of deal_id) s.transactions ≡ some t)
              × (s'.transactions ≡ s.transactions))
            ⊎ ((any (is_transaction_of deal_id) s.transactions ≡ false)
                × (t.id ≡ id)
                × (t.deal_id ≡ deal_id)
                × (t.amount_minor ≡ offer.amount_minor)
                × (t.currency ≡ offer.currency)
                × (t.status ≡ TransactionStatus.pending)
                × (s'.transactions ≡ t ∷ s.transactions)))
  unfolding create assert_participant add_timeline_event
  create-pays_offer user deal_id dto_provider id s e =
      let is_paid = is_transaction_of deal_id in
      elim (Option-cases (prisma.find_first (is_deal deal_id) s.deals)) [
        | inl none_found ↦ absurd (ground arith)
        | inr (deal, found) ↦
            elim (Option-cases (prisma.find_first (λ o. o.id == deal.accepted_offer_id) s.offers)) [
              | inl none_stored ↦ absurd (ground arith)
              | inr (offer, stored) ↦
                  let upsert =
                    prisma.upsert_lem is_paid (new_transaction deal_id offer dto_provider id)
                      (λ t. t) s.transactions in
                  elim (Option-cases (prisma.find_first is_paid s.transactions)) [
                    | inl fresh ↦
                        let none_there = prisma.find_first-none is_paid s.transactions fresh in
                        (
                          deal,
                          offer,
                          found,
                          ground arith,
                          stored,
                          inr (
                            none_there,
                            ground arith,
                            ground arith,
                            ground arith,
                            ground arith,
                            ground arith,
                            ground (arith, upsert),
                          ),
                        )
                    | inr (old, there) ↦
                        let some_there = found_any prisma is_paid s.transactions old there in
                        let same = update_where-same is_paid s.transactions in
                        (
                          deal,
                          offer,
                          found,
                          ground arith,
                          stored,
                          inl (ground arith, ground (arith, upsert, same)),
                        )
                  ]
            ]
      ]
