-- ===== src/Payments/Transactions.antt =====
-- src/transactions/transactions.service.ts
use idea_project.Base.{
  ℕ, Bool, false, not, Option, none, some, List, [], ◌∷◌, String, ◌==◌, nat_eq, or_else,
  if◌then◌else◌,
}
use idea_project.Schema.{
  Db, DealStatus, deal_status_eq, Offer, Transaction, TransactionStatus, transaction_status_eq,
  TransactionEvent, provider, transaction_created, Metadata, key,
}
use idea_project.Common.{
  Action, ok, err, Error, AuthenticatedUser, ErrorCode, not_found_exception, conflict_exception,
  ◌>>=◌, ◌>>◌, pure, gets, raise_if, modify, or_raise,
}
use idea_project.Common.Prisma.{Prisma}
use idea_project.Deals.Service.{assert_participant, add_timeline_event, is_deal}

abbrev pub is_transaction_of : ℕ → Transaction → Bool
is_transaction_of deal_id t = t.deal_id == deal_id

-- `where: { providerRef }`
abbrev pub matches_ref : Option ℕ → ℕ → Bool
matches_ref none ref = false
matches_ref (some r) ref = r == ref

abbrev pub has_provider_ref : ℕ → Transaction → Bool
has_provider_ref ref t = matches_ref t.provider_ref ref

abbrev pub has_transaction_id : ℕ → Transaction → Bool
has_transaction_id id t = t.id == id

abbrev pub set_transaction_status : TransactionStatus → Transaction → Transaction
set_transaction_status status t = record t { status = status }

-- `transaction.create` for the accepted offer of a deal.
abbrev pub new_transaction : ℕ → Offer → Option String → ℕ → Transaction
new_transaction deal_id offer dto_provider id = record {
  id = id;
  deal_id = deal_id;
  amount_minor = offer.amount_minor;
  currency = offer.currency;
  status = TransactionStatus.pending;
  provider = some (or_else dto_provider "stripe");
  provider_ref = none;
}

module _ (prisma : Prisma) where
  -- The nested event is created with the row, and only then.
  abbrev created_event : Option Transaction → ℕ → List TransactionEvent → List TransactionEvent
  created_event (some t) id events = events
  created_event none id events =
      prisma.create (record { transaction_id = id; type = transaction_created; metadata = [] })
        events

  unfoldable pub create : AuthenticatedUser → ℕ → Option String → ℕ → Action Transaction
  create user deal_id dto_provider id = do
    assert_participant prisma user.id deal_id
    found_deal ← gets λ s. prisma.find_first (is_deal deal_id) s.deals
    deal ← or_raise found_deal Error.record_not_found
    found_offer ← gets λ s. prisma.find_first (λ o. o.id == deal.accepted_offer_id) s.offers
    offer ← or_raise found_offer Error.record_not_found
    raise_if (not (deal.status == DealStatus.transaction))
        (conflict_exception ErrorCode.deal_invalid_state_transition)
    existing ← gets λ s. prisma.find_first (is_transaction_of deal_id) s.transactions
    modify λ s. record s {
      transactions =
          prisma.upsert (is_transaction_of deal_id) (new_transaction deal_id offer dto_provider id)
            (λ t. t) s.transactions;
      transaction_events = created_event existing id s.transaction_events;
    }
    let transaction = or_else existing (new_transaction deal_id offer dto_provider id)
    modify (
        add_timeline_event prisma deal_id "TRANSACTION_STARTED" (some user.id)
          (("transactionId", key transaction.id) ∷ []))
    pure transaction

  unfoldable pub get_for_deal : AuthenticatedUser → ℕ → Action Transaction
  get_for_deal user deal_id = do
    assert_participant prisma user.id deal_id
    found ← gets λ s. prisma.find_first (is_transaction_of deal_id) s.transactions
    or_raise found (not_found_exception ErrorCode.not_found_error)

  abbrev save_transactions : Option (List Transaction) → Action (Unit {0})
  save_transactions none s = (err Error.record_not_found, s)
  save_transactions (some t) s = (ok tt, record s { transactions = t })

  -- What runs inside `$transaction`.
  unfoldable pub apply_body : Transaction → TransactionStatus → Metadata → Action (Unit {0})
  apply_body t status metadata = do
    λ s.
        save_transactions
          (prisma.update (has_transaction_id t.id) (set_transaction_status status) s.transactions) s
    modify λ s. record s {
      transaction_events =
          prisma.create
            (record { transaction_id = t.id; type = provider status; metadata = metadata })
            s.transaction_events;
    }

  abbrev complete_deal : Transaction → TransactionStatus → Db → Db
  complete_deal t status s =
      if status == TransactionStatus.completed
      then add_timeline_event prisma t.deal_id "TRANSACTION_COMPLETED" none
          (("transactionId", key t.id) ∷ []) s
      else s

  apply_to : Option Transaction → TransactionStatus → Metadata → Action (Unit {0})
  unfolding apply_body
  apply_to none status metadata s = (ok tt, s)
  apply_to (some t) status metadata s =
      (prisma.transaction (apply_body t status metadata) >> modify (complete_deal t status)) s

  -- For the transaction that a condition finds.
  unfoldable pub apply_matching :
      (Transaction → Bool) → TransactionStatus → Metadata → Action (Unit {0})
  unfolding apply_to
  apply_matching p status metadata s =
      apply_to (prisma.find_first p s.transactions) status metadata s

  unfoldable pub apply_provider_status_update : ℕ → TransactionStatus → Metadata → Action (Unit {0})
  unfolding apply_matching
  apply_provider_status_update ref status metadata s =
      apply_matching (has_provider_ref ref) status metadata s
