-- ===== src/Payments/Linking.antt =====
-- Which transactions a payment event reaches: `create` and `applyProviderStatusUpdate` of
-- src/transactions/transactions.service.ts.
use idea_project.Base.{
  ℕ, ◌≡◌, refl, Bool, false, ◌==◌, nat_eq, any, some, Option, List, [], ◌∷◌, arith, String,
  update_where, is_some, Option-cases, inl, inr,
}
use idea_project.Base.Updates.{any-of_Elem, update_where-same}
use idea_project.Schema.{Db, Transaction, TransactionStatus, Metadata}
use idea_project.Common.{AuthenticatedUser, ok}
use idea_project.Common.Prisma.{Prisma}
use idea_project.Deals.Service.{is_deal, assert_participant, add_timeline_event}
use idea_project.Payments.Transactions.{
  create, is_transaction_of, new_transaction, has_provider_ref, has_transaction_id,
  set_transaction_status, apply_body, apply_provider_status_update,
}

abbrev pub is_linked : Transaction → Bool
is_linked t = is_some t.provider_ref

not_found_unlinked :
    (ref : ℕ) (ts : List Transaction)
    → any is_linked ts ≡ false
    → any (has_provider_ref ref) ts ≡ false
not_found_unlinked ref [] h = refl
not_found_unlinked ref (t ∷ ts) h = ground (arith, not_found_unlinked ref ts)

module _ (prisma : Prisma) where
  create-is_unlinked :
      (user : AuthenticatedUser) (deal_id : ℕ) (provider : Option String) (id : ℕ) (s : Db)
      → any is_linked s.transactions ≡ false
      → any is_linked (create prisma user deal_id provider id s).1.transactions ≡ false
  unfolding create assert_participant add_timeline_event
  create-is_unlinked user deal_id provider id s h =
      elim (Option-cases (prisma.find_first (is_deal deal_id) s.deals)) [
        | inl none_found ↦ ground arith
        | inr (deal, found) ↦
            elim (Option-cases (prisma.find_first (λ o. o.id == deal.accepted_offer_id) s.offers)) [
              | inl none_stored ↦ ground arith
              | inr (offer, stored) ↦ ground (
                arith,
                prisma.upsert_lem (is_transaction_of deal_id)
                    (new_transaction deal_id offer provider id) (λ t. t) s.transactions,
                update_where-same (is_transaction_of deal_id) s.transactions,
              )
            ]
      ]

  unlinked_dropped :
      (ref : ℕ) (status : TransactionStatus) (metadata : Metadata) (s : Db)
      → any is_linked s.transactions ≡ false
      → apply_provider_status_update prisma ref status metadata s ≡ (ok tt, s)
  unfolding apply_provider_status_update
  unlinked_dropped ref status metadata s h =
      elim (Option-cases (prisma.find_first (has_provider_ref ref) s.transactions)) [
        | inl none_found ↦ ground arith
        | inr (t, found) ↦
            let (here, at) = prisma.find_first-some (has_provider_ref ref) s.transactions t found in
            let hit = any-of_Elem (has_provider_ref ref) t s.transactions at here in
            let miss = not_found_unlinked ref s.transactions h in cc
      ]

  -- `create` stores no provider reference: while no transaction has one, none has one after it, and
  -- then every status update for a reference, whatever the reference and the status, answers success
  -- and changes nothing.
  pub create-unlinked :
      (user : AuthenticatedUser) (deal_id : ℕ) (provider : Option String) (id : ℕ) (ref : ℕ)
      (status : TransactionStatus) (metadata : Metadata) (s : Db)
      → any is_linked s.transactions ≡ false
      → (any is_linked (create prisma user deal_id provider id s).1.transactions ≡ false)
        × (apply_provider_status_update prisma ref status metadata
              (create prisma user deal_id provider id s).1
            ≡ (ok tt, (create prisma user deal_id provider id s).1))
  create-unlinked user deal_id provider id ref status metadata s h =
      let after = create-is_unlinked user deal_id provider id s h in
      (
        after,
        unlinked_dropped ref status metadata (create prisma user deal_id provider id s).1 after,
      )

  -- A payment event whose reference belongs to a transaction succeeds and sets the status of that
  -- transaction to the event's, whatever the status was; no other transaction changes.
  apply_provider_status_update-sets :
      (ref : ℕ) (status : TransactionStatus) (metadata : Metadata) (t : Transaction) (s : Db)
      → prisma.find_first (has_provider_ref ref) s.transactions ≡ some t
      → ((apply_provider_status_update prisma ref status metadata s).0 ≡ ok tt)
        × ((apply_provider_status_update prisma ref status metadata s).1.transactions
            ≡ update_where (has_transaction_id t.id) (set_transaction_status status) s.transactions)
  unfolding apply_provider_status_update add_timeline_event apply_body
  apply_provider_status_update-sets ref status metadata t s found =
      let (here, at) = prisma.find_first-some (has_provider_ref ref) s.transactions t found in
      let there = any-of_Elem (has_transaction_id t.id) t s.transactions at (ground arith) in
      let run = prisma.transaction_lem (apply_body prisma t status metadata) s in
      let change =
        prisma.update_lem (has_transaction_id t.id) (set_transaction_status status)
          s.transactions in
      (ground (arith, run, there, change), ground (arith, run, there, change))
