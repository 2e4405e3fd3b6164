-- ===== src/Payments/Webhooks.antt =====
-- src/webhooks/webhooks.service.ts. `JSON.parse` is a parameter.
use package.text.Mathlib.Text.{◌==◌ as str_eq}
use idea_project.Base.{
  ℕ, Bool, true, false, not, ◌&&◌, Option, none, some, List, [], ◌∷◌, String, ◌==◌, nat_eq,
  if◌then◌else◌,
}
use idea_project.Schema.{TransactionStatus, WebhookEvent, Metadata, text}
use idea_project.Common.{
  Action, ok, err, Error, ErrorCode, HttpStatus, app, ◌>>=◌, ◌>>◌, raise_if, or_raise,
}
use idea_project.Common.Prisma.{Prisma}
use idea_project.Payments.Signature.{Text, Crypto, given, verify_stripe_signature}
use idea_project.Payments.Transactions.{apply_matching, apply_provider_status_update}

-- `event.data.object`: reading its `id` throws, or gives no text (another value, which the query of the
-- transactions refuses), or nothing (`undefined`, with which that query has no condition), or a text.
pub data EventObject : Type 0 where
  unreadable no_id : EventObject
  object : ℕ → EventObject

-- `StripeEventLike`, with a text as `id`; a missing `type` is the empty text.
pub record StripeEventLike : Type 0 where
  pub id : ℕ
  pub type : String
  pub data_object : EventObject

-- What the body holds. A value that is `null` or has no text as `id` is no event.
pub data Payload : Type 0 where
  no_event : Payload
  stripe_event : StripeEventLike → Payload

unfoldable pub status_by_event_type : String → Option TransactionStatus
status_by_event_type type =
    if str_eq type "payment_intent.succeeded"
    then some TransactionStatus.completed
    else if str_eq type "payment_intent.payment_failed"
    then some TransactionStatus.failed
    else if str_eq type "payment_intent.canceled"
    then some TransactionStatus.cancelled
    else if str_eq type "charge.refunded"
    then some TransactionStatus.refunded
    else none

abbrev pub is_event : ℕ → WebhookEvent → Bool
is_event event_id e = str_eq e.provider "stripe" && e.event_id == event_id

module _ (prisma : Prisma) (crypto : Crypto) (parse_json : Text → Option Payload) where
  is_signed_by : Option Text → Option Text → Text → ℕ → Bool
  is_signed_by none header raw_body now = false
  is_signed_by (some secret) none raw_body now = false
  is_signed_by (some secret) (some header) raw_body now =
      verify_stripe_signature crypto raw_body header secret now

  -- `secret && signatureHeader && verifyStripeSignature(…)`
  unfoldable pub is_signed : Option Text → Option Text → Text → ℕ → Bool
  unfolding is_signed_by
  is_signed secret header raw_body now = is_signed_by (given secret) (given header) raw_body now

  abbrev pub apply_to_object : EventObject → TransactionStatus → Metadata → Action (Unit {0})
  apply_to_object EventObject.unreadable status metadata s = (err Error.failure, s)
  apply_to_object EventObject.no_id status metadata s =
      apply_matching prisma (λ t. true) status metadata s
  apply_to_object (EventObject.object ref) status metadata s =
      apply_provider_status_update prisma ref status metadata s

  abbrev pub apply_event : StripeEventLike → Option TransactionStatus → Action (Unit {0})
  apply_event event none s = (ok tt, s)
  apply_event event (some status) s =
      apply_to_object event.data_object status (("eventType", text event.type) ∷ []) s

  -- After the insertion into `webhook_events`, which a second delivery fails.
  abbrev pub process_once : StripeEventLike → Option (List WebhookEvent) → Action (Unit {0})
  process_once event none s = (ok tt, s)
  process_once event (some t) s =
      apply_event event (status_by_event_type event.type) (record s { webhook_events = t })

  unfoldable pub process_event : StripeEventLike → Action (Unit {0})
  process_event event s =
      process_once event
        (prisma.create_unique (is_event event.id)
          (record { provider = "stripe"; event_id = event.id }) s.webhook_events)
        s

  -- Reading or inserting the `id` of what is no event throws, and `catch {}` takes that for a delivery
  -- that was processed before.
  unfoldable pub process_payload : Payload → Action (Unit {0})
  unfolding process_event
  process_payload Payload.no_event s = (ok tt, s)
  process_payload (Payload.stripe_event e) s = process_event e s

  unfoldable pub handle_stripe_event : Text → Option Text → Option Text → ℕ → Action (Unit {0})
  unfolding process_payload
  handle_stripe_event raw_body header secret now = do
    raise_if (not (is_signed secret header raw_body now))
        (app ErrorCode.webhook_invalid_signature HttpStatus.bad_request)
    payload ← or_raise (parse_json raw_body) Error.failure
    process_payload payload
