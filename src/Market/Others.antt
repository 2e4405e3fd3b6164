-- ===== src/Market/Others.antt =====
-- The methods of the accounts, the documents and the payments leave the businesses and the deals
-- alone too.
use idea_project.Base.{
  true, Bool, ℕ, Option, String, arith, Option-cases, inl, inr, nat_eq, some, ◌∷◌, [], none, List,
}
use idea_project.Schema.{Transaction, Db, WebhookEvent, TransactionStatus, Metadata, text}
use idea_project.Common.{AuthenticatedUser, keep}
use idea_project.Common.Prisma.{Prisma}
use idea_project.Market.Frames.{Keeps}
use idea_project.Auth.Tokens.{AuthEnv, RequestMeta, Random, hash_opaque_token}
use idea_project.Auth.Sessions as Sessions
use idea_project.Auth.Accounts as Accounts
use idea_project.Auth.Accounts.{RegisterDto, RegisterRandom, NormalRole, has_token_hash, is_usable}
use idea_project.Auth.Google as Google
use idea_project.Auth.Google.{TokenPayload, GoogleRandom}
use idea_project.Documents.Service as Documents
use idea_project.Documents.Service.{UploadedFilePayload, UploadDocumentDto, GrantAccessDto}
use idea_project.Payments.Signature.{Text, Crypto}
use idea_project.Payments.Transactions as Payments
use idea_project.Payments.Transactions.{has_provider_ref}
use idea_project.Payments.Webhooks as Webhooks
use idea_project.Payments.Webhooks.{StripeEventLike, Payload, EventObject, status_by_event_type}

module _ (prisma : Prisma) (env : AuthEnv) where
  pub login-Keeps :
      (email password : ℕ) (meta : RequestMeta) (random : Random) (now : ℕ) (s : Db)
      → Keeps s (Sessions.login prisma env email password meta random now s).1
  unfolding Sessions.login
  login-Keeps email password meta random now s = ground arith

  pub logout-Keeps :
      (user_id : ℕ) (raw : Option ℕ) (now : ℕ) (s : Db)
      → Keeps s (Sessions.logout prisma env user_id raw now s).1
  unfolding Sessions.logout
  logout-Keeps user_id raw now s = ground arith

  pub logout_all_devices-Keeps :
      (user_id now : ℕ) (s : Db) → Keeps s (Sessions.logout_all_devices prisma env user_id now s).1
  unfolding Sessions.logout_all_devices
  logout_all_devices-Keeps user_id now s = ground arith

  pub refresh-Keeps :
      (raw : ℕ) (meta : RequestMeta) (random : Random) (now : ℕ) (s : Db)
      → Keeps s (Sessions.refresh prisma env raw meta random now s).1
  unfolding Sessions.refresh Sessions.rotate Sessions.revoke_family
  refresh-Keeps raw meta random now s = ground arith

  pub register-Keeps :
      (dto : RegisterDto) (meta : RequestMeta) (random : RegisterRandom) (now : ℕ) (s : Db)
      → Keeps s (Accounts.register prisma env dto meta random now s).1
  unfolding Accounts.register
  register-Keeps dto meta random now s = ground arith

  pub forgot_password-Keeps :
      (email token_id raw now : ℕ) (s : Db)
      → Keeps s (Accounts.forgot_password prisma env email token_id raw now s).1
  unfolding Accounts.forgot_password
  forgot_password-Keeps email token_id raw now s = ground arith

  pub verify_email-Keeps :
      (raw now : ℕ) (s : Db) → Keeps s (Accounts.verify_email prisma env raw now s).1
  unfolding Accounts.verify_email
  verify_email-Keeps raw now s =
      elim (Option-cases (
        keep (is_usable now) (
          prisma.find_first (has_token_hash (hash_opaque_token env raw))
            s.email_verification_tokens))) [
              | inl e ↦ ground arith
              | inr (t, e) ↦
                  ground
                    (arith, prisma.transaction_lem (Accounts.verify_email_body prisma env t now) s)
            ]

  pub reset_password-Keeps :
      (raw password now : ℕ) (s : Db)
      → Keeps s (Accounts.reset_password prisma env raw password now s).1
  unfolding Accounts.reset_password
  reset_password-Keeps raw password now s =
      elim (Option-cases (
        keep (is_usable now) (
          prisma.find_first (has_token_hash (hash_opaque_token env raw))
            s.password_reset_tokens))) [
              | inl e ↦ ground arith
              | inr (t, e) ↦ ground (
                arith,
                prisma.transaction_lem
                    (Accounts.reset_body prisma env t (env.argon2_hash password) now) s,
              )
            ]

module _ (prisma : Prisma) (env : AuthEnv) (verify_id_token : ℕ → ℕ → Option TokenPayload) where
  pub login_with_google-Keeps :
      (client_id : Option ℕ) (credential : ℕ) (role : Option NormalRole) (meta : RequestMeta)
      (random : GoogleRandom) (now : ℕ) (s : Db)
      → Keeps s
          (Google.login_with_google prisma env verify_id_token client_id credential role meta random
            now s).1
  unfolding Google.login_with_google Accounts.add_user
  login_with_google-Keeps client_id credential role meta random now s = ground arith

module _ (prisma : Prisma) (sign_url : ℕ → String) where
  pub upload-Keeps :
      (user : AuthenticatedUser) (business_id : ℕ) (file : UploadedFilePayload)
      (dto : UploadDocumentDto) (storage_key id : ℕ) (s : Db)
      → Keeps s (Documents.upload prisma sign_url user business_id file dto storage_key id s).1
  unfolding Documents.upload
  upload-Keeps user business_id file dto storage_key id s = ground arith

  pub grant_access-Keeps :
      (user : AuthenticatedUser) (document_id : ℕ) (dto : GrantAccessDto) (s : Db)
      → Keeps s (Documents.grant_access prisma sign_url user document_id dto s).1
  unfolding Documents.grant_access
  grant_access-Keeps user document_id dto s = ground arith

  pub revoke_access-Keeps :
      (user : AuthenticatedUser) (document_id grantee_id now : ℕ) (s : Db)
      → Keeps s (Documents.revoke_access prisma sign_url user document_id grantee_id now s).1
  unfolding Documents.revoke_access
  revoke_access-Keeps user document_id grantee_id now s = ground arith

  pub remove-Keeps :
      (user : AuthenticatedUser) (document_id now : ℕ) (s : Db)
      → Keeps s (Documents.remove prisma sign_url user document_id now s).1
  unfolding Documents.remove
  remove-Keeps user document_id now s = ground arith

  pub download-Keeps :
      (user : AuthenticatedUser) (document_id now : ℕ) (s : Db)
      → Keeps s (Documents.get_signed_download_url prisma sign_url user document_id now s).1
  unfolding Documents.get_signed_download_url Documents.get_accessible_document
  download-Keeps user document_id now s = ground arith

module _ (prisma : Prisma) where
  apply_matching-Keeps :
      (p : Transaction → Bool) (status : TransactionStatus) (metadata : Metadata) (s : Db)
      → Keeps s (Payments.apply_matching prisma p status metadata s).1
  unfolding Payments.apply_matching idea_project.Deals.Service.add_timeline_event
  apply_matching-Keeps p status metadata s =
      elim (Option-cases (prisma.find_first p s.transactions)) [
        | inl e ↦ ground arith
        | inr (t, e) ↦
            ground (arith, prisma.transaction_lem (Payments.apply_body prisma t status metadata) s)
      ]

module _ (prisma : Prisma) (crypto : Crypto) (parse_json : Text → Option Payload) where
  apply_to_object-Keeps :
      (o : EventObject) (status : TransactionStatus) (metadata : Metadata) (s : Db)
      → Keeps s (Webhooks.apply_to_object prisma crypto parse_json o status metadata s).1
  unfolding Payments.apply_provider_status_update
  apply_to_object-Keeps EventObject.unreadable status metadata s = ground arith
  apply_to_object-Keeps EventObject.no_id status metadata s =
      apply_matching-Keeps prisma (λ t. true) status metadata s
  apply_to_object-Keeps (EventObject.object ref) status metadata s =
      apply_matching-Keeps prisma (has_provider_ref ref) status metadata s

  apply_event-Keeps :
      (event : StripeEventLike) (t : List WebhookEvent) (status : Option TransactionStatus) (s : Db)
      → Keeps s
          (Webhooks.apply_event prisma crypto parse_json event status
            (record s { webhook_events = t })).1
  apply_event-Keeps event t none s = ground arith
  apply_event-Keeps event t (some status) s = ground (
    arith,
    apply_to_object-Keeps event.data_object status (("eventType", text event.type) ∷ [])
        (record s { webhook_events = t }),
  )

  process_once-Keeps :
      (event : StripeEventLike) (t : Option (List WebhookEvent)) (s : Db)
      → Keeps s (Webhooks.process_once prisma crypto parse_json event t s).1
  process_once-Keeps event none s = ground arith
  process_once-Keeps event (some t) s =
      apply_event-Keeps event t (status_by_event_type event.type) s

  process_event-Keeps :
      (event : StripeEventLike) (s : Db)
      → Keeps s (Webhooks.process_event prisma crypto parse_json event s).1
  unfolding Webhooks.process_event
  process_event-Keeps event s = process_once-Keeps event _ s

  process_payload-Keeps :
      (payload : Payload) (s : Db)
      → Keeps s (Webhooks.process_payload prisma crypto parse_json payload s).1
  unfolding Webhooks.process_payload
  process_payload-Keeps Payload.no_event s = ground arith
  process_payload-Keeps (Payload.stripe_event e) s = process_event-Keeps e s

  pub handle_stripe_event-Keeps :
      (raw_body : Text) (header secret : Option Text) (now : ℕ) (s : Db)
      → Keeps s
          (Webhooks.handle_stripe_event prisma crypto parse_json raw_body header secret now s).1
  unfolding Webhooks.handle_stripe_event
  handle_stripe_event-Keeps raw_body header secret now s =
      elim (Option-cases (parse_json raw_body)) [
        | inl e ↦ ground arith
        | inr (payload, e) ↦ ground (arith, process_payload-Keeps payload s)
      ]
