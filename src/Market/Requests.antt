-- ===== src/Market/Requests.antt =====
-- The requests of the services, and the database after one. A request that throws leaves behind what
-- it had written before.
use idea_project.Base.{ℕ, Bool, Option, String, ◌≡◌, false, ◌==◌, nat_eq, any}
use idea_project.Schema.{
  Db, Deal, DealStatus, DealParticipantRole, DealTaskStatus, PlanCode, AiJobType,
}
use idea_project.Common.{AuthenticatedUser}
use idea_project.Common.Prisma.{Prisma}
use idea_project.Common.Money.{Numbers}
use idea_project.Auth.Tokens.{AuthEnv, RequestMeta, Random}
use idea_project.Auth.Sessions as Sessions
use idea_project.Auth.Accounts as Accounts
use idea_project.Auth.Accounts.{RegisterDto, RegisterRandom, NormalRole}
use idea_project.Auth.Google as Google
use idea_project.Auth.Google.{TokenPayload, GoogleRandom}
use idea_project.Documents.Service as Documents
use idea_project.Documents.Service.{UploadedFilePayload, UploadDocumentDto, GrantAccessDto}
use idea_project.Payments.Signature.{Text, Crypto}
use idea_project.Payments.Transactions as Payments
use idea_project.Payments.Webhooks as Webhooks
use idea_project.Payments.Webhooks.{Payload}
use idea_project.Offers.Queries.{CreateOfferDto}
use idea_project.Offers.Create as Create
use idea_project.Offers.Respond as Respond
use idea_project.Offers.Accept as Accept
use idea_project.Businesses.Service as Businesses
use idea_project.Businesses.Service.{CreateBusinessDto, UpdateListingDto}
use idea_project.Businesses.Edit as Edit
use idea_project.Businesses.Edit.{UpdateBusinessDto}
use idea_project.Businesses.Admin as Admin
use idea_project.Deals.Service as Deals
use idea_project.Deals.Service.{CreateTaskDto}
use idea_project.Agreements.Service as Agreements
use idea_project.Agreements.Service.{CreateAgreementVersionDto}
use idea_project.Common.Pages.{CursorPaginationQuery}
use idea_project.Businesses.Metrics as Metrics
use idea_project.Businesses.Metrics.{CreateMetricDto}
use idea_project.Conversations.Service as Conversations
use idea_project.Conversations.Service.{CreateConversationDto, SendMessageDto}
use idea_project.Notifications.Service as Notifications
use idea_project.DueDiligence.Service as DueDiligence
use idea_project.DueDiligence.Service.{CreateDueDiligenceRequestDto, UpdateItemStatusDto}
use idea_project.Verification.Service as Verification
use idea_project.Verification.Service.{SubmitVerificationDto, ReviewVerificationDto}
use idea_project.Organizations.Service as Organizations
use idea_project.Organizations.Service.{CreateOrganizationDto, AddMemberDto}
use idea_project.Search.SavedSearches as SavedSearches
use idea_project.Search.SavedSearches.{SaveSearchDto, UpdateSearchDto}
use idea_project.Search.Watchlists as Watchlists
use idea_project.Billing as Billing
use idea_project.Reports as Reports
use idea_project.Reports.{CreateReportDto}
use idea_project.Users as Users
use idea_project.Users.{UpdateProfileDto}
use idea_project.Categories as Categories
use idea_project.Search.Alerts as Alerts
use idea_project.Ai.Service as Ai
use idea_project.Ai.Service.{AiConfig}
use idea_project.Ai.Processor as Processor
use idea_project.Ai.Processor.{AiProvider}

-- What the services take from outside the repository.
pub record Services : Type 1 where
  pub prisma : Prisma
  pub numbers : Numbers
  pub env : AuthEnv
  pub crypto : Crypto
  pub parse_json : Text → Option Payload
  pub verify_id_token : ℕ → ℕ → Option TokenPayload
  pub sign_url : ℕ → String
  pub ai_config : AiConfig
  pub provider : AiProvider

-- One constructor for each method that writes, with its arguments, the random identifiers and the time.
pub data Request (Num : Type 0) : Type 0 where
  create_offer : AuthenticatedUser → ℕ → CreateOfferDto Num → ℕ → ℕ → ℕ → Request Num
  counter_offer : AuthenticatedUser → ℕ → CreateOfferDto Num → ℕ → ℕ → Request Num
  reject_offer withdraw_offer : AuthenticatedUser → ℕ → ℕ → Request Num
  accept_offer : AuthenticatedUser → ℕ → ℕ → ℕ → Request Num
  create_business : AuthenticatedUser → CreateBusinessDto → String → ℕ → Request Num
  update_business : AuthenticatedUser → ℕ → UpdateBusinessDto → Request Num
  soft_delete publish : AuthenticatedUser → ℕ → ℕ → Request Num
  unpublish : AuthenticatedUser → ℕ → Request Num
  update_listing : AuthenticatedUser → ℕ → UpdateListingDto Num → Request Num
  approve_business : AuthenticatedUser → ℕ → Option String → ℕ → Request Num
  reject_business suspend_business : AuthenticatedUser → ℕ → Option String → Request Num
  update_status : AuthenticatedUser → ℕ → DealStatus → Request Num
  add_participant : AuthenticatedUser → ℕ → ℕ → DealParticipantRole → Request Num
  create_task : AuthenticatedUser → ℕ → CreateTaskDto → ℕ → Request Num
  update_task_status : AuthenticatedUser → ℕ → ℕ → DealTaskStatus → Request Num
  create_agreement : AuthenticatedUser → ℕ → String → Option Bool → ℕ → Request Num
  add_version : AuthenticatedUser → ℕ → ℕ → CreateAgreementVersionDto → ℕ → Request Num
  sign : AuthenticatedUser → ℕ → ℕ → ℕ → Request Num
  create_transaction : AuthenticatedUser → ℕ → Option String → ℕ → Request Num
  stripe_event : Text → Option Text → Option Text → ℕ → Request Num
  register : RegisterDto → RequestMeta → RegisterRandom → ℕ → Request Num
  login : ℕ → ℕ → RequestMeta → Random → ℕ → Request Num
  login_with_google :
      Option ℕ → ℕ → Option NormalRole → RequestMeta → GoogleRandom → ℕ → Request Num
  logout : ℕ → Option ℕ → ℕ → Request Num
  logout_all_devices : ℕ → ℕ → Request Num
  refresh : ℕ → RequestMeta → Random → ℕ → Request Num
  verify_email : ℕ → ℕ → Request Num
  forgot_password : ℕ → ℕ → ℕ → ℕ → Request Num
  reset_password : ℕ → ℕ → ℕ → Request Num
  upload : AuthenticatedUser → ℕ → UploadedFilePayload → UploadDocumentDto → ℕ → ℕ → Request Num
  download remove_document : AuthenticatedUser → ℕ → ℕ → Request Num
  grant_access : AuthenticatedUser → ℕ → GrantAccessDto → Request Num
  revoke_access : AuthenticatedUser → ℕ → ℕ → ℕ → Request Num
  add_metric : AuthenticatedUser → ℕ → CreateMetricDto Num → Request Num
  create_conversation : AuthenticatedUser → CreateConversationDto → ℕ → ℕ → ℕ → Request Num
  list_messages : AuthenticatedUser → ℕ → CursorPaginationQuery → ℕ → Request Num
  send_message : AuthenticatedUser → ℕ → SendMessageDto → ℕ → ℕ → Request Num
  mark_read : ℕ → ℕ → ℕ → Request Num
  mark_all_read : ℕ → ℕ → Request Num
  create_request : AuthenticatedUser → ℕ → CreateDueDiligenceRequestDto → ℕ → Request Num
  update_item_status : AuthenticatedUser → ℕ → ℕ → UpdateItemStatusDto → Request Num
  submit_verification : AuthenticatedUser → ℕ → SubmitVerificationDto → ℕ → Request Num
  review_verification : AuthenticatedUser → ℕ → ReviewVerificationDto → Request Num
  create_organization : ℕ → CreateOrganizationDto → String → ℕ → Request Num
  add_member : ℕ → ℕ → AddMemberDto → Request Num
  remove_member : ℕ → ℕ → ℕ → Request Num
  save_search : ℕ → SaveSearchDto → ℕ → Request Num
  update_search : ℕ → ℕ → UpdateSearchDto → Request Num
  remove_search : ℕ → ℕ → Request Num
  watch : ℕ → ℕ → Request Num
  unwatch : ℕ → ℕ → Request Num
  subscribe : ℕ → PlanCode → ℕ → ℕ → Request Num
  create_report : AuthenticatedUser → CreateReportDto → ℕ → Request Num
  update_own_profile : ℕ → UpdateProfileDto → Request Num
  create_category : String → String → ℕ → Request Num
  match_saved_searches : ℕ → ℕ → Request Num
  request_analysis : AuthenticatedUser → ℕ → AiJobType → ℕ → ℕ → Request Num
  analyze_business : ℕ → ℕ → ℕ → Request Num

module _ (v : Services) where
  open v use {
    prisma, numbers, env, crypto, parse_json, verify_id_token, sign_url, ai_config, provider,
  }

  unfoldable pub handle : Request numbers.Num → Db → Db
  handle (create_offer u b dto n o now) s = (Create.create prisma numbers u b dto n o now s).1
  handle (counter_offer u o dto id now) s = (Create.counter prisma numbers u o dto id now s).1
  handle (reject_offer u o now) s = (Respond.reject prisma u o now s).1
  handle (withdraw_offer u o now) s = (Respond.withdraw prisma u o now s).1
  handle (accept_offer u o d now) s = (Accept.accept prisma u o d now s).1
  handle (create_business u dto slug id) s = (Businesses.create prisma u dto slug id s).1
  handle (update_business u id dto) s = (Edit.update prisma u id dto s).1
  handle (soft_delete u id now) s = (Businesses.soft_delete prisma u id now s).1
  handle (publish u id now) s = (Businesses.publish prisma u id now s).1
  handle (unpublish u id) s = (Businesses.unpublish prisma u id s).1
  handle (update_listing u id dto) s = (Businesses.update_listing prisma numbers u id dto s).1
  handle (approve_business u id r now) s = (Admin.approve_business prisma u id r now s).1
  handle (reject_business u id r) s = (Admin.reject_business prisma u id r s).1
  handle (suspend_business u id r) s = (Admin.suspend_business prisma u id r s).1
  handle (update_status u d status) s = (Deals.update_status prisma u d status s).1
  handle (add_participant u d p r) s = (Deals.add_participant prisma u d p r s).1
  handle (create_task u d dto id) s = (Deals.create_task prisma u d dto id s).1
  handle (update_task_status u d t status) s = (Deals.update_task_status prisma u d t status s).1
  handle (create_agreement u d title ai id) s = (Agreements.create prisma u d title ai id s).1
  handle (add_version u d a dto id) s = (Agreements.add_version prisma u d a dto id s).1
  handle (sign u d a version) s = (Agreements.sign prisma u d a version s).1
  handle (create_transaction u d p id) s = (Payments.create prisma u d p id s).1
  handle (stripe_event body header secret now) s =
      (Webhooks.handle_stripe_event prisma crypto parse_json body header secret now s).1
  handle (register dto meta r now) s = (Accounts.register prisma env dto meta r now s).1
  handle (login email password meta r now) s =
      (Sessions.login prisma env email password meta r now s).1
  handle (login_with_google c cred role meta r now) s =
      (Google.login_with_google prisma env verify_id_token c cred role meta r now s).1
  handle (logout u raw now) s = (Sessions.logout prisma env u raw now s).1
  handle (logout_all_devices u now) s = (Sessions.logout_all_devices prisma env u now s).1
  handle (refresh raw meta r now) s = (Sessions.refresh prisma env raw meta r now s).1
  handle (verify_email raw now) s = (Accounts.verify_email prisma env raw now s).1
  handle (forgot_password email id raw now) s =
      (Accounts.forgot_password prisma env email id raw now s).1
  handle (reset_password raw password now) s =
      (Accounts.reset_password prisma env raw password now s).1
  handle (upload u b file dto k id) s = (Documents.upload prisma sign_url u b file dto k id s).1
  handle (download u d now) s = (Documents.get_signed_download_url prisma sign_url u d now s).1
  handle (remove_document u d now) s = (Documents.remove prisma sign_url u d now s).1
  handle (grant_access u d dto) s = (Documents.grant_access prisma sign_url u d dto s).1
  handle (revoke_access u d g now) s = (Documents.revoke_access prisma sign_url u d g now s).1
  handle (add_metric user business_id dto) s =
      (Metrics.add_metric prisma numbers user business_id dto s).1
  handle (create_conversation user dto id message_id now) s =
      (Conversations.create prisma user dto id message_id now s).1
  handle (list_messages user conversation_id query now) s =
      (Conversations.list_messages prisma user conversation_id query now s).1
  handle (send_message user conversation_id dto id now) s =
      (Conversations.send_message prisma user conversation_id dto id now s).1
  handle (create_request user deal_id dto id) s =
      (DueDiligence.create_request prisma user deal_id dto id s).1
  handle (update_item_status user deal_id item_id dto) s =
      (DueDiligence.update_item_status prisma user deal_id item_id dto s).1
  handle (mark_read user_id id now) s = record s {
    outbox = Notifications.mark_read prisma user_id id now s.outbox;
  }
  handle (mark_all_read user_id now) s = record s {
    outbox = Notifications.mark_all_read prisma user_id now s.outbox;
  }
  handle (submit_verification user business_id dto id) s =
      (Verification.submit prisma user business_id dto id s).1
  handle (review_verification user id dto) s = (Verification.review prisma user id dto s).1
  handle (create_organization user_id dto slug id) s =
      (Organizations.create prisma user_id dto slug id s).1
  handle (add_member id user_id dto) s = (Organizations.add_member prisma id user_id dto s).1
  handle (remove_member id user_id target) s =
      (Organizations.remove_member prisma id user_id target s).1
  handle (save_search user_id dto id) s = (SavedSearches.create prisma user_id dto id s).1
  handle (update_search user_id id dto) s = (SavedSearches.update prisma user_id id dto s).1
  handle (remove_search user_id id) s = (SavedSearches.remove prisma user_id id s).1
  handle (watch user_id business_id) s = (Watchlists.add prisma user_id business_id s).1
  handle (unwatch user_id business_id) s = (Watchlists.remove prisma user_id business_id s).1
  handle (subscribe user_id code id now) s = (Billing.subscribe prisma user_id code id now s).1
  handle (create_report user dto id) s = (Reports.create prisma user dto id s).1
  handle (update_own_profile user_id dto) s = (Users.update_own_profile prisma user_id dto s).1
  handle (create_category name slug id) s = (Categories.create prisma name slug id s).1
  handle (match_saved_searches business_id now) s = (Alerts.process prisma business_id now s).1
  handle (request_analysis user business_id type id now) s =
      (Ai.request_analysis prisma ai_config user business_id type id now s).1
  handle (analyze_business job_id started now) s =
      (Processor.process prisma provider job_id started now s).1

-- A deal for this business.
abbrev pub is_deal_for : ℕ → Deal → Bool
is_deal_for id d = d.business_id == id

-- The identifier of a new business is a fresh UUID: no business and no deal has it.
abbrev pub IsFresh : {Num : Type 0} → Request Num → Db → Type 0
IsFresh (create_business u dto slug id) s =
    (any (is_deal_for id) s.deals ≡ false) × (any (Businesses.is_business id) s.businesses ≡ false)
IsFresh _ s = Unit {0}

module _ (v : Services) where
  -- The databases that requests lead to, one request after another.
  pub data Reach (s : Db) : Db → Type 0 where
    start : Reach s s
    next : {t : Db} (r : Request v.numbers.Num) → Reach s t → IsFresh r t → Reach s (handle v r t)
