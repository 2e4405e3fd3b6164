-- ===== src/Market/Desk.antt =====
-- The methods of the conversations, the deal room's requests, the verifications, the organizations, the
-- saved searches and the smaller services leave the businesses and the deals alone.
use idea_project.Base.{ℕ, String, arith}
use idea_project.Schema.{Db, PlanCode}
use idea_project.Common.{AuthenticatedUser}
use idea_project.Common.Prisma.{Prisma}
use idea_project.Common.Money.{Numbers}
use idea_project.Common.Pages.{CursorPaginationQuery}
use idea_project.Market.Frames.{Keeps}
use idea_project.Deals.Service as Deals
use idea_project.Businesses.Service.{find_owned, serialize_business}
use idea_project.Businesses.Metrics as Metrics
use idea_project.Businesses.Metrics.{CreateMetricDto}
use idea_project.Conversations.Service as Conversations
use idea_project.Conversations.Service.{CreateConversationDto, SendMessageDto}
use idea_project.DueDiligence.Service as DueDiligence
use idea_project.DueDiligence.Service.{CreateDueDiligenceRequestDto, UpdateItemStatusDto}
use idea_project.Verification.Service as Verification
use idea_project.Verification.Service.{SubmitVerificationDto, ReviewVerificationDto}
use idea_project.Organizations.Service as Organizations
use idea_project.Organizations.Service.{CreateOrganizationDto, AddMemberDto}
use idea_project.Search.SavedSearches as SavedSearches
use idea_project.Search.SavedSearches.{SaveSearchDto, UpdateSearchDto}
use idea_project.Search.Watchlists as Watchlists
use idea_project.Billing as Billing
use idea_project.Reports as Reports
use idea_project.Reports.{CreateReportDto}
use idea_project.Users as Users
use idea_project.Users.{UpdateProfileDto}
use idea_project.Categories as Categories

module _ (prisma : Prisma) where
  pub create_conversation-Keeps :
      (user : AuthenticatedUser) (dto : CreateConversationDto) (id message_id now : ℕ) (s : Db)
      → Keeps s (Conversations.create prisma user dto id message_id now s).1
  unfolding Conversations.create
  create_conversation-Keeps user dto id message_id now s = ground arith

  pub list_messages-Keeps :
      (user : AuthenticatedUser) (conversation_id : ℕ) (query : CursorPaginationQuery) (now : ℕ)
      (s : Db)
      → Keeps s (Conversations.list_messages prisma user conversation_id query now s).1
  unfolding Conversations.list_messages Conversations.assert_participant
  list_messages-Keeps user conversation_id query now s = ground arith

  pub send_message-Keeps :
      (user : AuthenticatedUser) (conversation_id : ℕ) (dto : SendMessageDto) (id now : ℕ) (s : Db)
      → Keeps s (Conversations.send_message prisma user conversation_id dto id now s).1
  unfolding Conversations.send_message Conversations.assert_participant
  send_message-Keeps user conversation_id dto id now s = ground arith

  pub create_request-Keeps :
      (user : AuthenticatedUser) (deal_id : ℕ) (dto : CreateDueDiligenceRequestDto) (id : ℕ)
      (s : Db)
      → Keeps s (DueDiligence.create_request prisma user deal_id dto id s).1
  unfolding DueDiligence.create_request Deals.assert_participant Deals.add_timeline_event
  create_request-Keeps user deal_id dto id s = ground arith

  pub update_item_status-Keeps :
      (user : AuthenticatedUser) (deal_id item_id : ℕ) (dto : UpdateItemStatusDto) (s : Db)
      → Keeps s (DueDiligence.update_item_status prisma user deal_id item_id dto s).1
  unfolding DueDiligence.update_item_status Deals.assert_participant Deals.add_timeline_event
  update_item_status-Keeps user deal_id item_id dto s = ground arith

  pub submit_verification-Keeps :
      (user : AuthenticatedUser) (business_id : ℕ) (dto : SubmitVerificationDto) (id : ℕ) (s : Db)
      → Keeps s (Verification.submit prisma user business_id dto id s).1
  unfolding Verification.submit
  submit_verification-Keeps user business_id dto id s = ground arith

  pub review_verification-Keeps :
      (user : AuthenticatedUser) (id : ℕ) (dto : ReviewVerificationDto) (s : Db)
      → Keeps s (Verification.review prisma user id dto s).1
  unfolding Verification.review
  review_verification-Keeps user id dto s = ground arith

  pub create_organization-Keeps :
      (user_id : ℕ) (dto : CreateOrganizationDto) (slug : String) (id : ℕ) (s : Db)
      → Keeps s (Organizations.create prisma user_id dto slug id s).1
  unfolding Organizations.create
  create_organization-Keeps user_id dto slug id s = ground arith

  pub add_member-Keeps :
      (id user_id : ℕ) (dto : AddMemberDto) (s : Db)
      → Keeps s (Organizations.add_member prisma id user_id dto s).1
  unfolding Organizations.add_member Organizations.assert_role
  add_member-Keeps id user_id dto s = ground arith

  pub remove_member-Keeps :
      (id user_id target : ℕ) (s : Db)
      → Keeps s (Organizations.remove_member prisma id user_id target s).1
  unfolding Organizations.remove_member Organizations.assert_role
  remove_member-Keeps id user_id target s = ground arith

  pub save_search-Keeps :
      (user_id : ℕ) (dto : SaveSearchDto) (id : ℕ) (s : Db)
      → Keeps s (SavedSearches.create prisma user_id dto id s).1
  unfolding SavedSearches.create
  save_search-Keeps user_id dto id s = ground arith

  pub update_search-Keeps :
      (user_id id : ℕ) (dto : UpdateSearchDto) (s : Db)
      → Keeps s (SavedSearches.update prisma user_id id dto s).1
  unfolding SavedSearches.update SavedSearches.assert_owned
  update_search-Keeps user_id id dto s = ground arith

  pub remove_search-Keeps :
      (user_id id : ℕ) (s : Db) → Keeps s (SavedSearches.remove prisma user_id id s).1
  unfolding SavedSearches.remove SavedSearches.assert_owned
  remove_search-Keeps user_id id s = ground arith

  pub watch-Keeps :
      (user_id business_id : ℕ) (s : Db) → Keeps s (Watchlists.add prisma user_id business_id s).1
  unfolding Watchlists.add
  watch-Keeps user_id business_id s = ground arith

  pub unwatch-Keeps :
      (user_id business_id : ℕ) (s : Db)
      → Keeps s (Watchlists.remove prisma user_id business_id s).1
  unfolding Watchlists.remove
  unwatch-Keeps user_id business_id s = ground arith

  pub subscribe-Keeps :
      (user_id : ℕ) (code : PlanCode) (id now : ℕ) (s : Db)
      → Keeps s (Billing.subscribe prisma user_id code id now s).1
  unfolding Billing.subscribe
  subscribe-Keeps user_id code id now s = ground arith

  pub create_report-Keeps :
      (user : AuthenticatedUser) (dto : CreateReportDto) (id : ℕ) (s : Db)
      → Keeps s (Reports.create prisma user dto id s).1
  unfolding Reports.create
  create_report-Keeps user dto id s = ground arith

  pub update_own_profile-Keeps :
      (user_id : ℕ) (dto : UpdateProfileDto) (s : Db)
      → Keeps s (Users.update_own_profile prisma user_id dto s).1
  unfolding Users.update_own_profile Users.get_public_profile
  update_own_profile-Keeps user_id dto s = ground arith

  pub create_category-Keeps :
      (name slug : String) (id : ℕ) (s : Db) → Keeps s (Categories.create prisma name slug id s).1
  unfolding Categories.create
  create_category-Keeps name slug id s = ground arith

module _ (prisma : Prisma) (numbers : Numbers) where
  pub add_metric-Keeps :
      (user : AuthenticatedUser) (business_id : ℕ) (dto : CreateMetricDto numbers.Num) (s : Db)
      → Keeps s (Metrics.add_metric prisma numbers user business_id dto s).1
  unfolding Metrics.add_metric find_owned serialize_business
  add_metric-Keeps user business_id dto s = ground arith
