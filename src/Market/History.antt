-- ===== src/Market/History.antt =====
-- The invariant of the businesses over every request and every sequence of requests.
use idea_project.Base.{◌&&◌, ℕ, ◌≤◌, ◌≡◌, refl, false, any, count, arith}
use idea_project.Schema.{Db}
use idea_project.Base.Updates.{count-zero_of_any}
use idea_project.Businesses.Service.{is_business}
use idea_project.Market.Frames.{
  Keeps, reject-Keeps, withdraw-Keeps, add_participant-Keeps, create_task-Keeps,
  update_task_status-Keeps, sign-Keeps, add_version-Keeps, pay-Keeps, create_agreement-Keeps,
  create-Keeps, counter-Keeps,
}
use idea_project.Market.Others as Others
use idea_project.Market.Desk as Desk
use idea_project.Market.Workers as Workers
use idea_project.Market.Closing.{
  is_openable, Keeps-Shuts, publish-Shuts, update-Shuts, unpublish-Shuts, soft_delete-Shuts,
  approve_business-Shuts, reject_business-Shuts, suspend_business-Shuts, update_listing-Keeps,
}
use idea_project.Market.Requests.{
  Services, Request, handle, is_deal_for, IsFresh, Reach, start, next, create_offer, counter_offer,
  reject_offer, withdraw_offer, accept_offer, create_business, update_business, soft_delete,
  publish, unpublish, update_listing, approve_business, reject_business, suspend_business,
  update_status, add_participant, create_task, update_task_status, create_agreement, add_version,
  sign, create_transaction, stripe_event, register, login, login_with_google, logout,
  logout_all_devices, refresh, verify_email, forgot_password, reset_password, upload, download,
  remove_document, grant_access, revoke_access, add_metric, create_conversation, list_messages,
  send_message, mark_read, mark_all_read, create_request, update_item_status, submit_verification,
  review_verification, create_organization, add_member, remove_member, save_search, update_search,
  remove_search, watch, unwatch, subscribe, create_report, update_own_profile, create_category,
  match_saved_searches, request_analysis, analyze_business,
}
use idea_project.Market.OneDeal.{
  IsSoldOnce, Shuts-IsSoldOnce, accept-IsSoldOnce, update_status-IsSoldOnce, create-IsSoldOnce,
}

module _ (v : Services) where
  open v use {
    prisma, numbers, env, crypto, parse_json, verify_id_token, sign_url, ai_config, provider,
  }

  kept : {s s' : Db} → Keeps s s' → IsSoldOnce s → IsSoldOnce s'
  kept k = Shuts-IsSoldOnce (Keeps-Shuts k)

  handle-IsSoldOnce :
      (r : Request numbers.Num) (s : Db) → IsFresh r s → IsSoldOnce s → IsSoldOnce (handle v r s)
  unfolding handle
  handle-IsSoldOnce (create_offer u b dto n o now) s f =
      kept (create-Keeps prisma numbers u b dto n o now s)
  handle-IsSoldOnce (counter_offer u o dto id now) s f =
      kept (counter-Keeps prisma numbers u o dto id now s)
  handle-IsSoldOnce (reject_offer u o now) s f = kept (reject-Keeps prisma u o now s)
  handle-IsSoldOnce (withdraw_offer u o now) s f = kept (withdraw-Keeps prisma u o now s)
  handle-IsSoldOnce (accept_offer u o d now) s f = accept-IsSoldOnce prisma u o d now s
  handle-IsSoldOnce (create_business u dto slug id) s f =
      create-IsSoldOnce prisma u dto slug id s f.0 f.1
  handle-IsSoldOnce (update_business u id dto) s f =
      Shuts-IsSoldOnce (update-Shuts prisma u id dto s)
  handle-IsSoldOnce (soft_delete u id now) s f =
      Shuts-IsSoldOnce (soft_delete-Shuts prisma u id now s)
  handle-IsSoldOnce (publish u id now) s f = Shuts-IsSoldOnce (publish-Shuts prisma u id now s)
  handle-IsSoldOnce (unpublish u id) s f = Shuts-IsSoldOnce (unpublish-Shuts prisma u id s)
  handle-IsSoldOnce (update_listing u id dto) s f =
      kept (update_listing-Keeps prisma numbers u id dto s)
  handle-IsSoldOnce (approve_business u id r now) s f =
      Shuts-IsSoldOnce (approve_business-Shuts prisma u id r now s)
  handle-IsSoldOnce (reject_business u id r) s f =
      Shuts-IsSoldOnce (reject_business-Shuts prisma u id r s)
  handle-IsSoldOnce (suspend_business u id r) s f =
      Shuts-IsSoldOnce (suspend_business-Shuts prisma u id r s)
  handle-IsSoldOnce (update_status u d status) s f = update_status-IsSoldOnce prisma u d status s
  handle-IsSoldOnce (add_participant u d p r) s f = kept (add_participant-Keeps prisma u d p r s)
  handle-IsSoldOnce (create_task u d dto id) s f = kept (create_task-Keeps prisma u d dto id s)
  handle-IsSoldOnce (update_task_status u d t status) s f =
      kept (update_task_status-Keeps prisma u d t status s)
  handle-IsSoldOnce (create_agreement u d title ai id) s f =
      kept (create_agreement-Keeps prisma u d title ai id s)
  handle-IsSoldOnce (add_version u d a dto id) s f = kept (add_version-Keeps prisma u d a dto id s)
  handle-IsSoldOnce (sign u d a version) s f = kept (sign-Keeps prisma u d a version s)
  handle-IsSoldOnce (create_transaction u d p id) s f = kept (pay-Keeps prisma u d p id s)
  handle-IsSoldOnce (stripe_event body header secret now) s f =
      kept (Others.handle_stripe_event-Keeps prisma crypto parse_json body header secret now s)
  handle-IsSoldOnce (register dto meta r now) s f =
      kept (Others.register-Keeps prisma env dto meta r now s)
  handle-IsSoldOnce (login email password meta r now) s f =
      kept (Others.login-Keeps prisma env email password meta r now s)
  handle-IsSoldOnce (login_with_google c cred role meta r now) s f =
      kept (Others.login_with_google-Keeps prisma env verify_id_token c cred role meta r now s)
  handle-IsSoldOnce (logout u raw now) s f = kept (Others.logout-Keeps prisma env u raw now s)
  handle-IsSoldOnce (logout_all_devices u now) s f =
      kept (Others.logout_all_devices-Keeps prisma env u now s)
  handle-IsSoldOnce (refresh raw meta r now) s f =
      kept (Others.refresh-Keeps prisma env raw meta r now s)
  handle-IsSoldOnce (verify_email raw now) s f =
      kept (Others.verify_email-Keeps prisma env raw now s)
  handle-IsSoldOnce (forgot_password email id raw now) s f =
      kept (Others.forgot_password-Keeps prisma env email id raw now s)
  handle-IsSoldOnce (reset_password raw password now) s f =
      kept (Others.reset_password-Keeps prisma env raw password now s)
  handle-IsSoldOnce (upload u b file dto k id) s f =
      kept (Others.upload-Keeps prisma sign_url u b file dto k id s)
  handle-IsSoldOnce (download u d now) s f = kept (Others.download-Keeps prisma sign_url u d now s)
  handle-IsSoldOnce (remove_document u d now) s f =
      kept (Others.remove-Keeps prisma sign_url u d now s)
  handle-IsSoldOnce (grant_access u d dto) s f =
      kept (Others.grant_access-Keeps prisma sign_url u d dto s)
  handle-IsSoldOnce (revoke_access u d g now) s f =
      kept (Others.revoke_access-Keeps prisma sign_url u d g now s)
  handle-IsSoldOnce (add_metric user business_id dto) s f =
      kept (Desk.add_metric-Keeps prisma numbers user business_id dto s)
  handle-IsSoldOnce (create_conversation user dto id message_id now) s f =
      kept (Desk.create_conversation-Keeps prisma user dto id message_id now s)
  handle-IsSoldOnce (list_messages user conversation_id query now) s f =
      kept (Desk.list_messages-Keeps prisma user conversation_id query now s)
  handle-IsSoldOnce (send_message user conversation_id dto id now) s f =
      kept (Desk.send_message-Keeps prisma user conversation_id dto id now s)
  handle-IsSoldOnce (create_request user deal_id dto id) s f =
      kept (Desk.create_request-Keeps prisma user deal_id dto id s)
  handle-IsSoldOnce (update_item_status user deal_id item_id dto) s f =
      kept (Desk.update_item_status-Keeps prisma user deal_id item_id dto s)
  handle-IsSoldOnce (mark_read user_id id now) s f =
      kept (record { businesses = refl; deals = refl })
  handle-IsSoldOnce (mark_all_read user_id now) s f =
      kept (record { businesses = refl; deals = refl })
  handle-IsSoldOnce (submit_verification user business_id dto id) s f =
      kept (Desk.submit_verification-Keeps prisma user business_id dto id s)
  handle-IsSoldOnce (review_verification user id dto) s f =
      kept (Desk.review_verification-Keeps prisma user id dto s)
  handle-IsSoldOnce (create_organization user_id dto slug id) s f =
      kept (Desk.create_organization-Keeps prisma user_id dto slug id s)
  handle-IsSoldOnce (add_member id user_id dto) s f =
      kept (Desk.add_member-Keeps prisma id user_id dto s)
  handle-IsSoldOnce (remove_member id user_id target) s f =
      kept (Desk.remove_member-Keeps prisma id user_id target s)
  handle-IsSoldOnce (save_search user_id dto id) s f =
      kept (Desk.save_search-Keeps prisma user_id dto id s)
  handle-IsSoldOnce (update_search user_id id dto) s f =
      kept (Desk.update_search-Keeps prisma user_id id dto s)
  handle-IsSoldOnce (remove_search user_id id) s f =
      kept (Desk.remove_search-Keeps prisma user_id id s)
  handle-IsSoldOnce (watch user_id business_id) s f =
      kept (Desk.watch-Keeps prisma user_id business_id s)
  handle-IsSoldOnce (unwatch user_id business_id) s f =
      kept (Desk.unwatch-Keeps prisma user_id business_id s)
  handle-IsSoldOnce (subscribe user_id code id now) s f =
      kept (Desk.subscribe-Keeps prisma user_id code id now s)
  handle-IsSoldOnce (create_report user dto id) s f =
      kept (Desk.create_report-Keeps prisma user dto id s)
  handle-IsSoldOnce (update_own_profile user_id dto) s f =
      kept (Desk.update_own_profile-Keeps prisma user_id dto s)
  handle-IsSoldOnce (create_category name slug id) s f =
      kept (Desk.create_category-Keeps prisma name slug id s)
  handle-IsSoldOnce (match_saved_searches business_id now) s f =
      kept (Workers.alerts-Keeps prisma business_id now s)
  handle-IsSoldOnce (request_analysis user business_id type id now) s f =
      kept (Workers.request_analysis-Keeps prisma ai_config user business_id type id now s)
  handle-IsSoldOnce (analyze_business job_id started now) s f =
      kept (Workers.analysis-Keeps prisma provider job_id started now s)

  Reach-IsSoldOnce : {s t : Db} → Reach v s t → IsSoldOnce s → IsSoldOnce t
  Reach-IsSoldOnce start w = w
  Reach-IsSoldOnce (next {t} r path fresh) w = handle-IsSoldOnce r t fresh (Reach-IsSoldOnce path w)

  -- From a database where every business identifier is used once and no business has a deal, every
  -- sequence of requests, with a fresh identifier for each new business, leads to a database where
  -- every business has at most one deal, and a business with a deal is neither for sale nor in a
  -- state from which it can be put up for sale again.
  pub Reach-one_deal :
      {s t : Db}
      → Reach v s t
      → ((id : ℕ) → count (is_business id) s.businesses ≤ 1)
      → ((id : ℕ) → any (is_deal_for id) s.deals ≡ false)
      → (id : ℕ)
      → (count (is_deal_for id) t.deals ≤ 1)
        × ((any (is_deal_for id) t.deals && any (is_openable id) t.businesses) ≡ false)
  Reach-one_deal {s} path unique none_sold id =
      let w = Reach-IsSoldOnce path (record {
        unique = unique;
        single = λ k. ground (arith, count-zero_of_any (is_deal_for k) s.deals, none_sold k);
        closed = λ k h. ground (arith, none_sold k);
      }) in
      (w.single id, ground (arith, w.closed id))
