-- ===== src/Samples/Desk.antt =====
-- An analysis that was asked for, a business on public sale with saved searches, a conversation, a
-- verification and a deal room with a request.
use idea_project.Base.{ℕ, true, false, none, some, [], ◌∷◌, nat_eq, ◌-◌, ◌%◌, length}
use idea_project.Schema.{
  Db, BusinessListing, ListingStatus, ListingVisibility, DealStatus, AiJob, AiJobType, AiJobStatus,
  SearchListingsDto, SavedSearch, BusinessMetric, MetricType, MetricSource,
  MetricVerificationStatus, Message, ConversationParticipant, DueDiligenceRequest,
  DueDiligenceCategory, DueDiligenceItem, DueDiligenceStatus,
}
use idea_project.Ai.Service.{AiConfig}
use idea_project.Ai.Processor.{AiProvider, Confidence}
use idea_project.Samples.Empty.{empty_community, empty_evidence, no_plans}
use idea_project.Samples.Sales.{shop_listing, market, deal_room}

abbrev pub plain_limits : AiConfig
plain_limits = record {
  max_requests_per_day_free = 1;
  max_requests_per_day_pro = 2;
  start_of_day = λ now. now - now % 100;
}

-- A provider that answers with the number of the metrics that it is told.
abbrev pub plain_provider : AiProvider
plain_provider = record {
  Raw = ℕ;
  name = "plain";
  analyze_business = λ context. some (length context.metrics);
  safe_parse = λ raw. some (record { result = raw; confidence = some Confidence.high });
  message = λ e. "failed";
}

abbrev pub job : AiJob
job = record {
  id = 110;
  user_id = 2;
  business_id = some 10;
  type = AiJobType.valuation;
  status = AiJobStatus.pending;
  provider = none;
  duration_ms = none;
  error_message = none;
  created_at = 1005;
}

-- The business on sale, and an analysis that was asked for.
abbrev pub laboratory : Db
laboratory = record market { billing = record no_plans { ai_jobs = job ∷ []; ai_queue = 110 ∷ [] } }

abbrev pub any_listing : SearchListingsDto
any_listing = record {
  category_id = some 5;
  min_price = some 400;
  max_price = some 600;
  min_mrr = some 20;
  verified = false;
  country = none;
  sort_by = none;
  sort_dir = none;
  cursor = none;
  limit = none;
}

abbrev pub saved_search : ℕ → ℕ → SavedSearch
saved_search id user_id = record {
  id = id;
  user_id = user_id;
  name = "Shops";
  filters = any_listing;
  alerts_enabled = true;
  last_notified_at = none;
}

abbrev pub revenue : BusinessMetric
revenue = record {
  business_id = 10;
  metric_type = MetricType.mrr;
  value_minor = 2500;
  currency = "USD";
  period = 1;
  source = MetricSource.seller_provided;
  verification_status = MetricVerificationStatus.unverified;
}

abbrev pub public_listing : BusinessListing
public_listing = record (shop_listing ListingStatus.published) {
  visibility = ListingVisibility.public;
}

-- A business on public sale with its revenue, and two buyers' saved searches.
abbrev pub showcase : Db
showcase = record market {
  listings = public_listing ∷ [];
  evidence = record empty_evidence { metrics = revenue ∷ [] };
  community = record empty_community {
    saved_searches = saved_search 120 2 ∷ saved_search 121 3 ∷ [];
  };
}

abbrev pub greeting : Message
greeting = record {
  id = 130;
  conversation_id = 131;
  sender_id = 2;
  body = "Hello";
  created_at = 3;
  deleted_at = none;
}

abbrev pub talker : ℕ → ConversationParticipant
talker user_id = record { conversation_id = 131; user_id = user_id; last_read_at = none }

-- A conversation of a buyer with the seller.
abbrev pub chat : Db
chat = record market {
  community = record empty_community {
    conversations = (record { id = 131; business_id = some 10; updated_at = 3 }) ∷ [];
    conversation_participants = talker 2 ∷ talker 1 ∷ [];
    messages = greeting ∷ [];
  };
}

abbrev pub question : DueDiligenceRequest
question = record {
  id = 150;
  deal_id = 40;
  category = DueDiligenceCategory.financial;
  title = "Books";
  requested_by_id = 2;
}

abbrev pub question_item : DueDiligenceItem
question_item = record {
  id = 151;
  request_id = 150;
  description = "2025";
  status = DueDiligenceStatus.requested;
  document_id = none;
}

-- A deal room in which papers were asked for.
abbrev pub asked_room : Db
asked_room = record (deal_room DealStatus.due_diligence) {
  evidence = record empty_evidence {
    due_diligence_requests = question ∷ [];
    due_diligence_items = question_item ∷ [];
  };
}
