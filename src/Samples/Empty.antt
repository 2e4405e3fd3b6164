-- ===== src/Samples/Empty.antt =====
-- The people and the empty database of the tests.
use idea_project.Base.{[], nat_eq}
use idea_project.Schema.{Db, Outbox, Community, Evidence, Plans, UserRole}
use idea_project.Common.{AuthenticatedUser}

abbrev pub seller : AuthenticatedUser
seller = record { id = 1; email = 101; role = UserRole.seller }

abbrev pub buyer : AuthenticatedUser
buyer = record { id = 2; email = 102; role = UserRole.buyer }

abbrev pub other_buyer : AuthenticatedUser
other_buyer = record { id = 3; email = 103; role = UserRole.buyer }

abbrev pub admin : AuthenticatedUser
admin = record { id = 9; email = 109; role = UserRole.admin }

abbrev pub empty_outbox : Outbox
empty_outbox = record {
  notifications = [];
  next_notification_id = 0;
  emitted = [];
  preferences = [];
  email_queue = [];
  saved_search_queue = [];
  stored_objects = [];
  sent_emails = [];
  audit_logs = [];
  admin_actions = [];
}

abbrev pub empty_community : Community
empty_community = record {
  conversations = [];
  conversation_participants = [];
  messages = [];
  watchlists = [];
  saved_searches = [];
  reports = [];
  organizations = [];
  categories = [];
}

abbrev pub empty_evidence : Evidence
empty_evidence = record {
  metrics = [];
  verifications = [];
  verification_items = [];
  verification_events = [];
  due_diligence_requests = [];
  due_diligence_items = [];
}

abbrev pub no_plans : Plans
no_plans = record { plans = []; subscriptions = []; ai_jobs = []; ai_analyses = []; ai_queue = [] }

abbrev pub empty_db : Db
empty_db = record {
  users = [];
  refresh_tokens = [];
  email_verification_tokens = [];
  password_reset_tokens = [];
  businesses = [];
  listings = [];
  negotiations = [];
  offers = [];
  offer_revisions = [];
  deals = [];
  participants = [];
  tasks = [];
  timeline = [];
  agreements = [];
  agreement_versions = [];
  signatures = [];
  transactions = [];
  transaction_events = [];
  webhook_events = [];
  organization_members = [];
  profiles = [];
  documents = [];
  access_grants = [];
  access_logs = [];
  community = empty_community;
  evidence = empty_evidence;
  billing = no_plans;
  outbox = empty_outbox;
}
