-- ===== src/Samples/Accounts.antt =====
-- Accounts and their tokens, the parameters of the services, and a document that was granted.
use idea_project.Base.{ℕ, Option, none, some, [], ◌∷◌, String, ◌==◌, nat_eq, ◌+◌}
use idea_project.Schema.{
  Db, User, UserRole, AccountStatus, RefreshToken, OneTimeToken, BusinessDocument, DocumentCategory,
  DocumentVisibility, DocumentAccess,
}
use idea_project.Auth.Tokens.{AuthEnv, RequestMeta, Random}
use idea_project.Payments.Signature.{Crypto, Text}
use idea_project.Payments.Webhooks.{StripeEventLike, Payload, EventObject}
use idea_project.Samples.Empty.{empty_db}
use idea_project.Samples.Sales.{market}

abbrev pub account : AccountStatus → User
account status = record {
  id = 2;
  email = 102;
  password_hash = 7;
  google_id = none;
  role = UserRole.buyer;
  status = status;
  email_verified_at = none;
  last_login_at = none;
  deleted_at = none;
}

abbrev pub session : RefreshToken
session = record {
  id = 60;
  user_id = 2;
  token_hash = 1005;
  family = 77;
  revoked_at = none;
  replaced_by = none;
  user_agent = none;
  ip_address = none;
  expires_at = 1000;
}

abbrev pub mail_token : OneTimeToken
mail_token = record { id = 70; user_id = 2; token_hash = 1008; expires_at = 1000; used_at = none }

-- An account with a session and two tokens that were sent by mail.
abbrev pub accounts : AccountStatus → Db
accounts status = record empty_db {
  users = account status ∷ [];
  refresh_tokens = session ∷ [];
  email_verification_tokens = mail_token ∷ [];
  password_reset_tokens = mail_token ∷ [];
}

abbrev pub plain_env : AuthEnv
plain_env = record {
  sha256 = λ raw. raw + 1000;
  argon2_hash = λ password. password;
  argon2_verify = λ hash password. hash == password;
  sign_jwt = λ id email r. id;
  slice_12 = λ raw. raw;
  refresh_ttl = 500;
}

abbrev pub no_meta : RequestMeta
no_meta = record { ip_address = none; user_agent = none }

abbrev pub draw : ℕ → Random
draw n = record { row_id = n; raw = n; family_raw = n }

abbrev pub plain_crypto : Crypto
plain_crypto = record {
  number = λ t. some 0;
  hmac_hex = λ secret message. secret;
  from_hex = λ t. t;
}

abbrev pub paid_event : StripeEventLike
paid_event = record {
  id = 80;
  type = "payment_intent.succeeded";
  data_object = EventObject.object 90;
}

abbrev pub any_event : Text → Option Payload
any_event body = some (Payload.stripe_event paid_event)

abbrev pub report : BusinessDocument
report = record {
  id = 95;
  business_id = 10;
  deal_id = none;
  uploaded_by_id = 1;
  name = "report.pdf";
  mime_type = "application/pdf";
  size = 1;
  storage_key = 96;
  category = DocumentCategory.other;
  visibility = DocumentVisibility.private;
  deleted_at = none;
}

abbrev pub grant : DocumentAccess
grant = record {
  document_id = 95;
  grantee_id = 3;
  granted_by_id = 1;
  expires_at = none;
  revoked_at = none;
}

-- A document of the business that one buyer was granted.
abbrev pub data_room : Db
data_room = record market { documents = report ∷ []; access_grants = grant ∷ [] }

abbrev pub sign_plainly : ℕ → String
sign_plainly key = "https://files"
