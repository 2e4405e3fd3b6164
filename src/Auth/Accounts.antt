-- ===== src/Auth/Accounts.antt =====
-- `register`, `verifyEmail`, `forgotPassword`, `resetPassword`, `getMe` and `loginWithGoogle` of
-- src/auth/auth.service.ts, and the mails that they send (src/integrations/email/email.service.ts).
use idea_project.Base.{
  ℕ, ◌+◌, ◌*◌, Bool, true, false, not, ◌&&◌, ◌||◌, Option, none, some, List, [], ◌∷◌, String, ◌==◌,
  nat_eq, is_some, ltb,
}
use idea_project.Schema.{
  Db, User, UserRole, user_role_eq, AccountStatus, account_status_eq, OneTimeToken, Profile, Email,
}
use idea_project.Common.{
  Action, ok, err, Error, ErrorCode, conflict_exception, unauthorized_exception, ◌>>=◌, ◌>>◌, pure,
  gets, raise_if, modify, or_raise, keep,
}
use idea_project.Common.Prisma.{Prisma}
use idea_project.Auth.Tokens.{AuthEnv, RequestMeta, hash_opaque_token}
use idea_project.Auth.Sessions.{
  has_email, has_user_id, is_present, is_live_of_user, revoke, update_user, change_tokens,
  audit_user,
}

-- src/auth/dto/register.dto.ts: a role that is given is BUYER or SELLER.
pub data NormalRole : Type 0 where
  as_buyer as_seller : NormalRole

abbrev pub to_user_role : NormalRole → UserRole
to_user_role as_buyer = UserRole.buyer
to_user_role as_seller = UserRole.seller

abbrev pub register_role : Option NormalRole → UserRole
register_role none = UserRole.seller
register_role (some r) = to_user_role r

pub record RegisterDto : Type 0 where
  pub email : ℕ
  pub password : ℕ
  pub first_name : Option String
  pub last_name : Option String
  pub role : Option NormalRole

-- The random values of a registration: ids of the user and of the token, and the raw token.
pub record RegisterRandom : Type 0 where
  pub user_id : ℕ
  pub token_id : ℕ
  pub raw : ℕ

abbrev pub has_token_hash : ℕ → OneTimeToken → Bool
has_token_hash hash t = t.token_hash == hash

abbrev pub has_one_time_id : ℕ → OneTimeToken → Bool
has_one_time_id id t = t.id == id

-- `!token.usedAt && !(token.expiresAt < new Date())`
abbrev pub is_usable : ℕ → OneTimeToken → Bool
is_usable now t = not (is_some t.used_at) && not (ltb t.expires_at now)

abbrev pub use_token : ℕ → OneTimeToken → OneTimeToken
use_token now t = record t { used_at = some now }

abbrev pub verify_user : ℕ → User → User
verify_user now u = record u { email_verified_at = some now; status = AccountStatus.active }

abbrev pub set_password : ℕ → User → User
set_password hash u = record u { password_hash = hash }

-- `60 * 60 * 1000` milliseconds, an hour.
abbrev pub hour : ℕ
hour = 60 * 60 * 1000

abbrev pub day : ℕ
day = 24 * 60 * 60 * 1000

abbrev pub new_one_time_token : AuthEnv → ℕ → ℕ → ℕ → ℕ → OneTimeToken
new_one_time_token env id user_id raw expires_at = record {
  id = id;
  user_id = user_id;
  token_hash = hash_opaque_token env raw;
  expires_at = expires_at;
  used_at = none;
}

module _ (prisma : Prisma) (env : AuthEnv) where
  abbrev send : Email → Db → Db
  send mail s = record s { outbox = record s.outbox { sent_emails = mail ∷ s.outbox.sent_emails } }

  unfoldable pub issue_email_verification_token : User → RegisterRandom → ℕ → Db → Db
  issue_email_verification_token user random now s =
      send (record { to = user.email; template = "verification"; token = random.raw })
        (record s {
          email_verification_tokens =
              prisma.create (new_one_time_token env random.token_id user.id random.raw (now + day))
                s.email_verification_tokens;
        })

  abbrev save_new_user : Option (List User) → User → Profile → Action (Unit {0})
  save_new_user none user profile s = (err Error.unique_violation, s)
  save_new_user (some t) user profile s = (
    ok tt,
    record s {
      users = t;
      profiles = prisma.create profile s.profiles;
      outbox = record s.outbox {
        preferences =
            prisma.create (record { user_id = user.id; email_enabled = true; muted_types = [] })
              s.outbox.preferences;
      };
    },
  )

  -- `user.create` with its nested profile and preference; `email` is unique, and `googleId`.
  abbrev same_google : Option ℕ → Option ℕ → Bool
  same_google none g = false
  same_google (some a) none = false
  same_google (some a) (some b) = a == b

  abbrev pub collides : User → User → Bool
  collides user u =
      u.id == user.id || u.email == user.email || same_google u.google_id user.google_id

  unfoldable pub add_user : User → Profile → Action (Unit {0})
  add_user user profile s =
      save_new_user (prisma.create_unique (collides user) user s.users) user profile s

  abbrev pub registered : RegisterDto → RegisterRandom → User
  registered dto random = record {
    id = random.user_id;
    email = dto.email;
    password_hash = env.argon2_hash dto.password;
    google_id = none;
    role = register_role dto.role;
    status = AccountStatus.pending_verification;
    email_verified_at = none;
    last_login_at = none;
    deleted_at = none;
  }

  unfoldable pub register : RegisterDto → RequestMeta → RegisterRandom → ℕ → Action User
  unfolding add_user issue_email_verification_token
  register dto meta random now = do
    existing ← gets λ s. prisma.find_first (has_email dto.email) s.users
    raise_if (is_some existing) (conflict_exception ErrorCode.auth_email_taken)
    let user = registered dto random
    add_user user (record {
      user_id = user.id;
      first_name = dto.first_name;
      last_name = dto.last_name;
      avatar_url = none;
      company = none;
      country = none;
    })
    modify (issue_email_verification_token user random now)
    modify (audit_user prisma env user.id "USER_REGISTERED" meta.ip_address)
    pure user

  abbrev save_email_tokens : Option (List OneTimeToken) → Action (Unit {0})
  save_email_tokens none s = (err Error.record_not_found, s)
  save_email_tokens (some t) s = (ok tt, record s { email_verification_tokens = t })

  abbrev save_reset_tokens : Option (List OneTimeToken) → Action (Unit {0})
  save_reset_tokens none s = (err Error.record_not_found, s)
  save_reset_tokens (some t) s = (ok tt, record s { password_reset_tokens = t })

  -- What runs inside `$transaction`.
  unfoldable pub verify_email_body : OneTimeToken → ℕ → Action (Unit {0})
  verify_email_body token now = do
    λ s.
        save_email_tokens
          (prisma.update (has_one_time_id token.id) (use_token now) s.email_verification_tokens) s
    update_user prisma env token.user_id (verify_user now)

  unfoldable pub verify_email : ℕ → ℕ → Action (Unit {0})
  unfolding verify_email_body
  verify_email raw_token now = do
    found ← gets λ s. keep (is_usable now) (
        prisma.find_first (has_token_hash (hash_opaque_token env raw_token))
          s.email_verification_tokens)
    token ← or_raise found (unauthorized_exception ErrorCode.auth_invalid_token)
    prisma.transaction (verify_email_body token now)
    modify (audit_user prisma env token.user_id "EMAIL_VERIFIED" none)

  abbrev add_reset : Option User → ℕ → ℕ → ℕ → Db → Db
  add_reset none id raw now s = s
  add_reset (some user) id raw now s =
      send (record { to = user.email; template = "password-reset"; token = raw })
        (record s {
          password_reset_tokens =
              prisma.create (new_one_time_token env id user.id raw (now + hour))
                s.password_reset_tokens;
        })

  unfoldable pub forgot_password : ℕ → ℕ → ℕ → ℕ → Action (Unit {0})
  forgot_password email token_id raw now = do
    found ← gets λ s. keep is_present (prisma.find_first (has_email email) s.users)
    modify (add_reset found token_id raw now)

  -- What runs inside `$transaction`.
  unfoldable pub reset_body : OneTimeToken → ℕ → ℕ → Action (Unit {0})
  reset_body token password_hash now = do
    λ s.
        save_reset_tokens
          (prisma.update (has_one_time_id token.id) (use_token now) s.password_reset_tokens) s
    update_user prisma env token.user_id (set_password password_hash)
    modify (change_tokens prisma env (is_live_of_user token.user_id) (revoke now))

  unfoldable pub reset_password : ℕ → ℕ → ℕ → Action (Unit {0})
  unfolding reset_body
  reset_password raw_token new_password now = do
    found ← gets λ s. keep (is_usable now) (
        prisma.find_first (has_token_hash (hash_opaque_token env raw_token))
          s.password_reset_tokens)
    token ← or_raise found (unauthorized_exception ErrorCode.auth_invalid_token)
    prisma.transaction (reset_body token (env.argon2_hash new_password) now)
    modify (audit_user prisma env token.user_id "PASSWORD_RESET" none)

  -- `getMe`; the answer is the row, without its password hash, and the profile.
  unfoldable pub get_me : ℕ → Action User
  get_me user_id = do
    found ← gets λ s. prisma.find_first (has_user_id user_id) s.users
    or_raise found (unauthorized_exception ErrorCode.auth_unauthorized)
