-- ===== src/Auth/Sessions.antt =====
-- `login`, `logout`, `logoutAllDevices` and `refresh` of src/auth/auth.service.ts.
use idea_project.Base.{
  ℕ, Bool, true, false, not, ◌&&◌, ◌||◌, Option, none, some, List, [], String, ◌==◌, nat_eq,
  is_some, ltb,
}
use idea_project.Schema.{Db, User, AccountStatus, account_status_eq, RefreshToken}
use idea_project.Common.{
  Action, ok, err, Error, ErrorCode, unauthorized_exception, forbidden_exception, ◌>>=◌, ◌>>◌, pure,
  gets, raise_if, modify, or_raise, keep,
}
use idea_project.Common.Prisma.{Prisma}
use idea_project.Common.Notify.{record_event}
use idea_project.Auth.Tokens.{
  AuthEnv, RequestMeta, AuthTokens, Random, hash_opaque_token, issue_token_pair,
}

abbrev pub has_email : ℕ → User → Bool
has_email email u = u.email == email

abbrev pub has_user_id : ℕ → User → Bool
has_user_id id u = u.id == id

abbrev pub is_present : User → Bool
is_present u = not (is_some u.deleted_at)

-- `user.status === SUSPENDED || user.status === DEACTIVATED`
abbrev pub is_inactive : User → Bool
is_inactive u = u.status == AccountStatus.suspended || u.status == AccountStatus.deactivated

abbrev pub touch_login : ℕ → User → User
touch_login now u = record u { last_login_at = some now }

abbrev pub revoke : ℕ → RefreshToken → RefreshToken
revoke now t = record t { revoked_at = some now }

abbrev pub has_hash : ℕ → RefreshToken → Bool
has_hash hash t = t.token_hash == hash

abbrev pub has_token_id : ℕ → RefreshToken → Bool
has_token_id id t = t.id == id

-- `{ family, revokedAt: null }`
abbrev pub is_live_in_family : ℕ → RefreshToken → Bool
is_live_in_family family t = t.family == family && not (is_some t.revoked_at)

-- `{ userId, revokedAt: null }`
abbrev pub is_live_of_user : ℕ → RefreshToken → Bool
is_live_of_user user_id t = t.user_id == user_id && not (is_some t.revoked_at)

-- `{ tokenHash, userId }`
abbrev pub is_token_of : ℕ → ℕ → RefreshToken → Bool
is_token_of hash user_id t = t.token_hash == hash && t.user_id == user_id

-- `stored.revokedAt || stored.expiresAt < new Date()`
abbrev pub is_spent : ℕ → RefreshToken → Bool
is_spent now t = is_some t.revoked_at || ltb t.expires_at now

-- `user && !user.deletedAt && user.status !== SUSPENDED`
abbrev pub may_refresh : User → Bool
may_refresh u = not (is_some u.deleted_at) && not (u.status == AccountStatus.suspended)

module _ (prisma : Prisma) (env : AuthEnv) where
  abbrev pub audit_user : ℕ → String → Option String → Db → Db
  audit_user user_id action ip_address = record_event prisma (record {
    user_id = some user_id;
    action = action;
    target_type = "User";
    target_id = user_id;
    ip_address = ip_address;
    metadata = [];
  })

  abbrev save_users : Option (List User) → Action (Unit {0})
  save_users none s = (err Error.record_not_found, s)
  save_users (some t) s = (ok tt, record s { users = t })

  abbrev pub update_user : ℕ → (User → User) → Action (Unit {0})
  update_user id f s = save_users (prisma.update (has_user_id id) f s.users) s

  abbrev pub change_tokens : (RefreshToken → Bool) → (RefreshToken → RefreshToken) → Db → Db
  change_tokens p f s = record s { refresh_tokens = (prisma.update_many p f s.refresh_tokens).0 }

  unfoldable pub login : ℕ → ℕ → RequestMeta → Random → ℕ → Action (User × AuthTokens)
  unfolding issue_token_pair
  login email password meta random now = do
    found ← gets λ s. keep is_present (prisma.find_first (has_email email) s.users)
    user ← or_raise found (unauthorized_exception ErrorCode.auth_invalid_credentials)
    raise_if (not (env.argon2_verify user.password_hash password))
        (unauthorized_exception ErrorCode.auth_invalid_credentials)
    raise_if (is_inactive user) (forbidden_exception ErrorCode.auth_account_suspended)
    tokens ← issue_token_pair prisma env user meta none random now
    update_user user.id (touch_login now)
    modify (audit_user user.id "USER_LOGIN" meta.ip_address)
    pure (user, tokens)

  abbrev revoke_raw : ℕ → Option ℕ → ℕ → Db → Db
  revoke_raw user_id none now s = s
  revoke_raw user_id (some raw) now s =
      change_tokens (is_token_of (hash_opaque_token env raw) user_id) (revoke now) s

  unfoldable pub logout : ℕ → Option ℕ → ℕ → Action (Unit {0})
  logout user_id refresh_token_raw now = do
    modify (revoke_raw user_id refresh_token_raw now)
    modify (audit_user user_id "USER_LOGOUT" none)

  unfoldable pub logout_all_devices : ℕ → ℕ → Action (Unit {0})
  logout_all_devices user_id now = do
    modify (change_tokens (is_live_of_user user_id) (revoke now))
    modify (audit_user user_id "USER_LOGOUT_ALL" none)

  abbrev pub replace : ℕ → ℕ → RefreshToken → RefreshToken
  replace now by t = record t { revoked_at = some now; replaced_by = some by }

  abbrev save_tokens : Option (List RefreshToken) → Action (Unit {0})
  save_tokens none s = (err Error.record_not_found, s)
  save_tokens (some t) s = (ok tt, record s { refresh_tokens = t })

  -- A token that is still good: a new one of the same family, and the old one is revoked.
  unfoldable pub rotate : RefreshToken → RequestMeta → Random → ℕ → Action AuthTokens
  unfolding issue_token_pair
  rotate stored meta random now = do
    found ← gets λ s. keep may_refresh (prisma.find_first (has_user_id stored.user_id) s.users)
    user ← or_raise found (unauthorized_exception ErrorCode.auth_unauthorized)
    tokens ← issue_token_pair prisma env user meta (some stored.family) random now
    λ s.
        save_tokens
          (prisma.update (has_token_id stored.id) (replace now (env.slice_12 tokens.refresh_token))
            s.refresh_tokens)
          s
    pure tokens

  -- A token that was revoked or has expired takes its whole family with it.
  unfoldable pub revoke_family : RefreshToken → ℕ → Action AuthTokens
  revoke_family stored now s = (
    err (unauthorized_exception ErrorCode.auth_token_expired),
    change_tokens (is_live_in_family stored.family) (revoke now) s,
  )

  abbrev pub refresh_stored : Option RefreshToken → RequestMeta → Random → ℕ → Action AuthTokens
  refresh_stored none meta random now s =
      (err (unauthorized_exception ErrorCode.auth_invalid_token), s)
  refresh_stored (some stored) meta random now s = elim (is_spent now stored) [
    | true ↦ revoke_family stored now s
    | false ↦ rotate stored meta random now s
  ]

  unfoldable pub refresh : ℕ → RequestMeta → Random → ℕ → Action AuthTokens
  refresh raw meta random now s =
      refresh_stored (prisma.find_first (has_hash (hash_opaque_token env raw)) s.refresh_tokens)
        meta random now s
