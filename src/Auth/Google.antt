-- ===== src/Auth/Google.antt =====
-- `loginWithGoogle` of src/auth/auth.service.ts. The check of a Google credential
-- (`google-auth-library`) is a parameter.
use idea_project.Base.{
  ℕ, Bool, true, false, not, ◌&&◌, ◌||◌, Option, none, some, String, ◌==◌, nat_eq, is_some,
  if◌then◌else◌,
}
use idea_project.Schema.{User, AccountStatus}
use idea_project.Common.{
  Action, ok, ErrorCode, unauthorized_exception, forbidden_exception, ◌>>=◌, ◌>>◌, pure, gets,
  raise_if, modify, or_raise,
}
use idea_project.Common.Prisma.{Prisma}
use idea_project.Auth.Tokens.{
  AuthEnv, RequestMeta, AuthTokens, Random, generate_opaque_token, issue_token_pair,
}
use idea_project.Auth.Sessions.{is_inactive, touch_login, update_user, audit_user}
use idea_project.Auth.Accounts.{NormalRole, to_user_role, add_user}

-- `TokenPayload`
pub record TokenPayload : Type 0 where
  pub sub : Option ℕ
  pub email : Option ℕ
  pub email_verified : Bool
  pub given_name : Option String
  pub family_name : Option String
  pub picture : Option String

pub record GoogleIdentity : Type 0 where
  pub google_id : ℕ
  pub email : ℕ

-- `payload?.sub && payload.email && payload.email_verified`
abbrev identity_of : Option ℕ → Option ℕ → Bool → Option GoogleIdentity
identity_of none email verified = none
identity_of (some sub) none verified = none
identity_of (some sub) (some email) verified =
    if verified then some (record { google_id = sub; email = email }) else none

abbrev pub identity : TokenPayload → Option GoogleIdentity
identity p = identity_of p.sub p.email p.email_verified

abbrev pub is_linked_to : Option ℕ → ℕ → Bool
is_linked_to none g = false
is_linked_to (some a) g = a == g

-- `{ deletedAt: null, OR: [{ googleId }, { email }] }`
abbrev pub matches_identity : GoogleIdentity → User → Bool
matches_identity g u =
    not (is_some u.deleted_at) && (is_linked_to u.google_id g.google_id || u.email == g.email)

-- `user && user.googleId && user.googleId !== googleId`
abbrev pub is_linked_elsewhere : Option User → ℕ → Bool
is_linked_elsewhere none g = false
is_linked_elsewhere (some u) g = is_some u.google_id && not (is_linked_to u.google_id g)

abbrev pub link : ℕ → User → User
link g u = record u { google_id = some g }

pub record GoogleLogin : Type 0 where
  pub user : Option User
  pub tokens : Option AuthTokens
  pub is_new_user : Bool
  pub needs_role : Bool

-- The random values: the new user's id, the raw token whose hash fills the password, the session.
pub record GoogleRandom : Type 0 where
  pub user_id : ℕ
  pub unusable_raw : ℕ
  pub session : Random

module _ (prisma : Prisma) (env : AuthEnv) (verify_id_token : ℕ → ℕ → Option TokenPayload) where
  -- The end that both branches share.
  finish : User → Bool → RequestMeta → Random → ℕ → Action GoogleLogin
  unfolding issue_token_pair
  finish user is_new meta random now = do
    tokens ← issue_token_pair prisma env user meta none random now
    update_user prisma env user.id (touch_login now)
    modify (
        audit_user prisma env user.id
          (if is_new then "USER_LOGIN_GOOGLE_FIRST" else "USER_LOGIN_GOOGLE") meta.ip_address)
    pure (record {
      user = some user;
      tokens = some tokens;
      is_new_user = is_new;
      needs_role = false;
    })

  abbrev pub google_user : GoogleIdentity → NormalRole → GoogleRandom → ℕ → User
  google_user g role random now = record {
    id = random.user_id;
    email = g.email;
    password_hash = env.argon2_hash (generate_opaque_token env random.unusable_raw).0;
    google_id = some g.google_id;
    role = to_user_role role;
    status = AccountStatus.active;
    email_verified_at = some now;
    last_login_at = none;
    deleted_at = none;
  }

  first_login :
      GoogleIdentity
      → TokenPayload
      → Option NormalRole
      → RequestMeta
      → GoogleRandom
      → ℕ
      → Action GoogleLogin
  unfolding finish
  first_login g payload none meta random now s =
      (ok (record { user = none; tokens = none; is_new_user = true; needs_role = true }), s)
  first_login g payload (some role) meta random now s =
      (do
        add_user prisma env (google_user g role random now) (record {
          user_id = random.user_id;
          first_name = payload.given_name;
          last_name = payload.family_name;
          avatar_url = payload.picture;
          company = none;
          country = none;
        })
        modify (audit_user prisma env random.user_id "USER_REGISTERED_GOOGLE" meta.ip_address)
        finish (google_user g role random now) true meta random.session now)
        s

  link_if_needed : User → GoogleIdentity → Action (Unit {0})
  link_if_needed user g s = elim (is_some user.google_id) [
    | true ↦ (ok tt, s)
    | false ↦ update_user prisma env user.id (link g.google_id) s
  ]

  known_login : User → GoogleIdentity → RequestMeta → GoogleRandom → ℕ → Action GoogleLogin
  unfolding finish link_if_needed
  known_login user g meta random now = do
    raise_if (is_inactive user) (forbidden_exception ErrorCode.auth_account_suspended)
    link_if_needed user g
    finish user false meta random.session now

  login_as :
      Option User
      → GoogleIdentity
      → TokenPayload
      → Option NormalRole
      → RequestMeta
      → GoogleRandom
      → ℕ
      → Action GoogleLogin
  unfolding first_login known_login
  login_as none g payload role meta random now s = first_login g payload role meta random now s
  login_as (some user) g payload role meta random now s = known_login user g meta random now s

  abbrev check_credential : Option ℕ → ℕ → Option TokenPayload
  check_credential none credential = none
  check_credential (some client_id) credential = verify_id_token credential client_id

  abbrev identity_in : Option TokenPayload → Option (GoogleIdentity × TokenPayload)
  identity_in none = none
  identity_in (some p) = elim (identity p) [ none ↦ none | some g ↦ some (g, p) ]

  -- `client_id` is the configured audience; without it nothing is verified.
  unfoldable pub login_with_google :
      Option ℕ → ℕ → Option NormalRole → RequestMeta → GoogleRandom → ℕ → Action GoogleLogin
  unfolding login_as
  login_with_google client_id credential role meta random now = do
    verified ←
        or_raise (identity_in (check_credential client_id credential))
          (unauthorized_exception ErrorCode.auth_google_token_invalid)
    found ← gets λ s. prisma.find_first (matches_identity verified.0) s.users
    raise_if (is_linked_elsewhere found verified.0.google_id)
        (unauthorized_exception ErrorCode.auth_google_account_mismatch)
    login_as found verified.0 verified.1 role meta random now
