-- ===== src/Auth/Controller.antt =====
-- src/auth/auth.controller.ts: the handlers, with the cookies that they set and clear. Limits of the rate
-- and decorators are the framework's.
use idea_project.Base.{
  ℕ, ◌-◌, Bool, true, false, Option, none, some, List, [], ◌∷◌, String, if◌then◌else◌,
}
use idea_project.Base.Texts.{Text}
use idea_project.Schema.{Db, User}
use idea_project.Common.{Result, ok, err, AuthenticatedUser}
use idea_project.Common.Prisma.{Prisma}
use idea_project.Common.Duration.{parse_duration_ms}
use idea_project.Common.Http.{Exception, thrown, message_body}
use idea_project.Auth.Tokens.{AuthEnv, AuthTokens, RequestMeta, Random}
use idea_project.Auth.Sessions as Sessions
use idea_project.Auth.Accounts as Accounts
use idea_project.Auth.Accounts.{RegisterDto, RegisterRandom, NormalRole}
use idea_project.Auth.Google as Google
use idea_project.Auth.Google.{GoogleLogin, GoogleRandom, TokenPayload}

-- `nodeEnv === 'production'` and `jwtAccessTtl` of the configuration.
pub record CookieConfig : Type 0 where
  pub is_production : Bool
  pub jwt_access_ttl : Text
  -- How a JavaScript number holds a whole number.
  pub round : ℕ → ℕ

pub data SameSite : Type 0 where
  none_site lax : SameSite

pub data CookieName : Type 0 where
  access_cookie refresh_cookie : CookieName

pub record Cookie : Type 0 where
  pub name : CookieName
  pub token : ℕ
  pub http_only : Bool
  pub secure : Bool
  pub same_site : SameSite
  pub max_age : ℕ
  pub path : String

pub data SetCookie : Type 0 where
  put : Cookie → SetCookie
  clear : CookieName → String → SetCookie

-- What a handler answers: a value, or an exception for the filter.
pub data Reply (A : Type 0) : Type 0 where
  answer : A → Reply A
  throws : Exception → Reply A

abbrev pub Response : Type 0 → Type 0
Response A = (Reply A × List SetCookie) × Db

-- The answer to a request for a session with Google: who has signed in, or that a role is missing.
pub record GoogleAnswer : Type 0 where
  pub user : Option User
  pub is_new_user : Bool
  pub needs_role : Bool

module _ (config : CookieConfig) where
  abbrev same_site : SameSite
  same_site = if config.is_production then SameSite.none_site else SameSite.lax

  abbrev cookies_for : AuthTokens → ℕ → Option ℕ → Option (List SetCookie)
  cookies_for tokens now none = none
  cookies_for tokens now (some ttl) = some (
      put (record {
        name = CookieName.access_cookie;
        token = tokens.access_token;
        http_only = true;
        secure = config.is_production;
        same_site = same_site;
        max_age = ttl;
        path = "/";
      })
      ∷ put (record {
        name = CookieName.refresh_cookie;
        token = tokens.refresh_token;
        http_only = true;
        secure = config.is_production;
        same_site = same_site;
        max_age = tokens.refresh_token_expires_at - now;
        path = "/api/v1/auth";
      })
      ∷ [])

  -- It throws where the access time of the configuration is no duration.
  unfoldable pub set_auth_cookies : AuthTokens → ℕ → Option (List SetCookie)
  set_auth_cookies tokens now =
      cookies_for tokens now (parse_duration_ms config.round config.jwt_access_ttl)

  abbrev with_cookies : {A : Type 0} → A → AuthTokens → ℕ → Db → Response A
  with_cookies a tokens now s = elim (set_auth_cookies tokens now) [
    | none ↦ ((throws Exception.other, []), s)
    | some cookies ↦ ((answer a, cookies), s)
  ]

unfoldable pub clear_auth_cookies : List SetCookie
clear_auth_cookies =
    clear CookieName.access_cookie "/" ∷ clear CookieName.refresh_cookie "/api/v1/auth" ∷ []

-- A handler that only passes on what the service answers.
abbrev pub reply : {A : Type 0} → Result A × Db → Response A
reply (ok a, s) = ((answer a, []), s)
reply (err e, s) = ((throws (thrown e), []), s)

module _ (prisma : Prisma) (env : AuthEnv) (config : CookieConfig) where
  abbrev logged_in : ℕ → Result (User × AuthTokens) × Db → Response User
  logged_in now (ok (user, tokens), s) = with_cookies config user tokens now s
  logged_in now (err e, s) = ((throws (thrown e), []), s)

  unfoldable pub login : ℕ → ℕ → RequestMeta → Random → ℕ → Db → Response User
  login email password meta random now s =
      logged_in now (Sessions.login prisma env email password meta random now s)

  abbrev logged_out : Result (Unit {0}) × Db → Response (Unit {0})
  logged_out (ok done, s) = ((answer tt, clear_auth_cookies), s)
  logged_out (err e, s) = ((throws (thrown e), []), s)

  unfoldable pub logout : AuthenticatedUser → Option ℕ → ℕ → Db → Response (Unit {0})
  logout user refresh_token now s =
      logged_out (Sessions.logout prisma env user.id refresh_token now s)

  abbrev refreshed : ℕ → Result AuthTokens × Db → Response (Unit {0})
  refreshed now (ok tokens, s) = with_cookies config tt tokens now s
  refreshed now (err e, s) = ((throws (thrown e), []), s)

  -- Without the cookie Nest's own exception is thrown, which has no code.
  unfoldable pub refresh : Option ℕ → RequestMeta → Random → ℕ → Db → Response (Unit {0})
  refresh none meta random now s = ((throws (Exception.http 401 message_body), []), s)
  refresh (some raw) meta random now s =
      refreshed now (Sessions.refresh prisma env raw meta random now s)

  unfoldable pub register : RegisterDto → RequestMeta → RegisterRandom → ℕ → Db → Response User
  register dto meta random now s = reply (Accounts.register prisma env dto meta random now s)

  unfoldable pub verify_email : ℕ → ℕ → Db → Response (Unit {0})
  verify_email raw now s = reply (Accounts.verify_email prisma env raw now s)

  unfoldable pub forgot_password : ℕ → ℕ → ℕ → ℕ → Db → Response (Unit {0})
  forgot_password email id raw now s =
      reply (Accounts.forgot_password prisma env email id raw now s)

  unfoldable pub reset_password : ℕ → ℕ → ℕ → Db → Response (Unit {0})
  reset_password raw password now s = reply (Accounts.reset_password prisma env raw password now s)

  unfoldable pub me : AuthenticatedUser → Db → Response User
  me user s = reply (Accounts.get_me prisma env user.id s)

  abbrev role_missing : GoogleLogin → Db → Response GoogleAnswer
  role_missing g s =
      ((answer (record { user = none; is_new_user = g.is_new_user; needs_role = true }), []), s)

  -- `needsRole || !tokens`
  abbrev google_answer : ℕ → GoogleLogin → Bool → Option AuthTokens → Db → Response GoogleAnswer
  google_answer now g true tokens s = role_missing g s
  google_answer now g false none s = role_missing g s
  google_answer now g false (some tokens) s =
      with_cookies config
        (record { user = g.user; is_new_user = g.is_new_user; needs_role = false }) tokens now s

  abbrev google_reply : ℕ → Result GoogleLogin × Db → Response GoogleAnswer
  google_reply now (ok g, s) = google_answer now g g.needs_role g.tokens s
  google_reply now (err e, s) = ((throws (thrown e), []), s)

  unfoldable pub google_login :
      (ℕ → ℕ → Option TokenPayload)
      → Option ℕ
      → ℕ
      → Option NormalRole
      → RequestMeta
      → GoogleRandom
      → ℕ
      → Db
      → Response GoogleAnswer
  google_login verify client credential role meta random now s =
      google_reply now
        (Google.login_with_google prisma env verify client credential role meta random now s)
