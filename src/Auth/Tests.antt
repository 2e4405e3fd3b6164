-- ===== src/Auth/Tests.antt =====
-- The theorems on accounts and sessions at one account.
use idea_project.Base.{
  ◌==◌, nat_eq, ◌⊎◌, List, [], ℕ, Option, ◌≡◌, refl, arith, any, false, true, update_where, ◌∷◌,
  some, none, nat_eq,
}
use idea_project.Schema.{User, Db, AccountStatus, account_status_eq, RefreshToken, OneTimeToken}
use idea_project.Common.{ok, err, ErrorCode, unauthorized_exception}
use idea_project.Common.Prisma.{list_prisma}
use idea_project.Auth.Tokens.{
  hash_opaque_token, tokens_for, issue_token_pair, generate_opaque_token,
}
use idea_project.Auth.Sessions.{
  login, refresh, rotate, has_hash, has_user_id, is_live_in_family, is_live_of_user,
}
use idea_project.Auth.Accounts.{
  verify_email, verify_email_body, reset_password, reset_body, set_password, has_token_hash,
  is_usable,
}
use idea_project.Auth.Rotation.{refresh-replay}
use idea_project.Auth.OneTime.{is_usable_id, reset_password-once, verify_email-activates}
use idea_project.Auth.Google.{
  TokenPayload, GoogleIdentity, GoogleRandom, GoogleLogin, matches_identity, login_with_google,
}
use idea_project.Auth.Identity.{login_with_google-verified}
use idea_project.Auth.Sessions.{logout}
use idea_project.Auth.Controller as Controller
use idea_project.Auth.Controller.{CookieConfig, SetCookie}
use idea_project.Samples.{buyer as customer, accounts, account, plain_env, no_meta, draw}

abbrev active : Db
active = accounts AccountStatus.active

-- After the session's token, 5, was rotated at the time 10.
abbrev rotated : Db
rotated = (refresh list_prisma plain_env 5 no_meta (draw 6) 10 active).1

rotates :
    refresh list_prisma plain_env 5 no_meta (draw 6) 10 active
    ≡ (ok (tokens_for list_prisma plain_env (account AccountStatus.active) (draw 6) 10), rotated)
unfolding refresh rotate issue_token_pair generate_opaque_token hash_opaque_token
rotates = refl

refresh-replay_example :
    (stored : RefreshToken) × (list_prisma.find_first
        (has_hash (hash_opaque_token plain_env 5))
        active.refresh_tokens
      ≡ some stored)
    × ((refresh list_prisma plain_env 5 no_meta (draw 8) 20 rotated).0
        ≡ err (unauthorized_exception ErrorCode.auth_token_expired))
    × (any
          (is_live_in_family stored.family)
          (refresh list_prisma plain_env 5 no_meta (draw 8) 20 rotated).1.refresh_tokens
        ≡ false)
unfolding hash_opaque_token
refresh-replay_example =
    refresh-replay list_prisma plain_env 5 no_meta no_meta (draw 6) (draw 8) 10 20 active
      (ground arith) refl rotates

abbrev was_reset : Db
was_reset = (reset_password list_prisma plain_env 8 99 10 active).1

resets : reset_password list_prisma plain_env 8 99 10 active ≡ (ok tt, was_reset)
unfolding reset_password reset_body hash_opaque_token
resets = refl

reset_password-once_example :
    (token : OneTimeToken) × (list_prisma.find_first
        (has_token_hash (hash_opaque_token plain_env 8))
        active.password_reset_tokens
      ≡ some token)
    × (is_usable 10 token ≡ true)
    × (was_reset.users
        ≡ update_where
            (has_user_id token.user_id)
            (set_password (plain_env.argon2_hash 99))
            active.users)
    × (any (is_live_of_user token.user_id) was_reset.refresh_tokens ≡ false)
    × (any (is_usable_id token.id 11) was_reset.password_reset_tokens ≡ false)
reset_password-once_example = reset_password-once list_prisma plain_env 8 99 10 11 active resets

abbrev suspended : Db
suspended = accounts AccountStatus.suspended

abbrev verified : Db
verified = (verify_email list_prisma plain_env 8 10 suspended).1

verifies : verify_email list_prisma plain_env 8 10 suspended ≡ (ok tt, verified)
unfolding verify_email verify_email_body hash_opaque_token
verifies = refl

verify_email-activates_example :
    (token : OneTimeToken) × (list_prisma.find_first
        (has_token_hash (hash_opaque_token plain_env 8))
        suspended.email_verification_tokens
      ≡ some token)
    × (is_usable 10 token ≡ true)
    × (verified.users
        ≡ update_where
            (λ u. u.id == token.user_id)
            (λ u. record u { email_verified_at = some 10; status = AccountStatus.active })
            suspended.users)
    × (any (is_usable_id token.id 11) verified.email_verification_tokens ≡ false)
verify_email-activates_example =
    verify_email-activates list_prisma plain_env 8 10 11 suspended verifies

abbrev google_payload : TokenPayload
google_payload = record {
  sub = some 900;
  email = some 102;
  email_verified = true;
  given_name = none;
  family_name = none;
  picture = none;
}

abbrev accept_any : ℕ → ℕ → Option TokenPayload
accept_any credential client = some google_payload

abbrev google_dice : GoogleRandom
google_dice = record { user_id = 5; unusable_raw = 9; session = draw 6 }

abbrev google_in : Db
google_in =
    (login_with_google list_prisma plain_env accept_any (some 1) 4 none no_meta google_dice 10
      active).1

abbrev google_answer : GoogleLogin
google_answer = record {
  user = some (account AccountStatus.active);
  tokens = some (tokens_for list_prisma plain_env (account AccountStatus.active) (draw 6) 10);
  is_new_user = false;
  needs_role = false;
}

signs_in :
    login_with_google list_prisma plain_env accept_any (some 1) 4 none no_meta google_dice 10 active
    ≡ (ok google_answer, google_in)
unfolding login_with_google issue_token_pair generate_opaque_token
signs_in = refl

login_with_google-verified_example :
    (client : ℕ) × (payload : TokenPayload) × (g : GoogleIdentity) × (some 1 ≡ some client)
    × (accept_any 4 client ≡ some payload)
    × (payload.sub ≡ some g.google_id)
    × (payload.email ≡ some g.email)
    × (payload.email_verified ≡ true)
    × ((u : User)
        → list_prisma.find_first (matches_identity g) active.users ≡ some u
        → (u.google_id ≡ none) ⊎ (u.google_id ≡ some g.google_id))
login_with_google-verified_example =
    login_with_google-verified list_prisma plain_env accept_any (some 1) 4 none no_meta google_dice
      10 active signs_in

abbrev cookies : CookieConfig
cookies = record { is_production = true; jwt_access_ttl = b'9' ∷ b'm' ∷ []; round = λ n. n }

abbrev logged_in : Db
logged_in = (login list_prisma plain_env 102 7 no_meta (draw 6) 10 active).1

abbrev set : List SetCookie
set = (Controller.login list_prisma plain_env cookies 102 7 no_meta (draw 6) 10 active).0.1

abbrev logged_out : Db
logged_out = (Controller.logout list_prisma plain_env cookies customer (some 6) 20 logged_in).1
