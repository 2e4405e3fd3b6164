-- ===== src/Auth/Login.antt =====
-- Who gets a session: `login` against `refresh`, and what registration gives
-- (src/auth/auth.service.ts).
use idea_project.Base.{
  ℕ, ◌≡◌, refl, true, false, ◌==◌, nat_eq, any, some, none, Option, ◌∷◌, arith, update_where,
  Option-cases, inl, inr, ◌⊎◌,
}
use idea_project.Base.Updates.{any-of_Elem}
use idea_project.Schema.{Db, RefreshToken, User, UserRole, AccountStatus, account_status_eq}
use idea_project.Common.{ok, keep}
use idea_project.Common.Prisma.{Prisma}
use idea_project.Auth.Tokens.{
  AuthEnv, RequestMeta, Random, AuthTokens, hash_opaque_token, issue_token_pair, new_refresh_token,
  tokens_for,
}
use idea_project.Auth.Sessions.{
  login, refresh, rotate, revoke_family, has_email, has_hash, is_present, is_inactive, is_spent,
  has_user_id, touch_login, has_token_id, replace,
}
use idea_project.Auth.Accounts.{
  register, RegisterDto, RegisterRandom, register_role, NormalRole, as_buyer, as_seller, registered,
  collides, add_user, issue_email_verification_token,
}

register_role-normal :
    (r : Option NormalRole)
    → (register_role r ≡ UserRole.buyer) ⊎ (register_role r ≡ UserRole.seller)
register_role-normal none = inr refl
register_role-normal (some as_buyer) = inl refl
register_role-normal (some as_seller) = inr refl

module _ (prisma : Prisma) (env : AuthEnv) where
  -- A login that succeeds was for an account that is not deleted, whose stored hash the password
  -- matches, and that is neither suspended nor deactivated; it adds one refresh token, live until
  -- the configured lifetime has passed, that is stored only as its hash.
  login-checks :
      (email password : ℕ) (meta : RequestMeta) (random : Random) (now : ℕ) (s : Db) {user : User}
      {tokens : AuthTokens} {s' : Db}
      → login prisma env email password meta random now s ≡ (ok (user, tokens), s')
      → (keep is_present (prisma.find_first (has_email email) s.users) ≡ some user)
        × (env.argon2_verify user.password_hash password ≡ true)
        × (is_inactive user ≡ false)
        × (tokens ≡ tokens_for prisma env user random now)
        × (s'.refresh_tokens
            ≡ new_refresh_token prisma env user.id meta none random now ∷ s.refresh_tokens)
        × (s'.users ≡ update_where (has_user_id user.id) (touch_login now) s.users)
  unfolding login issue_token_pair
  login-checks email password meta random now s {user} {tokens} {s'} e =
      elim (Option-cases (keep is_present (prisma.find_first (has_email email) s.users))) [
        | inl none_found ↦ ground arith
        | inr (u, found) ↦
            let create =
              prisma.create_lem (new_refresh_token prisma env u.id meta none random now)
                s.refresh_tokens in
            let touch = prisma.update_lem (has_user_id u.id) (touch_login now) s.users in
            (
              ground arith,
              ground arith,
              ground arith,
              ground arith,
              ground (arith, create),
              ground (arith, touch),
            )
      ]

  -- A refresh with a live token gives new tokens to every account that is not deleted and not
  -- SUSPENDED, with the account's own role. A DEACTIVATED account, which may not log in, is among
  -- them.
  refresh-issues :
      (raw : ℕ) (stored : RefreshToken) (user : User) (meta : RequestMeta) (random : Random)
      (now : ℕ) (s : Db)
      → prisma.find_first (has_hash (hash_opaque_token env raw)) s.refresh_tokens ≡ some stored
      → is_spent now stored ≡ false
      → prisma.find_first (has_user_id stored.user_id) s.users ≡ some user
      → user.deleted_at ≡ none
      → (user.status == AccountStatus.suspended) ≡ false
      → (refresh prisma env raw meta random now s).0 ≡ ok (tokens_for prisma env user random now)
  unfolding refresh rotate revoke_family issue_token_pair
  refresh-issues raw stored user meta random now s found good owner present active =
      let (here, at) =
        prisma.find_first-some (has_hash (hash_opaque_token env raw)) s.refresh_tokens stored
          found in
      let fresh = new_refresh_token prisma env user.id meta (some stored.family) random now in
      let there = any-of_Elem (has_token_id stored.id) stored s.refresh_tokens at (ground arith) in
      ground (
        arith,
        there,
        prisma.create_lem fresh s.refresh_tokens,
        prisma.update_lem (has_token_id stored.id)
            (replace prisma env now (env.slice_12 random.raw)) (fresh ∷ s.refresh_tokens),
      )

  -- Nobody registers as an administrator or an expert: an account that `register` makes is a buyer
  -- or a seller, waits for its verification, holds the hash of the password, and its address was
  -- not taken.
  register-pending :
      (dto : RegisterDto) (meta : RequestMeta) (random : RegisterRandom) (now : ℕ) (s : Db)
      {user : User} {s' : Db}
      → register prisma env dto meta random now s ≡ (ok user, s')
      → ((user.role ≡ UserRole.buyer) ⊎ (user.role ≡ UserRole.seller))
        × (user.status ≡ AccountStatus.pending_verification)
        × (user.password_hash ≡ env.argon2_hash dto.password)
        × (any (has_email dto.email) s.users ≡ false)
        × (s'.users ≡ user ∷ s.users)
  unfolding register add_user issue_email_verification_token
  register-pending dto meta random now s {user} e =
      elim (Option-cases (prisma.find_first (has_email dto.email) s.users)) [
        | inr (u, found) ↦ ground arith
        | inl free ↦
            let new = registered prisma env dto random in
            let insert = prisma.create_unique_lem (collides prisma env new) new s.users in
            let same : user ≡ new = ground (arith, insert) in
            (
              rw same (register_role-normal dto.role),
              ground (arith, same),
              ground (arith, same),
              prisma.find_first-none (has_email dto.email) s.users free,
              ground (arith, insert),
            )
      ]
