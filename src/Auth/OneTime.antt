-- ===== src/Auth/OneTime.antt =====
-- The tokens sent by mail: `verifyEmail` and `resetPassword` (src/auth/auth.service.ts).
use idea_project.Base.{
  ◌==◌, nat_eq, ℕ, ◌≡◌, refl, Bool, true, false, ◌&&◌, nat_eq, any, some, List, [], ◌∷◌, arith,
  update_where, Option-cases, inl, inr,
}
use idea_project.Base.Updates.{any-update_where_self}
use idea_project.Schema.{AccountStatus, Db, RefreshToken, OneTimeToken}
use idea_project.Common.{ok, keep, keep-some}
use idea_project.Common.Prisma.{Prisma}
use idea_project.Auth.Tokens.{AuthEnv, hash_opaque_token}
use idea_project.Auth.Sessions.{is_live_of_user, revoke, has_user_id}
use idea_project.Auth.Accounts.{
  verify_email, verify_email_body, verify_user, reset_password, reset_body, set_password,
  has_token_hash, has_one_time_id, is_usable, use_token,
}

-- A token that can still be used, by its identifier.
abbrev pub is_usable_id : ℕ → ℕ → OneTimeToken → Bool
is_usable_id id now t = has_one_time_id id t && is_usable now t

spent_stays :
    (id now later : ℕ) (ts : List OneTimeToken)
    → any (is_usable_id id later) (update_where (has_one_time_id id) (use_token now) ts) ≡ false
spent_stays id now later [] = refl
spent_stays id now later (t ∷ ts) = ground (arith, spent_stays id now later ts)

module _ (prisma : Prisma) (env : AuthEnv) where
  -- A password is reset only by a token that is unused and not expired. A reset that succeeds sets
  -- the password of the token's user to the hash of the new one, leaves no refresh token of that
  -- user live, and leaves no row with the token's identifier that can be used again, at any time.
  pub reset_password-once :
      (raw password now later : ℕ) (s : Db) {s' : Db}
      → reset_password prisma env raw password now s ≡ (ok tt, s')
      → (token : OneTimeToken) × (prisma.find_first
            (has_token_hash (hash_opaque_token env raw))
            s.password_reset_tokens
          ≡ some token)
        × (is_usable now token ≡ true)
        × (s'.users
            ≡ update_where
                (has_user_id token.user_id)
                (set_password (env.argon2_hash password))
                s.users)
        × (any (is_live_of_user token.user_id) s'.refresh_tokens ≡ false)
        × (any (is_usable_id token.id later) s'.password_reset_tokens ≡ false)
  unfolding reset_password reset_body
  reset_password-once raw password now later s e =
      elim (Option-cases (
        keep (is_usable now) (
          prisma.find_first (has_token_hash (hash_opaque_token env raw))
            s.password_reset_tokens))) [
              | inl none_found ↦ ground arith
              | inr (token, found) ↦
                  let run =
                    prisma.transaction_lem
                      (reset_body prisma env token (env.argon2_hash password) now) s in
                  let spend =
                    prisma.update_lem (has_one_time_id token.id) (use_token now)
                      s.password_reset_tokens in
                  let set =
                    prisma.update_lem (has_user_id token.user_id)
                      (set_password (env.argon2_hash password)) s.users in
                  let kill =
                    prisma.update_many_lem (is_live_of_user token.user_id) (revoke now)
                      s.refresh_tokens in
                  (
                    token,
                    (keep-some (is_usable now) _ token found).0,
                    (keep-some (is_usable now) _ token found).1,
                    ground (arith, run, spend, set, kill),
                    ground (
                      arith,
                      run,
                      spend,
                      set,
                      kill,
                      any-update_where_self (is_live_of_user token.user_id) (revoke now)
                          s.refresh_tokens
                          (λ (t : RefreshToken) (live : is_live_of_user token.user_id t ≡ true).
                            ground arith),
                    ),
                    ground (
                      arith,
                      run,
                      spend,
                      set,
                      kill,
                      spent_stays token.id now later s.password_reset_tokens,
                    ),
                  )
            ]

  -- An address is verified only by a token that is unused and not expired, and no row with the token's
  -- identifier can be used again. The token's account becomes ACTIVE, whatever its status was: also
  -- one that was suspended or deactivated.
  pub verify_email-activates :
      (raw now later : ℕ) (s : Db) {s' : Db}
      → verify_email prisma env raw now s ≡ (ok tt, s')
      → (token : OneTimeToken) × (prisma.find_first
            (has_token_hash (hash_opaque_token env raw))
            s.email_verification_tokens
          ≡ some token)
        × (is_usable now token ≡ true)
        × (s'.users
            ≡ update_where
                (λ u. u.id == token.user_id)
                (λ u. record u { email_verified_at = some now; status = AccountStatus.active })
                s.users)
        × (any (is_usable_id token.id later) s'.email_verification_tokens ≡ false)
  unfolding verify_email verify_email_body
  verify_email-activates raw now later s e =
      elim (Option-cases (
        keep (is_usable now) (
          prisma.find_first (has_token_hash (hash_opaque_token env raw))
            s.email_verification_tokens))) [
              | inl none_found ↦ ground arith
              | inr (token, found) ↦
                  let run = prisma.transaction_lem (verify_email_body prisma env token now) s in
                  let spend =
                    prisma.update_lem (has_one_time_id token.id) (use_token now)
                      s.email_verification_tokens in
                  let set =
                    prisma.update_lem (has_user_id token.user_id) (verify_user now) s.users in
                  (
                    token,
                    (keep-some (is_usable now) _ token found).0,
                    (keep-some (is_usable now) _ token found).1,
                    ground (arith, run, spend, set),
                    ground (
                      arith,
                      run,
                      spend,
                      set,
                      spent_stays token.id now later s.email_verification_tokens,
                    ),
                  )
            ]
