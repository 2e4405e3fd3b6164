-- ===== src/Auth/Tokens.antt =====
-- src/auth/token.service.ts, src/auth/password.service.ts, src/common/utils/duration.ts and the
-- token pair of src/auth/auth.service.ts. Random bytes are arguments, the hashes are parameters.
use idea_project.Base.{ℕ, ◌+◌, Bool, Option, none, some, String, nat_eq}
use idea_project.Schema.{User, UserRole, RefreshToken}
use idea_project.Common.{Action, ok}
use idea_project.Common.Prisma.{Prisma}

-- What the libraries `crypto`, `argon2` and `@nestjs/jwt` compute, and the configured lifetime of
-- a refresh token in milliseconds.
pub record AuthEnv : Type 0 where
  -- `createHash('sha256').update(raw).digest('hex')`
  pub sha256 : ℕ → ℕ
  pub argon2_hash : ℕ → ℕ
  pub argon2_verify : ℕ → ℕ → Bool
  -- `jwtService.signAsync({ sub, email, role })`
  pub sign_jwt : ℕ → ℕ → UserRole → ℕ
  -- `refreshToken.slice(0, 12)`
  pub slice_12 : ℕ → ℕ
  pub refresh_ttl : ℕ

-- `RequestMeta`
pub record RequestMeta : Type 0 where
  pub ip_address : Option String
  pub user_agent : Option String

pub record AuthTokens : Type 0 where
  pub access_token : ℕ
  pub refresh_token : ℕ
  pub refresh_token_expires_at : ℕ

-- The random values of one call: the row's id, the raw token and the raw token of a new family.
pub record Random : Type 0 where
  pub row_id : ℕ
  pub raw : ℕ
  pub family_raw : ℕ

unfoldable pub hash_opaque_token : AuthEnv → ℕ → ℕ
hash_opaque_token env raw = env.sha256 raw

-- `generateOpaqueToken`, on the random bytes: the raw token and its hash.
unfoldable pub generate_opaque_token : AuthEnv → ℕ → ℕ × ℕ
unfolding hash_opaque_token
generate_opaque_token env raw = (raw, hash_opaque_token env raw)

abbrev family_of : AuthEnv → Option ℕ → ℕ → ℕ
family_of env none raw = (generate_opaque_token env raw).1
family_of env (some family) raw = family

module _ (prisma : Prisma) (env : AuthEnv) where
  abbrev pub new_refresh_token : ℕ → RequestMeta → Option ℕ → Random → ℕ → RefreshToken
  new_refresh_token user_id meta existing_family random now = record {
    id = random.row_id;
    user_id = user_id;
    token_hash = (generate_opaque_token env random.raw).1;
    family = family_of env existing_family random.family_raw;
    revoked_at = none;
    replaced_by = none;
    user_agent = meta.user_agent;
    ip_address = meta.ip_address;
    expires_at = now + env.refresh_ttl;
  }

  abbrev pub tokens_for : User → Random → ℕ → AuthTokens
  tokens_for user random now = record {
    access_token = env.sign_jwt user.id user.email user.role;
    refresh_token = (generate_opaque_token env random.raw).0;
    refresh_token_expires_at = now + env.refresh_ttl;
  }

  unfoldable pub issue_token_pair : User → RequestMeta → Option ℕ → Random → ℕ → Action AuthTokens
  unfolding generate_opaque_token
  issue_token_pair user meta existing_family random now s = (
    ok (tokens_for user random now),
    record s {
      refresh_tokens =
          prisma.create (new_refresh_token user.id meta existing_family random now)
            s.refresh_tokens;
    },
  )
