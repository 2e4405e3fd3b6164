-- ===== src/Auth/Rotation.antt =====
-- The rotation of refresh tokens: `AuthService.refresh` (src/auth/auth.service.ts).
use idea_project.Base.{
  ℕ, ◌≡◌, ◌≤◌, ◌∙◌, ap, refl, true, false, ◌==◌, nat_eq, any, count, some, List, ◌∷◌, arith,
  update_where, Option-cases, Bool-cases, inl, inr, Elem, if◌then◌else◌, ◌⊎◌,
}
use idea_project.Base.Updates.{
  any-update_where_self, Elem-unique, Elem-update_where, any-update_where_of_Elem,
}
use idea_project.Schema.{Db, RefreshToken, User}
use idea_project.Common.{ok, err, keep, keep-some, unauthorized_exception, ErrorCode}
use idea_project.Common.Prisma.{Prisma}
use idea_project.Auth.Tokens.{
  AuthEnv, generate_opaque_token, RequestMeta, Random, AuthTokens, hash_opaque_token,
  issue_token_pair, new_refresh_token,
}
use idea_project.Auth.Sessions.{
  refresh, rotate, revoke_family, has_hash, is_live_in_family, revoke, replace, has_token_id,
  is_spent, may_refresh, has_user_id,
}

module _ (prisma : Prisma) (env : AuthEnv) where
  -- A refresh token that was revoked or has expired is refused as AUTH_TOKEN_EXPIRED, and after it
  -- no token of its family is live.
  refresh-kills_family :
      (raw : ℕ) (stored : RefreshToken) (meta : RequestMeta) (random : Random) (now : ℕ) (s : Db)
      → prisma.find_first (has_hash (hash_opaque_token env raw)) s.refresh_tokens ≡ some stored
      → is_spent now stored ≡ true
      → ((refresh prisma env raw meta random now s).0
          ≡ err (unauthorized_exception ErrorCode.auth_token_expired))
        × (any
              (is_live_in_family stored.family)
              (refresh prisma env raw meta random now s).1.refresh_tokens
            ≡ false)
  unfolding refresh revoke_family
  refresh-kills_family raw stored meta random now s found spent = (
    ground arith,
    ground (
      arith,
      prisma.update_many_lem (is_live_in_family stored.family) (revoke now) s.refresh_tokens,
      any-update_where_self (is_live_in_family stored.family) (revoke now) s.refresh_tokens
          (λ (t : RefreshToken) (live : is_live_in_family stored.family t ≡ true). ground arith),
    ),
  )

  -- What a successful rotation does to the tokens.
  rotate-tokens :
      (stored : RefreshToken) (user : User) (meta : RequestMeta) (random : Random) (now : ℕ)
      (s : Db) {tokens : AuthTokens} {s' : Db}
      → prisma.find_first (has_user_id stored.user_id) s.users ≡ some user
      → rotate prisma env stored meta random now s ≡ (ok tokens, s')
      → s'.refresh_tokens
        ≡ update_where (has_token_id stored.id) (replace prisma env now (env.slice_12 random.raw)) (
            new_refresh_token prisma env user.id meta (some stored.family) random now
            ∷ s.refresh_tokens)
  unfolding rotate issue_token_pair
  rotate-tokens stored user meta random now s found e = ground (
    arith,
    prisma.create_lem (new_refresh_token prisma env user.id meta (some stored.family) random now)
        s.refresh_tokens,
    prisma.update_lem (has_token_id stored.id) (replace prisma env now (env.slice_12 random.raw)) (
        new_refresh_token prisma env user.id meta (some stored.family) random now
        ∷ s.refresh_tokens),
  )

  refresh-found :
      (raw : ℕ) (meta : RequestMeta) (random : Random) (now : ℕ) (s : Db) {tokens : AuthTokens}
      {s' : Db}
      → refresh prisma env raw meta random now s ≡ (ok tokens, s')
      → (stored : RefreshToken) × (user : User) × (prisma.find_first
            (has_hash (hash_opaque_token env raw))
            s.refresh_tokens
          ≡ some stored)
        × (keep may_refresh (prisma.find_first (has_user_id stored.user_id) s.users) ≡ some user)
        × (is_spent now stored ≡ false)
        × (rotate prisma env stored meta random now s ≡ (ok tokens, s'))
  unfolding refresh rotate revoke_family
  refresh-found raw meta random now s e =
      elim (Option-cases
        (prisma.find_first (has_hash (hash_opaque_token env raw)) s.refresh_tokens)) [
          | inl none_found ↦ ground arith
          | inr (stored, found) ↦
              elim (Option-cases
                (keep may_refresh (prisma.find_first (has_user_id stored.user_id) s.users))) [
                  | inl none_allowed ↦ elim (Bool-cases (is_spent now stored)) [
                    | inl spent ↦ ground arith
                    | inr good ↦ ground arith
                  ]
                  | inr (user, allowed) ↦ elim (Bool-cases (is_spent now stored)) [
                    | inl spent ↦ ground arith
                    | inr good ↦ (stored, user, found, allowed, good, ground arith)
                  ]
                ]
        ]

  replaced_is :
      (raw : ℕ) (stored fresh a r : RefreshToken) (by now : ℕ) (ts : List RefreshToken)
      → count (has_hash raw) ts ≤ 1
      → has_hash raw fresh ≡ false
      → has_hash raw stored ≡ true
      → Elem stored ts
      → has_hash raw r ≡ true
      → (a ≡ fresh) ⊎ Elem a ts
      → r ≡ (if has_token_id stored.id a then replace prisma env now by a else a)
      → r ≡ replace prisma env now by stored
  replaced_is raw stored fresh a r by now ts unique other here m hit (inl e) is = ground arith
  replaced_is raw stored fresh a r by now ts unique other here m hit (inr n) is =
      let same : a ≡ stored =
        Elem-unique (has_hash raw) a stored ts unique n m (ground arith) here in
      is ∙ rw same (ground arith)

  -- A token that has been rotated away is found again as revoked, in the same family.
  replaced-found :
      (raw : ℕ) (stored fresh : RefreshToken) (by now : ℕ) (ts : List RefreshToken)
      → count (has_hash raw) ts ≤ 1
      → has_hash raw fresh ≡ false
      → prisma.find_first (has_hash raw) ts ≡ some stored
      → prisma.find_first
          (has_hash raw)
          (update_where (has_token_id stored.id) (replace prisma env now by) (fresh ∷ ts))
        ≡ some (replace prisma env now by stored)
  replaced-found raw stored fresh by now ts unique other found =
      let us = update_where (has_token_id stored.id) (replace prisma env now by) (fresh ∷ ts) in
      let (here, m) = prisma.find_first-some (has_hash raw) ts stored found in
      elim (Option-cases (prisma.find_first (has_hash raw) us)) [
        | inl e ↦
            let hit =
              any-update_where_of_Elem (has_hash raw) (has_token_id stored.id)
                (replace prisma env now by) stored (fresh ∷ ts) (inr m) (λ b. refl) here in
            let miss = prisma.find_first-none (has_hash raw) us e in cc
        | inr (r, e) ↦
            let (hit, at) = prisma.find_first-some (has_hash raw) us r e in
            let (a, n, is) =
              Elem-update_where (has_token_id stored.id) (replace prisma env now by) r (fresh ∷ ts)
                at in
            e ∙ ap some (replaced_is raw stored fresh a r by now ts unique other here m hit n is)
      ]

  -- A refresh token works once. When no two tokens have its hash and the new token's hash differs
  -- from it, then after a successful refresh the same token is refused as AUTH_TOKEN_EXPIRED,
  -- whoever sends it and at whatever time, and no token of its family is live any more: the one
  -- that the first refresh had issued is revoked too.
  pub refresh-replay :
      (raw : ℕ) (meta meta' : RequestMeta) (random random' : Random) (now now' : ℕ) (s : Db)
      {tokens : AuthTokens} {s' : Db}
      → count (has_hash (hash_opaque_token env raw)) s.refresh_tokens ≤ 1
      → (hash_opaque_token env random.raw == hash_opaque_token env raw) ≡ false
      → refresh prisma env raw meta random now s ≡ (ok tokens, s')
      → (stored : RefreshToken) × (prisma.find_first
            (has_hash (hash_opaque_token env raw))
            s.refresh_tokens
          ≡ some stored)
        × ((refresh prisma env raw meta' random' now' s').0
            ≡ err (unauthorized_exception ErrorCode.auth_token_expired))
        × (any
              (is_live_in_family stored.family)
              (refresh prisma env raw meta' random' now' s').1.refresh_tokens
            ≡ false)
  unfolding generate_opaque_token
  refresh-replay raw meta meta' random random' now now' s {tokens} {s'} unique other e =
      let (stored, user, found, allowed, good, run) = refresh-found raw meta random now s e in
      let by = env.slice_12 random.raw in
      let fresh = new_refresh_token prisma env user.id meta (some stored.family) random now in
      let after =
        rotate-tokens stored user meta random now s (keep-some may_refresh _ user allowed).0 run in
      let again : prisma.find_first (has_hash (hash_opaque_token env raw)) s'.refresh_tokens
          ≡ some (replace prisma env now by stored) =
        rw after (
          replaced-found (hash_opaque_token env raw) stored fresh by now s.refresh_tokens unique
            (ground arith) found) in
      let killed =
        refresh-kills_family raw (replace prisma env now by stored) meta' random' now' s' again
          refl in
      (stored, found, killed.0, killed.1)
