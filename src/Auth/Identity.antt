-- ===== src/Auth/Identity.antt =====
-- Who may sign in with Google (`loginWithGoogle` of src/auth/auth.service.ts).
use idea_project.Base.{
  ℕ, ◌≡◌, true, false, ◌⊎◌, nat_eq, some, none, Option, refl, arith, Option-cases, Bool-cases, inl,
  inr,
}
use idea_project.Schema.{Db, User}
use idea_project.Common.{ok}
use idea_project.Common.Prisma.{Prisma}
use idea_project.Auth.Tokens.{AuthEnv, RequestMeta}
use idea_project.Auth.Accounts.{NormalRole}
use idea_project.Auth.Google.{
  TokenPayload, GoogleIdentity, GoogleRandom, GoogleLogin, identity, matches_identity,
  is_linked_elsewhere, login_with_google,
}

identity-given :
    (p : TokenPayload) (g : GoogleIdentity)
    → identity p ≡ some g
    → (p.sub ≡ some g.google_id) × (p.email ≡ some g.email) × (p.email_verified ≡ true)
identity-given p g e = elim (Option-cases p.sub) [
  | inl no_sub ↦ absurd (ground arith)
  | inr (sub, has_sub) ↦ elim (Option-cases p.email) [
    | inl no_email ↦ absurd (ground arith)
    | inr (email, has_email) ↦ elim (Bool-cases p.email_verified) [
      | inl verified ↦ (ground arith, ground arith, verified)
      | inr unverified ↦ absurd (ground arith)
    ]
  ]
]

linked-here :
    (found : Option User) (u : User) (g : ℕ)
    → found ≡ some u
    → is_linked_elsewhere found g ≡ false
    → (u.google_id ≡ none) ⊎ (u.google_id ≡ some g)
linked-here found u g h e = elim (Option-cases u.google_id) [
  | inl unlinked ↦ inl unlinked
  | inr (a, linked) ↦ inr (ground arith)
]

module _ (prisma : Prisma) (env : AuthEnv) (verify_id_token : ℕ → ℕ → Option TokenPayload) where
  -- A sign-in with Google that succeeds has a configured client, a credential that Google's check
  -- accepts for that client, and a payload with a subject and an address that is marked as verified;
  -- and the account that the search by the subject or the address found, if it found one, is linked to
  -- no subject or to this one. It says nothing of other accounts that match.
  pub login_with_google-verified :
      (client_id : Option ℕ) (credential : ℕ) (role : Option NormalRole) (meta : RequestMeta)
      (random : GoogleRandom) (now : ℕ) (s : Db) {r : GoogleLogin} {s' : Db}
      → login_with_google prisma env verify_id_token client_id credential role meta random now s
        ≡ (ok r, s')
      → (client : ℕ) × (payload : TokenPayload) × (g : GoogleIdentity) × (client_id ≡ some client)
        × (verify_id_token credential client ≡ some payload)
        × (payload.sub ≡ some g.google_id)
        × (payload.email ≡ some g.email)
        × (payload.email_verified ≡ true)
        × ((u : User)
            → prisma.find_first (matches_identity g) s.users ≡ some u
            → (u.google_id ≡ none) ⊎ (u.google_id ≡ some g.google_id))
  unfolding login_with_google
  login_with_google-verified none credential role meta random now s e = absurd (ground arith)
  login_with_google-verified (some client) credential role meta random now s e =
      elim (Option-cases (verify_id_token credential client)) [
        | inl refused ↦ absurd (ground arith)
        | inr (payload, accepted) ↦ elim (Option-cases (identity payload)) [
          | inl anonymous ↦ absurd (ground arith)
          | inr (g, known) ↦
              elim (Bool-cases (
                is_linked_elsewhere (prisma.find_first (matches_identity g) s.users) g.google_id)) [
                  | inl elsewhere ↦ absurd (ground arith)
                  | inr free ↦
                      let (subject, address, verified) = identity-given payload g known in
                      (
                        client,
                        payload,
                        g,
                        refl,
                        accepted,
                        subject,
                        address,
                        verified,
                        λ u found.
                            linked-here (prisma.find_first (matches_identity g) s.users) u
                              g.google_id found free,
                      )
                ]
        ]
      ]
