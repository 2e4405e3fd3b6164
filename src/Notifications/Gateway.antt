-- ===== src/Notifications/Gateway.antt =====
-- src/notifications/notifications.gateway.ts: who is pushed a notification. `jwtService.verify` with the
-- secret of the configuration is a parameter; the rooms are those of socket.io.
use idea_project.Base.{
  ℕ, ◌≡◌, refl, Bool, false, ◌&&◌, Option, none, some, List, [], ◌∷◌, ◌==◌, nat_eq, any, filter,
  map, arith, Option-cases, inl, inr,
}
use idea_project.Common.Http.{JwtPayload}

-- A client in the room `user:${user}`.
pub record Joined : Type 0 where
  pub room : ℕ
  pub client : ℕ

pub record Server : Type 0 where
  pub joined : List Joined
  pub disconnected : List ℕ

module _ (verify : ℕ → Option JwtPayload) where
  unfoldable pub handle_connection : ℕ → Option ℕ → Server → Server
  handle_connection client none server = record server {
    disconnected = client ∷ server.disconnected;
  }
  handle_connection client (some token) server = elim (verify token) [
    | none ↦ record server { disconnected = client ∷ server.disconnected }
    | some payload ↦ record server {
      joined = record { room = payload.sub; client = client } ∷ server.joined;
    }
  ]

-- The clients that a push reaches: `this.server.to(room).emit(…)`.
unfoldable pub emit_to_user : ℕ → Server → List ℕ
emit_to_user user_id server = map (λ j. j.client) (filter (λ j. j.room == user_id) server.joined)

-- The connections since the server was started, the latest first: the client and its token.
record Connection : Type 0 where
  client : ℕ
  token : Option ℕ

module _ (verify : ℕ → Option JwtPayload) where
  unfoldable server_after : List Connection → Server
  server_after [] = record { joined = []; disconnected = [] }
  server_after (c ∷ cs) = handle_connection verify c.client c.token (server_after cs)

  abbrev is_of_user : ℕ → Option JwtPayload → Bool
  is_of_user user_id none = false
  is_of_user user_id (some payload) = payload.sub == user_id

  abbrev proves : ℕ → Option ℕ → Bool
  proves user_id none = false
  proves user_id (some token) = is_of_user user_id (verify token)

  -- As long as no client leaves, a push to a user reaches exactly the clients that came with a token
  -- that is verified for this user.
  emit_to_user-verified :
      (user_id client : ℕ) (cs : List Connection)
      → any (λ c. c == client) (emit_to_user user_id (server_after cs))
        ≡ any (λ c. c.client == client && proves user_id c.token) cs
  unfolding emit_to_user server_after handle_connection
  emit_to_user-verified user_id client [] = refl
  emit_to_user-verified user_id client (c ∷ cs) = elim (Option-cases c.token) [
    | inl missing ↦ ground (arith, emit_to_user-verified user_id client cs)
    | inr (token, given) ↦ elim (Option-cases (verify token)) [
      | inl bad ↦ ground (arith, emit_to_user-verified user_id client cs)
      | inr (payload, good) ↦ ground (arith, emit_to_user-verified user_id client cs)
    ]
  ]
