-- ===== src/Conversations/Senders.antt =====
-- Every message is from someone who takes part (src/conversations/conversations.service.ts), whatever
-- the methods are asked, one after another.
use idea_project.Base.{
  ℕ, ◌≡◌, refl, ◌∙◌, Bool, true, List, [], ◌∷◌, any, All, update_where, arith, Option-cases, inl,
  inr, nat_eq, ◌==◌, filter, not, ◌⊎◌, ap,
}
use idea_project.Base.Updates.{any-update_where_same}
use idea_project.Schema.{Db, ConversationParticipant, Message}
use idea_project.Common.{AuthenticatedUser}
use idea_project.Common.Prisma.{Prisma}
use idea_project.Common.Prisma.Search.{found_any}
use idea_project.Common.Pages.{CursorPaginationQuery}
use idea_project.Conversations.Service.{
  create, list_messages, page_of_messages, send_message, assert_participant, CreateConversationDto,
  SendMessageDto, unique, add_members, new_member, is_member, is_conversation, new_message, read_at,
  touch,
}

-- The sender of the message takes part in its conversation.
abbrev pub is_from_member : List ConversationParticipant → Message → Bool
is_from_member ps m = any (is_member m.conversation_id m.sender_id) ps

abbrev pub AreSpoken : Db → Type 0
AreSpoken s =
    All (λ m. is_from_member s.community.conversation_participants m ≡ true) s.community.messages

-- The databases that requests to the conversations lead to.
pub data Talk (prisma : Prisma) (s : Db) : Db → Type 0 where
  start : Talk prisma s s
  created :
      {t : Db} (user : AuthenticatedUser) (dto : CreateConversationDto) (id message_id now : ℕ)
      → Talk prisma s t
      → Talk prisma s (create prisma user dto id message_id now t).1
  read :
      {t : Db} (user : AuthenticatedUser) (id : ℕ) (query : CursorPaginationQuery) (now : ℕ)
      → Talk prisma s t
      → Talk prisma s (list_messages prisma user id query now t).1
  sent :
      {t : Db} (user : AuthenticatedUser) (conversation_id : ℕ) (dto : SendMessageDto) (id now : ℕ)
      → Talk prisma s t
      → Talk prisma s (send_message prisma user conversation_id dto id now t).1

more_spoken :
    (ps qs : List ConversationParticipant) (ms : List Message)
    → ((m : Message) → is_from_member ps m ≡ true → is_from_member qs m ≡ true)
    → All (λ m. is_from_member ps m ≡ true) ms
    → All (λ m. is_from_member qs m ≡ true) ms
more_spoken ps qs [] grow h = tt
more_spoken ps qs (m ∷ ms) grow h = (grow m h.0, more_spoken ps qs ms grow h.1)

any-add_members :
    (p : ConversationParticipant → Bool) (id : ℕ) (us : List ℕ) (ps : List ConversationParticipant)
    → any p ps ≡ true
    → any p (add_members id us ps) ≡ true
unfolding add_members
any-add_members p id [] ps h = h
any-add_members p id (u ∷ us) ps h = any-add_members p id us (new_member id u ∷ ps) (ground arith)

creator_member :
    (id u : ℕ) (us : List ℕ) (ps : List ConversationParticipant)
    → any (is_member id u) (add_members id (unique (u ∷ us)) ps) ≡ true
unfolding unique add_members
creator_member id u us ps =
    any-add_members (is_member id u) id (filter (λ y. not (y == u)) (unique us))
      (new_member id u ∷ ps) (ground arith)

module _ (prisma : Prisma) where
  create-AreSpoken :
      (user : AuthenticatedUser) (dto : CreateConversationDto) (id message_id now : ℕ) (s : Db)
      → AreSpoken s
      → AreSpoken (create prisma user dto id message_id now s).1
  unfolding create
  create-AreSpoken user dto id message_id now s h =
      rw
        (prisma.create_lem (new_message id user.id dto.initial_message message_id now)
          s.community.messages)
        (
          creator_member id user.id dto.participant_ids s.community.conversation_participants,
          more_spoken s.community.conversation_participants _ s.community.messages
              (λ m.
                any-add_members (is_member m.conversation_id m.sender_id) id
                  (unique (user.id ∷ dto.participant_ids)) s.community.conversation_participants)
              h,
        )

  -- What a reading writes.
  list_messages-writes :
      (user : AuthenticatedUser) (id : ℕ) (query : CursorPaginationQuery) (now : ℕ) (s : Db)
      → let r = (list_messages prisma user id query now s).1.community in
        (r.messages ≡ s.community.messages)
        × ((r.conversation_participants ≡ s.community.conversation_participants)
            ⊎ (r.conversation_participants
                ≡ update_where
                    (is_member id user.id)
                    (read_at now)
                    s.community.conversation_participants))
  unfolding list_messages assert_participant
  list_messages-writes user id query now s =
      let member = is_member id user.id in
      let ps = s.community.conversation_participants in
      elim (Option-cases (prisma.find_first member ps)) [
        | inl outside ↦ rw outside (refl, inl refl)
        | inr (p, inside) ↦ elim (Option-cases (page_of_messages prisma id query s)) [
          | inl bad ↦
              rw (inside, bad)
                (refl, inr (ap (λ r. r.0) (prisma.update_many_lem member (read_at now) ps)))
          | inr (page, good) ↦
              rw (inside, good)
                (refl, inr (ap (λ r. r.0) (prisma.update_many_lem member (read_at now) ps)))
        ]
      ]

  list_messages-AreSpoken :
      (user : AuthenticatedUser) (id : ℕ) (query : CursorPaginationQuery) (now : ℕ) (s : Db)
      → AreSpoken s
      → AreSpoken (list_messages prisma user id query now s).1
  list_messages-AreSpoken user id query now s h =
      let (messages, members) = list_messages-writes user id query now s in
      elim members [
        | inl same ↦ rw (messages, same) h
        | inr touched ↦
            rw (messages, touched)
              (more_spoken s.community.conversation_participants _ s.community.messages
                (λ m e.
                  any-update_where_same (is_member m.conversation_id m.sender_id)
                    (is_member id user.id) (read_at now) s.community.conversation_participants
                    (λ (a : ConversationParticipant). refl)
                  ∙ e)
                h)
      ]

  -- What a message writes: nothing for an outsider.
  send_message-writes :
      (user : AuthenticatedUser) (conversation_id : ℕ) (dto : SendMessageDto) (id now : ℕ) (s : Db)
      → let r = (send_message prisma user conversation_id dto id now s).1.community in
        (r.conversation_participants ≡ s.community.conversation_participants)
        × ((r.messages ≡ s.community.messages)
            ⊎ ((r.messages
                  ≡ new_message conversation_id user.id dto.body id now ∷ s.community.messages)
                × (any (is_member conversation_id user.id) s.community.conversation_participants
                    ≡ true)))
  unfolding send_message assert_participant
  send_message-writes user conversation_id dto id now s =
      let member = is_member conversation_id user.id in
      let ps = s.community.conversation_participants in
      let message = new_message conversation_id user.id dto.body id now in
      let update =
        prisma.update (is_conversation conversation_id) (touch now) s.community.conversations in
      let added = prisma.create_lem message s.community.messages in
      elim (Option-cases (prisma.find_first member ps)) [
        | inl outside ↦ rw outside (refl, inl refl)
        | inr (p, inside) ↦ elim (Option-cases update) [
          | inl gone ↦ rw (inside, gone) (refl, inr (added, found_any prisma member ps p inside))
          | inr (t, kept) ↦
              rw (inside, kept) (refl, inr (added, found_any prisma member ps p inside))
        ]
      ]

  send_message-AreSpoken :
      (user : AuthenticatedUser) (conversation_id : ℕ) (dto : SendMessageDto) (id now : ℕ) (s : Db)
      → AreSpoken s
      → AreSpoken (send_message prisma user conversation_id dto id now s).1
  send_message-AreSpoken user conversation_id dto id now s h =
      let (members, messages) = send_message-writes user conversation_id dto id now s in
      elim messages [
        | inl same ↦ rw (members, same) h
        | inr (added, inside) ↦ rw (members, added) (inside, h)
      ]

  -- From a database where every message is from a participant of its conversation, every sequence of
  -- requests to the conversations, the refused ones included, leads to one where this holds.
  pub Talk-AreSpoken : {s t : Db} → Talk prisma s t → AreSpoken s → AreSpoken t
  Talk-AreSpoken start h = h
  Talk-AreSpoken (created {t} user dto id message_id now path) h =
      create-AreSpoken user dto id message_id now t (Talk-AreSpoken path h)
  Talk-AreSpoken (read {t} user id query now path) h =
      list_messages-AreSpoken user id query now t (Talk-AreSpoken path h)
  Talk-AreSpoken (sent {t} user conversation_id dto id now path) h =
      send_message-AreSpoken user conversation_id dto id now t (Talk-AreSpoken path h)
