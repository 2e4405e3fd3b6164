-- ===== src/Conversations/Service.antt =====
-- src/conversations/conversations.service.ts. The users, profiles and attachments that are joined are
-- left out.
use idea_project.Base.{
  ℕ, Bool, not, ◌&&◌, Option, none, some, List, [], ◌∷◌, String, ◌==◌, nat_eq, is_some, leb, any,
  filter,
}
use idea_project.Schema.{Db, Conversation, ConversationParticipant, Message, NotificationType, key}
use idea_project.Common.{
  Action, ok, err, Error, AuthenticatedUser, ErrorCode, not_found_exception, forbidden_exception,
  ◌>>=◌, ◌>>◌, pure, gets, or_raise, modify,
}
use idea_project.Common.Prisma.{Prisma}
use idea_project.Common.Notify.{notify_all}
use idea_project.Common.Pages.{CursorPaginationQuery, PaginatedResult, list_page}

-- src/conversations/dto
pub record CreateConversationDto : Type 0 where
  pub participant_ids : List ℕ
  pub business_id : Option ℕ
  pub initial_message : String

pub record SendMessageDto : Type 0 where
  pub body : String

-- `Array.from(new Set(ids))`: each value where it stands first.
unfoldable pub unique : List ℕ → List ℕ
unique [] = []
unique (x ∷ xs) = x ∷ filter (λ y. not (y == x)) (unique xs)

-- `{ conversationId_userId: { conversationId, userId } }`
abbrev pub is_member : ℕ → ℕ → ConversationParticipant → Bool
is_member conversation_id user_id p = p.conversation_id == conversation_id && p.user_id == user_id

abbrev pub is_conversation : ℕ → Conversation → Bool
is_conversation id c = c.id == id

-- `{ conversationId, deletedAt: null }`
abbrev pub is_message_of : ℕ → Message → Bool
is_message_of conversation_id m = m.conversation_id == conversation_id && not (is_some m.deleted_at)

abbrev pub new_member : ℕ → ℕ → ConversationParticipant
new_member conversation_id user_id = record {
  conversation_id = conversation_id;
  user_id = user_id;
  last_read_at = none;
}

abbrev pub new_message : ℕ → ℕ → String → ℕ → ℕ → Message
new_message conversation_id user_id body id now = record {
  id = id;
  conversation_id = conversation_id;
  sender_id = user_id;
  body = body;
  created_at = now;
  deleted_at = none;
}

abbrev pub is_newer : Message → Message → Bool
is_newer a b = leb b.created_at a.created_at

abbrev pub read_at : ℕ → ConversationParticipant → ConversationParticipant
read_at now p = record p { last_read_at = some now }

abbrev pub touch : ℕ → Conversation → Conversation
touch now c = record c { updated_at = now }

-- The rows of a nested `create`, one after another.
unfoldable pub add_members :
    ℕ → List ℕ → List ConversationParticipant → List ConversationParticipant
add_members id [] t = t
add_members id (u ∷ us) t = add_members id us (new_member id u ∷ t)

module _ (prisma : Prisma) where
  unfoldable pub create :
      AuthenticatedUser → CreateConversationDto → ℕ → ℕ → ℕ → Action Conversation
  create user dto id message_id now = do
    let participant_ids : List ℕ = unique (user.id ∷ dto.participant_ids)
    let conversation : Conversation = record {
      id = id;
      business_id = dto.business_id;
      updated_at = now;
    }
    modify λ s. record s {
      community = record s.community {
        conversations = prisma.create conversation s.community.conversations;
        conversation_participants =
            add_members id participant_ids s.community.conversation_participants;
        messages =
            prisma.create (new_message id user.id dto.initial_message message_id now)
              s.community.messages;
      };
    }
    modify (
        notify_all prisma (filter (λ u. not (u == user.id)) participant_ids) λ u. record {
          user_id = u;
          type = NotificationType.new_message;
          title = "New conversation started";
          body = none;
          metadata = ("conversationId", key id) ∷ [];
        })
    pure conversation

  -- The order of the answer is left out.
  unfoldable pub list_for_user : AuthenticatedUser → Action (List Conversation)
  list_for_user user = gets λ s.
      prisma.find_many (λ c. any (is_member c.id user.id) s.community.conversation_participants)
        s.community.conversations

  abbrev missing : Option Conversation → Error
  missing none = not_found_exception ErrorCode.conversation_not_found
  missing (some c) = forbidden_exception ErrorCode.conversation_access_denied

  unfoldable pub assert_participant : ℕ → ℕ → Action ConversationParticipant
  assert_participant user_id conversation_id s =
      or_raise
        (prisma.find_first (is_member conversation_id user_id)
          s.community.conversation_participants)
        (missing (prisma.find_first (is_conversation conversation_id) s.community.conversations)) s

  abbrev pub page_of_messages : ℕ → CursorPaginationQuery → Db → Option (PaginatedResult Message)
  page_of_messages conversation_id query s =
      list_page prisma (λ m. m.id) 30 query
        (prisma.order_by is_newer
          (prisma.find_many (is_message_of conversation_id) s.community.messages))

  unfoldable pub list_messages :
      AuthenticatedUser → ℕ → CursorPaginationQuery → ℕ → Action (PaginatedResult Message)
  list_messages user conversation_id query now = do
    assert_participant user.id conversation_id
    page ← gets (page_of_messages conversation_id query)
    modify λ s. record s {
      community = record s.community {
        conversation_participants =
            (prisma.update_many (is_member conversation_id user.id) (read_at now)
              s.community.conversation_participants).0;
      };
    }
    or_raise page Error.failure

  abbrev save_conversations : Option (List Conversation) → Action (Unit {0})
  save_conversations none s = (err Error.record_not_found, s)
  save_conversations (some t) s =
      (ok tt, record s { community = record s.community { conversations = t } })

  unfoldable pub send_message : AuthenticatedUser → ℕ → SendMessageDto → ℕ → ℕ → Action Message
  send_message user conversation_id dto id now = do
    assert_participant user.id conversation_id
    let message : Message = new_message conversation_id user.id dto.body id now
    modify λ s. record s {
      community = record s.community { messages = prisma.create message s.community.messages };
    }
    λ s.
        save_conversations
          (prisma.update (is_conversation conversation_id) (touch now) s.community.conversations) s
    others ← gets λ s.
        prisma.find_many (λ p. p.conversation_id == conversation_id && not (p.user_id == user.id))
          s.community.conversation_participants
    modify (
        notify_all prisma others λ p. record {
          user_id = p.user_id;
          type = NotificationType.new_message;
          title = "New message";
          body = none;
          metadata = ("conversationId", key conversation_id) ∷ ("messageId", key id) ∷ [];
        })
    pure message
