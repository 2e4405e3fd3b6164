-- ===== src/Conversations/Tests.antt =====
-- The theorems on conversations at one conversation of a buyer with the seller.
use idea_project.Base.{
  ℕ, ◌≡◌, refl, any, count, includes, true, false, not, some, none, ◌∷◌, [], if◌then◌else◌, nat_eq,
}
use idea_project.Schema.{Db, Message}
use idea_project.Common.{ok}
use idea_project.Common.Prisma.{list_prisma, insert, insertion_sort}
use idea_project.Common.Pages.{CursorPaginationQuery, PaginatedResult, list_page, build_cursor_page}
use idea_project.Conversations.Service.{
  create, list_messages, assert_participant, is_member, is_message_of, CreateConversationDto,
  SendMessageDto, send_message,
}
use idea_project.Conversations.Senders.{AreSpoken, Talk-AreSpoken, start, sent, read, created}
use idea_project.Conversations.Members.{create-members}
use idea_project.Conversations.Reading.{list_messages-own}
use idea_project.Samples.{buyer, chat, greeting}

abbrev invitation : CreateConversationDto
invitation = record {
  participant_ids = 1 ∷ 2 ∷ 1 ∷ [];
  business_id = some 10;
  initial_message = "Hello";
}

create-members_example :
    count
      (is_member 132 1)
      (create list_prisma buyer invitation 132 133 5 chat).1.community.conversation_participants
    ≡ (if includes {A = ℕ} (2 ∷ 1 ∷ 2 ∷ 1 ∷ []) 1 then 1 else 0)
create-members_example = create-members list_prisma buyer invitation 132 133 5 1 chat refl

abbrev first_page : CursorPaginationQuery
first_page = record { cursor = none; limit = none }

abbrev greetings : PaginatedResult Message
greetings = record { data_rows = greeting ∷ []; next_cursor = none; has_more = false }

abbrev chat_read : Db
chat_read = (list_messages list_prisma buyer 131 first_page 6 chat).1

reads : list_messages list_prisma buyer 131 first_page 6 chat ≡ (ok greetings, chat_read)
unfolding list_messages assert_participant list_page build_cursor_page insertion_sort insert
reads = refl

list_messages-own_example :
    (any (is_member 131 2) chat.community.conversation_participants ≡ true)
    × (any (λ m. not (is_message_of 131 m)) (greeting ∷ []) ≡ false)
list_messages-own_example = list_messages-own list_prisma buyer 131 first_page 6 chat reads

abbrev answer : SendMessageDto
answer = record { body = "Is it still for sale?" }

chat-AreSpoken : AreSpoken chat
chat-AreSpoken = (refl, tt)

Talk-AreSpoken_example :
    AreSpoken
      (send_message list_prisma buyer 131 answer 134 7
        (list_messages list_prisma buyer 131 first_page 6
          (create list_prisma buyer invitation 132 133 5 chat).1).1).1
Talk-AreSpoken_example =
    Talk-AreSpoken list_prisma
      (sent buyer 131 answer 134 7
        (read buyer 131 first_page 6 (created buyer invitation 132 133 5 start)))
      chat-AreSpoken
