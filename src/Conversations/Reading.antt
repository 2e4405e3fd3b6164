-- ===== src/Conversations/Reading.antt =====
-- What a participant reads of a conversation (src/conversations/conversations.service.ts).
use idea_project.Base.{
  ℕ, ◌≡◌, true, false, not, any, arith, Option-cases, Bool-cases, inl, inr, some,
}
use idea_project.Schema.{Db, Message}
use idea_project.Common.{AuthenticatedUser, ok}
use idea_project.Common.Prisma.{Prisma}
use idea_project.Common.Prisma.Search.{find_first-missing, find_first-present}
use idea_project.Common.Pages.{CursorPaginationQuery, PaginatedResult}
use idea_project.Common.Pages.Rows.{none_page, none_order_by, none_filter}
use idea_project.Conversations.Service.{
  list_messages, page_of_messages, is_message_of, is_member, assert_participant, is_newer,
}

module _ (prisma : Prisma) where
  own_messages :
      (conversation_id : ℕ) (query : CursorPaginationQuery) (s : Db)
      (page : PaginatedResult Message)
      → page_of_messages prisma conversation_id query s ≡ some page
      → any (λ m. not (is_message_of conversation_id m)) page.data_rows ≡ false
  own_messages conversation_id query s page e =
      let mine = is_message_of conversation_id in
      let rows = prisma.find_many mine s.community.messages in
      none_page (λ m. not (mine m)) prisma (λ m. m.id) 30 query (prisma.order_by is_newer rows) page
        (none_order_by (λ m. not (mine m)) prisma is_newer rows
          (rw (prisma.find_many_lem mine s.community.messages)
            (none_filter mine s.community.messages)))
        e

  -- Who reads a page of messages takes part in the conversation, and every message of the page belongs
  -- to that conversation and was not deleted.
  pub list_messages-own :
      (user : AuthenticatedUser) (conversation_id : ℕ) (query : CursorPaginationQuery) (now : ℕ)
      (s : Db) {page : PaginatedResult Message} {s' : Db}
      → list_messages prisma user conversation_id query now s ≡ (ok page, s')
      → (any (is_member conversation_id user.id) s.community.conversation_participants ≡ true)
        × (any (λ m. not (is_message_of conversation_id m)) page.data_rows ≡ false)
  unfolding list_messages assert_participant
  list_messages-own user conversation_id query now s e =
      let member = is_member conversation_id user.id in
      let ps = s.community.conversation_participants in
      elim (Bool-cases (any member ps)) [
        | inl inside ↦ elim (Option-cases (page_of_messages prisma conversation_id query s)) [
          | inl missing ↦ absurd (ground (arith, find_first-present prisma member ps inside))
          | inr (found, made) ↦ ground (
            arith,
            find_first-present prisma member ps inside,
            own_messages conversation_id query s found made,
          )
        ]
        | inr outside ↦ absurd (ground (arith, find_first-missing prisma member ps outside))
      ]
