-- ===== src/Conversations/Members.antt =====
-- Who takes part in a conversation (src/conversations/conversations.service.ts).
use idea_project.Base.{
  ℕ, ◌+◌, ◌≡◌, refl, false, not, List, [], ◌∷◌, ◌==◌, nat_eq, any, count, filter, includes, arith,
  if◌then◌else◌, Bool-cases, inl, inr,
}
use idea_project.Schema.{Db, ConversationParticipant}
use idea_project.Common.{
  AuthenticatedUser, err, ErrorCode, not_found_exception, forbidden_exception,
}
use idea_project.Common.Prisma.{Prisma}
use idea_project.Common.Prisma.Search.{find_first-missing, find_first-present}
use idea_project.Conversations.Service.{
  CreateConversationDto, SendMessageDto, create, unique, add_members, new_member, is_member,
  assert_participant, send_message, is_conversation,
}

count-filter_other :
    (u x : ℕ) (xs : List ℕ)
    → count (λ v. v == u) (filter (λ y. not (y == x)) xs)
      ≡ (if x == u then 0 else count (λ v. v == u) xs)
count-filter_other u x [] = ground arith
count-filter_other u x (y ∷ xs) = ground (arith, count-filter_other u x xs)

count-unique :
    (u : ℕ) (xs : List ℕ) → count (λ v. v == u) (unique xs) ≡ (if includes xs u then 1 else 0)
unfolding unique
count-unique u [] = refl
count-unique u (x ∷ xs) = ground (arith, count-filter_other u x (unique xs), count-unique u xs)

count-add_members :
    (id u : ℕ) (us : List ℕ) (t : List ConversationParticipant)
    → count (is_member id u) (add_members id us t)
      ≡ count (λ v. v == u) us + count (is_member id u) t
unfolding add_members
count-add_members id u [] t = omega arith
count-add_members id u (v ∷ us) t = ground (arith, count-add_members id u us (new_member id v ∷ t))

no_member :
    (id u : ℕ) (t : List ConversationParticipant)
    → any (λ p. p.conversation_id == id) t ≡ false
    → count (is_member id u) t ≡ 0
no_member id u [] h = refl
no_member id u (p ∷ t) h = ground (arith, no_member id u t)

module _ (prisma : Prisma) where
  -- A new conversation, under an identifier that no participant has, has as participants its creator
  -- and the users who were named, each of them once, and no one else.
  pub create-members :
      (user : AuthenticatedUser) (dto : CreateConversationDto) (id message_id now u : ℕ) (s : Db)
      → any (λ p. p.conversation_id == id) s.community.conversation_participants ≡ false
      → count
          (is_member id u)
          (create prisma user dto id message_id now s).1.community.conversation_participants
        ≡ (if includes (user.id ∷ dto.participant_ids) u then 1 else 0)
  unfolding create
  create-members user dto id message_id now u s fresh = ground (
    arith,
    count-add_members id u (unique (user.id ∷ dto.participant_ids))
        s.community.conversation_participants,
    count-unique u (user.id ∷ dto.participant_ids),
    no_member id u s.community.conversation_participants fresh,
  )

  -- Only a participant writes: a message of anyone else is refused, with CONVERSATION_NOT_FOUND when
  -- there is no such conversation and with CONVERSATION_ACCESS_DENIED when there is, and nothing
  -- changes.
  pub send_message-outsider :
      (user : AuthenticatedUser) (conversation_id : ℕ) (dto : SendMessageDto) (id now : ℕ) (s : Db)
      → any (is_member conversation_id user.id) s.community.conversation_participants ≡ false
      → send_message prisma user conversation_id dto id now s ≡ (
          if any (is_conversation conversation_id) s.community.conversations
          then (err (forbidden_exception ErrorCode.conversation_access_denied), s)
          else (err (not_found_exception ErrorCode.conversation_not_found), s))
  unfolding send_message assert_participant
  send_message-outsider user conversation_id dto id now s out =
      let cs = s.community.conversations in
      let here = is_conversation conversation_id in
      let missing =
        find_first-missing prisma (is_member conversation_id user.id)
          s.community.conversation_participants out in
      elim (Bool-cases (any here cs)) [
        | inl there ↦
            let (c, found, hit) = find_first-present prisma here cs there in
            rw (missing, found, there) refl
        | inr lost ↦ rw (missing, find_first-missing prisma here cs lost, lost) refl
      ]
