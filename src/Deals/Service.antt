-- ===== src/Deals/Service.antt =====
-- src/deals/deals.service.ts: the transition table and the methods. The readings (`listForUser`,
-- `getOne`, `listTasks`) give the rows without what is joined to them and without their order.
use Prim.Native.String.{◌++◌}
use idea_project.Base.{
  ℕ, Bool, not, ◌&&◌, Option, none, some, List, [], ◌∷◌, String, ◌==◌, nat_eq, includes, any,
  if◌then◌else◌,
}
use idea_project.Schema.{
  Db, Deal, DealStatus, deal_status_eq, DealParticipant, DealParticipantRole,
  deal_participant_role_eq, DealTask, DealTaskStatus, deal_task_status_eq, Metadata,
  NotificationType, UserRole, user_role_eq, key, deal_status, role,
}
use idea_project.Common.{
  Action, ok, err, Error, AuthenticatedUser, ErrorCode, not_found_exception, forbidden_exception,
  conflict_exception, ◌>>=◌, ◌>>◌, pure, gets, raise_if, modify, or_raise,
}
use idea_project.Common.Prisma.{Prisma}
use idea_project.Common.Notify.{notify_all}
use idea_project.Common.StateMachine.{StateMachine, can_transition}

abbrev pub deal_transitions : DealStatus → List DealStatus
deal_transitions DealStatus.initiated = DealStatus.nda ∷ DealStatus.cancelled ∷ []
deal_transitions DealStatus.nda =
    DealStatus.due_diligence ∷ DealStatus.cancelled ∷ DealStatus.disputed ∷ []
deal_transitions DealStatus.due_diligence =
    DealStatus.agreement ∷ DealStatus.cancelled ∷ DealStatus.disputed ∷ []
deal_transitions DealStatus.agreement =
    DealStatus.transaction ∷ DealStatus.cancelled ∷ DealStatus.disputed ∷ []
deal_transitions DealStatus.transaction =
    DealStatus.transfer ∷ DealStatus.cancelled ∷ DealStatus.disputed ∷ []
deal_transitions DealStatus.transfer = DealStatus.completed ∷ DealStatus.disputed ∷ []
deal_transitions DealStatus.completed = []
deal_transitions DealStatus.cancelled = []
deal_transitions DealStatus.disputed =
    DealStatus.nda ∷ DealStatus.due_diligence ∷ DealStatus.agreement ∷ DealStatus.transaction
    ∷ DealStatus.transfer ∷ DealStatus.cancelled ∷ []

-- The name of a status, for the title of a notification.
unfoldable pub status_name : DealStatus → String
status_name DealStatus.initiated = "INITIATED"
status_name DealStatus.nda = "NDA"
status_name DealStatus.due_diligence = "DUE_DILIGENCE"
status_name DealStatus.agreement = "AGREEMENT"
status_name DealStatus.transaction = "TRANSACTION"
status_name DealStatus.transfer = "TRANSFER"
status_name DealStatus.completed = "COMPLETED"
status_name DealStatus.cancelled = "CANCELLED"
status_name DealStatus.disputed = "DISPUTED"

abbrev pub deal_state_machine : StateMachine DealStatus
deal_state_machine = record { transitions = λ s. some (deal_transitions s) }

abbrev pub manage_roles : List DealParticipantRole
manage_roles =
    DealParticipantRole.buyer ∷ DealParticipantRole.seller ∷ DealParticipantRole.admin ∷ []

-- src/deals/dto/create-task.dto.ts
pub record CreateTaskDto : Type 0 where
  pub title : String
  pub description : Option String
  pub owner_id : Option ℕ
  pub due_at : Option ℕ

-- `{ dealId_userId: { dealId, userId } }`
abbrev pub is_participant : ℕ → ℕ → DealParticipant → Bool
is_participant deal_id user_id p = p.deal_id == deal_id && p.user_id == user_id

abbrev pub is_deal : ℕ → Deal → Bool
is_deal id d = d.id == id

abbrev pub set_deal_status : DealStatus → Deal → Deal
set_deal_status status d = record d { status = status }

abbrev is_task : ℕ → DealTask → Bool
is_task id t = t.id == id

abbrev set_task_status : DealTaskStatus → DealTask → DealTask
set_task_status status t = record t { status = status }

-- `MANAGE_ROLES.includes(participant.role) || user.role === ADMIN`
abbrev pub may_manage : AuthenticatedUser → DealParticipant → Bool
may_manage user p = not (not (includes manage_roles p.role) && not (user.role == UserRole.admin))

module _ (prisma : Prisma) where
  abbrev participant_error : Option Deal → Error
  participant_error none = not_found_exception ErrorCode.deal_not_found
  participant_error (some d) = forbidden_exception ErrorCode.deal_access_denied

  unfoldable pub assert_participant : ℕ → ℕ → Action DealParticipant
  assert_participant user_id deal_id s =
      or_raise (prisma.find_first (is_participant deal_id user_id) s.participants)
        (participant_error (prisma.find_first (is_deal deal_id) s.deals)) s

  unfoldable pub add_timeline_event : ℕ → String → Option ℕ → Metadata → Db → Db
  add_timeline_event deal_id type actor_id metadata s = record s {
    timeline =
        prisma.create
          (record { deal_id = deal_id; type = type; actor_id = actor_id; metadata = metadata })
          s.timeline;
  }

  abbrev save_deals : Option (List Deal) → Action (Unit {0})
  save_deals none s = (err Error.record_not_found, s)
  save_deals (some t) s = (ok tt, record s { deals = t })

  abbrev save_tasks : Option (List DealTask) → Action (Unit {0})
  save_tasks none s = (err Error.record_not_found, s)
  save_tasks (some t) s = (ok tt, record s { tasks = t })

  unfoldable pub update_status : AuthenticatedUser → ℕ → DealStatus → Action Deal
  unfolding add_timeline_event
  update_status user deal_id status = do
    participant ← assert_participant user.id deal_id
    raise_if (not (may_manage user participant)) (forbidden_exception ErrorCode.deal_access_denied)
    found ← gets λ s. prisma.find_first (is_deal deal_id) s.deals
    deal ← or_raise found Error.record_not_found
    raise_if (not (can_transition deal_state_machine deal.status status))
        (conflict_exception ErrorCode.deal_invalid_state_transition)
    λ s. save_deals (prisma.update (is_deal deal_id) (set_deal_status status) s.deals) s
    modify (
        add_timeline_event deal_id "DEAL_STATUS_CHANGED" (some user.id)
          (("from", deal_status deal.status) ∷ ("to", deal_status status) ∷ []))
    others ← gets λ s.
        prisma.find_many (λ p. p.deal_id == deal_id && not (p.user_id == user.id)) s.participants
    modify (
        notify_all prisma others λ p. record {
          user_id = p.user_id;
          type = NotificationType.deal_update;
          title = "Deal status changed to " ++ status_name status;
          body = none;
          metadata = ("dealId", key deal_id) ∷ [];
        })
    pure (set_deal_status status deal)

  unfoldable pub add_participant :
      AuthenticatedUser → ℕ → ℕ → DealParticipantRole → Action (Unit {0})
  unfolding add_timeline_event
  add_participant user deal_id user_id r = do
    participant ← assert_participant user.id deal_id
    raise_if (not (may_manage user participant)) (forbidden_exception ErrorCode.deal_access_denied)
    modify λ s. record s {
      participants =
          prisma.upsert (is_participant deal_id user_id)
            (record { deal_id = deal_id; user_id = user_id; role = r }) (λ p. record p { role = r })
            s.participants;
    }
    modify (
        add_timeline_event deal_id "PARTICIPANT_ADDED" (some user.id)
          (("userId", key user_id) ∷ ("role", role r) ∷ []))

  unfoldable pub create_task : AuthenticatedUser → ℕ → CreateTaskDto → ℕ → Action (Unit {0})
  unfolding add_timeline_event
  create_task user deal_id dto task_id = do
    assert_participant user.id deal_id
    modify λ s. record s {
      tasks =
          prisma.create
            (record {
              id = task_id;
              deal_id = deal_id;
              title = dto.title;
              description = dto.description;
              owner_id = dto.owner_id;
              due_at = dto.due_at;
              status = DealTaskStatus.todo;
            })
            s.tasks;
    }
    modify (add_timeline_event deal_id "TASK_CREATED" (some user.id) (("taskId", key task_id) ∷ []))

  unfoldable pub update_task_status : AuthenticatedUser → ℕ → ℕ → DealTaskStatus → Action (Unit {0})
  unfolding add_timeline_event
  update_task_status user deal_id task_id status = do
    assert_participant user.id deal_id
    found ← gets λ s. prisma.find_first (λ t. t.id == task_id && t.deal_id == deal_id) s.tasks
    or_raise found (not_found_exception ErrorCode.not_found_error)
    λ s. save_tasks (prisma.update (is_task task_id) (set_task_status status) s.tasks) s
    modify λ s.
        if status == DealTaskStatus.completed
        then add_timeline_event deal_id "TASK_COMPLETED" (some user.id)
            (("taskId", key task_id) ∷ []) s
        else s

  unfoldable pub list_for_user : AuthenticatedUser → Action (List Deal)
  list_for_user user =
      gets λ s. prisma.find_many (λ d. any (is_participant d.id user.id) s.participants) s.deals

  unfoldable pub get_one : AuthenticatedUser → ℕ → Action (Option Deal)
  get_one user deal_id = do
    assert_participant user.id deal_id
    gets λ s. prisma.find_first (is_deal deal_id) s.deals

  unfoldable pub list_tasks : AuthenticatedUser → ℕ → Action (List DealTask)
  list_tasks user deal_id = do
    assert_participant user.id deal_id
    gets λ s. prisma.find_many (λ t. t.deal_id == deal_id) s.tasks
