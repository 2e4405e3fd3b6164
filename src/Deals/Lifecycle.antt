-- ===== src/Deals/Lifecycle.antt =====
-- The life of a deal: `DealsService.updateStatus` against the transition table.
use idea_project.Base.{
  ℕ, ◌≡◌, true, nat_eq, some, [], ◌∷◌, arith, includes, update_where, Option-cases, inl, inr,
  Bool-cases,
}
use idea_project.Base.Updates.{any-of_Elem}
use idea_project.Schema.{Db, Deal, DealStatus, deal_status_eq, DealParticipant}
use idea_project.Common.{AuthenticatedUser, ok, err, conflict_exception, ErrorCode}
use idea_project.Common.Prisma.{Prisma}
use idea_project.Common.StateMachine.{can_transition}
use idea_project.Deals.Service.{
  update_status, assert_participant, set_deal_status, is_deal, is_participant, may_manage,
  deal_transitions,
}

module _ (prisma : Prisma) where
  managed_update :
      (user : AuthenticatedUser) (deal_id : ℕ) (status : DealStatus) (p : DealParticipant)
      (old : Deal) (s : Db)
      → prisma.find_first (is_participant deal_id user.id) s.participants ≡ some p
      → prisma.find_first (is_deal deal_id) s.deals ≡ some old
      → may_manage user p ≡ true
      → includes (deal_transitions old.status) status ≡ true
      → ((update_status prisma user deal_id status s).0 ≡ ok (set_deal_status status old))
        × ((update_status prisma user deal_id status s).1.deals
            ≡ update_where (is_deal deal_id) (set_deal_status status) s.deals)
  unfolding update_status assert_participant can_transition
  managed_update user deal_id status p old s found stored manages legal =
      let there = prisma.find_first-some (is_deal deal_id) s.deals old stored in
      let in_table = any-of_Elem (is_deal deal_id) old s.deals there.1 there.0 in
      let change = prisma.update_lem (is_deal deal_id) (set_deal_status status) s.deals in
      (ground (arith, in_table, change), ground (arith, in_table, change))

  -- A change of status that succeeds was asked by a participant who may manage the deal, follows
  -- the transition table from the status that the deal had, and answers and stores the new status;
  -- every other deal stays as it was.
  pub update_status-legal :
      (user : AuthenticatedUser) (deal_id : ℕ) (status : DealStatus) (s : Db) {d : Deal} {s' : Db}
      → update_status prisma user deal_id status s ≡ (ok d, s')
      → (p : DealParticipant) × (old : Deal) × (prisma.find_first
            (is_participant deal_id user.id)
            s.participants
          ≡ some p)
        × (may_manage user p ≡ true)
        × (prisma.find_first (is_deal deal_id) s.deals ≡ some old)
        × (includes (deal_transitions old.status) status ≡ true)
        × (d ≡ set_deal_status status old)
        × (s'.deals ≡ update_where (is_deal deal_id) (set_deal_status status) s.deals)
  unfolding update_status assert_participant can_transition
  update_status-legal user deal_id status s e =
      elim (Option-cases (prisma.find_first (is_participant deal_id user.id) s.participants)) [
        | inl none_found ↦ ground arith
        | inr (p, found) ↦ elim (Option-cases (prisma.find_first (is_deal deal_id) s.deals)) [
          | inl none_stored ↦ ground arith
          | inr (old, stored) ↦ elim (Bool-cases (may_manage user p)) [
            | inr refused ↦ ground arith
            | inl manages ↦ elim (Bool-cases (includes (deal_transitions old.status) status)) [
              | inr illegal ↦ ground arith
              | inl legal ↦
                  let run = managed_update user deal_id status p old s found stored manages legal in
                  (p, old, found, manages, stored, legal, ground (arith, run), ground (arith, run))
            ]
          ]
        ]
      ]

  -- A deal that is COMPLETED or CANCELLED never changes again: whatever status a manager asks for,
  -- the answer is DEAL_INVALID_STATE_TRANSITION and nothing changes.
  pub update_status-terminal :
      (user : AuthenticatedUser) (deal_id : ℕ) (status : DealStatus) (p : DealParticipant)
      (old : Deal) (s : Db)
      → prisma.find_first (is_participant deal_id user.id) s.participants ≡ some p
      → may_manage user p ≡ true
      → prisma.find_first (is_deal deal_id) s.deals ≡ some old
      → includes (DealStatus.completed ∷ DealStatus.cancelled ∷ []) old.status ≡ true
      → update_status prisma user deal_id status s
        ≡ (err (conflict_exception ErrorCode.deal_invalid_state_transition), s)
  unfolding update_status assert_participant can_transition
  update_status-terminal user deal_id status p old s found manages stored terminal = ground arith
