-- ===== src/Common/StateMachine.antt =====
-- src/common/utils/state-machine.ts
use idea_project.Base.{Bool, false, not, Option, none, some, List, Compares, includes}
use idea_project.Common.Errors.{Error}
use idea_project.Common.Monad.{Action, raise_if}

pub record StateMachine (State : Type 0) : Type 0 where
  -- `Record<TState, TState[]>`, with `none` where the table has no such key.
  pub transitions : State → Option (List State)

module _ {State : Type 0} ⦃e : Compares State⦄ where
  -- `this.transitions[from]?.includes(to) ?? false`
  abbrev includes_in : Option (List State) → State → Bool
  includes_in none to = false
  includes_in (some targets) to = includes targets to

  unfoldable pub can_transition : StateMachine State → State → State → Bool
  can_transition m from to = includes_in (m.transitions from) to

  unfoldable pub assert_transition : StateMachine State → State → State → Action (Unit {0})
  unfolding can_transition
  assert_transition m from to = raise_if (not (can_transition m from to)) Error.failure
