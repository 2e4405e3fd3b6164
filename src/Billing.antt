-- ===== src/Billing.antt =====
-- src/billing/billing.service.ts
use idea_project.Base.{
  ℕ, ◌+◌, ◌*◌, Bool, ◌&&◌, Option, none, some, List, [], ◌∷◌, ◌==◌, nat_eq, includes, leb,
}
use idea_project.Schema.{
  Plan, PlanCode, plan_code_eq, Subscription, SubscriptionStatus, subscription_status_eq,
}
use idea_project.Common.{
  Action, ErrorCode, not_found_exception, ◌>>=◌, ◌>>◌, pure, gets, or_raise, modify, keep,
}
use idea_project.Common.Prisma.{Prisma}

abbrev pub is_active_plan : Plan → Bool
is_active_plan p = p.active

abbrev pub is_plan : PlanCode → Plan → Bool
is_plan code p = p.code == code

-- `{ userId, status: { in: ['ACTIVE', 'TRIALING', 'PAST_DUE'] } }`
abbrev pub is_current : ℕ → Subscription → Bool
is_current user_id x =
    x.user_id == user_id
    && includes
        (SubscriptionStatus.active ∷ SubscriptionStatus.trialing ∷ SubscriptionStatus.past_due ∷ [])
        x.status

abbrev is_later : Subscription → Subscription → Bool
is_later a b = leb b.created_at a.created_at

abbrev first_of : {A : Type 0} → List A → Option A
first_of [] = none
first_of (a ∷ rest) = some a

-- 30 days in milliseconds.
abbrev pub period_ms : ℕ
period_ms = 30 * 24 * 60 * 60 * 1000

abbrev pub new_subscription : ℕ → Plan → ℕ → ℕ → Subscription
new_subscription user_id plan id now = record {
  id = id;
  user_id = user_id;
  plan_id = plan.id;
  status = SubscriptionStatus.active;
  current_period_end = some (now + period_ms);
  created_at = now;
}

module _ (prisma : Prisma) where
  unfoldable pub list_plans : Action (List Plan)
  list_plans = gets λ s. prisma.find_many is_active_plan s.billing.plans

  -- The plan that is joined is left out.
  unfoldable pub get_own_subscription : ℕ → Action (Option Subscription)
  get_own_subscription user_id = gets λ s.
      first_of
        (prisma.order_by is_later (prisma.find_many (is_current user_id) s.billing.subscriptions))

  unfoldable pub subscribe : ℕ → PlanCode → ℕ → ℕ → Action Subscription
  subscribe user_id plan_code id now = do
    found ← gets λ s. prisma.find_first (is_plan plan_code) s.billing.plans
    plan ← or_raise (keep is_active_plan found) (not_found_exception ErrorCode.not_found_error)
    modify λ s. record s {
      billing = record s.billing {
        subscriptions =
            prisma.create (new_subscription user_id plan id now) s.billing.subscriptions;
      };
    }
    pure (new_subscription user_id plan id now)
