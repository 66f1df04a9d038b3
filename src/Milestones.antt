-- ===== src/Milestones.antt =====
-- app/milestones/service.py and app/milestones/policies.py: the steps that a contract's parties take.
pub mod Steps
pub mod Lifecycle
pub mod Moved
use freelancing_platform.Prelude.{
  Bool, true, false, not, Option, none, some, [], ◌∷◌, ◌++◌, ◌||◌, ◌==◌, find?, if◌then◌else◌,
}
use freelancing_platform.Prelude.Int.{ℤ, ◌==ℤ◌}
use freelancing_platform.Database.Rows.Texts.{Uuid}
use freelancing_platform.Database.Rows.Ledger.{LedgerAccount}
use freelancing_platform.Database.Rows.Contract.{
  Contract, MilestoneStatus, funded, in_progress, submitted, changes_requested, approved,
  same_status, Milestone,
}
use freelancing_platform.Database.Rows.Event.{audit_milestone_step}
use freelancing_platform.Database.Environment.{
  Environment, api, forbidden, invalid_transition, escrow_not_fully_funded,
}
use freelancing_platform.Database.Session.{Action, pure, raise, ◌>>=◌, ◌>>◌, raise_if, commit}
use freelancing_platform.Ledger.{account_balance_minor}
use freelancing_platform.Payments.Effects.{save_milestone, record_audit_event}
use freelancing_platform.Payments.Queries.{
  get_milestone, contract_of, require_active_contract, find_account, require_escrow,
}

pub data UserAction : Type 0 where
  start submit request_changes approve : UserAction

-- `USER_TRANSITIONS`: the statuses from which an action goes.
abbrev pub user_transitions : UserAction → MilestoneStatus → Bool
user_transitions start funded = true
user_transitions submit in_progress = true
user_transitions submit changes_requested = true
user_transitions request_changes submitted = true
user_transitions approve submitted = true
user_transitions _ _ = false

-- The `target` of each service function.
abbrev pub target : UserAction → MilestoneStatus
target start = in_progress
target submit = submitted
target request_changes = changes_requested
target approve = approved

-- `worker_action`: `can_work_on_milestone` decides, else `can_review_milestone`.
abbrev pub is_allowed : UserAction → Uuid → Contract → Bool
is_allowed start user c = user == c.freelancer_user_id
is_allowed submit user c = user == c.freelancer_user_id
is_allowed request_changes user c = user == c.employer_user_id
is_allowed approve user c = user == c.employer_user_id

unfoldable pub require_full_balance : Milestone → Option LedgerAccount → Action (Unit {0})
require_full_balance m none = raise (api escrow_not_fully_funded 409)
require_full_balance m (some account) = do
  balance ← account_balance_minor account
  raise_if (not (balance ==ℤ m.amount_minor)) (api escrow_not_fully_funded 409)

-- `require_milestone_fully_funded` of app/payments/service.py
unfoldable pub require_milestone_fully_funded : Milestone → Action (Unit {0})
require_milestone_fully_funded m = do
  escrow ← require_escrow m.id
  account ← find_account escrow.escrow_account_id
  require_full_balance m account

unfoldable pub funding_check : UserAction → Milestone → Action (Unit {0})
funding_check start m = require_milestone_fully_funded m
funding_check _ m = pure tt

-- The milestone once the action is taken.
abbrev pub moved_by : Uuid → UserAction → Milestone → Milestone
moved_by user action m = record m {
  status = target action;
  events =
      m.events
      ++ record { actor_user_id = some user; from_status = m.status; to_status = target action }
        ∷ [];
}

module _ (env : Environment) where
  unfoldable pub take_step : UserAction → Uuid → Milestone → Action Milestone
  take_step action user m = do
    raise_if (not (user_transitions action m.status)) (api invalid_transition 409)
    funding_check action m
    save_milestone (moved_by user action m)
    record_audit_event env (audit_milestone_step (target action)) m.id (some user) none none
    commit
    get_milestone m.id

  -- `_transition`
  unfoldable pub transition : UserAction → Uuid → Uuid → Action Milestone
  transition action user milestone_id = do
    m ← get_milestone milestone_id
    c ← contract_of m
    require_active_contract c
    raise_if (not (is_allowed action user c)) (api forbidden 403)
    if same_status m.status (target action) then get_milestone m.id else take_step action user m

  unfoldable pub start_milestone : Uuid → Uuid → Action Milestone
  start_milestone user milestone_id = transition start user milestone_id

  unfoldable pub submit_milestone : Uuid → Uuid → Action Milestone
  submit_milestone user milestone_id = transition submit user milestone_id

  unfoldable pub request_milestone_changes : Uuid → Uuid → Action Milestone
  request_milestone_changes user milestone_id = transition request_changes user milestone_id

  unfoldable pub approve_milestone : Uuid → Uuid → Action Milestone
  approve_milestone user milestone_id = transition approve user milestone_id

-- `get_milestone_for_user`, with `can_view_milestone`
unfoldable pub get_milestone_for_user : Uuid → Uuid → Action Milestone
get_milestone_for_user user milestone_id = do
  m ← get_milestone milestone_id
  c ← contract_of m
  raise_if (not (user == c.employer_user_id || user == c.freelancer_user_id)) (api forbidden 403)
  pure m
