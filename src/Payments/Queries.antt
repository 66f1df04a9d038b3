-- ===== src/Payments/Queries.antt =====
-- The selects and small helpers of app/payments/service.py, its policies
-- (app/payments/policies.py) and the provider registry (app/payments/providers/registry.py).
-- Row locks are not written out: one request runs between two waits at a time.
pub mod Found
use freelancing_platform.Prelude.{
  ℕ, Bool, not, Option, none, some, ◌||◌, ◌==◌, find?, if◌then◌else◌,
}
use freelancing_platform.Prelude.Int.{ℤ, pos, pos_part, ltb_ℤ}
use freelancing_platform.Database.Rows.Texts.{Text, Uuid}
use freelancing_platform.Database.Rows.Ledger.{LedgerAccount}
use freelancing_platform.Database.Rows.Contract.{
  Contract, ContractVersion, Commission, no_commission, not_an_object, bps_not_an_int, platform_bps,
  active, same_contract_status, Milestone,
}
use freelancing_platform.Database.Rows.Payment.{MilestoneEscrow, Body, financial_body}
use freelancing_platform.Database.Rows.Event.{AuditState, milestone_state}
use freelancing_platform.Database.Environment.{
  Environment, PaymentProvider, api, runtime_error, other_exception, milestone_not_found, forbidden,
  invalid_state, escrow_not_found, payment_runtime_disabled, unsupported_payment_provider,
}
use freelancing_platform.Database.Session.{
  Action, pure, raise, gets, require, ◌>>=◌, ◌>>◌, raise_if,
}
use freelancing_platform.Ledger.{account_balance_minor}

-- An answer of a service: the body and the HTTP status.
abbrev pub Answer : Type 0
Answer = Body × ℕ

-- `_milestone` and `_locked_milestone`
unfoldable pub get_milestone : Uuid → Action Milestone
get_milestone id = do
  found ← gets (λ db. find? (λ m. m.id == id) db.milestones)
  require found (api milestone_not_found 404)

-- `milestone.contract_version`: the foreign key makes sure that the row is there.
unfoldable pub version_of : Milestone → Action ContractVersion
version_of m = do
  found ← gets (λ db. find? (λ v. v.id == m.contract_version_id) db.contract_versions)
  require found other_exception

-- `_locked_contract`
unfoldable pub locked_contract : Uuid → Action Contract
locked_contract id = do
  found ← gets (λ db. find? (λ c. c.id == id) db.contracts)
  require found runtime_error

-- `milestone.contract_version.contract`
unfoldable pub contract_of : Milestone → Action Contract
contract_of m = do
  version ← version_of m
  found ← gets (λ db. find? (λ c. c.id == version.contract_id) db.contracts)
  require found other_exception

unfoldable pub require_active_contract : Contract → Action (Unit {0})
require_active_contract c =
    raise_if (not (same_contract_status c.status active)) (api invalid_state 409)

-- `can_fund_milestone` and `can_release_or_refund`
abbrev pub is_employer : Uuid → Contract → Bool
is_employer user c = user == c.employer_user_id

unfoldable pub require_employer : Uuid → Contract → Action (Unit {0})
require_employer user c = raise_if (not (is_employer user c)) (api forbidden 403)

unfoldable pub find_escrow : Uuid → Action (Option MilestoneEscrow)
find_escrow milestone = gets (λ db. find? (λ e. e.milestone_id == milestone) db.milestone_escrows)

-- `_require_escrow`
unfoldable pub require_escrow : Uuid → Action MilestoneEscrow
require_escrow milestone = do
  found ← find_escrow milestone
  require found (api escrow_not_found 409)

unfoldable pub find_account : Uuid → Action (Option LedgerAccount)
find_account id = gets (λ db. find? (λ a. a.id == id) db.ledger_accounts)

-- The account of an escrow; the code raises `RuntimeError` if the row is missing.
unfoldable pub escrow_account_of : MilestoneEscrow → Action LedgerAccount
escrow_account_of e = do found ← find_account e.escrow_account_id; require found runtime_error

-- `_escrow_balance`
unfoldable pub escrow_balance : Option MilestoneEscrow → Action ℤ
escrow_balance none = pure (pos 0)
escrow_balance (some e) = do account ← escrow_account_of e; account_balance_minor account

abbrev pub bps_of : Option MilestoneEscrow → Option ℕ
bps_of none = none
bps_of (some e) = some e.commission_bps

-- `_financial_state`
unfoldable pub financial_state : Milestone → Action Body
financial_state m = do
  escrow ← find_escrow m.id
  balance ← escrow_balance escrow
  pure (financial_body m.id m.status m.amount_minor m.currency balance (bps_of escrow))

-- `get_milestone_financial_state`
unfoldable pub get_milestone_financial_state : Uuid → Uuid → Action Body
get_milestone_financial_state user id = do
  m ← get_milestone id
  c ← contract_of m
  raise_if (not (user == c.employer_user_id || user == c.freelancer_user_id)) (api forbidden 403)
  financial_state m

-- `_contract_commission_bps`
unfoldable pub contract_commission_bps : Commission → Action ℕ
contract_commission_bps no_commission = pure 0
contract_commission_bps not_an_object = raise runtime_error
contract_commission_bps bps_not_an_int = raise runtime_error
contract_commission_bps (platform_bps value) = do
  raise_if (ltb_ℤ value (pos 0) || ltb_ℤ (pos 10000) value) runtime_error
  pure (pos_part value)

abbrev pub milestone_audit_state : Milestone → AuditState
milestone_audit_state m = milestone_state m.status m.amount_minor m.currency

-- `get_provider`
unfoldable pub get_provider : Environment → Text → Action PaymentProvider
get_provider env name = do
  raise_if (not env.payment_runtime_enabled) (api payment_runtime_disabled 503)
  let normalized = env.lower (env.strip name)
  if normalized == env.sandbox_name
      then pure env.sandbox
      else if normalized == env.stripe_name
      then pure env.stripe
      else raise (api unsupported_payment_provider 422)
