-- ===== src/Payments/Framing/Shared.antt =====
-- The queries and the idempotency records keep what the ledger and commits keep.
use freelancing_platform.Prelude.{ℕ, Option, none, some}
use freelancing_platform.Database.Rows.Texts.{Text, Uuid}
use freelancing_platform.Database.Rows.Contract.{Contract, Commission, no_commission, Milestone}
use freelancing_platform.Database.Rows.Payment.{
  FinancialIdempotencyKey, MilestoneEscrow, ScopedOperation, Body,
}
use freelancing_platform.Database.Environment.{Environment, RequestPayload}
use freelancing_platform.Database.Session.{Action}
use freelancing_platform.Database.Session.Keeps.{Keeps, Keeps-pure}
use freelancing_platform.Payments.Effects.Framed.{effect_rules}
use freelancing_platform.Payments.Queries.{
  Answer, get_milestone, version_of, locked_contract, contract_of, require_active_contract,
  require_employer, find_escrow, require_escrow, find_account, escrow_account_of, escrow_balance,
  financial_state, contract_commission_bps, get_provider,
}
use freelancing_platform.Payments.Idempotency.{
  ClaimScope, reuse_key, insert_key, create_key, reuse_or_create, claim_idempotency,
  complete_idempotency, answer_or,
}
use freelancing_platform.Database.Session.{Session}
use freelancing_platform.Ledger.Frame.{Quiet, ledger_rules}

module _ {Q : Session → Type 0} (quiet : Quiet Q) where
  ruleset base_rules = (ledger_rules, effect_rules)

  pub get_milestone-Keeps : (id : Uuid) → Keeps Q (get_milestone id)
  unfolding get_milestone
  get_milestone-Keeps id = search base_rules

  pub version_of-Keeps : (m : Milestone) → Keeps Q (version_of m)
  unfolding version_of
  version_of-Keeps m = search base_rules

  pub locked_contract-Keeps : (id : Uuid) → Keeps Q (locked_contract id)
  unfolding locked_contract
  locked_contract-Keeps id = search base_rules

  pub contract_of-Keeps : (m : Milestone) → Keeps Q (contract_of m)
  unfolding contract_of
  contract_of-Keeps m = search (base_rules, version_of-Keeps)

  pub require_active_contract-Keeps : (c : Contract) → Keeps Q (require_active_contract c)
  unfolding require_active_contract
  require_active_contract-Keeps c = search base_rules

  pub require_employer-Keeps : (u : Uuid) (c : Contract) → Keeps Q (require_employer u c)
  unfolding require_employer
  require_employer-Keeps u c = search base_rules

  pub find_escrow-Keeps : (id : Uuid) → Keeps Q (find_escrow id)
  unfolding find_escrow
  find_escrow-Keeps id = search base_rules

  pub require_escrow-Keeps : (id : Uuid) → Keeps Q (require_escrow id)
  unfolding require_escrow
  require_escrow-Keeps id = search (base_rules, find_escrow-Keeps)

  pub find_account-Keeps : (id : Uuid) → Keeps Q (find_account id)
  unfolding find_account
  find_account-Keeps id = search base_rules

  pub escrow_account_of-Keeps : (e : MilestoneEscrow) → Keeps Q (escrow_account_of e)
  unfolding escrow_account_of
  escrow_account_of-Keeps e = search (base_rules, find_account-Keeps)

  pub escrow_balance-Keeps : (e : Option MilestoneEscrow) → Keeps Q (escrow_balance e)
  unfolding escrow_balance
  escrow_balance-Keeps none = search base_rules
  escrow_balance-Keeps (some e) = search (base_rules, escrow_account_of-Keeps)

  pub financial_state-Keeps : (m : Milestone) → Keeps Q (financial_state m)
  unfolding financial_state
  financial_state-Keeps m = search (base_rules, find_escrow-Keeps, escrow_balance-Keeps)

  pub contract_commission_bps-Keeps : (c : Commission) → Keeps Q (contract_commission_bps c)
  unfolding contract_commission_bps
  contract_commission_bps-Keeps no_commission = search base_rules
  contract_commission_bps-Keeps _ = search base_rules

  pub get_provider-Keeps : (env : Environment) (name : Text) → Keeps Q (get_provider env name)
  unfolding get_provider
  get_provider-Keeps env name = search base_rules

  pub reuse_key-Keeps : (c : ClaimScope) (k : FinancialIdempotencyKey) → Keeps Q (reuse_key c k)
  unfolding reuse_key
  reuse_key-Keeps c k = search base_rules

  pub insert_key-Keeps :
      (c : ClaimScope) (k : Option FinancialIdempotencyKey) → Keeps Q (insert_key c k)
  unfolding insert_key
  insert_key-Keeps c none = search base_rules
  insert_key-Keeps c (some k) = search (base_rules, reuse_key-Keeps)

  pub create_key-Keeps : (c : ClaimScope) → Keeps Q (create_key c)
  unfolding create_key
  create_key-Keeps c = search (base_rules, insert_key-Keeps)

  pub reuse_or_create-Keeps :
      (c : ClaimScope) (k : Option FinancialIdempotencyKey) → Keeps Q (reuse_or_create c k)
  unfolding reuse_or_create
  reuse_or_create-Keeps c none = create_key-Keeps c
  reuse_or_create-Keeps c (some k) = reuse_key-Keeps c k

  pub claim_idempotency-Keeps :
      (env : Environment) (u : Uuid) (o : ScopedOperation) (k : Text) (p : RequestPayload)
      → Keeps Q (claim_idempotency env u o k p)
  unfolding claim_idempotency
  claim_idempotency-Keeps env u o k p = search (base_rules, reuse_or_create-Keeps)

  pub complete_idempotency-Keeps :
      (k : FinancialIdempotencyKey) (status : ℕ) (body : Body)
      → Keeps Q (complete_idempotency k status body)
  unfolding complete_idempotency
  complete_idempotency-Keeps k status body = search base_rules

  pub answer_or-Keeps :
      (a : Option Answer) (rest : Action Answer) → Keeps Q rest → Keeps Q (answer_or a rest)
  unfolding answer_or
  answer_or-Keeps none rest h = h
  answer_or-Keeps (some a) rest h = Keeps-pure a

pub ruleset shared_rules = (
  ledger_rules, effect_rules, get_milestone-Keeps, version_of-Keeps, locked_contract-Keeps,
  contract_of-Keeps, require_active_contract-Keeps, require_employer-Keeps, find_escrow-Keeps,
  require_escrow-Keeps, find_account-Keeps, escrow_account_of-Keeps, escrow_balance-Keeps,
  financial_state-Keeps, contract_commission_bps-Keeps, get_provider-Keeps, claim_idempotency-Keeps,
  complete_idempotency-Keeps, answer_or-Keeps,
)
