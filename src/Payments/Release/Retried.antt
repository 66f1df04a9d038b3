-- ===== src/Payments/Release/Retried.antt =====
-- A release that is asked for again: the second call of `release_milestone` is answered from the
-- idempotency record that the first one has completed.
use freelancing_platform.Prelude.{true, ◌≡◌, some}
use freelancing_platform.Database.Rows.Texts.{Text, Uuid}
use freelancing_platform.Database.Rows.Contract.{Contract, Milestone, active, same_contract_status}
use freelancing_platform.Database.Rows.Payment.{FinancialIdempotencyKey, release_operation}
use freelancing_platform.Database.Tables.{Db}
use freelancing_platform.Database.Environment.{Environment, release_payload}
use freelancing_platform.Database.Session.{Session, Action}
use freelancing_platform.Payments.Queries.{Answer, is_employer}
use freelancing_platform.Payments.Queries.Found.{milestone_in, IsContractOf}
use freelancing_platform.Payments.Idempotency.{Claim, ClaimScope, scope_of}
use freelancing_platform.Payments.Idempotency.Claimed.{IsClaimed}
use freelancing_platform.Payments.Release.{release_claimed}

-- The record of a scope holds the answer of a request.
pub record IsAnswered (c : ClaimScope) (answer : Answer) (db : Db) : Type 0 where
  pub key : FinancialIdempotencyKey
  pub claimed : IsClaimed c key db
  pub has_body : key.response_body ≡ some answer.0
  pub has_status : key.response_status ≡ some answer.1

module _ (env : Environment) (m : Milestone) (c : Contract) (user : Uuid) (scope : ClaimScope)
    (claim : Claim) (s : Session) (answer : Answer) where
  abbrev rest : Action Answer
  rest = release_claimed env claim.key m c user

abbrev scope_at : Environment → Uuid → Text → Uuid → ClaimScope
scope_at env user raw milestone =
    scope_of env user release_operation raw (release_payload milestone)

-- The user is the employer of the milestone's active contract.
pub record MayPay (user id : Uuid) (m : Milestone) (c : Contract) (s : Session) : Type 0 where
  pub milestone : milestone_in id s.live ≡ some m
  pub contract : IsContractOf m c s.live
  pub is_active : same_contract_status c.status active ≡ true
  pub employer : is_employer user c ≡ true
