-- ===== src/Database/Rows/Payment.antt =====
-- app/payments/models.py.
use freelancing_platform.Prelude.{ℕ, Bool, Option, List, ◌==◌}
use freelancing_platform.Prelude.Int.{ℤ}
use freelancing_platform.Database.Rows.Texts.{Text, Uuid}
use freelancing_platform.Database.Rows.Payout.{Payout}
use freelancing_platform.Database.Rows.Contract.{MilestoneStatus}
use freelancing_platform.Database.Rows.Dispute.{DisputeView}

pub data IntentStatus : Type 0 where
  intent_pending captured intent_failed intent_cancelled : IntentStatus

abbrev intent_rank : IntentStatus → ℕ
intent_rank intent_pending = 0
intent_rank captured = 1
intent_rank intent_failed = 2
intent_rank intent_cancelled = 3

abbrev pub same_intent_status : IntentStatus → IntentStatus → Bool
same_intent_status a b = intent_rank a == intent_rank b

pub record PaymentIntent : Type 0 where
  pub id : Uuid
  pub milestone_id : Uuid
  pub employer_user_id : Uuid
  pub provider : Text
  pub provider_reference : Option Text
  pub idempotency_key_id : Uuid
  pub amount_minor : ℤ
  pub currency : Text
  pub status : IntentStatus
  pub captured_at : Option ℕ

pub record MilestoneEscrow : Type 0 where
  pub id : Uuid
  pub milestone_id : Uuid
  pub escrow_account_id : Uuid
  pub commission_bps : ℕ

pub record MilestoneFunding : Type 0 where
  pub id : Uuid
  pub escrow_id : Uuid
  pub payment_intent_id : Uuid
  pub journal_transaction_id : Uuid
  pub amount_minor : ℤ

pub data RefundStatus : Type 0 where
  refund_pending refund_succeeded refund_failed : RefundStatus

abbrev refund_rank : RefundStatus → ℕ
refund_rank refund_pending = 0
refund_rank refund_succeeded = 1
refund_rank refund_failed = 2

abbrev pub same_refund_status : RefundStatus → RefundStatus → Bool
same_refund_status a b = refund_rank a == refund_rank b

pub record Refund : Type 0 where
  pub id : Uuid
  pub milestone_id : Uuid
  pub employer_user_id : Uuid
  pub journal_transaction_id : Uuid
  pub idempotency_key_id : Uuid
  pub provider : Text
  pub provider_reference : Option Text
  pub amount_minor : ℤ
  pub currency : Text
  pub status : RefundStatus

-- The dicts that the services answer with; an answer is stored with its idempotency key.
pub data Body : Type 0 where
  payment_body : PaymentIntent → Body
  refund_body : Refund → Body
  refund_failed_body : Uuid → Body
  financial_body : Uuid → MilestoneStatus → ℤ → Text → ℤ → Option ℕ → Body
  processed_body duplicate_body : Text → Body
  payout_body : Payout → Body
  payout_failed_body payout_pending_body : Uuid → Body
  dispute_body : DisputeView → Body

-- The operations that claim an idempotency key.
pub data ScopedOperation : Type 0 where
  fund_operation release_operation refund_operation payout_operation dispute_operation :
      ScopedOperation

abbrev scope_rank : ScopedOperation → ℕ
scope_rank fund_operation = 0
scope_rank release_operation = 1
scope_rank refund_operation = 2
scope_rank payout_operation = 3
scope_rank dispute_operation = 4

abbrev pub same_scope : ScopedOperation → ScopedOperation → Bool
same_scope a b = scope_rank a == scope_rank b

pub record FinancialIdempotencyKey : Type 0 where
  pub id : Uuid
  pub user_id : Uuid
  pub operation : ScopedOperation
  pub key_hash : Text
  pub request_hash : Text
  pub response_status : Option ℕ
  pub response_body : Option Body

pub data EventType : Type 0 where
  payment_captured payment_failed : EventType
  other_event : Text → EventType

pub record ProviderEvent : Type 0 where
  pub id : Uuid
  pub provider : Text
  pub external_event_id : Text
  pub event_type : EventType
  pub payload_hash : Text
  pub processed_at : Option ℕ

pub data DiscrepancyReason : Type 0 where
  missing_reference provider_or_ledger_mismatch : DiscrepancyReason

pub record Discrepancy : Type 0 where
  pub payment_intent_id : Uuid
  pub provider_reference : Option Text
  pub reason : DiscrepancyReason

pub data RunStatus : Type 0 where
  running run_succeeded mismatch : RunStatus

pub record ReconciliationRun : Type 0 where
  pub id : Uuid
  pub provider : Text
  pub status : RunStatus
  pub checked_count : ℕ
  pub discrepancy_count : ℕ
  pub details : List Discrepancy
  pub completed_at : Option ℕ
