-- ===== src/Database/Rows/Payout.antt =====
-- app/payouts/models.py.
use freelancing_platform.Prelude.{ℕ, Bool, Option, ◌==◌}
use freelancing_platform.Prelude.Int.{ℤ}
use freelancing_platform.Database.Rows.Texts.{Text, Uuid}

pub data PayoutStatus : Type 0 where
  payout_pending payout_succeeded payout_failed : PayoutStatus

abbrev payout_rank : PayoutStatus → ℕ
payout_rank payout_pending = 0
payout_rank payout_succeeded = 1
payout_rank payout_failed = 2

abbrev pub same_payout_status : PayoutStatus → PayoutStatus → Bool
same_payout_status a b = payout_rank a == payout_rank b

pub record Payout : Type 0 where
  pub id : Uuid
  pub freelancer_user_id : Uuid
  pub idempotency_key_id : Uuid
  pub journal_transaction_id : Uuid
  pub reversal_journal_transaction_id : Option Uuid
  pub provider : Text
  pub provider_destination_reference : Option Text
  pub provider_reference : Option Text
  pub amount_minor : ℤ
  pub currency : Text
  pub status : PayoutStatus
  pub completed_at : Option ℕ

-- `is_active` is the status ACTIVE, else it is DISABLED.
pub record PayoutProviderAccount : Type 0 where
  pub id : Uuid
  pub freelancer_user_id : Uuid
  pub provider : Text
  pub external_account_reference : Text
  pub is_active : Bool
