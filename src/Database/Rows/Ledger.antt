-- ===== src/Database/Rows/Ledger.antt =====
-- app/ledger/models.py. A journal owns its entries; the ids of entries, metadata and creation times,
-- which nothing reads, are left out.
use freelancing_platform.Prelude.{ℕ, Bool, false, Option, List, ◌==◌, ◌&&◌}
use freelancing_platform.Prelude.Int.{ℤ}
use freelancing_platform.Database.Rows.Texts.{Text, Uuid}

pub data AccountType : Type 0 where
  provider_clearing milestone_escrow freelancer_wallet platform_commission : AccountType

abbrev account_type_rank : AccountType → ℕ
account_type_rank provider_clearing = 0
account_type_rank milestone_escrow = 1
account_type_rank freelancer_wallet = 2
account_type_rank platform_commission = 3

abbrev pub same_account_type : AccountType → AccountType → Bool
same_account_type a b = account_type_rank a == account_type_rank b

-- The formatted account keys: `provider:{name}:clearing:{currency}`,
-- `milestone:{id}:escrow:{currency}`, `user:{id}:wallet:{currency}`, `platform:commission:{currency}`.
pub data AccountKey : Type 0 where
  clearing_key : Text → Text → AccountKey
  escrow_key : Uuid → Text → AccountKey
  wallet_key : Uuid → Text → AccountKey
  commission_key : Text → AccountKey

abbrev pub same_key : AccountKey → AccountKey → Bool
same_key (clearing_key p c) (clearing_key q d) = p == q && c == d
same_key (escrow_key p c) (escrow_key q d) = p == q && c == d
same_key (wallet_key p c) (wallet_key q d) = p == q && c == d
same_key (commission_key c) (commission_key d) = c == d
same_key _ _ = false

pub record LedgerAccount : Type 0 where
  pub id : Uuid
  pub account_key : AccountKey
  pub account_type : AccountType
  pub owner_user_id : Option Uuid
  pub milestone_id : Option Uuid
  pub currency : Text

-- `other_direction` is any text but "DEBIT" and "CREDIT".
pub data Direction : Type 0 where
  debit credit other_direction : Direction

pub data Operation : Type 0 where
  milestone_fund milestone_release milestone_refund dispute_resolution payout reversal : Operation

abbrev operation_rank : Operation → ℕ
operation_rank milestone_fund = 0
operation_rank milestone_release = 1
operation_rank milestone_refund = 2
operation_rank dispute_resolution = 3
operation_rank payout = 4
operation_rank reversal = 5

abbrev pub same_operation : Operation → Operation → Bool
same_operation a b = operation_rank a == operation_rank b

pub data ReferenceType : Type 0 where
  ref_payment_intent ref_milestone ref_refund ref_dispute ref_payout : ReferenceType

abbrev reference_rank : ReferenceType → ℕ
reference_rank ref_payment_intent = 0
reference_rank ref_milestone = 1
reference_rank ref_refund = 2
reference_rank ref_dispute = 3
reference_rank ref_payout = 4

abbrev pub same_reference_type : ReferenceType → ReferenceType → Bool
same_reference_type a b = reference_rank a == reference_rank b

pub record LedgerEntry : Type 0 where
  pub ledger_account_id : Uuid
  pub direction : Direction
  pub amount_minor : ℤ
  pub currency : Text

pub record JournalTransaction : Type 0 where
  pub id : Uuid
  pub operation : Operation
  pub reference_type : ReferenceType
  pub reference_id : Uuid
  pub reversal_of_id : Option Uuid
  pub entries : List LedgerEntry
