-- ===== src/Payouts.antt =====
-- app/payouts/service.py and `resolve_payout_destination` of app/payouts/provider_accounts.py: a
-- freelancer's wallet is paid out.
pub mod Reserved
pub mod Settle
pub mod Framing
pub mod Restored
pub mod Destinations
use freelancing_platform.Prelude.{
  Bool, true, false, not, Option, none, some, [], ◌∷◌, ◌&&◌, ◌==◌, find?, is_some, if◌then◌else◌,
}
use freelancing_platform.Prelude.Int.{ℤ, pos, leb_ℤ}
use freelancing_platform.Database.Rows.Texts.{Text, Uuid}
use freelancing_platform.Database.Rows.Ledger.{
  LedgerAccount, freelancer_wallet, same_account_type, wallet_key, payout, ref_payout, debit,
  credit, JournalTransaction,
}
use freelancing_platform.Database.Rows.Payment.{FinancialIdempotencyKey, payout_operation}
use freelancing_platform.Database.Rows.Payout.{Payout, payout_pending, PayoutProviderAccount}
use freelancing_platform.Database.Rows.Event.{
  AuditState, exists_state, payout_state, payout_reserved_action,
}
use freelancing_platform.Database.Tables.{Db}
use freelancing_platform.Database.Environment.{
  Environment, api, insufficient_funds, payout_destination_not_configured,
}
use freelancing_platform.Database.Session.{
  Action, pure, gets, require, ◌>>=◌, ◌>>◌, raise_if, fresh_id, commit,
}
use freelancing_platform.Ledger.{
  has_key, get_or_create_account, JournalRequest, post_journal, require_sufficient_balance,
}
use freelancing_platform.Ledger.Transfer.{transfer}
use freelancing_platform.Payments.Effects.{add_payout, record_audit_event}
use freelancing_platform.Payments.Capture.{clearing_identity}

-- `_payout_state`
abbrev pub state_of_payout : Payout → AuditState
state_of_payout p =
    payout_state p.status p.amount_minor p.currency p.provider (is_some p.provider_reference)
      (is_some p.provider_destination_reference) (is_some p.reversal_journal_transaction_id)

abbrev pub is_destination_of : Uuid → Text → PayoutProviderAccount → Bool
is_destination_of user name a = a.freelancer_user_id == user && (a.provider == name && a.is_active)

-- The account's reference, where the provider is not the sandbox.
unfoldable pub configured_destination : Uuid → Text → Action Text
configured_destination user name = do
  found ← gets (λ db. find? (is_destination_of user name) db.payout_provider_accounts)
  account ← require found (api payout_destination_not_configured 409)
  pure account.external_account_reference

unfoldable pub resolve_payout_destination : Environment → Uuid → Text → Action Text
resolve_payout_destination env user provider_name = do
  let name = env.lower (env.strip provider_name)
  if name == env.sandbox_name then pure (env.uuid_text user) else configured_destination user name

abbrev pub is_wallet : Uuid → Text → LedgerAccount → Bool
is_wallet user currency a =
    has_key (wallet_key user currency) a && same_account_type a.account_type freelancer_wallet

abbrev pub wallet_in : Uuid → Text → Db → Option LedgerAccount
wallet_in user currency db = find? (is_wallet user currency) db.ledger_accounts

abbrev pub payout_request : Uuid → LedgerAccount → LedgerAccount → ℤ → JournalRequest
payout_request payout_id wallet clearing amount = record {
  operation = payout;
  reference_type = ref_payout;
  reference_id = payout_id;
  reversal_of_id = none;
  postings =
      record { account = wallet; direction = debit; amount_minor = amount }
      ∷ record { account = clearing; direction = credit; amount_minor = amount }
      ∷ [];
}

-- What a call asks for, once its texts are normalized.
pub record PayoutOrder : Type 0 where
  pub user : Uuid
  pub amount : ℤ
  pub currency : Text
  pub provider_name : Text

abbrev pub new_payout :
    Uuid → PayoutOrder → Text → FinancialIdempotencyKey → JournalTransaction → Payout
new_payout id order destination idem journal = record {
  id = id;
  freelancer_user_id = order.user;
  idempotency_key_id = idem.id;
  journal_transaction_id = journal.id;
  reversal_journal_transaction_id = none;
  provider = order.provider_name;
  provider_destination_reference = some destination;
  provider_reference = none;
  amount_minor = order.amount;
  currency = order.currency;
  status = payout_pending;
  completed_at = none;
}

module _ (env : Environment) (idem : FinancialIdempotencyKey) (order : PayoutOrder) where
  -- The reservation from the posted journal on.
  unfoldable pub finish_payout_reservation : Text → Uuid → JournalTransaction → Action Payout
  finish_payout_reservation destination payout_id journal = do
    let p = new_payout payout_id order destination idem journal
    add_payout p
    record_audit_event env payout_reserved_action payout_id (some order.user)
        (some (exists_state false)) (some (state_of_payout p))
    commit
    pure p

  -- The reservation from the wallet on.
  unfoldable pub book_payout : Text → LedgerAccount → Action Payout
  book_payout destination wallet = do
    require_sufficient_balance wallet order.amount
    clearing ← get_or_create_account (clearing_identity order.provider_name order.currency)
    payout_id ← fresh_id
    journal ← post_journal (payout_request payout_id wallet clearing order.amount)
    finish_payout_reservation destination payout_id journal

  unfoldable pub reserve_payout : Action Payout
  reserve_payout = do
    destination ← resolve_payout_destination env order.user order.provider_name
    found ← gets (wallet_in order.user order.currency)
    wallet ← require found (api insufficient_funds 409)
    book_payout destination wallet
